-- ===== src/Chat/Workers/Safe.antt =====
-- While `main` frees no client, no worker touches freed memory.
use csci_4220_network_progra.Base.{
  ℕ, ◌≡◌, ◌≢◌, refl, sym, ◌||◌, not, none, some, List, [], ◌∷◌, ◌==◌, length, Bool-cases,
  Option-cases, inl, inr, subst,
}
use mathlib.Core.Option.{some-injective}
use csci_4220_network_progra.Chat.Queue.{Job}
use csci_4220_network_progra.Chat.Room.{Client, is_username_taken}
use csci_4220_network_progra.Chat.Process.{cut, is_valid, find_client}
use csci_4220_network_progra.Chat.Serve.{find_addr}
use csci_4220_network_progra.Chat.Lines.{removed, handle_client_message}
use csci_4220_network_progra.Chat.Server.{Server, Out, Bcast, admit, serve_client, handle_signal}
use csci_4220_network_progra.Chat.Workers.{
  Pc, idle, popping, popped, found, naming, free, ended, faulted, Moved, pop_job, read_sender,
  write_name, work, Main, looping, left, overrun, System, worker_step, Act, arrives, receives,
  drains, signalled, breaks, leaves, receive, drain, main_step, Turn, worker, main, step, run,
  begun,
}
use csci_4220_network_progra.Chat.Workers.Fifo.{Received-cases}
use csci_4220_network_progra.Chat.Workers.Alone.{find_addr-addr}
use csci_4220_network_progra.Chat.Workers.Pointers.{
  Leads, Extends, Safe, set_username-Extends, set_inbuf-Extends, handle_new_connection-Extends,
  find_client-Leads, Extends-Safe,
}

-- What a step of a worker does.
record SafeStep (cs : List Client) (m : Moved) : Type 0 where
  clients : Extends cs m.server.room.clients
  pc : Safe m.server.room.clients m.pc

unchanged :
    {cs : List Client} {m : Moved} → m.server.room.clients ≡ cs → Safe cs m.pc → SafeStep cs m
unchanged {cs} {m} e h = record {
  clients = λ a l. subst (λ (ds : List Client). Leads ds a) (sym e) l;
  pc = subst (λ (ds : List Client). Safe ds m.pc) (sym e) h;
}

pop_job-Safe : (s : Server) (jobs : List Job) → SafeStep s.room.clients (pop_job s jobs)
unfolding pop_job
pop_job-Safe s (job ∷ jobs) = unchanged refl tt
pop_job-Safe s [] = elim (Bool-cases s.queues_closed) [
  | inl shut ↦ rw shut (unchanged refl tt)
  | inr open_still ↦ rw open_still (unchanged refl tt)
]

read_sender-Safe :
    (s : Server) (c : Client) (job : Job)
    → Leads s.room.clients c.addr
    → SafeStep s.room.clients (read_sender s c job)
unfolding read_sender
read_sender-Safe s c job l = elim (Bool-cases (length c.username == 0)) [
  | inl new ↦ elim (Bool-cases (not (is_valid (cut 32 job.msg)) || length (cut 32 job.msg) == 0)) [
    | inl bad ↦ rw (new, bad) (unchanged refl tt)
    | inr good ↦ rw (new, good) (unchanged refl l)
  ]
  | inr named ↦ rw named (unchanged refl tt)
]

find_addr-addr-Leads :
    (cs : List Client) (a : ℕ) {c : Client} → find_addr cs a ≡ some c → Leads cs c.addr
find_addr-addr-Leads cs a {c} e = subst (Leads cs) (sym (find_addr-addr cs a e)) (c, e)

work-Safe : (s : Server) (p : Pc) → Safe s.room.clients p → SafeStep s.room.clients (work s p)
unfolding work write_name
work-Safe s idle h = elim (Bool-cases s.shutdown_flag) [
  | inl down ↦ rw (work, down) (unchanged refl tt)
  | inr up ↦ rw (work, up) (unchanged refl tt)
]
work-Safe s popping h = pop_job-Safe s s.job_queue
work-Safe s (popped job) h = elim (Option-cases (find_client s.room.clients job.sender_fd)) [
  | inl gone ↦ rw (work, gone) (unchanged refl tt)
  | inr (c, e) ↦ rw (work, e) (unchanged refl (find_client-Leads s.room.clients job.sender_fd e))
]
work-Safe s (found sender job) (c, e) =
    rw (work, e) (read_sender-Safe s c job (find_addr-addr-Leads s.room.clients sender e))
work-Safe s (naming sender username) (c, e) =
    elim (Bool-cases (is_username_taken s.room.clients username)) [
      | inl taken ↦ rw (work, taken, e) (unchanged refl tt)
      | inr unused ↦ rw (work, unused) (unchanged refl (c, e))
    ]
work-Safe s (free sender username) (c, e) =
    rw (work, e) (record { clients = set_username-Extends s.room.clients c.addr username; pc = tt })
work-Safe s ended h = unchanged refl tt
work-Safe s faulted h = absurd h

-- `main` frees no client in this step: the client that it serves has not hung up and has not filled
-- its buffer, and the loop is not left.
abbrev pub FreesNone : System → Turn → Type 0
FreesNone s (main (receives addr received)) =
    (c : Client)
    → find_addr s.server.room.clients addr ≡ some c
    → handle_client_message c received ≢ removed
FreesNone s (main breaks) = ⊥
FreesNone s (main leaves) = ⊥
FreesNone s _ = Unit

abbrev pub FreesNever : System → List Turn → Type 0
FreesNever s [] = Unit
FreesNever s (t ∷ ts) = FreesNone s t × FreesNever (step s t) ts

-- The steps of `main` keep where the workers stand.
record MainStep (s t : System) : Type 0 where
  clients : Extends s.server.room.clients t.server.room.clients
  pc : (i : ℕ) → t.pc i ≡ s.pc i

stays : (s : System) → MainStep s s
stays s = record { clients = λ a l. l; pc = λ i. refl }

serve_client-Extends :
    (s : Server) (c : Client) (received : List ℕ) {o : Out}
    → handle_client_message c received ≢ removed
    → serve_client s c received ≡ some o
    → Extends s.room.clients o.server.room.clients
unfolding serve_client
serve_client-Extends s c received {o} stay e =
    elim (Received-cases (handle_client_message c received)) [
      | inl gone ↦ absurd (stay gone)
      | inr (inl over) ↦ let at : none ≡ some o = (rw (serve_client, over) at e) in cc
      | inr (inr (d, js, ok)) ↦
          subst (λ (p : Out). Extends s.room.clients p.server.room.clients)
            (some-injective _ o (rw (serve_client, ok) at e)) (set_inbuf-Extends s.room.clients d)
    ]

receive-MainStep :
    (s : System) (c : Client) (received : List ℕ)
    → handle_client_message c received ≢ removed
    → MainStep s (receive s c received)
unfolding receive
receive-MainStep s c received stay = elim (Option-cases (serve_client s.server c received)) [
  | inl over ↦ rw (receive, over) (record { clients = λ a l. l; pc = λ i. refl })
  | inr (o, e) ↦
      rw (receive, e)
        (record { clients = serve_client-Extends s.server c received stay e; pc = λ i. refl })
]

drain-MainStep : (s : System) (bs : List Bcast) → MainStep s (drain s bs)
unfolding drain
drain-MainStep s [] = stays s
drain-MainStep s (b ∷ bs) = record { clients = λ a l. l; pc = λ i. refl }

main_step-MainStep : (s : System) (a : Act) → FreesNone s (main a) → MainStep s (main_step s a)
unfolding main_step admit handle_signal
main_step-MainStep s (arrives a) h = record {
  clients = handle_new_connection-Extends s.server.room a.accepted a.addr a.inbuf;
  pc = λ i. refl;
}
main_step-MainStep s (receives addr received) h =
    elim (Option-cases (find_addr s.server.room.clients addr)) [
      | inl gone ↦ rw (main_step, gone) (stays s)
      | inr (c, e) ↦ rw (main_step, e) (receive-MainStep s c received (h c e))
    ]
main_step-MainStep s drains h = drain-MainStep s s.server.bcast_queue
main_step-MainStep s signalled h = record { clients = λ a l. l; pc = λ i. refl }
main_step-MainStep s breaks h = absurd h
main_step-MainStep s leaves h = absurd h

-- Every worker is safe.
abbrev AllSafe : System → Type 0
AllSafe s = (i : ℕ) → Safe s.server.room.clients (s.pc i)

main-AllSafe : (s t : System) → MainStep s t → AllSafe s → AllSafe t
main-AllSafe s t m h i =
    subst (Safe t.server.room.clients) (sym (m.pc i))
      (Extends-Safe s.server.room.clients t.server.room.clients (s.pc i) m.clients (h i))

worker_step-AllSafe : (i : ℕ) (s : System) → AllSafe s → AllSafe (worker_step i s)
unfolding worker_step
worker_step-AllSafe i s h j =
    let w = work-Safe s.server (s.pc i) (h i) in
    let cs = (work s.server (s.pc i)).server.room.clients in
    elim (Bool-cases (i == j)) [
      | inl own ↦ rw own w.pc
      | inr other ↦ rw other (Extends-Safe s.server.room.clients cs (s.pc j) w.clients (h j))
    ]

step-AllSafe : (s : System) (t : Turn) → FreesNone s t → AllSafe s → AllSafe (step s t)
unfolding step
step-AllSafe s (worker i) q h = worker_step-AllSafe i s h
step-AllSafe s (main a) q h = by_main s.main
  where
    by_main : (m : Main) → AllSafe (elim m [ looping ↦ main_step s a | left ↦ s | overrun ↦ s ])
    by_main looping = main-AllSafe s (main_step s a) (main_step-MainStep s a q) h
    by_main left = h
    by_main overrun = h

run-AllSafe : (ts : List Turn) (s : System) → FreesNever s ts → AllSafe s → AllSafe (run ts s)
unfolding run
run-AllSafe [] s q h = h
run-AllSafe (t ∷ ts) s q h = run-AllSafe ts (step s t) q.1 (step-AllSafe s t q.0 h)

Safe-faulted : (cs : List Client) (p : Pc) → Safe cs p → p ≢ faulted
Safe-faulted cs p h e = subst (Safe cs) e h

-- Any number of workers, in any order with `main`: as long as `main` frees no client, no worker reads or
-- writes freed memory, whatever arrives and whoever sends.
pub run-unfaulted :
    (s : Server) (ts : List Turn) (i : ℕ)
    → FreesNever (begun s) ts
    → (run ts (begun s)).pc i ≢ faulted
run-unfaulted s ts i q = Safe-faulted _ _ (run-AllSafe ts (begun s) q (λ j. tt) i)
