-- ===== src/Chat/Workers/Names.antt =====
-- The names of the clients while one worker and `main` move in any order.
use csci_4220_network_progra.Base.{
  ℕ, ◌≡◌, refl, Bool, true, false, ◌||◌, not, List, [], ◌∷◌, ◌==◌, length, arith, All, Bool-cases,
  Option-cases, inl, inr, take_all, length-take,
}
use csci_4220_network_progra.Chat.Queue.{Job}
use csci_4220_network_progra.Chat.Room.{Client, is_username_taken}
use csci_4220_network_progra.Chat.Process.{cut, is_valid, find_client}
use csci_4220_network_progra.Chat.Process.Names.{NamesDiffer, set_username-NamesDiffer}
use csci_4220_network_progra.Chat.Serve.{find_addr}
use csci_4220_network_progra.Chat.Server.{
  Server, Bcast, admit, serve_client, handle_signal, shut_down,
}
use csci_4220_network_progra.Chat.Workers.{
  Pc, idle, popping, popped, found, naming, free, ended, faulted, Moved, pop_job, read_sender,
  write_name, work, Main, looping, left, overrun, System, worker_step, Act, arrives, receives,
  drains, signalled, breaks, leaves, receive, drain, main_step, Turn, worker, main, step, run,
  begun,
}
use csci_4220_network_progra.Chat.Workers.Keeps.{
  Keeps, handle_new_connection-Keeps, serve_client-Keeps,
}

-- A name that a worker holds before it writes it.
pub record IsName (u : List ℕ) : Type 0 where
  pub some_bytes : (length u == 0) ≡ false
  pub short : cut 32 u ≡ u

-- What is known of the name that a worker holds.
abbrev Held : List Client → Pc → Type 0
Held cs (naming sender u) = IsName u
Held cs (free sender u) = IsName u × (is_username_taken cs u ≡ false)
Held cs _ = Unit

abbrev Sound : List Client → Pc → Type 0
Sound cs p = NamesDiffer cs × Held cs p

Keeps-Sound : {cs ds : List Client} (p : Pc) → Keeps cs ds → Sound cs p → Sound ds p
Keeps-Sound idle k (h, _) = (k.differ h, tt)
Keeps-Sound popping k (h, _) = (k.differ h, tt)
Keeps-Sound (popped job) k (h, _) = (k.differ h, tt)
Keeps-Sound (found sender job) k (h, _) = (k.differ h, tt)
Keeps-Sound (naming sender u) k (h, n) = (k.differ h, n)
Keeps-Sound (free sender u) k (h, (n, unused)) = (k.differ h, (n, k.unused u n.some_bytes unused))
Keeps-Sound ended k (h, _) = (k.differ h, tt)
Keeps-Sound faulted k (h, _) = (k.differ h, tt)

cut-IsName : (msg : List ℕ) → (length (cut 32 msg) == 0) ≡ false → IsName (cut 32 msg)
cut-IsName msg n = record {
  some_bytes = n;
  short = take_all 31 (cut 32 msg) (omega (arith, length-take 31 msg));
}

or-false : (a b : Bool) → (a || b) ≡ false → b ≡ false
or-false true b h = cc
or-false false b h = h

-- The worker is sound after its step.
abbrev SoundAfter : Moved → Type 0
SoundAfter m = Sound m.server.room.clients m.pc

pop_job-Sound :
    (s : Server) (jobs : List Job) → NamesDiffer s.room.clients → SoundAfter (pop_job s jobs)
unfolding pop_job
pop_job-Sound s (job ∷ jobs) h = (h, tt)
pop_job-Sound s [] h = elim (Bool-cases s.queues_closed) [
  | inl shut ↦ rw shut (h, tt)
  | inr open_still ↦ rw open_still (h, tt)
]

read_sender-Sound :
    (s : Server) (c : Client) (job : Job)
    → NamesDiffer s.room.clients
    → SoundAfter (read_sender s c job)
unfolding read_sender
read_sender-Sound s c job h = elim (Bool-cases (length c.username == 0)) [
  | inl new ↦ elim (Bool-cases (not (is_valid (cut 32 job.msg)) || length (cut 32 job.msg) == 0)) [
    | inl bad ↦ rw (new, bad) (h, tt)
    | inr good ↦ rw (new, good) (h, cut-IsName job.msg (or-false _ _ good))
  ]
  | inr named ↦ rw named (h, tt)
]

work-Sound : (s : Server) (p : Pc) → Sound s.room.clients p → SoundAfter (work s p)
unfolding work write_name
work-Sound s idle (h, _) = elim (Bool-cases s.shutdown_flag) [
  | inl down ↦ rw down (h, tt)
  | inr up ↦ rw up (h, tt)
]
work-Sound s popping (h, _) = pop_job-Sound s s.job_queue h
work-Sound s (popped job) (h, _) = elim (Option-cases (find_client s.room.clients job.sender_fd)) [
  | inl gone ↦ rw (work, gone) (h, tt)
  | inr (c, e) ↦ rw (work, e) (h, tt)
]
work-Sound s (found sender job) (h, _) = elim (Option-cases (find_addr s.room.clients sender)) [
  | inl gone ↦ rw (work, gone) (h, tt)
  | inr (c, e) ↦ rw (work, e) (read_sender-Sound s c job h)
]
work-Sound s (naming sender u) (h, n) = elim (Bool-cases (is_username_taken s.room.clients u)) [
  | inl taken ↦ elim (Option-cases (find_addr s.room.clients sender)) [
    | inl gone ↦ rw (work, taken, gone) (h, tt)
    | inr (c, e) ↦ rw (work, taken, e) (h, tt)
  ]
  | inr unused ↦ rw (work, unused) (h, (n, unused))
]
work-Sound s (free sender u) (h, (n, unused)) =
    elim (Option-cases (find_addr s.room.clients sender)) [
      | inl gone ↦ rw (work, gone) (h, tt)
      | inr (c, e) ↦
          rw (work, e) (set_username-NamesDiffer s.room.clients c.addr u (rw n.short unused) h, tt)
    ]
work-Sound s ended (h, _) = (h, tt)
work-Sound s faulted (h, _) = (h, tt)

abbrev SystemSound : System → Type 0
SystemSound s = Sound s.server.room.clients (s.pc 0)

receive-Sound :
    (s : System) (c : Client) (received : List ℕ)
    → SystemSound s
    → SystemSound (receive s c received)
unfolding receive
receive-Sound s c received h = elim (Option-cases (serve_client s.server c received)) [
  | inl over ↦ rw (receive, over) h
  | inr (o, e) ↦ rw (receive, e) (Keeps-Sound (s.pc 0) (serve_client-Keeps s.server c received e) h)
]

drain-Sound : (s : System) (bs : List Bcast) → SystemSound s → SystemSound (drain s bs)
unfolding drain
drain-Sound s [] h = h
drain-Sound s (b ∷ bs) h = h

none-Keeps : (cs : List Client) → Keeps cs []
unfolding is_username_taken
none-Keeps cs = record { differ = λ h. tt; unused = λ u n h. refl }

main_step-Sound : (s : System) (a : Act) → SystemSound s → SystemSound (main_step s a)
unfolding main_step admit handle_signal shut_down
main_step-Sound s (arrives a) h =
    Keeps-Sound (s.pc 0) (handle_new_connection-Keeps s.server.room a.accepted a.addr a.inbuf) h
main_step-Sound s (receives addr received) h =
    elim (Option-cases (find_addr s.server.room.clients addr)) [
      | inl gone ↦ rw (main_step, gone) h
      | inr (c, e) ↦ rw (main_step, e) (receive-Sound s c received h)
    ]
main_step-Sound s drains h = drain-Sound s s.server.bcast_queue h
main_step-Sound s signalled h = h
main_step-Sound s breaks h = Keeps-Sound (s.pc 0) (none-Keeps s.server.room.clients) h
main_step-Sound s leaves h = elim (Bool-cases s.server.shutdown_flag) [
  | inl down ↦ rw down (Keeps-Sound (s.pc 0) (none-Keeps s.server.room.clients) h)
  | inr up ↦ rw up h
]

-- Only one worker moves.
abbrev pub OneWorker : Turn → Type 0
OneWorker (worker i) = i ≡ 0
OneWorker (main a) = Unit

step-Sound : (s : System) (t : Turn) → OneWorker t → SystemSound s → SystemSound (step s t)
unfolding step worker_step
step-Sound s (worker i) one h = rw one (work-Sound s.server (s.pc 0) h)
step-Sound s (main a) one h = by_main s.main
  where
    by_main : (m : Main) → SystemSound (elim m [ looping ↦ main_step s a | left ↦ s | overrun ↦ s ])
    by_main looping = main_step-Sound s a h
    by_main left = h
    by_main overrun = h

run-Sound :
    (ts : List Turn) (s : System) → All OneWorker ts → SystemSound s → SystemSound (run ts s)
unfolding run
run-Sound [] s one h = h
run-Sound (t ∷ ts) s one h = run-Sound ts (step s t) one.1 (step-Sound s t one.0 h)

-- A server with one worker: however the worker's steps are interleaved with those of `main`, and
-- whatever comes in, two clients never have names that are the same but for the case of letters.
pub run-NamesDiffer :
    (s : Server) (ts : List Turn)
    → NamesDiffer s.room.clients
    → All OneWorker ts
    → NamesDiffer (run ts (begun s)).server.room.clients
run-NamesDiffer s ts h one = (run-Sound ts (begun s) one (h, tt)).0
