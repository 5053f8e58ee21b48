-- ===== src/Chat/Workers/Fifo.antt =====
-- The jobs go through `job_queue` in order, whoever moves.
use csci_4220_network_progra.Base.{
  ℕ, ◌≡◌, refl, sym, ap, ◌∙◌, ◌||◌, not, none, some, List, [], ◌∷◌, ◌++◌, ◌==◌, length, Bool-cases,
  Option-cases, inl, inr, ◌⊎◌,
}
use mathlib.Core.Option.{some-injective}
use mathlib.Core.List.{append_assoc, append-nil}
use csci_4220_network_progra.Chat.Queue.{Job}
use csci_4220_network_progra.Chat.Room.{Client, is_username_taken}
use csci_4220_network_progra.Chat.Process.{cut, is_valid, find_client}
use csci_4220_network_progra.Chat.Serve.{find_addr}
use csci_4220_network_progra.Chat.Lines.{Received, removed, fault, kept, handle_client_message}
use csci_4220_network_progra.Chat.Server.{
  Server, Out, Bcast, admit, serve_client, handle_signal, shut_down,
}
use csci_4220_network_progra.Chat.Workers.{
  Pc, idle, popping, popped, found, naming, free, ended, faulted, Moved, pop_job, read_sender,
  write_name, work, Main, looping, left, overrun, System, worker_step, new_jobs, Act, arrives,
  receives, drains, signalled, breaks, leaves, receive, drain, main_step, Turn, worker, main, step,
  run, begun,
}

-- The jobs that were waiting are those that a worker takes and those that still wait.
abbrev pub Takes : Server → Moved → Type 0
Takes s m = s.job_queue ≡ m.took ++ m.server.job_queue

pop_job-Takes : (s : Server) (jobs : List Job) → s.job_queue ≡ jobs → Takes s (pop_job s jobs)
unfolding pop_job
pop_job-Takes s [] e = refl
pop_job-Takes s (job ∷ jobs) e = e

read_sender-Takes : (s : Server) (c : Client) (job : Job) → Takes s (read_sender s c job)
unfolding read_sender
read_sender-Takes s c job = elim (Bool-cases (length c.username == 0)) [
  | inl new ↦ elim (Bool-cases (not (is_valid (cut 32 job.msg)) || length (cut 32 job.msg) == 0)) [
    | inl bad ↦ rw (new, bad) refl
    | inr good ↦ rw (new, good) refl
  ]
  | inr named ↦ rw named refl
]

pub work-Takes : (s : Server) (p : Pc) → Takes s (work s p)
unfolding work write_name
work-Takes s idle = refl
work-Takes s popping = pop_job-Takes s s.job_queue refl
work-Takes s (popped job) = elim (Option-cases (find_client s.room.clients job.sender_fd)) [
  | inl gone ↦ rw (work, gone) refl
  | inr (c, e) ↦ rw (work, e) refl
]
work-Takes s (found sender job) = elim (Option-cases (find_addr s.room.clients sender)) [
  | inl gone ↦ rw (work, gone) refl
  | inr (c, e) ↦ rw (work, e) (read_sender-Takes s c job)
]
work-Takes s (naming sender username) =
    elim (Bool-cases (is_username_taken s.room.clients username)) [
      | inl taken ↦ elim (Option-cases (find_addr s.room.clients sender)) [
        | inl gone ↦ rw (work, taken, gone) refl
        | inr (c, e) ↦ rw (work, taken, e) refl
      ]
      | inr unused ↦ rw (work, unused) refl
    ]
work-Takes s (free sender username) = elim (Option-cases (find_addr s.room.clients sender)) [
  | inl gone ↦ rw (work, gone) refl
  | inr (c, e) ↦ rw (work, e) refl
]
work-Takes s ended = refl
work-Takes s faulted = refl

-- What has gone into the queue has come out of it or waits.
abbrev InOrder : System → Type 0
InOrder s = s.pushed ≡ s.taken ++ s.server.job_queue

pub admit-job_queue : (s : Server) (a : _) → (admit s a).server.job_queue ≡ s.job_queue
unfolding admit
admit-job_queue s none = refl
admit-job_queue s (some a) = refl

pub Received-cases :
    (r : Received)
    → (r ≡ removed) ⊎ (r ≡ fault) ⊎ ((c : Client) × (jobs : List Job) × (r ≡ kept c jobs))
Received-cases removed = inl refl
Received-cases fault = inr (inl refl)
Received-cases (kept c jobs) = inr (inr (c, jobs, refl))

serve_client-job_queue :
    (s : Server) (c : Client) (received : List ℕ) {o : Out}
    → serve_client s c received ≡ some o
    → o.server.job_queue ≡ s.job_queue ++ new_jobs (handle_client_message c received)
unfolding serve_client new_jobs
serve_client-job_queue s c received {o} e =
    elim (Received-cases (handle_client_message c received)) [
      | inl gone ↦
          let at : _ ≡ some o = (rw (serve_client, gone) at e) in
          rw gone (
            ap (λ (p : Out). p.server.job_queue) (sym (some-injective _ o at))
            ∙ sym (append-nil s.job_queue))
      | inr (inl over) ↦ let at : none ≡ some o = (rw (serve_client, over) at e) in cc
      | inr (inr (d, js, ok)) ↦ rw ok (
          ap (λ (p : Out). p.server.job_queue)
            (sym (some-injective _ o (rw (serve_client, ok) at e))))
    ]

worker_step-InOrder : (i : ℕ) (s : System) → InOrder s → InOrder (worker_step i s)
unfolding worker_step
worker_step-InOrder i s h =
    let m = work s.server (s.pc i) in
    h
    ∙ (ap (λ (js : List Job). s.taken ++ js) (work-Takes s.server (s.pc i))
        ∙ sym (append_assoc s.taken m.took m.server.job_queue))

receive-InOrder :
    (s : System) (c : Client) (received : List ℕ) → InOrder s → InOrder (receive s c received)
unfolding receive
receive-InOrder s c received h = elim (Option-cases (serve_client s.server c received)) [
  | inl over ↦ rw (receive, over) h
  | inr (o, e) ↦
      rw (receive, e)
        (ap (λ (js : List Job). js ++ new_jobs (handle_client_message c received)) h
          ∙ (append_assoc s.taken s.server.job_queue (new_jobs (handle_client_message c received))
              ∙ ap (λ (js : List Job). s.taken ++ js)
                  (sym (serve_client-job_queue s.server c received e))))
]

drain-InOrder : (s : System) (bs : List Bcast) → InOrder s → InOrder (drain s bs)
unfolding drain
drain-InOrder s [] h = h
drain-InOrder s (b ∷ bs) h = h

main_step-InOrder : (s : System) (a : Act) → InOrder s → InOrder (main_step s a)
unfolding main_step handle_signal shut_down
main_step-InOrder s (arrives a) h =
    h ∙ ap (λ (js : List Job). s.taken ++ js) (sym (admit-job_queue s.server (some a)))
main_step-InOrder s (receives addr received) h =
    elim (Option-cases (find_addr s.server.room.clients addr)) [
      | inl gone ↦ rw (main_step, gone) h
      | inr (c, e) ↦ rw (main_step, e) (receive-InOrder s c received h)
    ]
main_step-InOrder s drains h = drain-InOrder s s.server.bcast_queue h
main_step-InOrder s signalled h = h
main_step-InOrder s breaks h = h
main_step-InOrder s leaves h = elim (Bool-cases s.server.shutdown_flag) [
  | inl down ↦ rw down h
  | inr up ↦ rw up h
]

step-InOrder : (s : System) (t : Turn) → InOrder s → InOrder (step s t)
unfolding step
step-InOrder s (worker i) h = worker_step-InOrder i s h
step-InOrder s (main a) h = by_main s.main
  where
    by_main : (m : Main) → InOrder (elim m [ looping ↦ main_step s a | left ↦ s | overrun ↦ s ])
    by_main looping = main_step-InOrder s a h
    by_main left = h
    by_main overrun = h

run-InOrder : (ts : List Turn) (s : System) → InOrder s → InOrder (run ts s)
unfolding run
run-InOrder [] s h = h
run-InOrder (t ∷ ts) s h = run-InOrder ts (step s t) (step-InOrder s t h)

-- Whatever the schedule of the workers and of `main`: the jobs that the workers have taken, in the
-- order in which they have taken them, and then those that wait, are the jobs that have been pushed,
-- in their order. No job is lost, and none is taken twice.
pub run-fifo :
    (s : Server) (ts : List Turn)
    → (run ts (begun s)).pushed ≡ (run ts (begun s)).taken ++ (run ts (begun s)).server.job_queue
run-fifo s ts = run-InOrder ts (begun s) refl
