-- ===== src/Chat/Workers/Measure.antt =====
-- A worker comes closer to its end with each of its steps.
use csci_4220_network_progra.Base.{
  ℕ, ◌≡◌, ◌<◌, ◌+◌, ◌*◌, refl, true, ◌||◌, not, List, [], ◌∷◌, ◌==◌, length, arith, Bool-cases,
  Option-cases, inl, inr,
}
use csci_4220_network_progra.Chat.Queue.{Job}
use csci_4220_network_progra.Chat.Room.{Client, is_username_taken}
use csci_4220_network_progra.Chat.Process.{cut, is_valid, find_client}
use csci_4220_network_progra.Chat.Serve.{find_addr}
use csci_4220_network_progra.Chat.Server.{Server}
use csci_4220_network_progra.Chat.Workers.{
  Pc, idle, popping, popped, found, naming, free, ended, faulted, Moved, pop_job, read_sender,
  write_name, work,
}

-- How many steps a worker can take before it is at the head of its loop with one job fewer, or over.
unfoldable pub weight : Pc → ℕ
weight idle = 2
weight popping = 1
weight (popped job) = 6
weight (found sender job) = 5
weight (naming sender username) = 4
weight (free sender username) = 3
weight ended = 0
weight faulted = 0

unfoldable pub measure : Server → Pc → ℕ
unfolding weight
measure s p = weight p + 6 * length s.job_queue

-- What a step of a worker does to the measure.
pub record Progress (s : Server) (p : Pc) (m : Moved) : Type 0 where
  pub closed_eq : m.server.queues_closed ≡ s.queues_closed
  pub over : weight p ≡ 0 → weight m.pc ≡ 0
  pub lowers : 0 < weight p → s.queues_closed ≡ true → measure m.server m.pc < measure s p

lower :
    {s : Server} {p : Pc} {m : Moved}
    → weight m.pc < weight p
    → m.server.job_queue ≡ s.job_queue
    → m.server.queues_closed ≡ s.queues_closed
    → Progress s p m
unfolding measure
lower {s} {p} {m} less jobs closed = record {
  closed_eq = closed;
  over = λ z. omega arith;
  lowers = λ pos shut. rw jobs (omega arith);
}

pop_job-Progress :
    (s : Server) (jobs : List Job) → s.job_queue ≡ jobs → Progress s popping (pop_job s jobs)
unfolding pop_job weight measure
pop_job-Progress s (job ∷ jobs) e = record {
  closed_eq = refl;
  over = λ z. omega arith;
  lowers = λ pos shut. rw e (omega arith);
}
pop_job-Progress s [] e = elim (Bool-cases s.queues_closed) [
  | inl shut ↦ rw shut (lower (omega arith) refl refl)
  | inr open_still ↦ record { closed_eq = refl; over = λ z. omega arith; lowers = λ pos shut. cc }
]

read_sender-Progress :
    (s : Server) (sender : ℕ) (c : Client) (job : Job)
    → Progress s (found sender job) (read_sender s c job)
unfolding read_sender weight
read_sender-Progress s sender c job = elim (Bool-cases (length c.username == 0)) [
  | inl new ↦ elim (Bool-cases (not (is_valid (cut 32 job.msg)) || length (cut 32 job.msg) == 0)) [
    | inl bad ↦ rw (new, bad) (lower (omega arith) refl refl)
    | inr good ↦ rw (new, good) (lower (omega arith) refl refl)
  ]
  | inr named ↦ rw named (lower (omega arith) refl refl)
]

pub work-Progress : (s : Server) (p : Pc) → Progress s p (work s p)
unfolding work write_name weight
work-Progress s idle = elim (Bool-cases s.shutdown_flag) [
  | inl down ↦ rw (work, down) (lower (omega arith) refl refl)
  | inr up ↦ rw (work, up) (lower (omega arith) refl refl)
]
work-Progress s popping = pop_job-Progress s s.job_queue refl
work-Progress s (popped job) = elim (Option-cases (find_client s.room.clients job.sender_fd)) [
  | inl gone ↦ rw (work, gone) (lower (omega arith) refl refl)
  | inr (c, e) ↦ rw (work, e) (lower (omega arith) refl refl)
]
work-Progress s (found sender job) = elim (Option-cases (find_addr s.room.clients sender)) [
  | inl gone ↦ rw (work, gone) (lower (omega arith) refl refl)
  | inr (c, e) ↦ rw (work, e) (read_sender-Progress s sender c job)
]
work-Progress s (naming sender username) =
    elim (Bool-cases (is_username_taken s.room.clients username)) [
      | inl taken ↦ elim (Option-cases (find_addr s.room.clients sender)) [
        | inl gone ↦ rw (work, taken, gone) (lower (omega arith) refl refl)
        | inr (c, e) ↦ rw (work, taken, e) (lower (omega arith) refl refl)
      ]
      | inr unused ↦ rw (work, unused) (lower (omega arith) refl refl)
    ]
work-Progress s (free sender username) = elim (Option-cases (find_addr s.room.clients sender)) [
  | inl gone ↦ rw (work, gone) (lower (omega arith) refl refl)
  | inr (c, e) ↦ rw (work, e) (lower (omega arith) refl refl)
]
work-Progress s ended = record {
  closed_eq = refl;
  over = λ z. refl;
  lowers = λ pos shut. omega arith;
}
work-Progress s faulted = record {
  closed_eq = refl;
  over = λ z. refl;
  lowers = λ pos shut. omega arith;
}
