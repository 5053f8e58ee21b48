-- ===== src/Chat/Workers.antt =====
-- hw2/chatroom_server.c: any number of workers and the loop of `main`, interleaved. A worker goes from
-- one access to what it shares to the next; what stands between two of them is one step.
pub mod Fifo
pub mod Keeps
pub mod Names
pub mod Alone
pub mod Processing
pub mod Round
pub mod Naming
pub mod Race
pub mod Dangling
pub mod Pointers
pub mod Safe
pub mod Measure
pub mod Ends
mod Tests
use csci_4220_network_progra.Base.{
  ℕ, zero, suc, ◌+◌, Bool, true, false, ◌||◌, not, Option, none, some, List, [], ◌∷◌, ◌++◌, ◌==◌,
  if◌then◌else◌, length,
}
use csci_4220_network_progra.Chat.Queue.{Job}
use csci_4220_network_progra.Chat.Room.{
  Client, Room, Effect, sent, queued, invalid_username, ask_username, in_use, start_chatting,
  broadcast_message, is_username_taken,
}
use csci_4220_network_progra.Chat.Process.{
  cut, joined, is_valid, find_client, set_username, process_line,
}
use csci_4220_network_progra.Chat.Serve.{find_addr}
use csci_4220_network_progra.Chat.Lines.{Received, removed, fault, kept, handle_client_message}
use csci_4220_network_progra.Chat.Server.{
  Server, Out, Bcast, Arrival, admit, serve_client, pushes, others, handle_signal, shut_down,
}

-- Where a worker stands, with the local variables that are live there. `sender` is a pointer.
pub data Pc : Type 0 where
  idle : Pc  -- the head of the loop
  popping : Pc  -- in `q_pop`
  popped : Job → Pc  -- at the start of `process_message`
  found : (sender : ℕ) → Job → Pc  -- the mutex has been given back
  naming : (sender : ℕ) → (username : List ℕ) → Pc  -- before `is_username_taken`
  free : (sender : ℕ) → (username : List ℕ) → Pc  -- before the name is written
  ended : Pc
  faulted : Pc  -- freed memory has been read or written

-- What a step of a worker does: the job that it takes, and what the outside sees.
pub record Moved : Type 0 where
  pub server : Server
  pub pc : Pc
  pub took : List Job
  pub effects : List Effect

abbrev pub goes : Server → Pc → Moved
goes s p = record { server = s; pc = p; took = []; effects = [] }

-- The worker goes on to its next job; what it has pushed is in `bcast_queue`.
abbrev pub done : Server → List Effect → Moved
done s effects = record {
  server = record s { bcast_queue = s.bcast_queue ++ pushes effects };
  pc = idle;
  took = [];
  effects = others effects;
}

-- `q_pop`: it takes the oldest job, or ends when the queue is closed, or waits.
unfoldable pub pop_job : Server → List Job → Moved
pop_job s (job ∷ jobs) = record {
  server = record s { job_queue = jobs };
  pc = popped job;
  took = job ∷ [];
  effects = [];
}
pop_job s [] = goes s (if s.queues_closed then ended else popping)

-- From the pointer on: a line of a client with a name is processed, a name is validated.
unfoldable pub read_sender : Server → Client → Job → Moved
read_sender s sender job =
    if not (length sender.username == 0)
    then done s (process_line s.room.clients sender job.msg)
    else if not (is_valid (cut 32 job.msg)) || length (cut 32 job.msg) == 0
    then done s (sent sender.fd invalid_username ∷ sent sender.fd ask_username ∷ [])
    else goes s (naming sender.addr (cut 32 job.msg))

unfoldable pub write_name : Server → Client → List ℕ → Moved
write_name s sender username =
    done
      (record s {
        room = record (s.room) { clients = set_username s.room.clients sender.addr username };
      })
      (sent sender.fd (start_chatting username)
        ∷ queued sender.fd (cut 1024 (cut 256 (username ++ joined)))
        ∷ [])

-- The next step of a worker; one that has ended, or that waits, stays where it is.
unfoldable pub work : Server → Pc → Moved
unfolding pop_job read_sender write_name
work s idle = goes s (if s.shutdown_flag then ended else popping)
work s popping = pop_job s s.job_queue
work s (popped job) = elim (find_client s.room.clients job.sender_fd) [
  | none ↦ goes s idle
  | some c ↦ goes s (found c.addr job)
]
work s (found sender job) = elim (find_addr s.room.clients sender) [
  | none ↦ goes s faulted
  | some c ↦ read_sender s c job
]
work s (naming sender username) =
    if is_username_taken s.room.clients username
    then (elim (find_addr s.room.clients sender) [
      | none ↦ goes s faulted
      | some c ↦ done s (sent c.fd (in_use username) ∷ [])
    ])
    else goes s (free sender username)
work s (free sender username) = elim (find_addr s.room.clients sender) [
  | none ↦ goes s faulted
  | some c ↦ write_name s c username
]
work s ended = goes s ended
work s faulted = goes s faulted

-- `main` is in its loop, or has left it and waits for the workers, or has gone outside a buffer.
pub data Main : Type 0 where
  looping left overrun : Main

-- `pushed` and `taken` are the jobs that have gone into `job_queue` and out of it, and `out` is what
-- the outside has seen; the program does not keep them.
pub record System : Type 0 where
  pub server : Server
  pub main : Main
  pub pc : ℕ → Pc
  pub pushed : List Job
  pub taken : List Job
  pub out : List Effect

abbrev pub update : (ℕ → Pc) → ℕ → Pc → ℕ → Pc
update pc i p j = if i == j then p else pc j

unfoldable pub worker_step : ℕ → System → System
unfolding work
worker_step i s =
    let m = work s.server (s.pc i) in
    record s {
      server = m.server;
      pc = update s.pc i m.pc;
      taken = s.taken ++ m.took;
      out = s.out ++ m.effects;
    }

-- The jobs of a call of `handle_client_message`.
unfoldable pub new_jobs : Received → List Job
new_jobs removed = []
new_jobs fault = []
new_jobs (kept c jobs) = jobs

-- What `main` does at once: a connection comes, a client is served, the oldest message in
-- `bcast_queue` goes out, the signal comes, `select` fails, or the condition of the loop is tested.
pub data Act : Type 0 where
  arrives : Arrival → Act
  receives : (addr : ℕ) → List ℕ → Act
  drains signalled breaks leaves : Act

unfoldable pub receive : System → Client → List ℕ → System
unfolding new_jobs
receive s c received = elim (serve_client s.server c received) [
  | none ↦ record s { main = overrun }
  | some o ↦ record s {
    server = o.server;
    pushed = s.pushed ++ new_jobs (handle_client_message c received);
    out = s.out ++ o.effects;
  }
]

unfoldable pub drain : System → List Bcast → System
drain s [] = s
drain s (b ∷ bs) = record s {
  server = record (s.server) { bcast_queue = bs };
  out = s.out ++ broadcast_message s.server.room.clients b.msg (some b.sender_fd);
}

-- What stands behind the loop.
abbrev pub leave : System → System
leave s =
    let o = shut_down s.server in
    record s { server = o.server; main = left; out = s.out ++ o.effects }

-- A step of the loop of `main`. A client that is not in the list is not served, and the loop is left
-- when the flag is set.
unfoldable pub main_step : System → Act → System
unfolding receive drain
main_step s (arrives a) =
    let o = admit s.server (some a) in record s { server = o.server; out = s.out ++ o.effects }
main_step s (receives addr received) = elim (find_addr s.server.room.clients addr) [
  | none ↦ s
  | some c ↦ receive s c received
]
main_step s drains = drain s s.server.bcast_queue
main_step s signalled = record s { server = handle_signal s.server }
main_step s breaks = leave s
main_step s leaves = if s.server.shutdown_flag then leave s else s

-- Who moves next.
pub data Turn : Type 0 where
  worker : ℕ → Turn
  main : Act → Turn

unfoldable pub step : System → Turn → System
unfolding worker_step main_step
step s (worker i) = worker_step i s
step s (main a) = elim s.main [ looping ↦ main_step s a | left ↦ s | overrun ↦ s ]

-- A schedule.
unfoldable pub run : List Turn → System → System
unfolding step
run [] s = s
run (t ∷ ts) s = run ts (step s t)

abbrev pub begun : Server → System
begun s = record {
  server = s;
  main = looping;
  pc = λ _. idle;
  pushed = s.job_queue;
  taken = [];
  out = [];
}
