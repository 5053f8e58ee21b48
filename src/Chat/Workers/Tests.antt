-- ===== src/Chat/Workers/Tests.antt =====
-- Runs of the chatroom server with several workers.
use csci_4220_network_progra.Base.{ℕ, ◌≡◌, ◌≢◌, refl, true, false, List, [], ◌∷◌, ◌++◌, arith}
use csci_4220_network_progra.CString.{same_caseless}
use csci_4220_network_progra.Chat.Queue.{Job}
use csci_4220_network_progra.Chat.Room.{Client, is_username_taken}
use csci_4220_network_progra.Chat.Process.{is_valid, find_client}
use csci_4220_network_progra.Chat.Process.Names.{NamesDiffer}
use csci_4220_network_progra.Chat.Serve.{find_addr}
use csci_4220_network_progra.Chat.Server.{Server, worker_round}
use csci_4220_network_progra.Chat.Workers.{
  naming, faulted, Moved, System, receives, drains, signalled, Turn, worker, main, run, begun,
}
use csci_4220_network_progra.Chat.Workers.Fifo.{run-fifo}
use csci_4220_network_progra.Chat.Workers.Names.{run-NamesDiffer}
use csci_4220_network_progra.Chat.Workers.Alone.{turns, After}
use csci_4220_network_progra.Chat.Workers.Round.{Does, run-worker_round}
use csci_4220_network_progra.Chat.Workers.Naming.{BothNamed}
use csci_4220_network_progra.Chat.Workers.Race.{Rivals, run-same_name}
use csci_4220_network_progra.Chat.Workers.Dangling.{at_check, hangs_up, run-faulted}
use csci_4220_network_progra.Chat.Workers.Safe.{run-unfaulted}
use csci_4220_network_progra.Chat.Workers.Ends.{moves, Over, run-Over}

abbrev client : (fd : ℕ) → (username : List ℕ) → Client
client fd username = record { addr = fd; fd = fd; username = username; inbuf = []; inbuf_len = 0 }

abbrev ann : List ℕ
ann = 65 ∷ 110 ∷ 110 ∷ []

abbrev asks : ℕ → Job
asks fd = record { sender_fd = fd; username = []; msg = ann }

abbrev first : Client
first = client 4 []

abbrev second : Client
second = client 5 []

-- Two clients without a name, who both ask to be "Ann".
abbrev both_ask : Server
both_ask = record {
  room = record { clients = second ∷ first ∷ []; current_clients = 2; max_clients = 8 };
  job_queue = asks 4 ∷ asks 5 ∷ [];
  bcast_queue = [];
  shutdown_flag = false;
  queues_closed = false;
}

run-fifo_example :
    (run
      (worker 0 ∷ worker 1 ∷ main (receives 4 []) ∷ worker 1 ∷ worker 0 ∷ [])
      (begun both_ask)).pushed
    ≡ (run
        (worker 0 ∷ worker 1 ∷ main (receives 4 []) ∷ worker 1 ∷ worker 0 ∷ [])
        (begun both_ask)).taken
      ++ (run
          (worker 0 ∷ worker 1 ∷ main (receives 4 []) ∷ worker 1 ∷ worker 0 ∷ [])
          (begun both_ask)).server.job_queue
run-fifo_example =
    run-fifo both_ask (worker 0 ∷ worker 1 ∷ main (receives 4 []) ∷ worker 1 ∷ worker 0 ∷ [])

run-NamesDiffer_example :
    NamesDiffer
      (run
        (worker 0 ∷ worker 0 ∷ main (receives 4 []) ∷ worker 0 ∷ [])
        (begun both_ask)).server.room.clients
run-NamesDiffer_example =
    run-NamesDiffer both_ask (worker 0 ∷ worker 0 ∷ main (receives 4 []) ∷ worker 0 ∷ [])
      ((refl, tt), (tt, tt)) (refl, (refl, (tt, (refl, tt))))

run-worker_round_example :
    (k : ℕ) × (m : Moved) × Does both_ask (worker_round both_ask) m
    × After 0 (begun both_ask) m (run (turns k 0) (begun both_ask))
run-worker_round_example = run-worker_round 0 (begun both_ask) ((omega arith, tt), (tt, tt)) refl

rivals : Rivals (begun both_ask) first second ann
unfolding find_client is_valid is_username_taken same_caseless
rivals = record {
  job_a = asks 4;
  job_b = asks 5;
  rest = [];
  first_idle = refl;
  second_idle = refl;
  up = refl;
  jobs = refl;
  a_found = refl;
  b_found = refl;
  a_new = refl;
  b_new = refl;
  a_asks = refl;
  b_asks = refl;
  good = refl;
  unused = refl;
  apart = ((omega arith, tt), (tt, tt));
  two = omega arith;
}

run-same_name_example :
    (ts : List Turn) × BothNamed (run ts (begun both_ask)).server.room.clients first second ann
run-same_name_example = run-same_name (begun both_ask) first second ann rivals

-- Worker 0 is about to look whether "Ann" is taken.
abbrev checking : System
checking = record (begun both_ask) { pc = λ _. naming 4 ann }

run-faulted_example :
    (run (main (receives 4 []) ∷ worker 0 ∷ worker 0 ∷ []) checking).pc 0 ≡ faulted
unfolding find_addr
run-faulted_example =
    run-faulted checking 0 4 (receives 4 []) {c = first} refl ((omega arith, tt), (tt, tt)) refl
      (at_check ann) hangs_up

-- The queues are closed, and no job waits.
abbrev closing : System
closing = begun (record both_ask { job_queue = []; queues_closed = true })

run-Over_example : Over ((run (main drains ∷ turns 6 1) closing).pc 1)
unfolding moves
run-Over_example =
    run-Over 1 closing (main drains ∷ turns 6 1) refl (tt, (tt, (tt, (tt, (tt, (tt, (tt, tt)))))))
      (omega arith)

-- Two workers with the two jobs, and `main`.
abbrev busy : List Turn
busy =
    worker 0
    ∷ worker 1
    ∷ worker 0
    ∷ worker 1
    ∷ worker 0
    ∷ main drains
    ∷ worker 0
    ∷ main signalled
    ∷ []

run-unfaulted_example : (run busy (begun both_ask)).pc 0 ≢ faulted
run-unfaulted_example =
    run-unfaulted both_ask busy 0 (tt, (tt, (tt, (tt, (tt, (tt, (tt, (tt, tt))))))))
