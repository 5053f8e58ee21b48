-- ===== src/Chat/Server.antt =====
-- hw2/chatroom_server.c: the loop of `main` with its shutdown, and the workers, over the queues as the
-- lists that they represent.
pub mod Clients
pub mod Round
pub mod Run
pub mod Reach
pub mod Deliver
pub mod Close
mod Tests
use csci_4220_network_progra.Base.{
  ℕ, zero, suc, Bool, true, false, Option, none, some, List, [], ◌∷◌, ◌++◌, ◌==◌, if◌then◌else◌,
  map,
}
use csci_4220_network_progra.Chat.Queue.{Job}
use csci_4220_network_progra.Chat.Room.{
  Client, Room, Effect, sent, queued, closed, handle_new_connection, remove_client,
  broadcast_message,
}
use csci_4220_network_progra.Chat.Lines.{removed, fault, kept, handle_client_message}
use csci_4220_network_progra.Chat.Process.{process_message}

-- A message in `bcast_queue`, with the descriptor that it does not go to.
pub record Bcast : Type 0 where
  pub sender_fd : ℕ
  pub msg : List ℕ

pub record Server : Type 0 where
  pub room : Room
  pub job_queue : List Job
  pub bcast_queue : List Bcast
  pub shutdown_flag : Bool
  pub queues_closed : Bool

-- A server with its effects.
pub record Out : Type 0 where
  pub server : Server
  pub effects : List Effect

-- The bytes of a client are cut up where the client stands in the list.
unfoldable pub set_inbuf : List Client → Client → List Client
set_inbuf [] client = []
set_inbuf (c ∷ cs) client =
    let rest = set_inbuf cs client in
    if c.addr == client.addr
    then record c { inbuf = client.inbuf; inbuf_len = client.inbuf_len } ∷ cs
    else c ∷ rest

-- One client that `select` has found readable, with what `recv` gives. `none` is a fault.
unfoldable pub serve_client : Server → Client → List ℕ → Option Out
unfolding set_inbuf
serve_client s client received = elim (handle_client_message client received) [
  | removed ↦
      let (room, effects) = remove_client s.room client in
      some (record { server = record s { room = room }; effects = effects })
  | fault ↦ none
  | kept c jobs ↦ some (record {
    server = record s {
      room = record (s.room) { clients = set_inbuf s.room.clients c };
      job_queue = s.job_queue ++ jobs;
    };
    effects = [];
  })
]

-- The loop over the clients. `next` is read before a client is served, so that the list is gone
-- through as it is at the start; `reads` has the clients that `select` has found readable.
unfoldable pub serve_clients : (reads : ℕ → Option (List ℕ)) → List Client → Server → Option Out
unfolding serve_client
serve_clients reads [] s = some (record { server = s; effects = [] })
serve_clients reads (c ∷ cs) s =
    let first : Option Out = elim (reads c.fd) [
      | none ↦ some (record { server = s; effects = [] })
      | some d ↦ serve_client s c d
    ] in
    elim first [
      | none ↦ none
      | some o ↦ elim (serve_clients reads cs o.server) [
        | none ↦ none
        | some p ↦ some (record p { effects = o.effects ++ p.effects })
      ]
    ]

-- The loop over `q_try_pop(&bcast_queue)`.
unfoldable pub broadcast_all : List Client → List Bcast → List Effect
broadcast_all clients [] = []
broadcast_all clients (b ∷ bs) =
    broadcast_message clients b.msg (some b.sender_fd) ++ broadcast_all clients bs

-- A connection that is waiting: what `accept` gives, and what `malloc` gives.
pub record Arrival : Type 0 where
  pub accepted : Option ℕ
  pub addr : ℕ
  pub inbuf : List ℕ

-- The connection, if the listening socket is readable.
unfoldable pub admit : Server → Option Arrival → Out
admit s none = record { server = s; effects = [] }
admit s (some a) =
    let (room, effects) = handle_new_connection s.room a.accepted a.addr a.inbuf in
    record { server = record s { room = room }; effects = effects }

-- A round of the loop of `main`, after `select` has returned.
unfoldable pub main_round : Server → Option Arrival → (reads : ℕ → Option (List ℕ)) → Option Out
unfolding admit serve_clients broadcast_all
main_round s arrival reads =
    let a = admit s arrival in
    elim (serve_clients reads a.server.room.clients a.server) [
      | none ↦ none
      | some o ↦ some (record {
        server = record (o.server) { bcast_queue = [] };
        effects =
            a.effects ++ (o.effects ++ broadcast_all o.server.room.clients o.server.bcast_queue);
      })
    ]

-- What a worker pushes, and what else it does.
unfoldable pub pushes : List Effect → List Bcast
pushes [] = []
pushes (queued fd msg ∷ es) = record { sender_fd = fd; msg = msg } ∷ pushes es
pushes (sent fd t ∷ es) = pushes es
pushes (closed fd ∷ es) = pushes es

unfoldable pub others : List Effect → List Effect
others [] = []
others (queued fd msg ∷ es) = others es
others (sent fd t ∷ es) = sent fd t ∷ others es
others (closed fd ∷ es) = closed fd ∷ others es

-- What a worker does next: it ends, it waits for the queue, or it has processed a job.
pub data Turn : Type 0 where
  ends waits : Turn
  worked : Out → Turn

-- A round of the loop of `worker_thread`.
unfoldable pub worker_round : Server → Turn
unfolding pushes others
worker_round s = if s.shutdown_flag then ends else elim s.job_queue [
  | [] ↦ if s.queues_closed then ends else waits
  | job ∷ rest ↦
      let (clients, effects) = process_message s.room.clients job in
      worked (record {
        server = record s {
          room = record (s.room) { clients = clients };
          job_queue = rest;
          bcast_queue = s.bcast_queue ++ pushes effects;
        };
        effects = others effects;
      })
]

unfoldable pub close_all : List Client → List Effect
close_all [] = []
close_all (c ∷ cs) = closed c.fd ∷ close_all cs

-- `handle_signal`
unfoldable pub handle_signal : Server → Server
handle_signal s = record s { shutdown_flag = true; queues_closed = true }

-- What `main` does behind its loop, up to `pthread_join`.
unfoldable pub shut_down : Server → Out
unfolding close_all
shut_down s = record {
  server = record s { room = record (s.room) { clients = [] }; queues_closed = true };
  effects = close_all s.room.clients;
}

-- `worker_thread`, with fuel for its rounds while nothing else changes the server: the server when it
-- has ended, or `none` where it waits or the fuel runs out.
unfoldable pub worker_thread : ℕ → Server → Option Server
unfolding worker_round
worker_thread zero s = none
worker_thread (suc fuel) s = elim (worker_round s) [
  | ends ↦ some s
  | waits ↦ none
  | worked o ↦ worker_thread fuel o.server
]
