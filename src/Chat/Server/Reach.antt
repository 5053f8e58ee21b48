-- ===== src/Chat/Server/Reach.antt =====
-- The states that the server reaches, by rounds of the main loop, of a worker, and by the signal.
use csci_4220_network_progra.Base.{
  ℕ, ◌≡◌, refl, sym, subst, ◌∙◌, false, Option, some, List, [], ◌∷◌, not, ◌||◌, ◌==◌, length, arith,
  All, Bool-cases, inl, inr, ◌⊎◌, Option-cases,
}
use mathlib.Core.Option.{some-injective}
use csci_4220_network_progra.Chat.Queue.{Job}
use csci_4220_network_progra.Chat.Room.{Client, Room, is_username_taken}
use csci_4220_network_progra.Chat.Process.{
  cut, is_valid, set_username, setup_username, find_client, process_message,
}
use csci_4220_network_progra.Chat.Process.Names.{process_message-Kept}
use csci_4220_network_progra.Chat.Server.{
  Server, Out, Arrival, main_round, ends, waits, worked, worker_round, handle_signal,
}
use csci_4220_network_progra.Chat.Server.Clients.{
  BufferOk, AddrsApart, All-set_username, set_username-AddrsApart,
}
use csci_4220_network_progra.Chat.Server.Round.{IsSound, CleanReads}
use csci_4220_network_progra.Chat.Server.Run.{FreshArrival, main_round-IsSound}

-- A job changes the name of one client, or nothing in the list.
Renamed : List Client → List Client → Type 0
Renamed cs ds = (ds ≡ cs) ⊎ ((a : ℕ) × (w : List ℕ) × (ds ≡ set_username cs a w))

process_message-Renamed : (cs : List Client) (job : Job) → Renamed cs (process_message cs job).0
unfolding process_message setup_username Renamed
process_message-Renamed cs job = elim (Option-cases (find_client cs job.sender_fd)) [
  | inl n ↦ inl (rw (process_message, n) refl)
  | inr (sender, e) ↦ elim (Bool-cases (length sender.username == 0)) [
    | inl new ↦
        elim (Bool-cases (not (is_valid (cut 32 job.msg)) || length (cut 32 job.msg) == 0)) [
          | inl bad ↦ inl (rw (process_message, e, new, setup_username, bad) refl)
          | inr good ↦ elim (Bool-cases (is_username_taken cs (cut 32 job.msg))) [
            | inl taken ↦ inl (rw (process_message, e, new, setup_username, good, taken) refl)
            | inr free ↦ inr (
              sender.addr,
              cut 32 job.msg,
              rw (process_message, e, new, setup_username, good, free) refl,
            )
          ]
        ]
    | inr named ↦ inl (rw (process_message, e, named) refl)
  ]
]

Renamed-lists :
    (cs ds : List Client)
    → Renamed cs ds
    → AddrsApart cs × All BufferOk cs
    → AddrsApart ds × All BufferOk ds
unfolding Renamed
Renamed-lists cs ds (inl e) h = rw e h
Renamed-lists cs ds (inr (a, w, e)) h = rw e (
  set_username-AddrsApart cs a w h.0,
  All-set_username BufferOk cs a w
      (λ d (p, b, clean). (
        p,
        record {
          tail = b.tail;
          inbuf_eq = b.inbuf_eq;
          len_eq = b.len_eq;
          full = b.full;
          quiet = b.quiet;
        },
        clean,
      ))
      h.1,
)

process_message-IsSound :
    (r : Room) (job : Job)
    → IsSound r
    → IsSound (record r { clients = (process_message r.clients job).0 })
process_message-IsSound r job h =
    let (names, size) = process_message-Kept r.clients job in
    let (addrs, buffers) =
      Renamed-lists r.clients _ (process_message-Renamed r.clients job) (h.addrs, h.buffers) in
    record {
      room = record {
        names = names h.room.names;
        counted = h.room.counted ∙ sym size;
        bounded = omega (arith, size, h.room.bounded);
      };
      addrs = addrs;
      buffers = buffers;
    }

List-cases : (js : List Job) → (js ≡ []) ⊎ ((j : Job) × (rest : List Job) × (js ≡ j ∷ rest))
List-cases [] = inl refl
List-cases (j ∷ rest) = inr (j, rest, refl)

-- A round of the main loop over a connection as `IsFresh` has it and reads without zeros, a round of a worker, or
-- the signal.
pub data Step (s : Server) : Server → Type 0 where
  looped :
      (arrival : Option Arrival) (reads : ℕ → Option (List ℕ)) (o : Out) {t : Server}
      → FreshArrival s arrival
      → CleanReads reads
      → main_round s arrival reads ≡ some o
      → t ≡ o.server
      → Step s t
  turned : (o : Out) {t : Server} → worker_round s ≡ worked o → t ≡ o.server → Step s t
  signalled : {t : Server} → t ≡ handle_signal s → Step s t

pub data Reach (s : Server) : Server → Type 0 where
  here : Reach s s
  next : {t u : Server} → Reach s t → Step t u → Reach s u

worked_server : {o p : Out} → worked o ≡ worked p → o ≡ p
worked_server e = cc

worker_round-IsSound :
    (s : Server) (o : Out) → IsSound (s.room) → worker_round s ≡ worked o → IsSound (o.server.room)
unfolding worker_round
worker_round-IsSound s o h e = elim (Bool-cases s.shutdown_flag) [
  | inl down ↦ let e' : ends ≡ worked o = (rw (worker_round, down) at e) in cc
  | inr up ↦ elim (List-cases s.job_queue) [
    | inl none_left ↦ elim (Bool-cases s.queues_closed) [
      | inl shut ↦ let e' : ends ≡ worked o = (rw (worker_round, up, none_left, shut) at e) in cc
      | inr open_still ↦
          let e' : waits ≡ worked o = (rw (worker_round, up, none_left, open_still) at e) in cc
    ]
    | inr (job, rest, jobs) ↦
        let e' = (rw (worker_round, up, jobs) at e) in
        subst (λ (p : Out). IsSound (p.server.room)) (worked_server e')
          (process_message-IsSound s.room job h)
  ]
]

Step-IsSound : {s t : Server} → Step s t → IsSound (s.room) → IsSound (t.room)
unfolding handle_signal
Step-IsSound {s} (looped arrival reads o fresh clean e at) h =
    let (p, f, sound) = main_round-IsSound s arrival reads h fresh clean in
    rw (at, some-injective o p (sym e ∙ f)) sound
Step-IsSound {s} (turned o e at) h = rw at (worker_round-IsSound s o h e)
Step-IsSound (signalled at) h = rw at h

abbrev pub started : (max_clients : ℕ) → Server
started max_clients = record {
  room = record { clients = []; current_clients = 0; max_clients = max_clients };
  job_queue = [];
  bcast_queue = [];
  shutdown_flag = false;
  queues_closed = false;
}

pub Reach-IsSound : (n : ℕ) {t : Server} → Reach (started n) t → IsSound (t.room)
Reach-IsSound n here = record {
  room = record { names = tt; counted = refl; bounded = omega arith };
  addrs = tt;
  buffers = tt;
}
Reach-IsSound n (next r st) = Step-IsSound st (Reach-IsSound n r)

-- In every state that the server reaches with one worker, whose rounds do not overlap those of the main
-- loop, while `select` does not fail: a round of the main loop reads and writes inside the buffers
-- only, and after it the names of the clients differ, `current_clients` is their number, at most
-- `max_clients`, and each buffer holds the start of a line. This is for reads without zero bytes, and
-- for connections, the one of this round and those before it, whose client stands at an address of its
-- own and whose buffer `malloc` happens to give without a newline and with a zero at its end. `malloc`
-- does not promise that about the buffer, and the code does not see to it.
pub Reach-main_round :
    (n : ℕ) {t : Server} (arrival : Option Arrival) (reads : ℕ → Option (List ℕ))
    → Reach (started n) t
    → FreshArrival t arrival
    → CleanReads reads
    → (o : Out) × (main_round t arrival reads ≡ some o) × IsSound (o.server.room)
Reach-main_round n {t} arrival reads r f c =
    main_round-IsSound t arrival reads (Reach-IsSound n r) f c
