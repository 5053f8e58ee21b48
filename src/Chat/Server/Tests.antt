-- ===== src/Chat/Server/Tests.antt =====
-- The chatroom server with a client called "Ann" who says "hi" to another.
use csci_4220_network_progra.Base.{
  ℕ, subst, ◌≡◌, refl, Option, none, some, List, [], ◌∷◌, ◌++◌, arith, take, if◌then◌else◌, ◌==◌,
  Bool-cases, inl, inr,
}
use mathlib.Core.Option.{some-injective}
use csci_4220_network_progra.Chat.Lines.Split.{IsClean}
use csci_4220_network_progra.Chat.Queue.{Job}
use csci_4220_network_progra.Chat.Room.{handle_new_connection, Client, Effect}
use csci_4220_network_progra.Chat.Process.{same, strip, find_client}
use csci_4220_network_progra.Chat.Server.{
  admit, serve_clients, Server, Out, Arrival, main_round, worked, worker_round, broadcast_all,
  handle_signal,
}
use csci_4220_network_progra.Chat.Lines.Tests.{zeros, zeros-OnOneLine, ann, ann-Holds}
use csci_4220_network_progra.Chat.Server.Round.{IsSound, CleanReads}
use csci_4220_network_progra.Chat.Server.Run.{FreshArrival}
use csci_4220_network_progra.Chat.Server.Reach.{
  Reach, here, next, looped, signalled, started, Reach-main_round,
}
use csci_4220_network_progra.Chat.Server.Deliver.{Gets, worker_round-main_round-Gets}

abbrev client : (fd : ℕ) → (username : List ℕ) → Client
client fd username = record { addr = fd; fd = fd; username = username; inbuf = []; inbuf_len = 0 }

abbrev hi : Job
hi = record { sender_fd = 4; username = []; msg = 104 ∷ 105 ∷ [] }

abbrev two : Server
two = record (started 8) {
  room = record {
    clients = client 5 [] ∷ client 4 (65 ∷ 110 ∷ 110 ∷ []) ∷ [];
    current_clients = 2;
    max_clients = 8;
  };
  job_queue = hi ∷ [];
}

worker_round-main_round-Gets_example :
    (o p : Out) × (es : List Effect) × (worker_round two ≡ worked o)
    × (main_round o.server none (λ _. none) ≡ some p)
    × (p.effects ≡ broadcast_all two.room.clients [] ++ es)
    × Gets two.room.clients 4
        (take 1023
          (take 2047 ((65 ∷ 110 ∷ 110 ∷ []) ++ (58 ∷ 32 ∷ (strip (104 ∷ 105 ∷ []) ++ 10 ∷ [])))))
        es
unfolding find_client same strip
worker_round-main_round-Gets_example =
    worker_round-main_round-Gets two hi [] (client 4 (65 ∷ 110 ∷ 110 ∷ [])) refl refl refl refl refl

abbrev arrival : Arrival
arrival = record { accepted = some 4; addr = 100; inbuf = zeros 2047 ++ 0 ∷ [] }

-- The server when the client has come.
abbrev joined : Server
joined = record (started 8) {
  room = record {
    clients = record ann { username = [] } ∷ [];
    current_clients = 1;
    max_clients = 8;
  };
}

arrival-FreshArrival : FreshArrival (started 8) (some arrival)
arrival-FreshArrival = record {
  new = tt;
  tail = zeros 2047;
  inbuf_eq = refl;
  full = ann-Holds.full;
  quiet = zeros-OnOneLine 2047;
}

-- "hi" without its newline, from the client.
abbrev reads : ℕ → Option (List ℕ)
reads fd = if fd == 4 then some (104 ∷ 105 ∷ []) else none

not_some : (d : List ℕ) → ¬ (none ≡ some d)
not_some d e = cc

reads-CleanReads : CleanReads reads
reads-CleanReads fd d e = elim (Bool-cases (fd == 4)) [
  | inl own ↦ subst IsClean (some-injective _ d (rw own at e)) (omega arith, (omega arith, tt))
  | inr other ↦ absurd (not_some d (rw other at e))
]

joined-Reach : Reach (started 8) joined
unfolding main_round handle_new_connection admit serve_clients broadcast_all
joined-Reach = next here (
    looped (some arrival) (λ _. none) _ arrival-FreshArrival (λ fd d e. absurd (not_some d e)) refl
      refl)

Reach-main_round_example :
    (o : Out) × (main_round (handle_signal joined) none reads ≡ some o) × IsSound (o.server.room)
Reach-main_round_example =
    Reach-main_round 8 none reads (next joined-Reach (signalled refl)) tt reads-CleanReads
