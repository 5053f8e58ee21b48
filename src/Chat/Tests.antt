-- ===== src/Chat/Tests.antt =====
-- The chatroom server on a queue of two jobs, and with two clients.
use csci_4220_network_progra.Base.{
  ℕ, ltb, length, ◌++◌, ◌⊎◌, ◌≡◌, refl, false, none, some, List, [], ◌∷◌, ◌==◌, if◌then◌else◌,
  arith,
}
use csci_4220_network_progra.CString.{same_caseless}
use csci_4220_network_progra.Chat.Queue.{Job, Store, Queue, q_push}
use csci_4220_network_progra.Chat.Queue.Refine.{
  Represents, PopsFrom, q_push-Represents, q_pop-PopsFrom,
}
use csci_4220_network_progra.Chat.Room.{handle_new_connection, is_username_taken, Room}
use csci_4220_network_progra.Chat.Process.{
  is_valid, find_client, set_username, setup_username, process_message,
}
use csci_4220_network_progra.Chat.Send.{send_to_client, send_to_client-left}
use csci_4220_network_progra.Chat.Serve.{Event, connect, work, serve, serve_all}

abbrev said : ℕ → List ℕ → Job
said fd msg = record { sender_fd = fd; username = []; msg = msg }

-- The node at 10 points to the one at 11.
abbrev two_nodes : Store
two_nodes p = record { job = said 4 []; next = if p == 10 then some 11 else none }

abbrev two_jobs : Queue
two_jobs = record { head = some 10; tail = some 11; closed = false }

two_jobs-Represents : Represents two_nodes two_jobs (10 ∷ 11 ∷ [])
two_jobs-Represents = record {
  head_eq = refl;
  tail_eq = refl;
  linked = (refl, (refl, tt));
  apart = ((omega arith, tt), (tt, tt));
}

abbrev empty_room : ℕ → Room
empty_room n = record { clients = []; current_clients = 0; max_clients = n }

-- Two clients ask for the names "Ann" and "ANN".
abbrev same_name : List Event
same_name =
    connect (some 4) 100 []
    ∷ connect (some 5) 200 []
    ∷ work (said 4 (65 ∷ 110 ∷ 110 ∷ []))
    ∷ work (said 5 (65 ∷ 78 ∷ 78 ∷ []))
    ∷ []

second_is_refused :
    (serve_all (empty_room 8) same_name).clients
    ≡ record { addr = 200; fd = 5; username = []; inbuf = []; inbuf_len = 0 }
      ∷ record { addr = 100; fd = 4; username = 65 ∷ 110 ∷ 110 ∷ []; inbuf = []; inbuf_len = 0 }
      ∷ []
unfolding serve_all serve handle_new_connection process_message find_client setup_username
    set_username is_valid is_username_taken same_caseless
second_is_refused = refl

q_push-Represents_example :
    let (m2, q2) = q_push two_nodes two_jobs 12 in Represents m2 q2 (10 ∷ 11 ∷ 12 ∷ [])
q_push-Represents_example =
    q_push-Represents two_nodes two_jobs (10 ∷ 11 ∷ []) 12 two_jobs-Represents
      (omega arith, (omega arith, tt))

q_pop-PopsFrom_example : PopsFrom two_nodes two_jobs (10 ∷ 11 ∷ [])
q_pop-PopsFrom_example = q_pop-PopsFrom two_nodes two_jobs (10 ∷ 11 ∷ []) two_jobs-Represents

-- `send` takes at most two bytes at a time.
abbrev two_bytes : ℕ → List ℕ → ℕ
two_bytes j s = if ltb 2 (length s) then 2 else length s

send_to_client-left_example :
    (out rest : List ℕ) × (send_to_client two_bytes (104 ∷ 101 ∷ 121 ∷ []) ≡ some out)
    × (104 ∷ 101 ∷ 121 ∷ [] ≡ out ++ rest)
    × ((rest ≡ []) ⊎ ((j : ℕ) × (two_bytes j rest ≡ 0)))
send_to_client-left_example =
    send_to_client-left two_bytes (104 ∷ 101 ∷ 121 ∷ []) (λ j s. ground arith)
