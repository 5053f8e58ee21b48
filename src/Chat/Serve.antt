-- ===== src/Chat/Serve.antt =====
-- hw2/chatroom_server.c: the list of clients over any run of the server with one worker.
use csci_4220_network_progra.Base.{
  ℕ, ◌+◌, ◌≡◌, ◌≤◌, ◌<◌, refl, sym, ap, ◌∙◌, false, Option, none, some, List, [], ◌∷◌, leb, ◌==◌,
  ==_iff, if◌then◌else◌, length, arith, All, Bool-cases, inl, inr, Option-cases,
}
use mathlib.Core.Option.{some-injective}
use csci_4220_network_progra.Chat.Queue.{Job}
use csci_4220_network_progra.Chat.Room.{Client, Room, handle_new_connection, unlink, remove_client}
use csci_4220_network_progra.Chat.Process.{process_message}
use csci_4220_network_progra.Chat.Process.Names.{
  Differ, NamesDiffer, unlink-NamesDiffer, process_message-Kept,
}

-- What happens to the list: a connection (`accept` may fail), the end of the client at an address, or
-- a job that the worker takes.
pub data Event : Type 0 where
  connect : Option ℕ → (addr : ℕ) → (inbuf : List ℕ) → Event
  leave : ℕ → Event
  work : Job → Event

unfoldable pub find_addr : List Client → ℕ → Option Client
find_addr [] addr = none
find_addr (c ∷ cs) addr = let rest = find_addr cs addr in if c.addr == addr then some c else rest

unfoldable pub serve : Room → Event → Room
unfolding find_addr
serve r (connect accepted addr inbuf) = (handle_new_connection r accepted addr inbuf).0
serve r (leave addr) = elim (find_addr r.clients addr) [ none ↦ r | some c ↦ (remove_client r c).0 ]
serve r (work job) = record r { clients = (process_message r.clients job).0 }

unfoldable pub serve_all : Room → List Event → Room
serve_all r [] = r
serve_all r (e ∷ es) = serve_all (serve r e) es

pub record IsRoom (r : Room) : Type 0 where
  pub names : NamesDiffer r.clients
  pub counted : r.current_clients ≡ length r.clients
  pub bounded : length r.clients ≤ r.max_clients

length-unlink :
    (cs : List Client) (addr : ℕ) {c : Client}
    → find_addr cs addr ≡ some c
    → (c.addr ≡ addr) × (length (unlink addr cs) + 1 ≡ length cs)
unfolding find_addr unlink
length-unlink [] addr h = cc
length-unlink (d ∷ cs) addr {c} h = elim (Bool-cases (d.addr == addr)) [
  | inl hit ↦ (
    ap (λ (x : Client). x.addr) (sym (some-injective d c (rw hit at h)))
        ∙ (==_iff d.addr addr).0 hit,
    rw hit (omega arith),
  )
  | inr miss ↦
      let (at, size) = length-unlink cs addr (rw miss at h) in (at, rw miss (omega (arith, size)))
]

pub fresh-Differ :
    (addr fd : ℕ) (inbuf : List ℕ) (cs : List Client)
    → All (Differ (record { addr = addr; fd = fd; username = []; inbuf = inbuf; inbuf_len = 0 })) cs
fresh-Differ addr fd inbuf [] = tt
fresh-Differ addr fd inbuf (c ∷ cs) = (refl, fresh-Differ addr fd inbuf cs)

leb-false→lt : (a b : ℕ) → leb a b ≡ false → b < a
leb-false→lt a b h = ground arith

pub serve-IsRoom : (r : Room) (e : Event) → IsRoom r → IsRoom (serve r e)
unfolding serve handle_new_connection remove_client
serve-IsRoom r (connect none addr inbuf) h = h
serve-IsRoom r (connect (some fd) addr inbuf) h =
    elim (Bool-cases (leb r.max_clients r.current_clients)) [
      | inl full ↦ rw (serve, handle_new_connection, full) h
      | inr room ↦
          rw (serve, handle_new_connection, room)
            (record {
              names = (fresh-Differ addr fd inbuf r.clients, h.names);
              counted = ap (λ (n : ℕ). n + 1) h.counted ∙ omega arith;
              bounded = omega (arith, leb-false→lt r.max_clients r.current_clients room, h.counted);
            })
    ]
serve-IsRoom r (leave addr) h = elim (Option-cases (find_addr r.clients addr)) [
  | inl n ↦ rw (serve, n) h
  | inr (c, e) ↦
      let (at, size) = length-unlink r.clients addr e in
      rw (serve, e)
        (record {
          names = unlink-NamesDiffer c.addr r.clients h.names;
          counted = rw at (omega (arith, h.counted, size));
          bounded = rw at (omega (arith, h.bounded, size));
        })
]
serve-IsRoom r (work job) h =
    let (names, size) = process_message-Kept r.clients job in
    record {
      names = names h.names;
      counted = h.counted ∙ sym size;
      bounded = omega (arith, size, h.bounded);
    }

-- From a server without clients, after any connections, ends of connections and messages: no two
-- clients have names that are the same but for the case of letters, `current_clients` is the length
-- of the list, and there are at most `max_clients`.
pub serve_all-IsRoom :
    (max_clients : ℕ) (es : List Event)
    → IsRoom
        (serve_all (record { clients = []; current_clients = 0; max_clients = max_clients }) es)
unfolding serve_all
serve_all-IsRoom max_clients es =
    all _ es (record { names = tt; counted = refl; bounded = omega arith })
  where
    all : (r : Room) (es : List Event) → IsRoom r → IsRoom (serve_all r es)
    all r [] h = h
    all r (e ∷ es) h = all (serve r e) es (serve-IsRoom r e h)
