-- ===== src/Chat/Workers/Pointers.antt =====
-- Pointers to clients, while the list of clients changes.
use csci_4220_network_progra.Base.{
  ℕ, ◌≡◌, refl, Option, none, some, List, [], ◌∷◌, leb, ◌==◌, arith, Bool-cases, inl, inr,
}
use mathlib.Core.Option.{some-injective}
use csci_4220_network_progra.Chat.Room.{Client, Room, handle_new_connection}
use csci_4220_network_progra.Chat.Process.{cut, find_client, set_username}
use csci_4220_network_progra.Chat.Serve.{find_addr}
use csci_4220_network_progra.Chat.Server.{set_inbuf}
use csci_4220_network_progra.Chat.Workers.{
  Pc, idle, popping, popped, found, naming, free, ended, faulted,
}

-- The pointer leads to a client of the list.
abbrev pub Leads : List Client → ℕ → Type 0
Leads cs a = (c : Client) × (find_addr cs a ≡ some c)

-- A change of the list after which every pointer still leads to a client.
abbrev pub Extends : List Client → List Client → Type 0
Extends cs ds = (a : ℕ) → Leads cs a → Leads ds a

cons-Leads :
    (c : Client) (cs ds : List Client) (a : ℕ)
    → (Leads cs a → Leads ds a)
    → Leads (c ∷ cs) a
    → Leads (c ∷ ds) a
unfolding find_addr
cons-Leads c cs ds a f (d, e) = elim (Bool-cases (c.addr == a)) [
  | inl hit ↦ (c, rw hit refl)
  | inr miss ↦ let (x, at) = f (d, rw miss at e) in (x, rw miss at)
]

-- The client at the front is another with the same address.
front-Leads :
    (c d : Client) (cs : List Client) (a : ℕ)
    → d.addr ≡ c.addr
    → Leads (c ∷ cs) a
    → Leads (d ∷ cs) a
unfolding find_addr
front-Leads c d cs a same (x, e) = elim (Bool-cases (c.addr == a)) [
  | inl hit ↦ (d, rw (same, hit) refl)
  | inr miss ↦ (x, rw (same, miss) (rw miss at e))
]

fresh-Leads : (c : Client) (cs : List Client) → Extends cs (c ∷ cs)
unfolding find_addr
fresh-Leads c cs a (x, e) = elim (Bool-cases (c.addr == a)) [
  | inl hit ↦ (c, rw hit refl)
  | inr miss ↦ (x, rw miss e)
]

pub set_username-Extends :
    (cs : List Client) (addr : ℕ) (u : List ℕ) → Extends cs (set_username cs addr u)
unfolding set_username
set_username-Extends [] addr u a h = h
set_username-Extends (c ∷ cs) addr u a h = elim (Bool-cases (c.addr == addr)) [
  | inl hit ↦ rw hit (front-Leads c (record c { username = cut 32 u }) cs a refl h)
  | inr miss ↦
      rw miss (cons-Leads c cs (set_username cs addr u) a (set_username-Extends cs addr u a) h)
]

pub set_inbuf-Extends : (cs : List Client) (d : Client) → Extends cs (set_inbuf cs d)
unfolding set_inbuf
set_inbuf-Extends [] d a h = h
set_inbuf-Extends (c ∷ cs) d a h = elim (Bool-cases (c.addr == d.addr)) [
  | inl hit ↦
      rw hit (front-Leads c (record c { inbuf = d.inbuf; inbuf_len = d.inbuf_len }) cs a refl h)
  | inr miss ↦ rw miss (cons-Leads c cs (set_inbuf cs d) a (set_inbuf-Extends cs d a) h)
]

pub handle_new_connection-Extends :
    (r : Room) (accepted : Option ℕ) (addr : ℕ) (inbuf : List ℕ)
    → Extends r.clients (handle_new_connection r accepted addr inbuf).0.clients
unfolding handle_new_connection
handle_new_connection-Extends r none addr inbuf a h = h
handle_new_connection-Extends r (some fd) addr inbuf a h =
    elim (Bool-cases (leb r.max_clients r.current_clients)) [
      | inl full ↦ rw full h
      | inr place ↦ rw place (fresh-Leads _ r.clients a h)
    ]

pub find_client-Leads :
    (cs : List Client) (fd : ℕ) {c : Client} → find_client cs fd ≡ some c → Leads cs c.addr
unfolding find_client find_addr
find_client-Leads [] fd h = cc
find_client-Leads (d ∷ cs) fd {c} h = elim (Bool-cases (d.fd == fd)) [
  | inl hit ↦ let same = some-injective d c (rw hit at h) in (d, rw (← same) (ground arith))
  | inr miss ↦ fresh-Leads d cs c.addr (find_client-Leads cs fd (rw miss at h))
]

-- A pointer that a worker holds leads to a client, and the worker has touched no freed memory.
abbrev pub Safe : List Client → Pc → Type 0
Safe cs (found sender job) = Leads cs sender
Safe cs (naming sender u) = Leads cs sender
Safe cs (free sender u) = Leads cs sender
Safe cs faulted = ⊥
Safe cs _ = Unit

pub Extends-Safe : (cs ds : List Client) (p : Pc) → Extends cs ds → Safe cs p → Safe ds p
Extends-Safe cs ds idle f h = tt
Extends-Safe cs ds popping f h = tt
Extends-Safe cs ds (popped job) f h = tt
Extends-Safe cs ds (found sender job) f h = f sender h
Extends-Safe cs ds (naming sender u) f h = f sender h
Extends-Safe cs ds (free sender u) f h = f sender h
Extends-Safe cs ds ended f h = tt
Extends-Safe cs ds faulted f h = h
