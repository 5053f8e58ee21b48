-- ===== src/Chat/Workers/Keeps.antt =====
-- What the steps of `main` keep of the list of clients.
use csci_4220_network_progra.Base.{
  ℕ, ◌≡◌, refl, Bool, true, false, ◌||◌, Option, none, some, List, [], ◌∷◌, leb, ◌==◌, length,
  Bool-cases, inl, inr, subst,
}
use mathlib.Core.Option.{some-injective}
use csci_4220_network_progra.CString.{same_caseless}
use csci_4220_network_progra.Chat.Room.{
  Client, Room, handle_new_connection, is_username_taken, unlink, remove_client,
}
use csci_4220_network_progra.Chat.Process.Names.{NamesDiffer, unlink-NamesDiffer}
use csci_4220_network_progra.Chat.Serve.{fresh-Differ}
use csci_4220_network_progra.Chat.Lines.{handle_client_message}
use csci_4220_network_progra.Chat.Server.{Server, Out, set_inbuf, serve_client}
use csci_4220_network_progra.Chat.Server.Clients.{set_inbuf-NamesDiffer}
use csci_4220_network_progra.Chat.Workers.Fifo.{Received-cases}

-- A change of the list after which names still differ and a name that was not taken is not taken.
pub record Keeps (cs ds : List Client) : Type 0 where
  pub differ : NamesDiffer cs → NamesDiffer ds
  pub unused :
      (u : List ℕ)
      → (length u == 0) ≡ false
      → is_username_taken cs u ≡ false
      → is_username_taken ds u ≡ false

or-false : (a b : Bool) → (a || b) ≡ false → (a ≡ false) × (b ≡ false)
or-false true b h = cc
or-false false b h = (refl, h)

false-or : (a b : Bool) → a ≡ false → b ≡ false → (a || b) ≡ false
false-or a b p q = rw (p, q) refl

pub Keeps-refl : (cs : List Client) → Keeps cs cs
Keeps-refl cs = record { differ = λ h. h; unused = λ u n h. h }

unlink-unused :
    (addr : ℕ) (cs : List Client) (u : List ℕ)
    → is_username_taken cs u ≡ false
    → is_username_taken (unlink addr cs) u ≡ false
unfolding unlink is_username_taken
unlink-unused addr [] u h = refl
unlink-unused addr (c ∷ cs) u h =
    let (here, there) = or-false (same_caseless c.username u) (is_username_taken cs u) h in
    elim (Bool-cases (c.addr == addr)) [
      | inl hit ↦ rw hit there
      | inr miss ↦ rw miss (false-or _ _ here (unlink-unused addr cs u there))
    ]

set_inbuf-unused :
    (cs : List Client) (d : Client) (u : List ℕ)
    → is_username_taken cs u ≡ false
    → is_username_taken (set_inbuf cs d) u ≡ false
unfolding set_inbuf is_username_taken
set_inbuf-unused [] d u h = refl
set_inbuf-unused (c ∷ cs) d u h =
    let (here, there) = or-false (same_caseless c.username u) (is_username_taken cs u) h in
    elim (Bool-cases (c.addr == d.addr)) [
      | inl hit ↦ rw hit h
      | inr miss ↦ rw miss (false-or _ _ here (set_inbuf-unused cs d u there))
    ]

unlink-Keeps : (addr : ℕ) (cs : List Client) → Keeps cs (unlink addr cs)
unlink-Keeps addr cs = record {
  differ = unlink-NamesDiffer addr cs;
  unused = λ u n h. unlink-unused addr cs u h;
}

set_inbuf-Keeps : (cs : List Client) (d : Client) → Keeps cs (set_inbuf cs d)
set_inbuf-Keeps cs d = record {
  differ = set_inbuf-NamesDiffer cs d;
  unused = λ u n h. set_inbuf-unused cs d u h;
}

-- A client without a name comes to the front.
fresh-Keeps :
    (addr fd : ℕ) (inbuf : List ℕ) (cs : List Client)
    → Keeps cs (record { addr = addr; fd = fd; username = []; inbuf = inbuf; inbuf_len = 0 } ∷ cs)
unfolding is_username_taken same_caseless
fresh-Keeps addr fd inbuf cs = record {
  differ = λ h. (fresh-Differ addr fd inbuf cs, h);
  unused = λ u n h. false-or _ _ (unnamed u n) h;
}
  where
    unnamed : (u : List ℕ) → (length u == 0) ≡ false → same_caseless [] u ≡ false
    unnamed [] n = cc
    unnamed (c ∷ u) n = refl

pub handle_new_connection-Keeps :
    (r : Room) (accepted : Option ℕ) (addr : ℕ) (inbuf : List ℕ)
    → Keeps r.clients (handle_new_connection r accepted addr inbuf).0.clients
unfolding handle_new_connection
handle_new_connection-Keeps r none addr inbuf = Keeps-refl r.clients
handle_new_connection-Keeps r (some fd) addr inbuf =
    elim (Bool-cases (leb r.max_clients r.current_clients)) [
      | inl full ↦ rw full (Keeps-refl r.clients)
      | inr place ↦ rw place (fresh-Keeps addr fd inbuf r.clients)
    ]

pub serve_client-Keeps :
    (s : Server) (c : Client) (received : List ℕ) {o : Out}
    → serve_client s c received ≡ some o
    → Keeps s.room.clients o.server.room.clients
unfolding serve_client remove_client
serve_client-Keeps s c received {o} e = elim (Received-cases (handle_client_message c received)) [
  | inl gone ↦
      let at : _ ≡ some o = (rw (serve_client, gone) at e) in
      subst (λ (p : Out). Keeps s.room.clients p.server.room.clients) (some-injective _ o at)
        (unlink-Keeps c.addr s.room.clients)
  | inr (inl over) ↦ let at : none ≡ some o = (rw (serve_client, over) at e) in cc
  | inr (inr (d, js, ok)) ↦
      subst (λ (p : Out). Keeps s.room.clients p.server.room.clients)
        (some-injective _ o (rw (serve_client, ok) at e)) (set_inbuf-Keeps s.room.clients d)
]
