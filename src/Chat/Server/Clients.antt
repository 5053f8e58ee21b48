-- ===== src/Chat/Server/Clients.antt =====
-- What the changes of the list of clients keep.
use csci_4220_network_progra.Base.{
  ℕ, ◌+◌, ◌≡◌, ◌≢◌, refl, sym, ◌∙◌, List, [], ◌∷◌, ◌==◌, ==_iff, length, arith, All, Bool-cases,
  inl, inr, ◌⊎◌,
}
use csci_4220_network_progra.Chat.Room.{Client, unlink}
use csci_4220_network_progra.Chat.Lines.Split.{IsClean}
use csci_4220_network_progra.Chat.Lines.Call.{Holds}
use csci_4220_network_progra.Chat.Process.{cut, set_username}
use csci_4220_network_progra.Chat.Process.Names.{NamesDiffer}
use csci_4220_network_progra.Chat.Server.{set_inbuf}

-- The buffer of a client holds the start of a line.
abbrev pub BufferOk : Client → Type 0
BufferOk c = (p : List ℕ) × Holds c p × IsClean p

-- The addresses of the clients differ.
abbrev pub AddrsApart : List Client → Type 0
AddrsApart [] = Unit
AddrsApart (c ∷ cs) = All (λ d. d.addr ≢ c.addr) cs × AddrsApart cs

abbrev pub Present : ℕ → List Client → Type 0
Present a [] = ⊥
Present a (c ∷ cs) = (c.addr ≡ a) ⊎ Present a cs

module _ (P : Client → Type 0) where
  pub All-unlink : (a : ℕ) (cs : List Client) → All P cs → All P (unlink a cs)
  unfolding unlink
  All-unlink a [] h = tt
  All-unlink a (c ∷ cs) h = elim (Bool-cases (c.addr == a)) [
    | inl hit ↦ rw hit h.1
    | inr miss ↦ rw miss (h.0, All-unlink a cs h.1)
  ]

  pub All-set_inbuf :
      (cs : List Client) (c : Client)
      → ((d : Client) → P d → P (record d { inbuf = c.inbuf; inbuf_len = c.inbuf_len }))
      → All P cs
      → All P (set_inbuf cs c)
  unfolding set_inbuf
  All-set_inbuf [] c f h = tt
  All-set_inbuf (d ∷ cs) c f h = elim (Bool-cases (d.addr == c.addr)) [
    | inl hit ↦ rw hit (f d h.0, h.1)
    | inr miss ↦ rw miss (h.0, All-set_inbuf cs c f h.1)
  ]

  pub All-set_username :
      (cs : List Client) (a : ℕ) (w : List ℕ)
      → ((d : Client) → P d → P (record d { username = cut 32 w }))
      → All P cs
      → All P (set_username cs a w)
  unfolding set_username
  All-set_username [] a w f h = tt
  All-set_username (d ∷ cs) a w f h = elim (Bool-cases (d.addr == a)) [
    | inl hit ↦ rw hit (f d h.0, h.1)
    | inr miss ↦ rw miss (h.0, All-set_username cs a w f h.1)
  ]

pub unlink-AddrsApart : (a : ℕ) (cs : List Client) → AddrsApart cs → AddrsApart (unlink a cs)
unfolding unlink
unlink-AddrsApart a [] h = tt
unlink-AddrsApart a (c ∷ cs) h = elim (Bool-cases (c.addr == a)) [
  | inl hit ↦ rw hit h.1
  | inr miss ↦ rw miss (All-unlink _ a cs h.0, unlink-AddrsApart a cs h.1)
]

pub set_inbuf-AddrsApart :
    (cs : List Client) (c : Client) → AddrsApart cs → AddrsApart (set_inbuf cs c)
unfolding set_inbuf
set_inbuf-AddrsApart [] c h = tt
set_inbuf-AddrsApart (d ∷ cs) c h = elim (Bool-cases (d.addr == c.addr)) [
  | inl hit ↦ rw hit h
  | inr miss ↦ rw miss (All-set_inbuf _ cs c (λ d h. h) h.0, set_inbuf-AddrsApart cs c h.1)
]

pub set_username-AddrsApart :
    (cs : List Client) (a : ℕ) (w : List ℕ) → AddrsApart cs → AddrsApart (set_username cs a w)
unfolding set_username
set_username-AddrsApart [] a w h = tt
set_username-AddrsApart (d ∷ cs) a w h = elim (Bool-cases (d.addr == a)) [
  | inl hit ↦ rw hit h
  | inr miss ↦
      rw miss (All-set_username _ cs a w (λ d h. h) h.0, set_username-AddrsApart cs a w h.1)
]

pub set_inbuf-NamesDiffer :
    (cs : List Client) (c : Client) → NamesDiffer cs → NamesDiffer (set_inbuf cs c)
unfolding set_inbuf
set_inbuf-NamesDiffer [] c h = tt
set_inbuf-NamesDiffer (d ∷ cs) c h = elim (Bool-cases (d.addr == c.addr)) [
  | inl hit ↦ rw hit h
  | inr miss ↦ rw miss (All-set_inbuf _ cs c (λ d h. h) h.0, set_inbuf-NamesDiffer cs c h.1)
]

pub length-set_inbuf : (cs : List Client) (c : Client) → length (set_inbuf cs c) ≡ length cs
unfolding set_inbuf
length-set_inbuf [] c = refl
length-set_inbuf (d ∷ cs) c = elim (Bool-cases (d.addr == c.addr)) [
  | inl hit ↦ rw hit refl
  | inr miss ↦ rw (miss, length-set_inbuf cs c) refl
]

pub length-unlink : (a : ℕ) (cs : List Client) → Present a cs → length (unlink a cs) + 1 ≡ length cs
unfolding unlink
length-unlink a [] h = absurd h
length-unlink a (c ∷ cs) h = elim (Bool-cases (c.addr == a)) [
  | inl hit ↦ rw hit (omega arith)
  | inr miss ↦ rw miss (elim h [
    | inl same ↦ absurd (ground arith)
    | inr later ↦ omega (arith, length-unlink a cs later)
  ])
]

pub unlink-Present : (a b : ℕ) (cs : List Client) → a ≢ b → Present a cs → Present a (unlink b cs)
unfolding unlink
unlink-Present a b [] ne h = h
unlink-Present a b (c ∷ cs) ne h = elim (Bool-cases (c.addr == b)) [
  | inl hit ↦
      rw hit
        (elim h [ inl same ↦ absurd (ne (sym same ∙ (==_iff c.addr b).0 hit)) | inr later ↦ later ])
  | inr miss ↦
      rw miss (elim h [ inl same ↦ inl same | inr later ↦ inr (unlink-Present a b cs ne later) ])
]

pub set_inbuf-Present :
    (a : ℕ) (cs : List Client) (c : Client) → Present a cs → Present a (set_inbuf cs c)
unfolding set_inbuf
set_inbuf-Present a [] c h = h
set_inbuf-Present a (d ∷ cs) c h = elim (Bool-cases (d.addr == c.addr)) [
  | inl hit ↦ rw hit h
  | inr miss ↦
      rw miss (elim h [ inl same ↦ inl same | inr later ↦ inr (set_inbuf-Present a cs c later) ])
]
