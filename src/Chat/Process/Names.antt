-- ===== src/Chat/Process/Names.antt =====
-- The list of clients over any run of the server with one worker.
use csci_4220_network_progra.Base.{
  ℕ, ◌≡◌, refl, ◌∙◌, Bool, true, false, ◌||◌, ◌&&◌, not, List, [], ◌∷◌, ◌==◌, length, arith, All,
  Bool-cases, inl, inr, Option-cases, take_all, length-take,
}
use csci_4220_network_progra.CString.{same_caseless, same_caseless_comm}
use csci_4220_network_progra.Chat.Queue.{Job}
use csci_4220_network_progra.Chat.Room.{Client, unlink, is_username_taken}
use csci_4220_network_progra.Chat.Process.{
  cut, is_valid, find_client, set_username, setup_username, process_message,
}

-- Two clients that have given names do not have the same name, in any case of its letters.
abbrev pub Differ : Client → Client → Type 0
Differ c d = (not (length c.username == 0) && same_caseless c.username d.username) ≡ false

abbrev pub NamesDiffer : List Client → Type 0
NamesDiffer [] = Unit
NamesDiffer (c ∷ cs) = All (Differ c) cs × NamesDiffer cs

or-false : (a b : Bool) → (a || b) ≡ false → (a ≡ false) × (b ≡ false)
or-false true b h = cc
or-false false b h = (refl, h)

and-false : (a : Bool) {b : Bool} → b ≡ false → (a && b) ≡ false
and-false true h = h
and-false false h = refl

Differ-taken :
    (c : Client) (cs : List Client) (w : List ℕ)
    → is_username_taken cs w ≡ false
    → All (Differ (record c { username = w })) cs
unfolding is_username_taken
Differ-taken c [] w h = tt
Differ-taken c (d ∷ cs) w h =
    let (here, there) = or-false (same_caseless d.username w) (is_username_taken cs w) h in
    (and-false _ (same_caseless_comm w d.username ∙ here), Differ-taken c cs w there)

Differ-set_username :
    (c : Client) (cs : List Client) (addr : ℕ) (w : List ℕ)
    → same_caseless c.username (cut 32 w) ≡ false
    → All (Differ c) cs
    → All (Differ c) (set_username cs addr w)
unfolding set_username
Differ-set_username c [] addr w h a = tt
Differ-set_username c (d ∷ cs) addr w h a = elim (Bool-cases (d.addr == addr)) [
  | inl hit ↦ rw hit (and-false _ h, a.1)
  | inr miss ↦ rw miss (a.0, Differ-set_username c cs addr w h a.1)
]

pub set_username-NamesDiffer :
    (cs : List Client) (addr : ℕ) (w : List ℕ)
    → is_username_taken cs (cut 32 w) ≡ false
    → NamesDiffer cs
    → NamesDiffer (set_username cs addr w)
unfolding set_username is_username_taken
set_username-NamesDiffer [] addr w free h = tt
set_username-NamesDiffer (c ∷ cs) addr w free h = elim (Bool-cases (c.addr == addr)) [
  | inl hit ↦ rw hit (Differ-taken c cs (cut 32 w) (or-false _ _ free).1, h.1)
  | inr miss ↦ rw miss (
    Differ-set_username c cs addr w (or-false _ _ free).0 h.0,
    set_username-NamesDiffer cs addr w (or-false _ _ free).1 h.1,
  )
]

Differ-unlink :
    (c : Client) (addr : ℕ) (cs : List Client) → All (Differ c) cs → All (Differ c) (unlink addr cs)
unfolding unlink
Differ-unlink c addr [] a = tt
Differ-unlink c addr (d ∷ cs) a = elim (Bool-cases (d.addr == addr)) [
  | inl hit ↦ rw hit a.1
  | inr miss ↦ rw miss (a.0, Differ-unlink c addr cs a.1)
]

pub unlink-NamesDiffer :
    (addr : ℕ) (cs : List Client) → NamesDiffer cs → NamesDiffer (unlink addr cs)
unfolding unlink
unlink-NamesDiffer addr [] h = tt
unlink-NamesDiffer addr (c ∷ cs) h = elim (Bool-cases (c.addr == addr)) [
  | inl hit ↦ rw hit h.1
  | inr miss ↦ rw miss (Differ-unlink c addr cs h.0, unlink-NamesDiffer addr cs h.1)
]

length-set_username :
    (cs : List Client) (addr : ℕ) (w : List ℕ) → length (set_username cs addr w) ≡ length cs
unfolding set_username
length-set_username [] addr w = refl
length-set_username (c ∷ cs) addr w = elim (Bool-cases (c.addr == addr)) [
  | inl hit ↦ rw hit refl
  | inr miss ↦ rw (miss, length-set_username cs addr w) refl
]

-- What `process_message` keeps of the list.
abbrev pub Kept : List Client → List Client → Type 0
Kept cs ds = (NamesDiffer cs → NamesDiffer ds) × (length ds ≡ length cs)

setup_username-Kept :
    (cs : List Client) (sender : Client) (msg : List ℕ) → Kept cs (setup_username cs sender msg).0
unfolding setup_username
setup_username-Kept cs sender msg =
    let w = cut 32 msg in
    elim (Bool-cases (not (is_valid w) || length w == 0)) [
      | inl bad ↦ rw bad (λ h. h, refl)
      | inr good ↦ elim (Bool-cases (is_username_taken cs w)) [
        | inl taken ↦ rw (good, taken) (λ h. h, refl)
        | inr free ↦
            let again : cut 32 w ≡ w = take_all 31 w (omega (arith, length-take 31 msg)) in
            rw (good, free)
              (
                set_username-NamesDiffer cs sender.addr w (rw again free),
                length-set_username cs sender.addr w,
              )
      ]
    ]

pub process_message-Kept : (cs : List Client) (job : Job) → Kept cs (process_message cs job).0
unfolding process_message
process_message-Kept cs job = elim (Option-cases (find_client cs job.sender_fd)) [
  | inl n ↦ rw (n, process_message) (λ h. h, refl)
  | inr (sender, e) ↦ elim (Bool-cases (length sender.username == 0)) [
    | inl new ↦ rw (e, process_message, new) (setup_username-Kept cs sender job.msg)
    | inr named ↦ rw (e, process_message, named) (λ h. h, refl)
  ]
]
