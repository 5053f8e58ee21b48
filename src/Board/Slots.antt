-- ===== src/Board/Slots.antt =====
-- The slots and the count of the clients.
use csci_4220_network_progra.Base.{
  ℕ, zero, suc, ◌+◌, ◌≡◌, ◌<◌, refl, ◌∙◌, Bool, true, false, Option, none, some, List, [], ◌∷◌,
  length, get_elem?, set, arith, length-set, leb, ◌==◌, Bool-cases, inl, inr, if◌then◌else◌,
  Option-cases,
}
use mathlib.Core.Option.{some-injective}
use csci_4220_network_progra.Board.{
  Board, place, connect, Read, eof, failed, bytes, store, command, disconnect, on_read, trimmed,
  starts_with, post_word, get_word, same, closed, serve_slots, Begin, stdin_eof, accept_failed,
  quiet, accepted, Round, exits, goes_on, round,
}

-- The slots that are taken.
unfoldable pub taken : List ℕ → ℕ
taken [] = 0
taken (s ∷ ss) = (if s == 0 then 0 else 1) + taken ss

-- `n_clients` is the number of taken slots.
pub record IsCounted (b : Board) : Type 0 where
  pub slots : length b.sockets ≡ 5
  pub entries : length b.board ≡ 10
  pub count : b.joined ≡ b.left + taken b.sockets

-- Placing a socket takes one slot more; it fails only where all are taken.
abbrev Placed : List ℕ → Option (List ℕ) → Type 0
Placed ss none = taken ss ≡ length ss
Placed ss (some ts) = (taken ts ≡ taken ss + 1) × (length ts ≡ length ss)

place-Placed : (ss : List ℕ) (fd : ℕ) → 0 < fd → Placed ss (place ss fd)
unfolding place taken
place-Placed [] fd h = refl
place-Placed (s ∷ ss) fd h = elim (Bool-cases (s == 0)) [
  | inl free ↦ rw free (ground arith, refl)
  | inr full ↦ elim (Option-cases (place ss fd)) [
    | inl n ↦
        let ih = (rw n at (place-Placed ss fd h)) in
        rw (full, n, place) (omega (arith, ih, weight full))
    | inr (ts, e) ↦
        let ih = (rw e at (place-Placed ss fd h)) in
        rw (full, e, place) (omega (arith, ih, weight full), omega (arith, ih))
  ]
]
  where
    weight : (s == 0) ≡ false → ◌≡◌ {A = ℕ} (if s == 0 then 0 else 1) 1
    weight full = rw full refl

taken-free :
    (ss : List ℕ) (i s : ℕ) → get_elem? ss i ≡ some s → 0 < s → taken (set ss i 0) + 1 ≡ taken ss
unfolding taken
taken-free [] i s at h = cc
taken-free (x ∷ ss) zero s at h = ground (arith, some-injective x s at)
taken-free (x ∷ ss) (suc i) s at h = omega (arith, taken-free ss i s at h)

connect-IsCounted : (b : Board) (fd : ℕ) → 0 < fd → IsCounted b → IsCounted (connect b fd).0
unfolding connect
connect-IsCounted b fd pos h = elim (Bool-cases (leb (b.left + 5) b.joined)) [
  | inl full ↦ rw (connect, full) h
  | inr room ↦ elim (Option-cases (place b.sockets fd)) [
    | inl n ↦ rw (connect, room, n) h
    | inr (ts, e) ↦
        let placed = (rw e at (place-Placed b.sockets fd pos)) in
        rw (connect, room, e)
          (record {
            slots = placed.1 ∙ h.slots;
            entries = h.entries;
            count = omega (arith, placed.0, h.count);
          })
  ]
]

command-IsCounted :
    (b : Board) (fd : ℕ) (text : List ℕ) → IsCounted b → IsCounted (command b fd text).0
unfolding command store
command-IsCounted b fd text h = elim (Bool-cases (starts_with (trimmed text) post_word)) [
  | inl post ↦
      rw post
        (record { slots = h.slots; entries = length-set b.board _ _ ∙ h.entries; count = h.count })
  | inr other ↦ elim (Bool-cases (same (trimmed text) get_word)) [
    | inl get ↦ rw (other, get) h
    | inr none_of_them ↦ rw (other, none_of_them) h
  ]
]

disconnect-IsCounted :
    (b : Board) (i fd : ℕ)
    → get_elem? b.sockets i ≡ some fd
    → 0 < fd
    → IsCounted b
    → IsCounted (disconnect b i fd).0
unfolding disconnect
disconnect-IsCounted b i fd at pos h = record {
  slots = length-set b.sockets i 0 ∙ h.slots;
  entries = h.entries;
  count = omega (arith, taken-free b.sockets i fd at pos, h.count);
}

on_read-IsCounted :
    (b : Board) (i fd : ℕ) (r : Read)
    → get_elem? b.sockets i ≡ some fd
    → 0 < fd
    → IsCounted b
    → IsCounted (on_read b i fd r).0
unfolding on_read
on_read-IsCounted b i fd eof at pos h = disconnect-IsCounted b i fd at pos h
on_read-IsCounted b i fd failed at pos h = disconnect-IsCounted b i fd at pos h
on_read-IsCounted b i fd (bytes text) at pos h = command-IsCounted b fd text h

serve_slots-IsCounted :
    (ready : ℕ → Bool) (reads : ℕ → Read) (rounds i : ℕ) (b : Board)
    → ready 0 ≡ false
    → IsCounted b
    → IsCounted (serve_slots ready reads rounds i b).0
unfolding serve_slots
serve_slots-IsCounted ready reads zero i b no_stdin h = h
serve_slots-IsCounted ready reads (suc rounds) i b no_stdin h =
    elim (Option-cases (get_elem? b.sockets i)) [
      | inl n ↦ rw (serve_slots, n) h
      | inr (fd, e) ↦ elim (Bool-cases (ready fd)) [
        | inl on ↦
            rw (serve_slots, e, on)
              (serve_slots-IsCounted ready reads rounds (i + 1) (on_read b i fd (reads i)).0
                no_stdin (on_read-IsCounted b i fd (reads i) e (positive fd on no_stdin) h))
        | inr off ↦
            rw (serve_slots, e, off) (serve_slots-IsCounted ready reads rounds (i + 1) b no_stdin h)
      ]
    ]
  where
    positive : (fd : ℕ) → ready fd ≡ true → ready 0 ≡ false → 0 < fd
    positive zero on off = cc
    positive (suc fd) on off = omega arith

-- What a round leaves, if the server goes on.
abbrev pub Leaves : Round → Type 0
Leaves (exits es) = Unit
Leaves (goes_on b es) = IsCounted b

abbrev pub SocketsPositive : Begin → Type 0
SocketsPositive (accepted fd) = 0 < fd
SocketsPositive _ = Unit

-- A round keeps `n_clients` equal to the number of taken slots, with five slots and ten entries,
-- whichever sockets are ready and whatever is read from them, as long as the standard input, whose
-- descriptor 0 also marks a free slot, is not among them.
pub round-IsCounted :
    (ready : ℕ → Bool) (reads : ℕ → Read) (e : Begin) (b : Board)
    → ready 0 ≡ false
    → SocketsPositive e
    → IsCounted b
    → Leaves (round ready reads e b)
unfolding round
round-IsCounted ready reads stdin_eof b no_stdin pos h = tt
round-IsCounted ready reads accept_failed b no_stdin pos h = tt
round-IsCounted ready reads quiet b no_stdin pos h =
    serve_slots-IsCounted ready reads 5 0 b no_stdin h
round-IsCounted ready reads (accepted fd) b no_stdin pos h =
    serve_slots-IsCounted ready reads 5 0 (connect b fd).0 no_stdin (connect-IsCounted b fd pos h)

taken-same : (ss : List ℕ) (i : ℕ) → get_elem? ss i ≡ some 0 → taken (set ss i 0) ≡ taken ss
unfolding taken
taken-same [] i at = cc
taken-same (x ∷ ss) zero at = ground (arith, some-injective x 0 at)
taken-same (x ∷ ss) (suc i) at = omega (arith, taken-same ss i at)

-- When the standard input is at its end as seen through a free slot, that slot is served as a client
-- that leaves: descriptor 0 is closed, and the count of clients is one below that of the taken slots.
pub on_read-stdin :
    (b : Board) (i : ℕ)
    → get_elem? b.sockets i ≡ some 0
    → IsCounted b
    → let (b1, out) = on_read b i 0 eof in
      (out ≡ closed 0 ∷ []) × (b1.joined + 1 ≡ b1.left + taken b1.sockets)
unfolding on_read disconnect
on_read-stdin b i at h = (refl, omega (arith, taken-same b.sockets i at, h.count))
