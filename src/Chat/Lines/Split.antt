-- ===== src/Chat/Lines/Split.antt =====
-- The lines of a stream of bytes, whatever buffers it goes through.
use csci_4220_network_progra.Base.{
  ℕ, ◌≡◌, ◌≢◌, refl, ap, ◌∙◌, false, List, [], ◌∷◌, ◌++◌, ◌==◌, ==_iff, if◌then◌else◌, arith, All,
  Bool-cases, inl, inr,
}

-- The complete lines, without their newlines, and what stands behind the last newline.
pub record Lines : Type 0 where
  pub complete : List (List ℕ)
  pub partial : List ℕ

-- A byte in front of the others.
abbrev pub put : ℕ → List (List ℕ) → List ℕ → Lines
put c [] p = record { complete = []; partial = c ∷ p }
put c (l ∷ ls) p = record { complete = (c ∷ l) ∷ ls; partial = p }

unfoldable pub split : List ℕ → Lines
split [] = record { complete = []; partial = [] }
split (c ∷ cs) =
    let s = split cs in
    if c == 10
    then record { complete = [] ∷ s.complete; partial = s.partial }
    else put c s.complete s.partial

-- The lines that come before others.
abbrev pub before : List (List ℕ) → Lines → Lines
before ls s = record { complete = ls ++ s.complete; partial = s.partial }

-- Splitting a stream in two pieces: the partial line of the first goes on in the second.
pub split-append :
    (a b : List ℕ) → split (a ++ b) ≡ before (split a).complete (split ((split a).partial ++ b))
unfolding split
split-append [] b = refl
split-append (c ∷ a) b = elim (Bool-cases (c == 10)) [
  | inl nl ↦ rw (nl, split-append a b) refl
  | inr other ↦ rw (other, split-append a b) (go other (split a).complete (split a).partial)
]
  where
    go :
        (c == 10) ≡ false
        → (ls : List (List ℕ)) (p : List ℕ)
        → put c (before ls (split (p ++ b))).complete (before ls (split (p ++ b))).partial
          ≡ before (put c ls p).complete (split ((put c ls p).partial ++ b))
    go other [] p = rw other refl
    go other (l ∷ ls) p = refl

abbrev pub IsClean : List ℕ → Type 0
IsClean s = All (λ c. c ≢ 0) s

abbrev pub OnOneLine : List ℕ → Type 0
OnOneLine s = All (λ c. c ≢ 10) s

-- A stream either has no newline, or it is a line, a newline and another stream.
pub data Shape (s : List ℕ) : Type 0 where
  unended : OnOneLine s → split s ≡ record { complete = []; partial = s } → Shape s
  line :
      (l rest : List ℕ)
      → s ≡ l ++ 10 ∷ rest
      → OnOneLine l
      → split s ≡ before (l ∷ []) (split rest)
      → Shape s

pub shape : (s : List ℕ) → Shape s
unfolding split
shape [] = unended tt refl
shape (c ∷ cs) = elim (Bool-cases (c == 10)) [
  | inl nl ↦ line [] cs (ap (λ (b : ℕ). b ∷ cs) ((==_iff c 10).0 nl)) tt (rw nl refl)
  | inr other ↦ longer other (shape cs)
]
  where
    longer : (c == 10) ≡ false → Shape cs → Shape (c ∷ cs)
    longer other (unended one e) = unended (ground arith, one) (rw (other, e) refl)
    longer other (line l rest s one e) =
        line (c ∷ l) rest (ap (◌∷◌ c) s) (ground arith, one) (rw (other, e) refl)

-- The partial line has no newline.
pub split-OnOneLine : (s : List ℕ) → OnOneLine (split s).partial
unfolding split
split-OnOneLine [] = tt
split-OnOneLine (c ∷ cs) = elim (Bool-cases (c == 10)) [
  | inl nl ↦ rw nl (split-OnOneLine cs)
  | inr other ↦ rw other (go other (split cs).complete (split cs).partial (split-OnOneLine cs))
]
  where
    go :
        (c == 10) ≡ false
        → (ls : List (List ℕ)) (p : List ℕ) → OnOneLine p
        → OnOneLine (put c ls p).partial
    go other [] p h = (ground arith, h)
    go other (l ∷ ls) p h = h

-- A carriage return in front of the newline is not part of the line.
unfoldable pub without_cr : List ℕ → List ℕ
without_cr [] = []
without_cr (c ∷ []) = if c == 13 then [] else c ∷ []
without_cr (c ∷ d ∷ cs) = c ∷ without_cr (d ∷ cs)

-- A stream of lines, each with its newline.
unfoldable pub encode : List (List ℕ) → List ℕ
encode [] = []
encode (l ∷ ls) = l ++ 10 ∷ encode ls

pub split_line : (l s : List ℕ) → OnOneLine l → split (l ++ 10 ∷ s) ≡ before (l ∷ []) (split s)
unfolding split
split_line [] s one = refl
split_line (c ∷ l) s one =
    let other : (c == 10) ≡ false = ground (arith, one.0) in rw (other, split_line l s one.1) refl

pub split-encode :
    (ls : List (List ℕ))
    → All OnOneLine ls
    → split (encode ls) ≡ record { complete = ls; partial = [] }
unfolding split encode
split-encode [] h = refl
split-encode (l ∷ ls) h = split_line l (encode ls) h.0 ∙ ap (before (l ∷ [])) (split-encode ls h.1)

-- A partial line has no zero where the stream has none.
pub split-IsClean : (s : List ℕ) → IsClean s → IsClean (split s).partial
unfolding split
split-IsClean [] h = tt
split-IsClean (c ∷ cs) h = elim (Bool-cases (c == 10)) [
  | inl nl ↦ rw nl (split-IsClean cs h.1)
  | inr other ↦ rw other (go (split cs).complete (split cs).partial (split-IsClean cs h.1))
]
  where
    go : (ls : List (List ℕ)) (p : List ℕ) → IsClean p → IsClean (put c ls p).partial
    go [] p clean = (h.0, clean)
    go (l ∷ ls) p clean = clean

pub split_partial : (p : List ℕ) → OnOneLine p → split p ≡ record { complete = []; partial = p }
unfolding split
split_partial [] h = refl
split_partial (c ∷ p) h =
    let other : (c == 10) ≡ false = ground (arith, h.0) in rw (other, split_partial p h.1) refl
