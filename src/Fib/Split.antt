-- ===== src/Fib/Split.antt =====
-- The threads divide the range without a gap, without an overlap, and evenly.
use native.Mathlib.Nat.{mod-lt, mod-add-div}
use csci_4220_network_progra.Base.{
  ℕ, zero, suc, ◌+◌, ◌-◌, ◌*◌, ◌/◌, ◌%◌, ◌≤◌, ◌<◌, ◌≡◌, refl, sym, ap, ap₂, ◌∙◌, List, ◌∷◌, ◌++◌,
  ltb, arith, All, Bool-cases, inl, inr, ◌⊎◌, length, ltb→lt, ltb-false→le,
}
use csci_4220_network_progra.Fib.{Range, divide_from, divide, count, numbers, joined_numbers}

count_at : {s t m n : ℕ} → s ≡ t → m ≡ n → count s m ≡ count t n
count_at e f = ap₂ count e f

count-add : (s m n : ℕ) → count s m ++ count (s + m) n ≡ count s (m + n)
unfolding count
count-add s zero n = count_at {s = s + 0} {t = s} {m = n} {n = 0 + n} (omega arith) (omega arith)
count-add s (suc m) n =
    ap (λ (xs : List ℕ). s ∷ xs)
      (ap (λ (x : ℕ). count (s + 1) m ++ count x n) (next s m) ∙ count-add (s + 1) m n)
    ∙ count_at {s = s} {m = suc (m + n)} {n = suc m + n} refl (omega arith)
  where
    next : (s m : ℕ) → s + suc m ≡ s + 1 + m
    next s m = omega arith

-- The numbers of one thread, and those of the threads behind it.
numbers-append :
    (s c n len : ℕ) (xs : List ℕ)
    → 0 < s
    → xs ≡ count (s + c - 1 + 1) n
    → len ≡ c + n
    → numbers (record { start = s; end = s + c - 1 }) ++ xs ≡ count s len
unfolding numbers
numbers-append s c n len xs pos e total =
    let here : s + c - 1 + 1 - s ≡ c = omega (arith, pos) in
    let next : s + c - 1 + 1 ≡ s + c = omega (arith, pos) in
    ap₂ (λ (a b : List ℕ). a ++ b) (count_at refl here) (e ∙ count_at next refl)
    ∙ (count-add s c n ∙ count_at refl (sym total))

divide_from-numbers :
    (q r left i s : ℕ)
    → 0 < s
    → r ≤ i + left
    → joined_numbers (divide_from q r left i s) ≡ count s (left * q + (r - i))
unfolding divide_from joined_numbers count
divide_from-numbers q r zero i s pos h =
    count_at {m = 0} {n = 0 * q + (r - i)} refl (omega (arith, h))
divide_from-numbers q r (suc left) i s pos h = elim (Bool-cases (ltb i r)) [
  | inl more ↦ rw more (
      numbers-append s (q + 1) (left * q + (r - (i + 1))) (suc left * q + (r - i)) _ pos
        (divide_from-numbers q r left (i + 1) (s + (q + 1) - 1 + 1) (omega arith)
          (omega (arith, h)))
        (omega (arith, ltb→lt i r more)))
  | inr no_more ↦ rw no_more (
      numbers-append s (q + 0) (left * q + (r - (i + 1))) (suc left * q + (r - i)) _ pos
        (divide_from-numbers q r left (i + 1) (s + (q + 0) - 1 + 1) (omega arith)
          (omega (arith, h)))
        (omega (arith, ltb-false→le i r no_more)))
]

-- The numbers that the threads go through, put together in the order of the threads, are 1, 2, ...,
-- n, each once, for any positive number of threads.
pub divide-numbers :
    (n num_threads : ℕ) → 0 < num_threads → joined_numbers (divide n num_threads) ≡ count 1 n
unfolding divide
divide-numbers n num_threads h =
    divide_from-numbers (n / num_threads) (n % num_threads) num_threads 0 1 (omega arith)
      (omega (arith, mod-lt n h))
    ∙ count_at refl (omega (arith, mod-add-div n num_threads))

-- A range of `q` numbers, or of one more.
abbrev pub IsFair : ℕ → Range → Type 0
IsFair q r = (r.end + 1 ≡ r.start + q) ⊎ (r.end + 1 ≡ r.start + q + 1)

divide_from-IsFair :
    (q r left i s : ℕ)
    → 0 < s
    → (length (divide_from q r left i s) ≡ left) × All (IsFair q) (divide_from q r left i s)
unfolding divide_from
divide_from-IsFair q r zero i s pos = (refl, tt)
divide_from-IsFair q r (suc left) i s pos = elim (Bool-cases (ltb i r)) [
  | inl more ↦
      let (size, fair) = divide_from-IsFair q r left (i + 1) (s + (q + 1) - 1 + 1) (omega arith) in
      rw more (ap suc size, (inr (omega (arith, pos)), fair))
  | inr no_more ↦
      let (size, fair) = divide_from-IsFair q r left (i + 1) (s + (q + 0) - 1 + 1) (omega arith) in
      rw no_more (ap suc size, (inl (omega (arith, pos)), fair))
]

-- There is a range for each thread, and the ranges differ by at most one number: each has n /
-- num_threads of them, or one more.
pub divide-IsFair :
    (n num_threads : ℕ)
    → (length (divide n num_threads) ≡ num_threads)
      × All (IsFair (n / num_threads)) (divide n num_threads)
unfolding divide
divide-IsFair n num_threads =
    divide_from-IsFair (n / num_threads) (n % num_threads) num_threads 0 1 (omega arith)
