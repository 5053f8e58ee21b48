-- ===== src/Fib/Session/Answered.antt =====
-- A number on its way from the client to the server, and the answer.
use csci_4220_network_progra.Base.{
  min, ℕ, zero, suc, ◌+◌, ◌-◌, ◌*◌, ◌/◌, ◌%◌, ◌^◌, ◌≤◌, ◌<◌, ◌≡◌, refl, sym, ap, ◌∙◌, subst, false,
  ◌||◌, Option, none, some, List, [], ◌∷◌, ◌++◌, ltb, leb, ◌==◌, length, arith, Bool-cases, inl,
  inr, length-append, take_all, lt→ltb,
}
use native.Mathlib.Nat.{div-add-mod, mod-lt, mul-le-mul}
use mathlib.Core.List.{append_assoc}
use csci_4220_network_progra.CString.{
  skip_spaces, scan_digits, scan_signed, scan_sign, scan_int, atoi,
}
use csci_4220_network_progra.Fib.Number.{fibonacci}
use csci_4220_network_progra.Fib.Reply.{digits_from, digits, summary}
use csci_4220_network_progra.Fib.Reply.Sum.{length-digits_from, reply-sum}
use csci_4220_network_progra.Fib.Session.{wrote, client_handler, client_message}

-- The value that the digits have is the number.
scan_digits-digits_from :
    (fuel n : ℕ) (s : List ℕ)
    → n < 10 ^ fuel
    → scan_digits (digits_from fuel n ++ s) 0 ≡ scan_digits s n
unfolding scan_digits digits_from
scan_digits-digits_from zero n s h = ap (scan_digits s) {x = 0} {y = n} (omega (arith, h))
scan_digits-digits_from (suc fuel) n s h = elim (Bool-cases (ltb n 10)) [
  | inl one ↦ rw one (digit s 0 n n (ground (arith, one)) (omega arith))
  | inr more ↦ rw more (
      ap (λ (t : List ℕ). scan_digits t 0)
        (append_assoc (digits_from fuel (n / 10)) ((48 + n % 10) ∷ []) s)
      ∙ (scan_digits-digits_from fuel (n / 10) ((48 + n % 10) ∷ s) (omega (arith, h))
          ∙ digit s (n / 10) (n % 10) n (omega arith) (omega arith)))
]
  where
    digit :
        (s : List ℕ) (v d n : ℕ)
        → d < 10
        → n ≡ v * 10 + d
        → scan_digits ((48 + d) ∷ s) v ≡ scan_digits s n
    digit s v d n small e =
        ground (arith, ap (scan_digits s) {x = v * 10 + (48 + d - 48)} {y = n} (omega (arith, e)))

-- A text that begins with a digit.
record Digit (s : List ℕ) : Type 0 where
  c : ℕ
  cs : List ℕ
  shape : s ≡ c ∷ cs
  low : 48 ≤ c
  high : c ≤ 57

digits_from-Digit : (fuel n : ℕ) (s : List ℕ) → Digit (digits_from (suc fuel) n ++ s)
unfolding digits_from
digits_from-Digit zero n s = elim (Bool-cases (ltb n 10)) [
  | inl one ↦
      rw one
        (record { c = 48 + n; cs = s; shape = refl; low = omega arith; high = ground (arith, one) })
  | inr more ↦
      rw more
        (record { c = 48 + n % 10; cs = s; shape = refl; low = omega arith; high = omega arith })
]
digits_from-Digit (suc fuel) n s = elim (Bool-cases (ltb n 10)) [
  | inl one ↦
      rw one
        (record { c = 48 + n; cs = s; shape = refl; low = omega arith; high = ground (arith, one) })
  | inr more ↦
      let front = digits_from-Digit fuel (n / 10) (((48 + n % 10) ∷ []) ++ s) in
      rw more (record {
        c = front.c;
        cs = front.cs;
        shape = append_assoc (digits_from (suc fuel) (n / 10)) ((48 + n % 10) ∷ []) s ∙ front.shape;
        low = front.low;
        high = front.high;
      })
]

scan_int-digit :
    (c : ℕ) (cs : List ℕ)
    → 48 ≤ c
    → c ≤ 57
    → scan_int (c ∷ cs)
      ≡ some (min (scan_digits (c ∷ cs) 0).0 (2 ^ 63 - 1) % 2 ^ 32, (scan_digits (c ∷ cs) 0).1)
unfolding scan_int scan_sign scan_signed skip_spaces
scan_int-digit c cs low high = ground arith

scan_int-Digit :
    (s : List ℕ)
    → Digit s
    → scan_int s ≡ some (min (scan_digits s 0).0 (2 ^ 63 - 1) % 2 ^ 32, (scan_digits s 0).1)
scan_int-Digit s h =
    subst
      (λ t. scan_int t ≡ some (min (scan_digits t 0).0 (2 ^ 63 - 1) % 2 ^ 32, (scan_digits t 0).1))
      (sym h.shape) (scan_int-digit h.c h.cs h.low h.high)

abbrev value_of : Option (ℕ × List ℕ) → ℕ
value_of o = elim o [ none ↦ 0 | some (v, _) ↦ v ]

stops : (n : ℕ) → scan_digits (10 ∷ []) n ≡ (n, 10 ∷ [])
unfolding scan_digits
stops n = refl

-- `%d` reads what `%d` has written.
pub atoi-digits : (n : ℕ) → n < 2 ^ 31 → atoi (digits n ++ 10 ∷ []) ≡ n
atoi-digits n h =
    let read = scan_int-Digit (digits n ++ 10 ∷ []) (digits_from-Digit 19 n (10 ∷ [])) in
    let value = scan_digits-digits_from 20 n (10 ∷ []) (omega (arith, h)) ∙ stops n in
    subst (λ (o : Option (ℕ × List ℕ)). value_of o ≡ n)
      (sym (read ∙ ap (λ (p : ℕ × List ℕ). some (min p.0 (2 ^ 63 - 1) % 2 ^ 32, p.1)) value))
      (omega (arith, h))

plain : (n : ℕ) → 0 < n → n < 96 → (n == 0 || leb (2 ^ 31) n) ≡ false
plain n some_n below = ground arith

few_numbers : (n t : ℕ) → 0 < t → t ≤ 7 → n / t < 12 → n < 96
few_numbers n t pos few share =
    let whole = div-add-mod n t in
    let rest = mod-lt n pos in
    let product : t * (n / t) ≤ 7 * 11 = mul-le-mul {m₂ = 11} few (omega (arith, share)) in
    omega (arith, whole, rest, product, few)

-- The client sends the number n that its user types, and the server sends back the answer: with at
-- most seven threads, fewer than twelve numbers to a thread before the rest is handed out, and n from 1
-- on and at most 90, as the Fibonacci number of n + 2 fits into a `long`, no array overflows and no
-- addition does, and the answer ends with the line that names n and the sum of the first n Fibonacci
-- numbers, which is one less than the Fibonacci number of n + 2.
pub client_handler-sum :
    (typed rest : List ℕ) (n num_threads : ℕ)
    → scan_int typed ≡ some (n, rest)
    → 0 < n
    → 0 < num_threads
    → num_threads ≤ 7
    → n / num_threads < 12
    → fibonacci (n + 2) < 2 ^ 63
    → (message : List ℕ) × (total : ℕ) × (lines : List ℕ) × (client_message typed ≡ some message)
      × (total + 1 ≡ fibonacci (n + 2))
      × (client_handler num_threads (some message) ≡ wrote (lines ++ summary n total))
unfolding client_message client_handler
client_handler-sum typed rest n t typed_n some_n pos few share small =
    let (total, lines, sum, answer) = reply-sum n t pos few share small in
    let below : n < 96 = few_numbers n t pos few share in
    let fits : length (digits n ++ 10 ∷ []) ≤ 31 =
      omega (arith, length-append (digits n) (10 ∷ []), length-digits_from 20 n) in
    let value : atoi (digits n ++ 10 ∷ []) ≡ n = atoi-digits n (omega (arith, below)) in
    (
      digits n ++ 10 ∷ [],
      total,
      lines,
      rw (client_message, typed_n, lt→ltb n (2 ^ 31) (omega (arith, below)))
          (ap some (take_all 31 _ fits)),
      sum,
      rw (client_handler, value, plain n some_n below, answer) refl,
    )
