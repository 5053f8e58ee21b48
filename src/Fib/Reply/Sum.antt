-- ===== src/Fib/Reply/Sum.antt =====
-- The reply names the sum of the Fibonacci numbers.
use native.Mathlib.Nat.{zero-add}
use csci_4220_network_progra.Base.{
  ℕ, zero, suc, ◌+◌, ◌-◌, ◌*◌, ◌/◌, ◌%◌, ◌^◌, ◌≤◌, ◌<◌, ◌≡◌, refl, sym, ap, ◌∙◌, subst, Bool, true,
  false, some, List, [], ◌∷◌, ◌++◌, ltb, length, arith, All, All-left, All-right, lt→ltb,
  length-append, length-take, Bool-cases, inl, inr,
}
use csci_4220_network_progra.Fib.{Range, numbers, count, divide, joined_numbers}
use csci_4220_network_progra.Fib.Number.{fib, fibonacci, fib-fibonacci}
use csci_4220_network_progra.Fib.Split.{IsFair, divide-numbers, divide-IsFair}
use csci_4220_network_progra.Fib.Reply.{
  digits_from, digits, Result, separator, compute, worker_thread, thread_text, thread_line, collect,
  summary_text, summary, reply,
}

pub length-digits_from : (fuel n : ℕ) → length (digits_from fuel n) ≤ fuel
unfolding digits_from
length-digits_from zero n = omega arith
length-digits_from (suc fuel) n = elim (Bool-cases (ltb n 10)) [
  | inl one ↦ rw one (omega arith)
  | inr more ↦ rw more (
      omega (
        arith,
        length-append (digits_from fuel (n / 10)) ((48 + n % 10) ∷ []),
        length-digits_from fuel (n / 10),
      ))
]

length-separator : (b : Bool) → length (separator b) ≤ 1
length-separator true = omega arith
length-separator false = omega arith

length-thread_line : (tid : ℕ) (r : Range) (text : List ℕ) → length (thread_line tid r text) ≤ 511
unfolding thread_line
length-thread_line tid r text = omega (arith, length-take 511 (thread_text tid r text))

-- The sum of the Fibonacci numbers with these indices.
pub fibonacci_sum : List ℕ → ℕ
fibonacci_sum [] = 0
fibonacci_sum (i ∷ is) = fibonacci i + fibonacci_sum is

fibonacci_sum-append :
    (xs ys : List ℕ) → fibonacci_sum (xs ++ ys) ≡ fibonacci_sum xs + fibonacci_sum ys
unfolding fibonacci_sum
fibonacci_sum-append [] ys = omega arith
fibonacci_sum-append (x ∷ xs) ys = omega (arith, fibonacci_sum-append xs ys)

fibonacci_sum-count :
    (m s t : ℕ) → t ≡ suc (s + m) → fibonacci_sum (count s m) + fibonacci (suc s) ≡ fibonacci t
unfolding fibonacci_sum count
fibonacci_sum-count zero s t e =
    let same : fibonacci t ≡ fibonacci (suc s) = ap fibonacci {y = suc s} (omega (arith, e)) in
    omega (arith, same)
fibonacci_sum-count (suc m) s t e =
    let next : fibonacci (suc (s + 1)) ≡ fibonacci s + fibonacci (suc s) =
      ap fibonacci {x = suc (s + 1)} {y = suc (suc s)} (omega arith) in
    omega (arith, fibonacci_sum-count m (s + 1) t (omega (arith, e)), next)

plus_zero : (n : ℕ) → n ≡ n + 0
plus_zero n = omega arith

regroup : (a b c : ℕ) → a + b + c ≡ a + (b + c)
regroup a b c = omega arith

-- A thread whose numbers fit.
compute-sum :
    (is : List ℕ) (sum : ℕ) (result : List ℕ) (first : Bool)
    → All (λ i. 0 < i) is
    → sum + fibonacci_sum is < 2 ^ 63
    → length result + 21 * length is < 256
    → (text : List ℕ) × (compute is sum result first
        ≡ some (record { sum = sum + fibonacci_sum is; result = text }))
unfolding compute fibonacci_sum
compute-sum [] sum result first pos small short =
    (result, ap (λ (n : ℕ). some (record { sum = n; result = result })) (plus_zero sum))
compute-sum (i ∷ is) sum result first pos small short =
    let fits : ltb (fibonacci i) (2 ^ 63) ≡ true = lt→ltb (fibonacci i) (2 ^ 63) (omega arith) in
    let value : fib i ≡ some (fibonacci i) = fib-fibonacci i pos.0 ∙ rw fits refl in
    let text = result ++ (separator first ++ digits (fibonacci i)) in
    let size : length text ≤ length result + 21 = omega (
      arith,
      length-append result (separator first ++ digits (fibonacci i)),
      length-append (separator first) (digits (fibonacci i)),
      length-separator first,
      length-digits_from 20 (fibonacci i),
    ) in
    let (end, e) =
      compute-sum is (sum + fibonacci i) text false pos.1 (omega (arith, small))
        (omega (arith, size, short)) in
    (
      end,
      rw
          (
            compute,
            value,
            lt→ltb (sum + fibonacci i) (2 ^ 63) (omega arith),
            lt→ltb (length text) 256 (omega (arith, size, short)),
            e,
          )
          (ap (λ (n : ℕ). some (record { sum = n; result = end }))
            (regroup sum (fibonacci i) (fibonacci_sum is))),
    )

-- The threads whose ranges have at most twelve numbers.
collect-sum :
    (rs : List Range) (tid total : ℕ) (response : List ℕ)
    → All (λ r. length (numbers r) ≤ 12) rs
    → All (λ i. 0 < i) (joined_numbers rs)
    → total + fibonacci_sum (joined_numbers rs) < 2 ^ 63
    → length response + 511 * length rs < 4096
    → (text : List ℕ) × (length text ≤ length response + 511 * length rs)
      × (collect rs tid total response
          ≡ some (record { sum = total + fibonacci_sum (joined_numbers rs); result = text }))
unfolding collect worker_thread joined_numbers fibonacci_sum
collect-sum [] tid total response few pos small short = (
  response,
  omega arith,
  ap (λ (n : ℕ). some (record { sum = n; result = response })) (plus_zero total),
)
collect-sum (r ∷ rs) tid total response few pos small short =
    let split_sum = fibonacci_sum-append (numbers r) (joined_numbers rs) in
    let (text, e) =
      compute-sum (numbers r) 0 [] true (All-left _ (numbers r) (joined_numbers rs) pos)
        (omega (arith, small, split_sum)) (omega (arith, few.0)) in
    let e' = (rw zero-add at e) in
    let line = thread_line tid r text in
    let size = length-append response line in
    let (end, bound, f) =
      collect-sum rs (tid + 1) (total + fibonacci_sum (numbers r)) (response ++ line) few.1
        (All-right _ (numbers r) (joined_numbers rs) pos) (omega (arith, small, split_sum))
        (omega (arith, short, size, length-thread_line tid r text)) in
    (
      end,
      omega (arith, bound, size, length-thread_line tid r text),
      rw
          (
            collect,
            worker_thread,
            e',
            lt→ltb (total + fibonacci_sum (numbers r)) (2 ^ 63) (omega (arith, small, split_sum)),
            lt→ltb (length (response ++ line)) 4096
                (omega (arith, short, size, length-thread_line tid r text)),
            f,
            split_sum,
          )
          (ap (λ (n : ℕ). some (record { sum = n; result = end }))
            (regroup total (fibonacci_sum (numbers r)) (fibonacci_sum (joined_numbers rs)))),
    )

length-count : (s n : ℕ) → length (count s n) ≡ n
unfolding count
length-count s zero = refl
length-count s (suc n) = ap suc (length-count (s + 1) n)

length-summary : (n total : ℕ) → length (summary n total) ≤ 255
unfolding summary
length-summary n total = omega (arith, length-take 255 (summary_text n total))

-- The reply, from what the threads have left.
collect-reply :
    (n t : ℕ) (c : Result)
    → collect (divide n t) 1 0 [] ≡ some c
    → length c.result ≤ 3577
    → reply n t ≡ some (c.result ++ summary n c.sum)
unfolding reply
collect-reply n t c e short =
    let fits : length (c.result ++ summary n c.sum) < 4096 =
      omega (arith, length-append c.result (summary n c.sum), length-summary n c.sum, short) in
    rw (reply, e, lt→ltb (length (c.result ++ summary n c.sum)) 4096 fits) refl

fair_few :
    (q : ℕ) (rs : List Range) → q < 12 → All (IsFair q) rs → All (λ r. length (numbers r) ≤ 12) rs
unfolding numbers
fair_few q [] h fair = tt
fair_few q (r ∷ rs) h fair = (one fair.0, fair_few q rs h fair.1)
  where
    one : IsFair q r → length (numbers r) ≤ 12
    one (inl e) = omega (arith, length-count r.start (r.end + 1 - r.start), e, h)
    one (inr e) = omega (arith, length-count r.start (r.end + 1 - r.start), e, h)

count_positive : (m s : ℕ) → 0 < s → All (λ i. 0 < i) (count s m)
unfolding count
count_positive zero s h = tt
count_positive (suc m) s h = (h, count_positive m (s + 1) (omega arith))

-- With at most seven threads, fewer than twelve numbers to a thread before the rest is handed out, and
-- n at most 90, as the Fibonacci number of n + 2 fits into a `long`: no array overflows and no
-- addition does, and the reply ends with the line that names n and the sum of the first n Fibonacci
-- numbers, which is one less than the Fibonacci number of n + 2.
pub reply-sum :
    (n num_threads : ℕ)
    → 0 < num_threads
    → num_threads ≤ 7
    → n / num_threads < 12
    → fibonacci (n + 2) < 2 ^ 63
    → (total : ℕ) × (lines : List ℕ) × (total + 1 ≡ fibonacci (n + 2))
      × (reply n num_threads ≡ some (lines ++ summary n total))
reply-sum n t pos few share small =
    let all = divide-numbers n t pos in
    let (size, fair) = divide-IsFair n t in
    let total : fibonacci_sum (joined_numbers (divide n t)) + fibonacci 2 ≡ fibonacci (n + 2) =
      ap (λ (xs : List ℕ). fibonacci_sum xs + fibonacci 2) all
      ∙ fibonacci_sum-count n 1 (n + 2) (omega arith) in
    let (text, bound, e) =
      collect-sum (divide n t) 1 0 [] (fair_few (n / t) (divide n t) share fair)
        (subst (λ (xs : List ℕ). All (λ i. 0 < i) xs) (sym all) (count_positive n 1 (omega arith)))
        (omega (arith, total, small)) (omega (arith, size, few)) in
    (
      0 + fibonacci_sum (joined_numbers (divide n t)),
      text,
      omega (arith, total),
      collect-reply n t (record { sum = _; result = text }) e (omega (arith, bound, size, few)),
    )
