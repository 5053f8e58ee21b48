-- ===== src/Fib/Number.antt =====
-- `fib`, with the overflow of a `long` of 64 bits as a failure.
use csci_4220_network_progra.Base.{
  ℕ, zero, suc, ◌+◌, ◌-◌, ◌^◌, ◌≤◌, ◌<◌, ◌≡◌, refl, ap, ◌∙◌, Bool, false, Option, none, some, ltb,
  leb, if◌then◌else◌, arith, Bool-cases, inl, inr, ltb→lt, lt→ltb, ltb-false→le, le→ltb-false,
}

-- The rounds of the loop that are left, with `a` and `b` before them.
unfoldable pub fib_loop : (left a b : ℕ) → Option ℕ
fib_loop zero a b = some b
fib_loop (suc left) a b =
    let rest = fib_loop left b (a + b) in if ltb (a + b) (2 ^ 63) then rest else none

unfoldable pub fib : ℕ → Option ℕ
fib n = if leb n 2 then some 1 else fib_loop (n - 2) 1 1

-- The Fibonacci numbers.
abbrev pub fibonacci : ℕ → ℕ
fibonacci zero = 0
fibonacci (suc zero) = 1
fibonacci (suc (suc n)) = fibonacci n + fibonacci (suc n)

fibonacci-le : (m k t : ℕ) → t ≡ suc m + k → fibonacci (suc m) ≤ fibonacci t
fibonacci-le m zero t e =
    let same : fibonacci t ≡ fibonacci (suc m) = ap fibonacci {y = suc m} (omega (arith, e)) in
    omega (arith, same)
fibonacci-le m (suc k) t e =
    let up : fibonacci m + fibonacci (suc m) ≤ fibonacci t =
      fibonacci-le (suc m) k t (omega (arith, e)) in
    omega (arith, up)

fib_loop-fibonacci :
    (left m t : ℕ)
    → t ≡ suc m + left
    → fibonacci (suc m) < 2 ^ 63
    → fib_loop left (fibonacci m) (fibonacci (suc m))
      ≡ (if ltb (fibonacci t) (2 ^ 63) then some (fibonacci t) else none)
unfolding fib_loop
fib_loop-fibonacci zero m t e h =
    let same : fibonacci t ≡ fibonacci (suc m) = ap fibonacci {y = suc m} (omega (arith, e)) in
    rw (same, lt→ltb (fibonacci (suc m)) (2 ^ 63) h) refl
fib_loop-fibonacci (suc left) m t e h =
    let sum = fibonacci m + fibonacci (suc m) in
    elim (Bool-cases (ltb sum (2 ^ 63))) [
      | inl fits ↦
          rw fits (fib_loop-fibonacci left (suc m) t (omega (arith, e)) (ltb→lt sum (2 ^ 63) fits))
      | inr over ↦
          let up : sum ≤ fibonacci t = fibonacci-le (suc m) left t (omega (arith, e)) in
          rw
            (
              over,
              le→ltb-false (fibonacci t) (2 ^ 63)
                  (omega (arith, up, ltb-false→le sum (2 ^ 63) over)),
            )
            refl
    ]

-- For n > 0 `fib` returns the Fibonacci number with the index n where it is below 2^63, and
-- overflows where it is not.
pub fib-fibonacci :
    (n : ℕ) → 0 < n → fib n ≡ (if ltb (fibonacci n) (2 ^ 63) then some (fibonacci n) else none)
unfolding fib fib_loop
fib-fibonacci zero h = absurd (omega (arith, h))
fib-fibonacci (suc zero) h = refl
fib-fibonacci (suc (suc zero)) h = refl
fib-fibonacci (suc (suc (suc k))) h =
    let n = suc (suc (suc k)) in
    let many : leb n 2 ≡ false = ground arith in
    let left : n - 2 ≡ suc k = omega arith in
    ap (λ (t : Bool). if t then some 1 else fib_loop (n - 2) 1 1) many
    ∙ (ap (λ (x : ℕ). fib_loop x 1 1) left
        ∙ fib_loop-fibonacci (suc k) 1 n (omega arith) (omega arith))
