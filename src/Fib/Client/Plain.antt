-- ===== src/Fib/Client/Plain.antt =====
-- The answer of the server holds no zero byte.
use csci_4220_network_progra.Base.{
  ℕ, zero, suc, ◌+◌, ◌/◌, ◌^◌, ◌<◌, ◌≡◌, Bool, true, false, ◌&&◌, Option, none, some, List, [], ◌∷◌,
  ◌++◌, ltb, if◌then◌else◌, length, take, codes, arith, All, All-append, Bool-cases, Option-cases,
  inl, inr, subst,
}
use mathlib.Core.Option.{some-injective}
use csci_4220_network_progra.Fib.{Range, numbers, divide}
use csci_4220_network_progra.Fib.Number.{fib}
use csci_4220_network_progra.Fib.Reply.{
  digits_from, digits, Result, separator, compute, worker_thread, thread_text, thread_line, collect,
  summary_text, summary, reply,
}

-- No byte is zero.
abbrev pub IsPlain : List ℕ → Type 0
IsPlain = All (λ c. 0 < c)

append-IsPlain : (a b : List ℕ) → IsPlain a → IsPlain b → IsPlain (a ++ b)
append-IsPlain a b p q = All-append (λ c. 0 < c) a b p q

take-IsPlain : (n : ℕ) (a : List ℕ) → IsPlain a → IsPlain (take n a)
take-IsPlain zero a p = tt
take-IsPlain (suc n) [] p = tt
take-IsPlain (suc n) (c ∷ a) p = (p.0, take-IsPlain n a p.1)

digits_from-IsPlain : (fuel n : ℕ) → IsPlain (digits_from fuel n)
unfolding digits_from
digits_from-IsPlain zero n = tt
digits_from-IsPlain (suc fuel) n = elim (Bool-cases (ltb n 10)) [
  | inl one ↦ rw one (omega arith, tt)
  | inr more ↦ rw more (append-IsPlain _ _ (digits_from-IsPlain fuel (n / 10)) (omega arith, tt))
]

digits-IsPlain : (n : ℕ) → IsPlain (digits n)
digits-IsPlain n = digits_from-IsPlain 20 n

separator-IsPlain : (b : Bool) → IsPlain (separator b)
separator-IsPlain true = tt
separator-IsPlain false = omega arith

thread_line-IsPlain :
    (tid : ℕ) (r : Range) (result : List ℕ) → IsPlain result → IsPlain (thread_line tid r result)
unfolding thread_line thread_text
thread_line-IsPlain tid r result p = take-IsPlain 511 (thread_text tid r result) (
    append-IsPlain (codes "T") _ (omega arith) (
      append-IsPlain _ _ (digits-IsPlain tid) (
        append-IsPlain (codes ": [") _ (omega arith) (
          append-IsPlain _ _ (digits-IsPlain r.start) (
            append-IsPlain (226 ∷ 128 ∷ 147 ∷ []) _ (omega arith) (
              append-IsPlain _ _ (digits-IsPlain r.end) (
                append-IsPlain (codes "] -> ") _ (omega arith)
                  (append-IsPlain _ _ p (omega arith)))))))))

summary-IsPlain : (n total_sum : ℕ) → IsPlain (summary n total_sum)
unfolding summary summary_text
summary-IsPlain n total_sum = take-IsPlain 255 (summary_text n total_sum) (
    append-IsPlain (codes "Total computed = ") _ (omega arith) (
      append-IsPlain _ _ (digits-IsPlain n) (
        append-IsPlain (codes " Fibonacci numbers\nSum = ") _ (omega arith)
          (append-IsPlain _ _ (digits-IsPlain total_sum) (omega arith)))))

-- What comes of a computation, if it comes to its end, is plain.
abbrev Plain : Option Result → Type 0
Plain none = Unit
Plain (some r) = IsPlain r.result

if-Plain : (b : Bool) (o : Option Result) → Plain o → Plain (if b then o else none)
if-Plain true o p = p
if-Plain false o p = tt

compute-Plain :
    (is : List ℕ) (sum : ℕ) (result : List ℕ) (first : Bool)
    → IsPlain result
    → Plain (compute is sum result first)
unfolding compute
compute-Plain [] sum result first p = p
compute-Plain (i ∷ is) sum result first p = elim (Option-cases (fib i)) [
  | inl over ↦ rw (compute, over) tt
  | inr (fib_val, e) ↦
      let text = result ++ (separator first ++ digits fib_val) in
      rw (compute, e)
        (if-Plain (ltb (sum + fib_val) (2 ^ 63) && ltb (length text) 256)
          (compute is (sum + fib_val) text false)
          (compute-Plain is (sum + fib_val) text false (
            append-IsPlain _ _ p
              (append-IsPlain _ _ (separator-IsPlain first) (digits-IsPlain fib_val)))))
]

Plain-some : {o : Option Result} {r : Result} → o ≡ some r → Plain o → IsPlain r.result
Plain-some e p = subst Plain e p

worker_thread-Plain : (r : Range) → Plain (worker_thread r)
unfolding worker_thread
worker_thread-Plain r = compute-Plain (numbers r) 0 [] true tt

collect-Plain :
    (rs : List Range) (tid total_sum : ℕ) (response : List ℕ)
    → IsPlain response
    → Plain (collect rs tid total_sum response)
unfolding collect
collect-Plain [] tid total_sum response p = p
collect-Plain (r ∷ rs) tid total_sum response p = elim (Option-cases (worker_thread r)) [
  | inl over ↦ rw (collect, over) tt
  | inr (w, e) ↦
      let text = response ++ thread_line tid r w.result in
      rw (collect, e)
        (if-Plain (ltb (total_sum + w.sum) (2 ^ 63) && ltb (length text) 4096)
          (collect rs (tid + 1) (total_sum + w.sum) text)
          (collect-Plain rs (tid + 1) (total_sum + w.sum) text (
            append-IsPlain _ _ p
              (thread_line-IsPlain tid r w.result (Plain-some e (worker_thread-Plain r))))))
]

pub reply-IsPlain :
    (n num_threads : ℕ) {response : List ℕ} → reply n num_threads ≡ some response → IsPlain response
unfolding reply
reply-IsPlain n num_threads {response} e =
    elim (Option-cases (collect (divide n num_threads) 1 0 [])) [
      | inl over ↦ let at : none ≡ some response = (rw (reply, over) at e) in cc
      | inr (c, ok) ↦
          let text = c.result ++ summary n c.sum in
          let plain : IsPlain text =
            append-IsPlain _ _ (Plain-some ok (collect-Plain (divide n num_threads) 1 0 [] tt))
              (summary-IsPlain n c.sum) in
          elim (Bool-cases (ltb (length text) 4096)) [
            | inl fits ↦
                subst IsPlain (some-injective text response (rw (reply, ok, fits) at e)) plain
            | inr long ↦ let at : none ≡ some response = (rw (reply, ok, long) at e) in cc
          ]
    ]
