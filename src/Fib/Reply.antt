-- ===== src/Fib/Reply.antt =====
-- lab4/lab4.c: the sums and the texts of `worker_thread` and `client_handler`.
pub mod Sum
use csci_4220_network_progra.Base.{
  ℕ, zero, suc, ◌+◌, ◌-◌, ◌/◌, ◌%◌, ◌^◌, Bool, true, false, ◌&&◌, Option, none, some, List, [], ◌∷◌,
  ◌++◌, ltb, if◌then◌else◌, length, take, codes,
}
use csci_4220_network_progra.Fib.{Range, numbers, divide}
use csci_4220_network_progra.Fib.Number.{fib}

-- `%d` and `%ld` of a number below 10^20, in decimal digits, for as many digits as there is fuel.
unfoldable pub digits_from : ℕ → ℕ → List ℕ
digits_from zero n = []
digits_from (suc fuel) n =
    let front = digits_from fuel (n / 10) in
    if ltb n 10 then (48 + n) ∷ [] else front ++ (48 + n % 10) ∷ []

abbrev pub digits : ℕ → List ℕ
digits n = digits_from 20 n

-- What a thread leaves: the sum, and the text of its numbers in the array `result`.
pub record Result : Type 0 where
  pub sum : ℕ
  pub result : List ℕ

abbrev pub separator : Bool → List ℕ
separator true = []
separator false = 32 ∷ []

-- The rounds of the loop of `worker_thread` for the numbers that are left. `none` is an overflow of
-- `long`, or a text of more than 255 bytes, which `strcat` writes past the array.
unfoldable pub compute : List ℕ → (sum : ℕ) → (result : List ℕ) → (first : Bool) → Option Result
compute [] sum result first = some (record { sum = sum; result = result })
compute (i ∷ is) sum result first = elim (fib i) [
  | none ↦ none
  | some fib_val ↦
      let text = result ++ (separator first ++ digits fib_val) in
      let rest = compute is (sum + fib_val) text false in
      if ltb (sum + fib_val) (2 ^ 63) && ltb (length text) 256 then rest else none
]

unfoldable pub worker_thread : Range → Option Result
unfolding compute
worker_thread r = compute (numbers r) 0 [] true

-- "T%d: [%d–%d] -> %s\n", whose dash has three bytes, and into 512 bytes.
unfoldable pub thread_text : (tid : ℕ) → Range → List ℕ → List ℕ
thread_text tid r result =
    codes "T"
    ++ (digits tid
        ++ (codes ": ["
            ++ (digits r.start
                ++ (226 ∷ 128 ∷ 147 ∷ []
                    ++ (digits r.end ++ (codes "] -> " ++ (result ++ 10 ∷ [])))))))

unfoldable pub thread_line : (tid : ℕ) → Range → List ℕ → List ℕ
unfolding thread_text
thread_line tid r result = take 511 (thread_text tid r result)

-- The loop that joins the threads. `none` is also a response that does not fit into 4096 bytes.
unfoldable pub collect : List Range → (tid total_sum : ℕ) → (response : List ℕ) → Option Result
unfolding worker_thread thread_line
collect [] tid total_sum response = some (record { sum = total_sum; result = response })
collect (r ∷ rs) tid total_sum response = elim (worker_thread r) [
  | none ↦ none
  | some w ↦
      let text = response ++ thread_line tid r w.result in
      let rest = collect rs (tid + 1) (total_sum + w.sum) text in
      if ltb (total_sum + w.sum) (2 ^ 63) && ltb (length text) 4096 then rest else none
]

unfoldable pub summary_text : (n total_sum : ℕ) → List ℕ
summary_text n total_sum =
    codes "Total computed = "
    ++ (digits n ++ (codes " Fibonacci numbers\nSum = " ++ (digits total_sum ++ 10 ∷ [])))

unfoldable pub summary : (n total_sum : ℕ) → List ℕ
unfolding summary_text
summary n total_sum = take 255 (summary_text n total_sum)

-- What `client_handler` writes for a number that it has read and found positive.
unfoldable pub reply : (n num_threads : ℕ) → Option (List ℕ)
unfolding collect summary
reply n num_threads = elim (collect (divide n num_threads) 1 0 []) [
  | none ↦ none
  | some c ↦
      let response = c.result ++ summary n c.sum in
      if ltb (length response) 4096 then some response else none
]
