-- ===== src/Fib.antt =====
-- lab4/lab4.c: the range [1..N] that `client_handler` divides among its threads.
pub mod Split
pub mod Number
pub mod Reply
pub mod Session
pub mod Client
mod Tests
use csci_4220_network_progra.Base.{
  ℕ, zero, suc, ◌+◌, ◌-◌, ◌/◌, ◌%◌, List, [], ◌∷◌, ◌++◌, ltb, if◌then◌else◌,
}

-- The bounds of a thread.
pub record Range : Type 0 where
  pub start : ℕ
  pub end : ℕ

-- The rounds of the loop from the thread `i` on, for the threads that are left.
unfoldable pub divide_from : (range_per_thread remainder left i current_start : ℕ) → List Range
divide_from range_per_thread remainder zero i current_start = []
divide_from range_per_thread remainder (suc left) i current_start =
    let current_range = range_per_thread + (if ltb i remainder then 1 else 0) in
    let last = current_start + current_range - 1 in
    record { start = current_start; end = last }
    ∷ divide_from range_per_thread remainder left (i + 1) (last + 1)

unfoldable pub divide : (n num_threads : ℕ) → List Range
divide n num_threads = divide_from (n / num_threads) (n % num_threads) num_threads 0 1

unfoldable pub count : (i left : ℕ) → List ℕ
count i zero = []
count i (suc left) = i ∷ count (i + 1) left

-- The numbers that `worker_thread` goes through, `for (int i = start; i <= end; i++)`.
unfoldable pub numbers : Range → List ℕ
numbers r = count r.start (r.end + 1 - r.start)

-- The numbers of all threads, in the order in which `client_handler` joins them.
unfoldable pub joined_numbers : List Range → List ℕ
joined_numbers [] = []
joined_numbers (r ∷ rs) = numbers r ++ joined_numbers rs
