-- ===== src/Board/Ring.antt =====
-- The board holds the ten newest messages.
use csci_4220_network_progra.Base.{
  ℕ, zero, suc, ◌+◌, ◌%◌, ◌≡◌, ◌≢◌, ◌≤◌, ◌<◌, refl, ap, ◌∙◌, some, List, [], ◌∷◌, length, get_elem?,
  set, take, arith, length-set,
}
use mathlib.Core.Option.{some-injective}
use csci_4220_network_progra.Board.{Board, started, store}

-- The messages are posted in their order.
unfoldable pub store_all : Board → List (List ℕ) → Board
store_all b [] = b
store_all b (m ∷ ms) = store_all (store b m) ms

pub get_elem?-set :
    (xs : List (List ℕ)) (i : ℕ) (v : List ℕ) → i < length xs → get_elem? (set xs i v) i ≡ some v
get_elem?-set [] i v h = absurd (omega arith)
get_elem?-set (x ∷ xs) zero v h = refl
get_elem?-set (x ∷ xs) (suc i) v h = get_elem?-set xs i v (omega arith)

pub get_elem?-set_other :
    (xs : List (List ℕ)) (i j : ℕ) (v : List ℕ) → i ≢ j → get_elem? (set xs i v) j ≡ get_elem? xs j
get_elem?-set_other [] i j v h = refl
get_elem?-set_other (x ∷ xs) zero zero v h = absurd (h refl)
get_elem?-set_other (x ∷ xs) zero (suc j) v h = refl
get_elem?-set_other (x ∷ xs) (suc i) zero v h = refl
get_elem?-set_other (x ∷ xs) (suc i) (suc j) v h = get_elem?-set_other xs i j v (λ e. h (ap suc e))

-- Later posts do not touch an entry whose number is not theirs.
store_all-kept :
    (b : Board) (ms : List (List ℕ)) (k : ℕ)
    → k < b.board_msg_count
    → b.board_msg_count + length ms ≤ k + 10
    → get_elem? (store_all b ms).board (k % 10) ≡ get_elem? b.board (k % 10)
unfolding store_all store
store_all-kept b [] k old near = refl
store_all-kept b (m ∷ ms) k old near =
    store_all-kept (store b m) ms k (omega arith) (omega arith)
    ∙ get_elem?-set_other b.board (b.board_msg_count % 10) (k % 10) (take 1023 m) (omega arith)

plus_zero : (n : ℕ) → n + 0 ≡ n
plus_zero n = omega arith

plus_suc : (n i : ℕ) → n + suc i ≡ n + 1 + i
plus_suc n i = omega arith

store_all-from :
    (b : Board) (ms : List (List ℕ)) (i : ℕ) (m : List ℕ)
    → length b.board ≡ 10
    → get_elem? ms i ≡ some m
    → length ms ≤ i + 10
    → get_elem? (store_all b ms).board ((b.board_msg_count + i) % 10) ≡ some (take 1023 m)
unfolding store_all store
store_all-from b [] i m size at near = cc
store_all-from b (x ∷ ms) zero m size at near =
    let same : x ≡ m = some-injective x m at in
    store_all-kept (store b x) ms (b.board_msg_count + 0) (omega arith) (omega arith)
    ∙ (ap (get_elem? (store b x).board) (ap (λ (n : ℕ). n % 10) (plus_zero b.board_msg_count))
        ∙ (get_elem?-set b.board (b.board_msg_count % 10) (take 1023 x) (omega arith)
            ∙ ap some (ap (take 1023) same)))
store_all-from b (x ∷ ms) (suc i) m size at near =
    ap (get_elem? (store_all (store b x) ms).board)
      (ap (λ (n : ℕ). n % 10) (plus_suc b.board_msg_count i))
    ∙ store_all-from (store b x) ms i m (length-set b.board _ _ ∙ size) at (omega arith)

-- After any posts to the board of a new server, the message number k, counted from 0, stands in the
-- entry k mod 10 as long as fewer than ten have followed it, cut to 1023 bytes.
pub store_all-recent :
    (ms : List (List ℕ)) (k : ℕ) (m : List ℕ)
    → get_elem? ms k ≡ some m
    → length ms ≤ k + 10
    → get_elem? (store_all started ms).board (k % 10) ≡ some (take 1023 m)
store_all-recent ms k m at near =
    ap (get_elem? (store_all started ms).board) (ap (λ (n : ℕ). n % 10) (zero_plus k))
    ∙ store_all-from started ms k m refl at near
  where
    zero_plus : (k : ℕ) → k ≡ 0 + k
    zero_plus k = omega arith
