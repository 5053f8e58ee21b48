-- ===== src/Board/Get.antt =====
-- What GET shows.
use mathlib.Core.List.{append_assoc, append-nil}
use csci_4220_network_progra.Base.{
  ℕ, zero, suc, ◌+◌, ◌%◌, ◌≡◌, ◌≤◌, ◌<◌, refl, sym, ap, ap₂, ◌∙◌, List, [], ◌∷◌, ◌++◌, length, set,
  take, take_all, map, arith, All, lt→ltb, length-append,
}
use csci_4220_network_progra.Board.{Board, wrote, empties, started, store, line_of, show_board}
use csci_4220_network_progra.Board.Ring.{store_all}

-- The entry behind the messages is the next one.
set-append :
    (xs : List (List ℕ)) (n i : ℕ) (m : List ℕ)
    → i ≡ length xs
    → set (xs ++ empties (suc n)) i m ≡ (xs ++ m ∷ []) ++ empties n
set-append [] n zero m e = refl
set-append [] n (suc i) m e = absurd (omega arith)
set-append (x ∷ xs) n zero m e = absurd (omega arith)
set-append (x ∷ xs) n (suc i) m e =
    ap (λ (b : List (List ℕ)). x ∷ b) (set-append xs n i m (omega arith))

store_all-append :
    (b : Board) (pre ms : List (List ℕ)) (n : ℕ)
    → b.board ≡ pre ++ empties n
    → b.board_msg_count ≡ length pre
    → length pre + n ≡ 10
    → length ms ≤ n
    → All (λ m. length m ≤ 1023) ms
    → (k : ℕ) × ((store_all b ms).board ≡ (pre ++ ms) ++ empties k)
unfolding store_all store
store_all-append b pre [] n e count size fits short =
    (n, e ∙ ap (λ (p : List (List ℕ)). p ++ empties n) (sym (append-nil pre)))
store_all-append b pre (m ∷ ms) zero e count size fits short = absurd (omega arith)
store_all-append b pre (m ∷ ms) (suc n) e count size fits short =
    let whole : take 1023 m ≡ m = take_all 1023 m short.0 in
    let next : (store b m).board ≡ (pre ++ m ∷ []) ++ empties n =
      ap₂ (λ (t : List (List ℕ)) (v : List ℕ). set t (b.board_msg_count % 10) v) e whole
      ∙ set-append pre n (b.board_msg_count % 10) m (omega (arith, count, size)) in
    let (k, r) =
      store_all-append (store b m) (pre ++ m ∷ []) ms n next
        (omega (arith, count, length-append pre (m ∷ [])))
        (omega (arith, size, length-append pre (m ∷ []))) (omega (arith, fits)) short.1 in
    (k, r ∙ ap (λ (p : List (List ℕ)). p ++ empties k) (append_assoc pre (m ∷ []) ms))

show_board-empties : (n fd : ℕ) → show_board (empties n) fd ≡ []
unfolding show_board
show_board-empties zero fd = refl
show_board-empties (suc n) fd = show_board-empties n fd

show_board-append :
    (ms : List (List ℕ)) (k fd : ℕ)
    → All (λ m. 0 < length m) ms
    → show_board (ms ++ empties k) fd ≡ map (λ (m : List ℕ). wrote fd (line_of m)) ms
unfolding show_board
show_board-append [] k fd h = show_board-empties k fd
show_board-append (m ∷ ms) k fd h = rw (lt→ltb 0 (length m) h.0, show_board-append ms k fd h.1) refl

-- As long as at most ten messages have been posted to a new server, none of them empty and none of
-- more than 1023 bytes, GET writes all of them in the order in which they were posted.
pub show_board-store_all :
    (ms : List (List ℕ)) (fd : ℕ)
    → length ms ≤ 10
    → All (λ m. 0 < length m) ms
    → All (λ m. length m ≤ 1023) ms
    → show_board (store_all started ms).board fd ≡ map (λ (m : List ℕ). wrote fd (line_of m)) ms
show_board-store_all ms fd fits some_text short =
    let (k, e) = store_all-append started [] ms 10 refl refl refl fits short in
    ap (λ (b : List (List ℕ)). show_board b fd) e ∙ show_board-append ms k fd some_text
