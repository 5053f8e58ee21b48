-- ===== src/Board/Tests.antt =====
-- The message board with two clients.
use csci_4220_network_progra.Base.{◌++◌, ℕ, ◌≡◌, refl, Bool, List, [], ◌∷◌, ◌==◌, map, arith}
use csci_4220_network_progra.Board.{
  Board, Effect, wrote, started, command, trimmed, starts_with, broadcast, show_board, line_of,
  on_read, Read, bytes, round, accepted,
}
use csci_4220_network_progra.Board.Ring.{store_all}
use csci_4220_network_progra.Board.Slots.{taken, IsCounted, Leaves, round-IsCounted}
use csci_4220_network_progra.Board.{post_word, broadcast, bytes, on_read, started}
use csci_4220_network_progra.Board.Client.{sent, handle_user_input}
use csci_4220_network_progra.Board.Client.Post.{Posted, Reaches, on_read-handle_user_input}
use csci_4220_network_progra.Board.Get.{show_board-store_all}

-- "POST hi\n"
abbrev post_hi : List ℕ
post_hi = 80 ∷ 79 ∷ 83 ∷ 84 ∷ 32 ∷ 104 ∷ 105 ∷ 10 ∷ []

abbrev two : Board
two = record started { sockets = 4 ∷ 5 ∷ 0 ∷ 0 ∷ 0 ∷ []; joined = 2 }

two-IsCounted : IsCounted two
unfolding taken
two-IsCounted = record { slots = refl; entries = refl; count = refl }

abbrev only_4 : ℕ → Bool
only_4 fd = fd == 4

abbrev says_hi : ℕ → Read
says_hi i = bytes post_hi

post_goes_to_the_other : (command two 4 post_hi).1 ≡ wrote 5 (104 ∷ 105 ∷ 10 ∷ []) ∷ []
unfolding command trimmed starts_with broadcast
post_goes_to_the_other = refl

started-IsCounted : IsCounted started
unfolding taken
started-IsCounted = record { slots = refl; entries = refl; count = refl }

abbrev posts : List (List ℕ)
posts = (104 ∷ []) ∷ (105 ∷ []) ∷ []

show_board-store_all_example :
    show_board (store_all started posts).board 4 ≡ map (λ (m : List ℕ). wrote 4 (line_of m)) posts
show_board-store_all_example =
    show_board-store_all posts 4 (omega arith) (omega arith) (omega arith)

round-IsCounted_example : Leaves (round only_4 says_hi (accepted 6) two)
round-IsCounted_example =
    round-IsCounted only_4 says_hi (accepted 6) two refl (omega arith) two-IsCounted

on_read-handle_user_input_example :
    (line : List ℕ) × (t : Board) × (es : List Effect) × (handle_user_input
        (post_word ++ (104 ∷ 105 ∷ 10 ∷ []))
      ≡ (sent line, []))
    × (on_read two 0 4 (bytes line) ≡ (t, es))
    × Posted two (104 ∷ 105 ∷ []) t
    × Reaches two.sockets 4 (104 ∷ 105 ∷ 10 ∷ []) es
on_read-handle_user_input_example =
    on_read-handle_user_input two 0 4 (104 ∷ 105 ∷ []) [] refl
      ((omega arith, omega arith, omega arith), ((omega arith, omega arith, omega arith), tt))
      (omega arith)
