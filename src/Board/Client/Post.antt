-- ===== src/Board/Client/Post.antt =====
-- A message on its way from the user of a client to the board.
use csci_4220_network_progra.Base.{
  ℕ, zero, suc, ◌<◌, ◌≤◌, ◌+◌, ◌%◌, ◌⊎◌, inl, inr, ◌==◌, ltb, not, ◌&&◌, get_elem?, some, take,
  take_all, length-append, Bool-cases, subst, ap, ◌∙◌, ◌≡◌, ◌≢◌, refl, true, false, List, [], ◌∷◌,
  ◌++◌, length, arith, All,
}
use csci_4220_network_progra.Board.{
  Board, Effect, wrote, line_of, bytes, store, broadcast, command, trimmed, starts_with, post_word,
  on_read,
}
use csci_4220_network_progra.Board.Ring.{get_elem?-set, get_elem?-set_other}
use csci_4220_network_progra.Board.Client.{sent, text, fgets, handle_user_input}

-- A byte of a message: no zero, newline or carriage return.
abbrev pub IsPlain : ℕ → Type 0
IsPlain c = (c ≢ 0) × (c ≢ 10) × (c ≢ 13)

fgets-line :
    (room : ℕ) (s rest : List ℕ)
    → All IsPlain s
    → length s < room
    → fgets room (s ++ 10 ∷ rest) ≡ (s ++ 10 ∷ [], rest)
unfolding fgets
fgets-line zero s rest plain short = absurd (omega (arith, short))
fgets-line (suc room) [] rest plain short = refl
fgets-line (suc room) (c ∷ s) rest plain short =
    ground (arith, fgets-line room s rest plain.1 (omega (arith, short)))

text-line : (s : List ℕ) → All IsPlain s → text (s ++ 10 ∷ []) ≡ s ++ 10 ∷ []
unfolding text
text-line [] plain = refl
text-line (c ∷ s) plain = ground (arith, text-line s plain.1)

trimmed-line : (s : List ℕ) → All IsPlain s → trimmed (s ++ 10 ∷ []) ≡ s
unfolding trimmed
trimmed-line [] plain = refl
trimmed-line (c ∷ s) plain = ground (arith, trimmed-line s plain.1)

handle_user_input-line :
    (c : ℕ) (s rest : List ℕ)
    → All IsPlain (c ∷ s)
    → length (c ∷ s) < 1023
    → handle_user_input ((c ∷ s) ++ 10 ∷ rest) ≡ (sent ((c ∷ s) ++ 10 ∷ []), rest)
unfolding handle_user_input
handle_user_input-line c s rest plain short =
    rw (handle_user_input, fgets-line 1023 (c ∷ s) rest plain short, text-line (c ∷ s) plain) refl

is_post : (msg : List ℕ) → starts_with (post_word ++ msg) post_word ≡ true
unfolding starts_with
is_post msg = refl

command-post :
    (b : Board) (sockfd : ℕ) (msg : List ℕ)
    → All IsPlain (post_word ++ msg)
    → command b sockfd ((post_word ++ msg) ++ 10 ∷ [])
      ≡ (store b msg, broadcast b.sockets sockfd msg)
unfolding command
command-post b sockfd msg plain =
    rw (command, trimmed-line (post_word ++ msg) plain, is_post msg) refl

post-IsPlain : (msg : List ℕ) → All IsPlain msg → All IsPlain (post_word ++ msg)
post-IsPlain msg plain = (
  (omega arith, omega arith, omega arith),
  (
    (omega arith, omega arith, omega arith),
    (
      (omega arith, omega arith, omega arith),
      ((omega arith, omega arith, omega arith), ((omega arith, omega arith, omega arith), plain)),
    ),
  ),
)

-- Every taken slot but those with the sender's socket gets the line once, in the order of the slots, and
-- nobody else gets anything.
abbrev pub Reaches : List ℕ → (sockfd : ℕ) → (line : List ℕ) → List Effect → Type 0
Reaches [] sockfd line es = es ≡ []
Reaches (s ∷ ss) sockfd line es =
    (((s ≡ 0) ⊎ (s ≡ sockfd)) × Reaches ss sockfd line es)
    ⊎ ((s ≢ 0)
        × (s ≢ sockfd)
        × (rest : List Effect) × (es ≡ wrote s line ∷ rest)
        × Reaches ss sockfd line rest)

broadcast-Reaches :
    (ss : List ℕ) (sockfd : ℕ) (msg : List ℕ)
    → Reaches ss sockfd (line_of msg) (broadcast ss sockfd msg)
unfolding broadcast
broadcast-Reaches [] sockfd msg = refl
broadcast-Reaches (s ∷ ss) sockfd msg = elim (Bool-cases (s == 0)) [
  | inl empty ↦
      let skip : (ltb 0 s && not (s == sockfd)) ≡ false = ground (arith, empty) in
      rw skip (inl (inl (ground (arith, empty)), broadcast-Reaches ss sockfd msg))
  | inr taken ↦ elim (Bool-cases (s == sockfd)) [
    | inl own ↦
        let skip : (ltb 0 s && not (s == sockfd)) ≡ false = ground (arith, own) in
        rw skip (inl (inr (ground (arith, own)), broadcast-Reaches ss sockfd msg))
    | inr other ↦
        let send : (ltb 0 s && not (s == sockfd)) ≡ true = ground (arith, taken, other) in
        rw send (
          inr (
            ground (arith, taken),
            ground (arith, other),
            _,
            refl,
            broadcast-Reaches ss sockfd msg,
          ))
  ]
]

-- The board with the message in the entry that is next, and everything else as it was.
pub record Posted (b : Board) (msg : List ℕ) (t : Board) : Type 0 where
  pub entry : get_elem? t.board (b.board_msg_count % 10) ≡ some msg
  pub others : (j : ℕ) → b.board_msg_count % 10 ≢ j → get_elem? t.board j ≡ get_elem? b.board j
  pub count : t.board_msg_count ≡ b.board_msg_count + 1
  pub slots : t.sockets ≡ b.sockets
  pub clients : (t.joined ≡ b.joined) × (t.left ≡ b.left)

store-Posted :
    (b : Board) (msg : List ℕ)
    → length b.board ≡ 10
    → length msg ≤ 1017
    → Posted b msg (store b msg)
unfolding store
store-Posted b msg size short = record {
  entry =
      get_elem?-set b.board (b.board_msg_count % 10) (take 1023 msg) (omega arith)
      ∙ ap some (take_all 1023 msg (omega arith));
  others = λ j ne. get_elem?-set_other b.board (b.board_msg_count % 10) j (take 1023 msg) ne;
  count = refl;
  slots = refl;
  clients = (refl, refl);
}

-- A user types "POST " and a message of at most 1017 bytes, none of them zero, a newline or a carriage
-- return. The client sends the line, and a server that reads it in one piece stores the message in the
-- entry of the board that is next, which has ten, and keeps the others; and it sends the message with
-- a newline behind it once to every other client, in the order of the slots, and to nobody else.
pub on_read-handle_user_input :
    (b : Board) (i sockfd : ℕ) (msg rest : List ℕ)
    → length b.board ≡ 10
    → All IsPlain msg
    → length msg ≤ 1017
    → (line : List ℕ) × (t : Board) × (es : List Effect) × (handle_user_input
          (post_word ++ (msg ++ 10 ∷ rest))
        ≡ (sent line, rest))
      × (on_read b i sockfd (bytes line) ≡ (t, es))
      × Posted b msg t
      × Reaches b.sockets sockfd (msg ++ 10 ∷ []) es
unfolding on_read
on_read-handle_user_input b i sockfd msg rest size plain short =
    let whole = post-IsPlain msg plain in
    let uncut : line_of msg ≡ msg ++ 10 ∷ [] =
      take_all 1024 (msg ++ 10 ∷ []) (omega (arith, length-append msg (10 ∷ []))) in
    (
      (post_word ++ msg) ++ 10 ∷ [],
      store b msg,
      broadcast b.sockets sockfd msg,
      handle_user_input-line 80 (79 ∷ 83 ∷ 84 ∷ 32 ∷ msg) rest whole (omega (arith, short)),
      command-post b sockfd msg whole,
      store-Posted b msg size short,
      subst (λ (l : List ℕ). Reaches b.sockets sockfd l (broadcast b.sockets sockfd msg)) uncut
          (broadcast-Reaches b.sockets sockfd msg),
    )
