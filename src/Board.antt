-- ===== src/Board.antt =====
-- lab3/server.c: the message board server, one round of its loop at a time.
pub mod Ring
pub mod Slots
pub mod Get
pub mod Client
mod Tests
use csci_4220_network_progra.Base.{
  ℕ, zero, suc, ◌+◌, ◌-◌, ◌%◌, Bool, true, false, ◌&&◌, ◌||◌, not, Option, none, some, List, [],
  ◌∷◌, ◌++◌, ltb, leb, ◌==◌, if◌then◌else◌, length, get_elem?, set, take, drop,
}

abbrev pub max_clients : ℕ
max_clients = 5

abbrev pub board_size : ℕ
board_size = 10

-- A slot of `sockets` holds 0 where it is free. `n_clients` is `joined` less `left`, since it can fall
-- below zero. A message of the board stands without its closing zero.
pub record Board : Type 0 where
  pub sockets : List ℕ
  pub joined : ℕ
  pub left : ℕ
  pub board : List (List ℕ)
  pub board_msg_count : ℕ

pub data Effect : Type 0 where
  wrote : (fd : ℕ) → List ℕ → Effect
  closed : ℕ → Effect

abbrev zeros : ℕ → List ℕ
zeros zero = []
zeros (suc n) = 0 ∷ zeros n

abbrev pub empties : ℕ → List (List ℕ)
empties zero = []
empties (suc n) = [] ∷ empties n

abbrev pub started : Board
started = record {
  sockets = zeros max_clients;
  joined = 0;
  left = 0;
  board = empties board_size;
  board_msg_count = 0;
}

-- The first free slot takes the socket; `none` if there is none.
unfoldable pub place : List ℕ → ℕ → Option (List ℕ)
place [] fd = none
place (s ∷ ss) fd =
    let rest : Option (List ℕ) = elim (place ss fd) [ none ↦ none | some ts ↦ some (s ∷ ts) ] in
    if s == 0 then some (fd ∷ ss) else rest

-- `accept` has given a socket.
unfoldable pub connect : Board → ℕ → Board × List Effect
unfolding place
connect b connfd =
    if leb (b.left + max_clients) b.joined
    then (b, closed connfd ∷ [])
    else elim (place b.sockets connfd) [
      | none ↦ (b, [])
      | some ss ↦ (record b { sockets = ss; joined = b.joined + 1 }, [])
    ]

-- What `read` gives: the end of the stream, an error, or bytes.
pub data Read : Type 0 where
  eof failed : Read
  bytes : List ℕ → Read

-- The text up to the first carriage return, newline or zero.
unfoldable pub trimmed : List ℕ → List ℕ
trimmed [] = []
trimmed (c ∷ cs) = let rest = trimmed cs in if c == 13 || c == 10 || c == 0 then [] else c ∷ rest

-- `strncmp(s, t, strlen(t)) == 0`
unfoldable pub starts_with : List ℕ → List ℕ → Bool
starts_with s [] = true
starts_with [] (d ∷ ds) = false
starts_with (c ∷ cs) (d ∷ ds) = c == d && starts_with cs ds

-- "POST "
abbrev pub post_word : List ℕ
post_word = 80 ∷ 79 ∷ 83 ∷ 84 ∷ 32 ∷ []

-- "GET"
abbrev pub get_word : List ℕ
get_word = 71 ∷ 69 ∷ 84 ∷ []

-- `strcmp` gives 0.
abbrev pub same : List ℕ → List ℕ → Bool
same s t = starts_with s t && starts_with t s

-- `strncpy` into the next entry, with the oldest message given up.
unfoldable pub store : Board → List ℕ → Board
store b msg = record b {
  board = set b.board (b.board_msg_count % board_size) (take 1023 msg);
  board_msg_count = b.board_msg_count + 1;
}

-- `snprintf` of the message and a newline into 1025 bytes.
abbrev pub line_of : List ℕ → List ℕ
line_of msg = take 1024 (msg ++ 10 ∷ [])

-- The message goes to every other client.
unfoldable pub broadcast : List ℕ → (sockfd : ℕ) → (msg : List ℕ) → List Effect
broadcast [] sockfd msg = []
broadcast (s ∷ ss) sockfd msg =
    let rest = broadcast ss sockfd msg in
    if ltb 0 s && not (s == sockfd) then wrote s (line_of msg) ∷ rest else rest

-- The entries that are not empty.
unfoldable pub show_board : List (List ℕ) → (sockfd : ℕ) → List Effect
show_board [] sockfd = []
show_board (m ∷ ms) sockfd =
    let rest = show_board ms sockfd in
    if ltb 0 (length m) then wrote sockfd (line_of m) ∷ rest else rest

-- A command from a socket; anything else is left unanswered.
unfoldable pub command : Board → (sockfd : ℕ) → List ℕ → Board × List Effect
unfolding store
command b sockfd text =
    let line = trimmed text in
    if starts_with line post_word
    then (store b (drop 5 line), broadcast b.sockets sockfd (drop 5 line))
    else if same line get_word
    then (b, show_board b.board sockfd)
    else (b, [])

-- The socket of slot `i` is closed and the slot is free.
unfoldable pub disconnect : Board → (i sockfd : ℕ) → Board × List Effect
disconnect b i sockfd =
    (record b { sockets = set b.sockets i 0; left = b.left + 1 }, closed sockfd ∷ [])

unfoldable pub on_read : Board → (i sockfd : ℕ) → Read → Board × List Effect
unfolding disconnect command
on_read b i sockfd eof = disconnect b i sockfd
on_read b i sockfd failed = disconnect b i sockfd
on_read b i sockfd (bytes text) = command b sockfd text

-- The loop over the slots, with `rounds` to go from slot `i` on. `ready` is the set that `select` has
-- left; a free slot has the descriptor 0, which is that of the standard input. `reads` is what `read`
-- gives for each slot.
unfoldable pub serve_slots :
    (ready : ℕ → Bool) → (reads : ℕ → Read) → (rounds i : ℕ) → Board → Board × List Effect
unfolding on_read
serve_slots ready reads zero i b = (b, [])
serve_slots ready reads (suc rounds) i b = elim (get_elem? b.sockets i) [
  | none ↦ (b, [])
  | some sockfd ↦
      let (b1, out) = (if ready sockfd then on_read b i sockfd (reads i) else (b, [])) in
      let (b2, rest) = serve_slots ready reads rounds (i + 1) b1 in (b2, out ++ rest)
]

-- How a round begins: the end of the standard input ends the server, `accept` may give a socket or
-- fail, which ends it too.
pub data Begin : Type 0 where
  stdin_eof accept_failed quiet : Begin
  accepted : ℕ → Begin

pub data Round : Type 0 where
  exits : List Effect → Round
  goes_on : Board → List Effect → Round

unfoldable pub close_all : List ℕ → List Effect
close_all [] = []
close_all (s ∷ ss) = let rest = close_all ss in if ltb 0 s then closed s ∷ rest else rest

-- A round of the loop, after `select` has returned. A round in which the standard input has bytes
-- reads up to ten of them first.
unfoldable pub round : (ready : ℕ → Bool) → (reads : ℕ → Read) → Begin → Board → Round
unfolding connect serve_slots
round ready reads stdin_eof b = exits (close_all b.sockets)
round ready reads accept_failed b = exits []
round ready reads quiet b =
    let (b1, out) = serve_slots ready reads max_clients 0 b in goes_on b1 out
round ready reads (accepted connfd) b =
    let (b0, first) = connect b connfd in
    let (b1, out) = serve_slots ready reads max_clients 0 b0 in goes_on b1 (first ++ out)
