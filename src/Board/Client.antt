-- ===== src/Board/Client.antt =====
-- lab3/client.c: the client of the message board, one round of its loop at a time.
pub mod Post
use csci_4220_network_progra.Base.{
  ℕ, zero, suc, ◌+◌, ◌<◌, ◌≤◌, ◌≡◌, ◌≢◌, refl, ap, ◌∙◌, sym, Bool, true, false, ◌&&◌, ◌||◌, Option,
  none, some, List, [], ◌∷◌, ◌++◌, ◌==◌, if◌then◌else◌, length, arith, All, take, drop, take_all,
  length-append, ltb, leb, not, set, ◌%◌,
}
use csci_4220_network_progra.Board.{
  Board, Effect, Read, bytes, store, broadcast, command, trimmed, starts_with, post_word, on_read,
}

-- What a round does: it prints, it writes to the socket, it shuts the socket down for writing, or the
-- program ends.
pub data Did : Type 0 where
  printed sent : List ℕ → Did
  half_closed exited : Did

-- A string of an array, up to the first zero.
unfoldable pub text : List ℕ → List ℕ
text [] = []
text (c ∷ cs) = let rest = text cs in if c == 0 then [] else c ∷ rest

-- `fgets` with room for so many bytes: the line, and what stays in the stream.
unfoldable pub fgets : (room : ℕ) → List ℕ → List ℕ × List ℕ
fgets zero s = ([], s)
fgets (suc room) [] = ([], [])
fgets (suc room) (c ∷ cs) =
    let (line, rest) = fgets room cs in if c == 10 then (c ∷ [], cs) else (c ∷ line, rest)

-- `read` gives up to 1023 bytes, or nothing at the end of the stream or an error.
unfoldable pub handle_server_message : Option (List ℕ) → Did
handle_server_message none = exited
handle_server_message (some buf) = printed (text buf)

-- What the call does, and what stays of the standard input; an empty one is at its end.
unfoldable pub handle_user_input : (stdin : List ℕ) → Did × List ℕ
handle_user_input [] = (half_closed, [])
handle_user_input (c ∷ cs) = let (buf, rest) = fgets 1023 (c ∷ cs) in (sent (text buf), rest)

-- A round after `select` has returned: what `read` gives if the socket is ready, and the standard
-- input if it is ready. The program ends where the server has closed the connection.
unfoldable pub client_round :
    (socket : Option (Option (List ℕ))) → (stdin : Option (List ℕ)) → List Did
client_round (some none) stdin = exited ∷ []
client_round (some (some buf)) none = handle_server_message (some buf) ∷ []
client_round (some (some buf)) (some typed) =
    handle_server_message (some buf) ∷ (handle_user_input typed).0 ∷ []
client_round none none = []
client_round none (some typed) = (handle_user_input typed).0 ∷ []
