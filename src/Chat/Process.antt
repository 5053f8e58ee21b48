-- ===== src/Chat/Process.antt =====
-- hw2/chatroom_server.c: `process_message`, what a worker does with a job.
pub mod Names
use csci_4220_network_progra.Base.{
  ℕ, ◌+◌, ◌-◌, Bool, true, false, ◌||◌, ◌&&◌, not, Option, none, some, List, [], ◌∷◌, ◌++◌, leb,
  ◌==◌, if◌then◌else◌, length, take, drop, map,
}
use csci_4220_network_progra.CString.{lower, is_alnum, skip_spaces, word}
use csci_4220_network_progra.Chat.Queue.{Job}
use csci_4220_network_progra.Chat.Room.{
  Client, Effect, sent, queued, closed, invalid_username, ask_username, invalid_command, usage_me,
  in_use, start_chatting, text, is_username_taken,
}

-- " joined the chat.\n"
abbrev pub joined : List ℕ
joined =
    32 ∷ 106 ∷ 111 ∷ 105 ∷ 110 ∷ 101 ∷ 100 ∷ 32 ∷ 116 ∷ 104 ∷ 101 ∷ 32 ∷ 99 ∷ 104 ∷ 97 ∷ 116 ∷ 46
    ∷ 10 ∷ []

-- "/who"
abbrev who : List ℕ
who = 47 ∷ 119 ∷ 104 ∷ 111 ∷ []

-- "/me"
abbrev me : List ℕ
me = 47 ∷ 109 ∷ 101 ∷ []

-- "/quit"
abbrev quit : List ℕ
quit = 47 ∷ 113 ∷ 117 ∷ 105 ∷ 116 ∷ []

-- "Active users:\n"
abbrev active_users : List ℕ
active_users = 65 ∷ 99 ∷ 116 ∷ 105 ∷ 118 ∷ 101 ∷ 32 ∷ 117 ∷ 115 ∷ 101 ∷ 114 ∷ 115 ∷ 58 ∷ 10 ∷ []

-- " - "
abbrev dash : List ℕ
dash = 32 ∷ 45 ∷ 32 ∷ []

-- ": "
abbrev pub colon : List ℕ
colon = 58 ∷ 32 ∷ []

-- What fits into an array of `size` bytes with its closing zero: `strncpy` with `size - 1` and
-- `snprintf` with `size`.
abbrev pub cut : ℕ → List ℕ → List ℕ
cut size s = take (size - 1) s

-- `strcmp` gives 0.
unfoldable pub same : List ℕ → List ℕ → Bool
same [] [] = true
same (c ∷ cs) (d ∷ ds) = c == d && same cs ds
same _ _ = false

-- `strncat(dst, src, size - strlen(dst) - 1)`
unfoldable pub strncat : ℕ → List ℕ → List ℕ → List ℕ
strncat size dst src = dst ++ take (size - length dst - 1) src

-- The first client with the descriptor.
unfoldable pub find_client : List Client → ℕ → Option Client
find_client [] fd = none
find_client (c ∷ cs) fd = let rest = find_client cs fd in if c.fd == fd then some c else rest

unfoldable pub is_valid : List ℕ → Bool
is_valid [] = true
is_valid (c ∷ cs) = (is_alnum c || c == 95) && is_valid cs

-- The name is written into the client at the address.
unfoldable pub set_username : List Client → ℕ → List ℕ → List Client
set_username [] addr username = []
set_username (c ∷ cs) addr username =
    let rest = set_username cs addr username in
    if c.addr == addr then record c { username = cut 32 username } ∷ cs else c ∷ rest

-- The first message of a client is its name.
unfoldable pub setup_username : List Client → Client → List ℕ → List Client × List Effect
setup_username clients sender msg =
    let username = cut 32 msg in
    if not (is_valid username) || length username == 0
    then (clients, sent sender.fd invalid_username ∷ sent sender.fd ask_username ∷ [])
    else if is_username_taken clients username
    then (clients, sent sender.fd (in_use username) ∷ [])
    else (
      set_username clients sender.addr username,
      sent sender.fd (start_chatting username)
          ∷ queued sender.fd (cut 1024 (cut 256 (username ++ joined)))
          ∷ [],
    )

-- Newlines and carriage returns at the end go.
unfoldable pub strip : List ℕ → List ℕ
strip [] = []
strip (c ∷ cs) =
    let rest = strip cs in if length rest == 0 && (c == 10 || c == 13) then [] else c ∷ rest

unfoldable pub until_newline : List ℕ → List ℕ
until_newline [] = []
until_newline (c ∷ cs) = let rest = until_newline cs in if c == 10 then [] else c ∷ rest

-- `sscanf(msg, "%255s %1023[^\n]", cmd, args)` with `args` empty before: `none` where the result is
-- below 1.
unfoldable pub parse_command : List ℕ → Option (List ℕ × List ℕ)
parse_command msg =
    let from = skip_spaces msg in
    let cmd = take 255 (word from) in
    if length cmd == 0
    then none
    else some (cmd, take 1023 (until_newline (skip_spaces (drop (length cmd) from))))

unfoldable pub who_msg : List Client → List ℕ → List ℕ
who_msg [] acc = acc
who_msg (c ∷ cs) acc = who_msg cs (
    if length c.username == 0
    then acc
    else strncat 2048 (strncat 2048 (strncat 2048 acc dash) c.username) (10 ∷ []))

unfoldable pub run_command : List Client → Client → List ℕ → List ℕ → List Effect
run_command clients sender cmd args =
    if same cmd who
    then sent sender.fd (text (who_msg clients active_users)) ∷ []
    else if same cmd me
    then (if length args == 0
        then sent sender.fd usage_me ∷ []
        else queued sender.fd
            (cut 1024 (cut 2048 (42 ∷ (sender.username ++ 32 ∷ (args ++ 42 ∷ 10 ∷ [])))))
          ∷ [])
    else if same cmd quit
    then closed sender.fd ∷ []
    else sent sender.fd invalid_command ∷ []

-- The message of a client that has a name.
unfoldable pub process_line : List Client → Client → List ℕ → List Effect
process_line clients sender line =
    let msg = strip line in
    let said =
      queued sender.fd (cut 1024 (cut 2048 (sender.username ++ (colon ++ (msg ++ 10 ∷ [])))))
      ∷ [] in
    if same (take 1 msg) (47 ∷ [])
    then (elim (parse_command msg) [
      | none ↦ sent sender.fd invalid_command ∷ []
      | some (cmd, args) ↦ run_command clients sender (map lower cmd) args
    ])
    else said

-- A worker takes a job. The calls of one job are taken as one step, as with one worker.
unfoldable pub process_message : List Client → Job → List Client × List Effect
process_message clients job = elim (find_client clients job.sender_fd) [
  | none ↦ (clients, [])
  | some sender ↦
      if length sender.username == 0
      then setup_username clients sender job.msg
      else (clients, process_line clients sender job.msg)
]
