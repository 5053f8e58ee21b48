-- ===== src/Chat/Lines.antt =====
-- hw2/chatroom_server.c: `handle_client_message`, which cuts what a client sends into lines.
pub mod Split
pub mod Stream
pub mod Call
pub mod Receive
pub mod Tests
use csci_4220_network_progra.Base.{
  ℕ, zero, suc, ◌+◌, ◌-◌, Bool, true, false, Option, none, some, List, [], ◌∷◌, ◌++◌, ltb, leb,
  ◌==◌, if◌then◌else◌, length, take, drop,
}
use csci_4220_network_progra.Chat.Queue.{Job}
use csci_4220_network_progra.Chat.Room.{Client, in_buf_size}

-- What `strchr` finds in the bytes from a pointer on: the bytes before and behind the first one that
-- is searched, a zero before any, or neither up to the end of the array.
pub data Found : Type 0 where
  found : (before behind : List ℕ) → Found
  absent overrun : Found

abbrev pub ahead : ℕ → Found → Found
ahead c (found before behind) = found (c ∷ before) behind
ahead c absent = absent
ahead c overrun = overrun

unfoldable pub strchr : ℕ → List ℕ → Found
strchr byte [] = overrun
strchr byte (c ∷ cs) =
    let rest = ahead c (strchr byte cs) in
    if c == byte then found [] cs else if c == 0 then absent else rest

-- A carriage return at the end of the line becomes a zero.
unfoldable pub drop_cr : List ℕ → List ℕ
drop_cr [] = []
drop_cr (c ∷ []) = if c == 13 then 0 ∷ [] else c ∷ []
drop_cr (c ∷ d ∷ cs) = c ∷ drop_cr (d ∷ cs)

-- The string at the front of some bytes, up to its closing zero.
unfoldable pub string_of : List ℕ → List ℕ
string_of [] = []
string_of (c ∷ cs) = let rest = string_of cs in if c == 0 then [] else c ∷ rest

-- The job that a line makes, if it is not empty; `strncpy` keeps 31 and 1023 bytes.
unfoldable pub line_job : (fd : ℕ) → (username line : List ℕ) → List Job
line_job fd username line =
    if ltb 0 (length line)
    then record { sender_fd = fd; username = take 31 username; msg = take 1023 line } ∷ []
    else []

-- What the loop leaves: the jobs that it has pushed, the bytes that `line_start` has gone past, and
-- those from `line_start` on.
pub record Cut : Type 0 where
  pub jobs : List Job
  pub passed : List ℕ
  pub rest : List ℕ

-- The loop from `line_start`, whose bytes are given. Each round goes past a newline, and there is fuel
-- for one round more than there are bytes. `none` is a read behind the array.
unfoldable pub cut_lines : (fuel fd : ℕ) → (username from : List ℕ) → Option Cut
unfolding drop_cr string_of
cut_lines zero fd username from = none
cut_lines (suc fuel) fd username from = elim (strchr 10 from) [
  | overrun ↦ none
  | absent ↦ some (record { jobs = []; passed = []; rest = from })
  | found before behind ↦
      let line = drop_cr before in
      elim (cut_lines fuel fd username behind) [
        | none ↦ none
        | some c ↦ some (record {
          jobs = line_job fd username (string_of line) ++ c.jobs;
          passed = line ++ 0 ∷ c.passed;
          rest = c.rest;
        })
      ]
]

-- How a call ends: the client is removed, or it stays and jobs have been pushed, or the code has
-- read or would write outside the buffer (a negative `inbuf_len` is the place of the next `memcpy`).
pub data Received : Type 0 where
  removed fault : Received
  kept : Client → List Job → Received

-- The rest of the bytes moves to the front.
unfoldable pub keep_partial : Client → Cut → Received
keep_partial client c =
    if ltb client.inbuf_len (length c.passed)
    then fault
    else (let remaining_len = client.inbuf_len - length c.passed in
        kept
          (record client {
            inbuf = take remaining_len c.rest ++ drop remaining_len (c.passed ++ c.rest);
            inbuf_len = remaining_len;
          })
          c.jobs)

-- `recv` gives up to 1023 bytes, and none if the client has gone or at an error.
unfoldable pub handle_client_message : Client → (received : List ℕ) → Received
unfolding keep_partial
handle_client_message client received =
    if length received == 0
    then removed
    else if ltb (client.inbuf_len + length received) in_buf_size
    then (let filled =
          take client.inbuf_len client.inbuf
          ++ (received ++ drop (client.inbuf_len + length received) client.inbuf) in
        elim (cut_lines (suc (length filled)) client.fd client.username filled) [
          | none ↦ fault
          | some c ↦
              keep_partial (record client { inbuf_len = client.inbuf_len + length received }) c
        ])
    else removed

-- The calls of one client, over what `recv` gives in turn.
unfoldable pub receive_all : Client → List (List ℕ) → Received
receive_all client [] = kept client []
receive_all client (d ∷ ds) = elim (handle_client_message client d) [
  | removed ↦ removed
  | fault ↦ fault
  | kept c jobs ↦ elim (receive_all c ds) [
    | removed ↦ removed
    | fault ↦ fault
    | kept c' more ↦ kept c' (jobs ++ more)
  ]
]
