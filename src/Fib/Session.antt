-- ===== src/Fib/Session.antt =====
-- lab4/lab4.c: `client_handler` from the prompt to the answer, and lab4/client_test.c, its client.
pub mod Answered
use csci_4220_network_progra.Base.{
  ℕ, ◌-◌, ◌^◌, ◌||◌, Option, none, some, List, [], ◌∷◌, ◌++◌, ltb, leb, ◌==◌, if◌then◌else◌, length,
  take, codes,
}
use csci_4220_network_progra.CString.{scan_int, atoi}
use csci_4220_network_progra.Fib.Reply.{digits, reply}

abbrev pub prompt : (client_port : ℕ) → List ℕ
prompt client_port =
    take 255
      (codes "Connected from " ++ (digits client_port ++ codes ". Please enter an integer N:\n"))

-- What a client gets behind the prompt: the end of the connection, or a text and then the end; or the
-- server has overflowed a number or an array.
pub data Answer : Type 0 where
  closed overflowed : Answer
  wrote : List ℕ → Answer

-- `read` gives up to 1023 bytes, or nothing at the end of the stream or an error.
unfoldable pub client_handler : (num_threads : ℕ) → Option (List ℕ) → Answer
client_handler num_threads none = closed
client_handler num_threads (some buffer) =
    let n = atoi buffer in
    if n == 0 || leb (2 ^ 31) n
    then closed
    else elim (reply n num_threads) [ none ↦ overflowed | some response ↦ wrote response ]

-- `%d` of an `int`.
abbrev pub decimal : ℕ → List ℕ
decimal n = if ltb n (2 ^ 31) then digits n else 45 ∷ digits (2 ^ 32 - n)

-- What the client sends for a line of its user; `none` is a line that is no number.
unfoldable pub client_message : (typed : List ℕ) → Option (List ℕ)
client_message typed = elim (scan_int typed) [
  | none ↦ none
  | some (n, _) ↦ some (take 31 (decimal n ++ 10 ∷ []))
]
