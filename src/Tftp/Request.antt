-- ===== src/Tftp/Request.antt =====
-- hw1/tftp_server.c: `dg_tftp_listen`, `handle_request`, and the two handlers up to the open file.
pub mod Ports
pub mod Served
pub mod Store
pub mod Shape
pub mod Packets
use csci_4220_network_progra.Base.{
  ℕ, zero, suc, ◌+◌, Bool, true, false, ◌||◌, ◌&&◌, Option, none, some, List, [], ◌∷◌, ltb, leb,
  ◌==◌, if◌then◌else◌, length, drop,
}
use csci_4220_network_progra.CString.{is_space, same_caseless, skip_spaces, word}
use csci_4220_network_progra.Tftp.Packet.{get16, error_packet}
use csci_4220_network_progra.Tftp.Wrq.{Wrq, wrq_start}
use csci_4220_network_progra.Tftp.Rrq.{Rrq, rrq_start}

-- `sscanf(s, "%s", out)` into an array of `size` bytes; `none` if nothing is assigned or the array
-- overflows, which is undefined.
unfoldable pub scan_word : ℕ → List ℕ → Option (List ℕ)
unfolding skip_spaces word
scan_word size s =
    let w = word (skip_spaces s) in if length w == 0 || leb size (length w) then none else some w

-- "octet"
abbrev pub octet : List ℕ
octet = 111 ∷ 99 ∷ 116 ∷ 101 ∷ 116 ∷ []

-- "Only octet mode is supported."
abbrev pub only_octet : List ℕ
only_octet =
    79 ∷ 110 ∷ 108 ∷ 121 ∷ 32 ∷ 111 ∷ 99 ∷ 116 ∷ 101 ∷ 116 ∷ 32 ∷ 109 ∷ 111 ∷ 100 ∷ 101 ∷ 32 ∷ 105
    ∷ 115 ∷ 32 ∷ 115 ∷ 117 ∷ 112 ∷ 112 ∷ 111 ∷ 114 ∷ 116 ∷ 101 ∷ 100 ∷ 46 ∷ []

-- "File already exists."
abbrev pub file_exists : List ℕ
file_exists =
    70 ∷ 105 ∷ 108 ∷ 101 ∷ 32 ∷ 97 ∷ 108 ∷ 114 ∷ 101 ∷ 97 ∷ 100 ∷ 121 ∷ 32 ∷ 101 ∷ 120 ∷ 105 ∷ 115
    ∷ 116 ∷ 115 ∷ 46 ∷ []

-- "Cannot create file."
abbrev pub cannot_create : List ℕ
cannot_create =
    67 ∷ 97 ∷ 110 ∷ 110 ∷ 111 ∷ 116 ∷ 32 ∷ 99 ∷ 114 ∷ 101 ∷ 97 ∷ 116 ∷ 101 ∷ 32 ∷ 102 ∷ 105 ∷ 108
    ∷ 101 ∷ 46 ∷ []

-- "File not found."
abbrev pub file_not_found : List ℕ
file_not_found =
    70 ∷ 105 ∷ 108 ∷ 101 ∷ 32 ∷ 110 ∷ 111 ∷ 116 ∷ 32 ∷ 102 ∷ 111 ∷ 117 ∷ 110 ∷ 100 ∷ 46 ∷ []

-- "Invalid TFTP operation."
abbrev pub invalid_operation : List ℕ
invalid_operation =
    73 ∷ 110 ∷ 118 ∷ 97 ∷ 108 ∷ 105 ∷ 100 ∷ 32 ∷ 84 ∷ 70 ∷ 84 ∷ 80 ∷ 32 ∷ 111 ∷ 112 ∷ 101 ∷ 114 ∷ 97
    ∷ 116 ∷ 105 ∷ 111 ∷ 110 ∷ 46 ∷ []

-- The file name and the mode of a request; `m` is the buffer, with what it holds behind the request.
unfoldable pub parse_request : List ℕ → Option (List ℕ × List ℕ)
unfolding scan_word
parse_request m = elim (scan_word 128 (drop 2 m)) [
  | none ↦ none
  | some filename ↦ elim (scan_word 32 (drop (2 + length filename + 1) m)) [
    | none ↦ none
    | some mode ↦ some (filename, mode)
  ]
]

-- What the file system answers: whether the name exists, and what `fopen` gives.
pub record Files : Type 0 where
  pub exists : List ℕ → Bool
  pub can_create : List ℕ → Bool
  pub contents : List ℕ → Option (List ℕ)

-- How a request is answered: no socket is opened, the code reads what is not set, an error packet is
-- sent, or a transfer starts, with what it sends first.
pub data Session : Type 0 where
  no_port undefined : Session
  refused : (port : ℕ) → (packet : List ℕ) → Session
  writing : (port : ℕ) → (filename : List ℕ) → Wrq × List (List ℕ) → Session
  reading : (port : ℕ) → (filename : List ℕ) → Rrq × List (List ℕ) → Session

module _ (files : Files) (buf : List ℕ) where
  unfoldable pub handle_wrq : ℕ → List ℕ → Session
  unfolding parse_request same_caseless
  handle_wrq port m = elim (parse_request m) [
    | none ↦ undefined
    | some (filename, mode) ↦
        if same_caseless mode octet
        then (if files.exists filename
            then refused port (error_packet 6 file_exists)
            else if files.can_create filename
            then writing port filename (wrq_start buf)
            else refused port (error_packet 2 cannot_create))
        else refused port (error_packet 4 only_octet)
  ]

  unfoldable pub handle_rrq : ℕ → List ℕ → Session
  unfolding parse_request same_caseless
  handle_rrq port m = elim (parse_request m) [
    | none ↦ undefined
    | some (filename, mode) ↦
        if same_caseless mode octet
        then (elim (files.contents filename) [
          | none ↦ refused port (error_packet 1 file_not_found)
          | some content ↦ reading port filename (rrq_start buf content)
        ])
        else refused port (error_packet 0 only_octet)
  ]

  unfoldable pub handle_request : ℕ → ℕ → List ℕ → Session
  unfolding handle_rrq handle_wrq
  handle_request port end_port m =
      if ltb end_port port
      then no_port
      else if get16 m == 1
      then handle_rrq port m
      else if get16 m == 2
      then handle_wrq port m
      else refused port (error_packet 4 invalid_operation)

-- The port that the parent keeps for the next child.
pub next_port : ℕ → ℕ → ℕ → ℕ
next_port start_port end_port port = if ltb end_port (port + 1) then start_port + 1 else port + 1

-- The port of the child that serves the request with the number `n`, counted from 0.
pub child_port : ℕ → ℕ → ℕ → ℕ
unfolding next_port
child_port start_port end_port zero = start_port + 1
child_port start_port end_port (suc n) =
    next_port start_port end_port (child_port start_port end_port n)

-- The loop of `dg_tftp_listen` over the requests as they come.
pub listen : Files → List ℕ → ℕ → ℕ → ℕ → List (List ℕ) → List Session
unfolding handle_request next_port
listen files buf start_port end_port port [] = []
listen files buf start_port end_port port (m ∷ ms) =
    handle_request files buf port end_port m
    ∷ listen files buf start_port end_port (next_port start_port end_port port) ms
