-- ===== src/Tftp/Rrq.antt =====
-- hw1/tftp_server.c: `handle_rrq` from the open file on, as a state machine.
pub mod Rule
pub mod Even
pub mod Blocks
pub mod Answers
pub mod Complete
use csci_4220_network_progra.Base.{
  ℕ, zero, suc, ◌+◌, ◌%◌, ◌^◌, Bool, true, false, ◌&&◌, List, [], ◌∷◌, ◌++◌, ltb, ◌==◌,
  if◌then◌else◌, length, take, drop,
}
use csci_4220_network_progra.Tftp.Packet.{
  op_ack, data_size, get16, data_packet, overlay, Recv, datagram, timeout, interrupted, failed,
}

-- `sending` and `final` wait for the acknowledgement of a block of the loop and of the empty block
-- after it.
pub data Phase : Type 0 where
  sending final finished gave_up crashed : Phase

-- `chunk` is the block in the send buffer, `rest` the part of the file that is not read yet, and
-- `at_start` says that nothing has been read, `ftell(file) == 0`.
pub record Rrq : Type 0 where
  pub phase : Phase
  pub block : ℕ
  pub retries : ℕ
  pub buf : List ℕ
  pub chunk : List ℕ
  pub rest : List ℕ
  pub at_start : Bool

abbrev pub is_nil : List ℕ → Bool
is_nil [] = true
is_nil (_ ∷ _) = false

-- The packet that the loop sends at the top of each round.
unfoldable pub current_data : Rrq → List (List ℕ)
current_data s = data_packet s.block s.chunk ∷ []

-- `fread` reads the next block. If there is none the loop ends, and an empty block follows only for
-- an empty file: `bytes_read` is 0 here, so that the second test of the code cannot hold.
unfoldable pub read_block : Rrq → Rrq × List (List ℕ)
unfolding current_data
read_block s =
    let block = take data_size s.rest in
    let loaded = record s { chunk = block; rest = drop data_size s.rest; retries = 0 } in
    if is_nil block
    then (if s.at_start
        then (record loaded { phase = final }, current_data loaded)
        else (record s { phase = finished }, []))
    else (record loaded { phase = sending; at_start = false }, current_data loaded)

-- The file is open at its start.
unfoldable pub rrq_start : List ℕ → List ℕ → Rrq × List (List ℕ)
unfolding read_block
rrq_start buf content = read_block (record {
  phase = sending;
  block = 1;
  retries = 0;
  buf = buf;
  chunk = [];
  rest = content;
  at_start = true;
})

-- The acknowledgement of the current block has come. A short block was the last; after it the code
-- sends nothing more, and `bytes_read == DATA_SIZE` cannot hold when the loop has ended.
unfoldable pub acknowledged : Rrq → Rrq × List (List ℕ)
unfolding read_block
acknowledged s =
    let next = record s { block = (s.block + 1) % 2 ^ 16 } in
    if ltb (length s.chunk) data_size
    then (record next { phase = finished }, [])
    else read_block next

-- `recv` has put a datagram into the buffer. Any but the awaited acknowledgement makes the loop
-- start again, which sends the block again; `retransmit_count` does not rise.
unfoldable pub rrq_datagram : Rrq → Rrq × List (List ℕ)
unfolding acknowledged current_data
rrq_datagram s =
    if get16 s.buf == op_ack && get16 (drop 2 s.buf) == s.block
    then elim s.phase [ final ↦ (record s { phase = finished }, []) | _ ↦ acknowledged s ]
    else (s, current_data s)

pub rrq_timeout : Rrq → Rrq × List (List ℕ)
unfolding current_data
rrq_timeout s =
    if s.retries + 1 == 10
    then (record s { phase = gave_up; retries = s.retries + 1 }, [])
    else (record s { retries = s.retries + 1 }, current_data s)

unfoldable pub rrq_recv : Rrq → Recv → Rrq × List (List ℕ)
unfolding rrq_datagram rrq_timeout
rrq_recv s (datagram d) = rrq_datagram (record s { buf = overlay d s.buf })
rrq_recv s timeout = rrq_timeout s
rrq_recv s interrupted = (s, current_data s)
rrq_recv s failed = (record s { phase = crashed }, [])

abbrev pub is_waiting : Phase → Bool
is_waiting sending = true
is_waiting final = true
is_waiting _ = false

unfoldable pub rrq_run : Rrq → List Recv → Rrq × List (List ℕ)
unfolding rrq_recv
rrq_run s [] = (s, [])
rrq_run s (e ∷ es) =
    let (t, sent) = rrq_recv s e in
    let (u, rest) = rrq_run t es in if is_waiting s.phase then (u, sent ++ rest) else (s, [])
