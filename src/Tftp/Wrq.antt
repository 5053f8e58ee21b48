-- ===== src/Tftp/Wrq.antt =====
-- hw1/tftp_server.c: `handle_wrq` from the first acknowledgement on, as a state machine.
pub mod Transfer
pub mod Awaited
pub mod Complete
use csci_4220_network_progra.Base.{
  ℕ, zero, suc, ◌+◌, ◌-◌, ◌%◌, ◌^◌, Bool, true, false, List, [], ◌∷◌, ◌++◌, ltb, ◌==◌,
  if◌then◌else◌, length, take, drop, min,
}
use csci_4220_network_progra.Tftp.Packet.{
  op_data, data_size, packet_buffer_size, get16, ack_packet, error_packet, overlay, Recv, datagram,
  timeout, interrupted, failed,
}

-- How the transfer stands. `fault` is the write of `n - 4` bytes with n below 4, where the count
-- wraps to almost 2^64.
pub data Phase : Type 0 where
  receiving completed timed_out rejected crashed fault : Phase

pub record Wrq : Type 0 where
  pub phase : Phase
  pub block : ℕ
  pub retries : ℕ
  pub buf : List ℕ
  pub file : List ℕ
  pub removed : Bool

abbrev pub max_retries : ℕ
max_retries = 10

-- "Expected DATA packet." and "Unexpected block number.", with the code for an illegal operation.
abbrev pub expected_data : List ℕ
expected_data =
    69 ∷ 120 ∷ 112 ∷ 101 ∷ 99 ∷ 116 ∷ 101 ∷ 100 ∷ 32 ∷ 68 ∷ 65 ∷ 84 ∷ 65 ∷ 32 ∷ 112 ∷ 97 ∷ 99 ∷ 107
    ∷ 101 ∷ 116 ∷ 46 ∷ []

abbrev pub unexpected_block : List ℕ
unexpected_block =
    85 ∷ 110 ∷ 101 ∷ 120 ∷ 112 ∷ 101 ∷ 99 ∷ 116 ∷ 101 ∷ 100 ∷ 32 ∷ 98 ∷ 108 ∷ 111 ∷ 99 ∷ 107 ∷ 32
    ∷ 110 ∷ 117 ∷ 109 ∷ 98 ∷ 101 ∷ 114 ∷ 46 ∷ []

abbrev pub err_illegal_op : ℕ
err_illegal_op = 4

-- The file is open, the acknowledgement of block 0 is sent, and block 1 is awaited; `buf` is what
-- the buffer on the stack holds.
unfoldable pub wrq_start : List ℕ → Wrq × List (List ℕ)
wrq_start buf = (
  record { phase = receiving; block = 1; retries = 0; buf = buf; file = []; removed = false },
  ack_packet 0 ∷ [],
)

-- Ten timeouts in a row end the transfer, after the tenth acknowledgement has been sent again.
unfoldable pub wrq_timeout : Wrq → Wrq × List (List ℕ)
wrq_timeout s =
    let again = ack_packet ((s.block + 65535) % 2 ^ 16) ∷ [] in
    if s.retries + 1 == max_retries
    then (record s { phase = timed_out; retries = s.retries + 1; removed = true }, again)
    else (record s { retries = s.retries + 1 }, again)

-- The awaited block: its bytes go to the file, and fewer than 512 of them end the transfer.
unfoldable pub wrq_accept : Wrq → ℕ → Wrq × List (List ℕ)
wrq_accept s n =
    let got = record s { file = s.file ++ take (n - 4) (drop 4 s.buf); retries = 0 } in
    if ltb n 4
    then (record s { phase = fault }, [])
    else if ltb (n - 4) data_size
    then (record got { phase = completed }, ack_packet s.block ∷ [])
    else (record got { block = (s.block + 1) % 2 ^ 16 }, ack_packet s.block ∷ [])

-- A datagram of `n` bytes lies in the buffer.
unfoldable pub wrq_datagram : Wrq → ℕ → Wrq × List (List ℕ)
unfolding wrq_accept
wrq_datagram s n =
    let recv_block = get16 (drop 2 s.buf) in
    if get16 s.buf == op_data
    then (if recv_block == s.block
        then wrq_accept s n
        else if ltb recv_block s.block
        then (record s { retries = 0 }, ack_packet recv_block ∷ [])
        else (record s { phase = rejected }, error_packet err_illegal_op unexpected_block ∷ []))
    else (record s { phase = rejected }, error_packet err_illegal_op expected_data ∷ [])

unfoldable pub wrq_recv : Wrq → Recv → Wrq × List (List ℕ)
unfolding wrq_timeout wrq_datagram
wrq_recv s (datagram d) =
    wrq_datagram (record s { buf = overlay d s.buf }) (min (length d) packet_buffer_size)
wrq_recv s timeout = wrq_timeout s
wrq_recv s interrupted = (s, [])
wrq_recv s failed = (record s { phase = crashed }, [])

abbrev pub is_receiving : Phase → Bool
is_receiving receiving = true
is_receiving _ = false

-- The loop, over what `recv` returns: the final state, and the packets sent.
unfoldable pub wrq_run : Wrq → List Recv → Wrq × List (List ℕ)
unfolding wrq_recv
wrq_run s [] = (s, [])
wrq_run s (e ∷ es) =
    let (t, sent) = wrq_recv s e in
    let (u, rest) = wrq_run t es in if is_receiving s.phase then (u, sent ++ rest) else (s, [])
