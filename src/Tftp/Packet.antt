-- ===== src/Tftp/Packet.antt =====
-- hw1/tftp_server.c: packets as bytes, and what a blocking `recv` under an alarm gives.
use csci_4220_network_progra.Base.{
  ℕ, ◌+◌, ◌*◌, ◌/◌, ◌%◌, ◌^◌, ◌<◌, ◌≡◌, List, [], ◌∷◌, ◌++◌, arith, length, take, drop,
}

abbrev pub op_data : ℕ
op_data = 3

abbrev pub op_ack : ℕ
op_ack = 4

abbrev pub op_error : ℕ
op_error = 5

abbrev pub data_size : ℕ
data_size = 512

abbrev pub packet_buffer_size : ℕ
packet_buffer_size = data_size + 4

-- `htons` and `memcpy`: the high byte comes first.
unfoldable pub put16 : ℕ → List ℕ
put16 n = (n / 256 % 256) ∷ (n % 256) ∷ []

-- `memcpy` and `ntohs` of the two bytes at the front.
unfoldable pub get16 : List ℕ → ℕ
get16 [] = 0
get16 (h ∷ []) = h * 256
get16 (h ∷ l ∷ rest) = h * 256 + l

unfoldable pub ack_packet : ℕ → List ℕ
ack_packet block = put16 op_ack ++ put16 block

unfoldable pub data_packet : ℕ → List ℕ → List ℕ
data_packet block bytes = put16 op_data ++ (put16 block ++ bytes)

-- `send_error`: the text and a zero byte behind the code.
unfoldable pub error_packet : ℕ → List ℕ → List ℕ
error_packet code msg = put16 op_error ++ (put16 code ++ (msg ++ 0 ∷ []))

-- `recv` writes a datagram over the front of the buffer, and cuts off what does not fit.
unfoldable pub overlay : List ℕ → List ℕ → List ℕ
overlay d buf = let front = take packet_buffer_size d in front ++ drop (length front) buf

-- One return of `recv`: a datagram, EINTR with `timeout_occured` set by `sig_alrm`, EINTR by another
-- signal, or another error, on which `err_sys` ends the process.
pub data Recv : Type 0 where
  datagram : List ℕ → Recv
  timeout interrupted failed : Recv

pub get16-put16 : (n : ℕ) (rest : List ℕ) → n < 2 ^ 16 → get16 (put16 n ++ rest) ≡ n
unfolding get16 put16
get16-put16 n rest h = omega arith

pub length-data_packet :
    (block : ℕ) (bytes : List ℕ) → length (data_packet block bytes) ≡ 4 + length bytes
unfolding data_packet put16
length-data_packet block bytes = omega arith
