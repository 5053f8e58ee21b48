-- ===== src/Tftp/Request/Shape.antt =====
-- The packets of the protocol, and those that the loop of `handle_wrq` sends.
use csci_4220_network_progra.Base.{
  ℕ, ◌+◌, ◌-◌, ◌≤◌, ◌<◌, ◌≡◌, refl, List, [], ◌∷◌, ltb, ◌==◌, length, drop, min, arith, All,
  All-append, Bool-cases, inl, inr, ◌⊎◌, length-append,
}
use csci_4220_network_progra.Tftp.Packet.{
  data_size, put16, get16, ack_packet, data_packet, error_packet, overlay, packet_buffer_size, Recv,
  datagram, timeout, interrupted, failed,
}
use csci_4220_network_progra.Tftp.Wrq.{
  Wrq, expected_data, unexpected_block, err_illegal_op, wrq_timeout, wrq_accept, wrq_datagram,
  wrq_recv, is_receiving, wrq_run,
}

abbrev pub Bytes : List ℕ → Type 0
Bytes = All (λ b. b < 256)

-- A datagram of the protocol that the server sends: bytes that fit into its buffer, with the operation
-- DATA, ACK or ERROR.
pub record IsPacket (p : List ℕ) : Type 0 where
  pub bytes : Bytes p
  pub fits : length p ≤ 516
  pub operation : (get16 p ≡ 3) ⊎ (get16 p ≡ 4) ⊎ (get16 p ≡ 5)

pub ack_packet-IsPacket : (b : ℕ) → IsPacket (ack_packet b)
unfolding ack_packet put16 get16
ack_packet-IsPacket b = record {
  bytes = omega arith;
  fits = omega arith;
  operation = inr (inl refl);
}

pub data_packet-IsPacket :
    (b : ℕ) (c : List ℕ) → Bytes c → length c ≤ 512 → IsPacket (data_packet b c)
unfolding data_packet put16 get16
data_packet-IsPacket b c h short = record {
  bytes = (omega arith, (omega arith, (omega arith, (omega arith, h))));
  fits = omega arith;
  operation = inl refl;
}

pub error_packet-IsPacket :
    (code : ℕ) (msg : List ℕ) → Bytes msg → length msg ≤ 511 → IsPacket (error_packet code msg)
unfolding error_packet put16 get16
error_packet-IsPacket code msg h short = record {
  bytes = (
    omega arith,
    (
      omega arith,
      (omega arith, (omega arith, All-append (λ b. b < 256) msg (0 ∷ []) h (omega arith, tt))),
    ),
  );
  fits = omega (arith, length-append msg (0 ∷ []));
  operation = inr (inr refl);
}

-- The loop of `handle_wrq`.
accept-IsPacket : (s : Wrq) (n : ℕ) → All IsPacket (wrq_accept s n).1
unfolding wrq_accept
accept-IsPacket s n = elim (Bool-cases (ltb n 4)) [
  | inl bad ↦ rw bad tt
  | inr good ↦ elim (Bool-cases (ltb (n - 4) data_size)) [
    | inl last ↦ rw (good, last) (ack_packet-IsPacket s.block, tt)
    | inr more ↦ rw (good, more) (ack_packet-IsPacket s.block, tt)
  ]
]

datagram-IsPacket : (s : Wrq) (n : ℕ) → All IsPacket (wrq_datagram s n).1
unfolding wrq_datagram
datagram-IsPacket s n = elim (Bool-cases (get16 s.buf == 3)) [
  | inl op ↦ elim (Bool-cases (get16 (drop 2 s.buf) == s.block)) [
    | inl hit ↦ rw (op, hit) (accept-IsPacket s n)
    | inr miss ↦ elim (Bool-cases (ltb (get16 (drop 2 s.buf)) s.block)) [
      | inl old ↦ rw (op, miss, old) (ack_packet-IsPacket (get16 (drop 2 s.buf)), tt)
      | inr new ↦
          rw (op, miss, new)
            (error_packet-IsPacket err_illegal_op unexpected_block (omega arith) (omega arith), tt)
    ]
  ]
  | inr other ↦
      rw other (error_packet-IsPacket err_illegal_op expected_data (omega arith) (omega arith), tt)
]

recv-IsPacket : (s : Wrq) (e : Recv) → All IsPacket (wrq_recv s e).1
unfolding wrq_recv wrq_timeout
recv-IsPacket s (datagram d) =
    datagram-IsPacket (record s { buf = overlay d s.buf }) (min (length d) packet_buffer_size)
recv-IsPacket s timeout = elim (Bool-cases (s.retries + 1 == 10)) [
  | inl over ↦ rw over (ack_packet-IsPacket _, tt)
  | inr again ↦ rw again (ack_packet-IsPacket _, tt)
]
recv-IsPacket s interrupted = tt
recv-IsPacket s failed = tt

pub wrq_run-IsPacket : (s : Wrq) (es : List Recv) → All IsPacket (wrq_run s es).1
unfolding wrq_run
wrq_run-IsPacket s [] = tt
wrq_run-IsPacket s (e ∷ es) = elim (Bool-cases (is_receiving s.phase)) [
  | inl on ↦ rw on (
      All-append IsPacket (wrq_recv s e).1 _ (recv-IsPacket s e)
        (wrq_run-IsPacket (wrq_recv s e).0 es))
  | inr off ↦ rw off tt
]
