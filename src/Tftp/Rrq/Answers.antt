-- ===== src/Tftp/Rrq/Answers.antt =====
-- What `handle_rrq` does with each answer of a client that acknowledges the blocks in their order.
use csci_4220_network_progra.Base.{
  ℕ, ◌+◌, ◌*◌, ◌%◌, ◌^◌, ◌≤◌, ◌<◌, ◌≡◌, refl, sym, ◌∙◌, ap, ap₂, true, false, List, [], ◌∷◌, ltb,
  ◌==◌, length, take, drop, arith, length-take, length-drop, drop-drop, Bool-cases, lt→ltb,
  le→ltb-false, ==_iff, inl, inr, ◌⊎◌, subst,
}
use csci_4220_network_progra.Tftp.Packet.{
  op_ack, data_size, put16, get16, ack_packet, data_packet, overlay, Recv, datagram, timeout,
  interrupted,
}
use csci_4220_network_progra.Tftp.Wrq.Transfer.{chunk}
use csci_4220_network_progra.Tftp.Rrq.{
  sending, final, finished, Rrq, is_nil, current_data, read_block, acknowledged, rrq_datagram,
  rrq_timeout, rrq_recv, is_waiting,
}
use csci_4220_network_progra.Tftp.Rrq.Rule.{is_nil-true}

-- The datagram that acknowledges block `k + 1`.
abbrev pub ack_of : ℕ → Recv
ack_of k = datagram (ack_packet (k + 1))

-- Block `k + 1` is on its way, after so many silences, and the client acknowledges it and those behind
-- it. Before that it may acknowledge older blocks, and be silent fewer than ten times for each block.
-- The last block is a short one.
pub data Answering (content : List ℕ) : (k retries : ℕ) → List Recv → Type 0 where
  to_last :
      (k r : ℕ) (es : List Recv)
      → 512 * k ≤ length content
      → length content < 512 * (k + 1)
      → Answering content k r (ack_of k ∷ es)
  to_next :
      (k r : ℕ) (es : List Recv)
      → 512 * (k + 1) < length content
      → Answering content (k + 1) 0 es
      → Answering content k r (ack_of k ∷ es)
  to_older :
      (j k r : ℕ) (es : List Recv)
      → j < k
      → Answering content k r es
      → Answering content k r (ack_of j ∷ es)
  silent :
      (k r : ℕ) (es : List Recv)
      → r + 1 < 10
      → Answering content k (r + 1) es
      → Answering content k r (timeout ∷ es)
  signalled :
      (k r : ℕ) (es : List Recv)
      → Answering content k r es
      → Answering content k r (interrupted ∷ es)

-- The transfer waits for the acknowledgement of block `k + 1`; that of the empty block of an empty file
-- is awaited behind the loop.
pub record Asks (content : List ℕ) (k r : ℕ) (s : Rrq) : Type 0 where
  pub waits : (s.phase ≡ sending) ⊎ ((s.phase ≡ final) × (length content ≡ 0))
  pub number : s.block ≡ k + 1
  pub retries : s.retries ≡ r
  pub chunk_eq : s.chunk ≡ chunk content k
  pub rest_eq : s.rest ≡ drop (512 * (k + 1)) content

-- What a step leads to: the state and what has been sent.
pub record Steps (content : List ℕ) (k r : ℕ) (sent : List (List ℕ)) (m : Rrq × List (List ℕ))
    : Type 0 where
  pub asks : Asks content k r m.0
  pub sent_eq : m.1 ≡ sent

abbrev pub packet_of : List ℕ → ℕ → List ℕ
packet_of content k = data_packet (k + 1) (chunk content k)

pub on : {content : List ℕ} {k r : ℕ} {s : Rrq} → Asks content k r s → is_waiting s.phase ≡ true
on {s = s} a = elim a.waits [ inl e ↦ rw e refl | inr (e, _) ↦ rw e refl ]

current :
    (content : List ℕ) (k r : ℕ) (s : Rrq)
    → Asks content k r s
    → current_data s ≡ packet_of content k ∷ []
unfolding current_data
current content k r s a = ap (λ (p : List ℕ). p ∷ []) (ap₂ data_packet a.number a.chunk_eq)

-- What lies in the buffer when an acknowledgement has come.
overlay-ack :
    (j : ℕ) (buf : List ℕ)
    → j < 65535
    → (get16 (overlay (ack_packet (j + 1)) buf) ≡ op_ack)
      × (get16 (drop 2 (overlay (ack_packet (j + 1)) buf)) ≡ j + 1)
unfolding overlay ack_packet put16 get16
overlay-ack j buf h = (refl, omega arith)

-- An acknowledgement of an older block: the block is sent again.
pub older-Steps :
    (content : List ℕ) (j k r : ℕ) (s : Rrq)
    → j < k
    → j < 65535
    → Asks content k r s
    → Steps content k r (packet_of content k ∷ []) (rrq_recv s (ack_of j))
unfolding rrq_recv rrq_datagram
older-Steps content j k r s older small a =
    let b = overlay (ack_packet (j + 1)) s.buf in
    let (op, num) = overlay-ack j s.buf small in
    let at = a.number in
    let miss : (get16 (drop 2 b) == s.block) ≡ false = ground arith in
    let kept : Asks content k r (record s { buf = b }) = record {
      waits = a.waits;
      number = a.number;
      retries = a.retries;
      chunk_eq = a.chunk_eq;
      rest_eq = a.rest_eq;
    } in
    let e : rrq_recv s (ack_of j) ≡ (record s { buf = b }, current_data (record s { buf = b })) =
      simp (rrq_recv, rrq_datagram, op, miss) in
    subst (Steps content k r (packet_of content k ∷ [])) (sym e)
      (record { asks = kept; sent_eq = current content k r (record s { buf = b }) kept })

pub silent-Steps :
    (content : List ℕ) (k r : ℕ) (s : Rrq)
    → r + 1 < 10
    → Asks content k r s
    → Steps content k (r + 1) (packet_of content k ∷ []) (rrq_recv s timeout)
unfolding rrq_recv rrq_timeout
silent-Steps content k r s few a =
    let same = a.retries in
    let more : (s.retries + 1 == 10) ≡ false = ground arith in
    let kept : Asks content k (r + 1) (record s { retries = s.retries + 1 }) = record {
      waits = a.waits;
      number = a.number;
      retries = omega arith;
      chunk_eq = a.chunk_eq;
      rest_eq = a.rest_eq;
    } in
    rw more (record { asks = kept; sent_eq = current content k r s a })

pub signalled-Steps :
    (content : List ℕ) (k r : ℕ) (s : Rrq)
    → Asks content k r s
    → Steps content k r (packet_of content k ∷ []) (rrq_recv s interrupted)
unfolding rrq_recv
signalled-Steps content k r s a = record { asks = a; sent_eq = current content k r s a }

-- The next block is read.
pub read_block-Steps :
    (content : List ℕ) (k : ℕ) (s : Rrq)
    → 512 * k < length content
    → s.block ≡ k + 1
    → s.rest ≡ drop (512 * k) content
    → Steps content k 0 (packet_of content k ∷ []) (read_block s)
unfolding read_block current_data
read_block-Steps content k s fits number rest =
    let at : take data_size s.rest ≡ chunk content k = ap (take data_size) rest in
    let beyond : drop data_size s.rest ≡ drop (512 * (k + 1)) content =
      ap (drop data_size) rest
      ∙ (drop-drop (512 * k) 512 content ∙ ap (λ (t : ℕ). drop t content) (omega arith)) in
    elim (Bool-cases (is_nil (take data_size s.rest))) [
      | inl none_left ↦ absurd (
          omega (
            arith,
            is_nil-true (take 512 s.rest) none_left,
            ap length at,
            length-take 512 (drop (512 * k) content),
            length-drop (512 * k) content,
          ))
      | inr more ↦ rw more (record {
        asks = record {
          waits = inl refl;
          number = number;
          retries = refl;
          chunk_eq = at;
          rest_eq = beyond;
        };
        sent_eq = ap (λ (p : List ℕ). p ∷ []) (ap₂ data_packet number at);
      })
    ]

hit_of : (k r : ℕ) {content : List ℕ} (s : Rrq) → Asks content k r s → (k + 1 == s.block) ≡ true
hit_of k r s a = (==_iff (k + 1) s.block).1 (sym (a.number))

-- The awaited acknowledgement, in the loop.
acked :
    (content : List ℕ) (k r : ℕ) (s : Rrq)
    → k < 65535
    → s.phase ≡ sending
    → Asks content k r s
    → rrq_recv s (ack_of k) ≡ acknowledged (record s { buf = overlay (ack_packet (k + 1)) s.buf })
unfolding rrq_recv rrq_datagram
acked content k r s small phase a =
    let (op, num) = overlay-ack k s.buf small in
    simp (rrq_recv, rrq_datagram, op, num, hit_of k r s a, phase)

acked_final :
    (content : List ℕ) (k r : ℕ) (s : Rrq)
    → k < 65535
    → s.phase ≡ final
    → Asks content k r s
    → rrq_recv s (ack_of k)
      ≡ (record s { buf = overlay (ack_packet (k + 1)) s.buf; phase = finished }, [])
unfolding rrq_recv rrq_datagram
acked_final content k r s small phase a =
    let (op, num) = overlay-ack k s.buf small in
    simp (rrq_recv, rrq_datagram, op, num, hit_of k r s a, phase)

pub next-Steps :
    (content : List ℕ) (k r : ℕ) (s : Rrq)
    → k < 65534
    → 512 * (k + 1) < length content
    → Asks content k r s
    → Steps content (k + 1) 0 (packet_of content (k + 1) ∷ []) (rrq_recv s (ack_of k))
unfolding acknowledged
next-Steps content k r s small fits a = elim a.waits [
  | inl phase ↦
      let size = ap length a.chunk_eq in
      let whole : ltb (length s.chunk) data_size ≡ false = le→ltb-false (length s.chunk) data_size (
        omega
          (arith, size, length-take 512 (drop (512 * k) content), length-drop (512 * k) content)) in
      let t : Rrq = record s {
        buf = overlay (ack_packet (k + 1)) s.buf;
        block = (s.block + 1) % 2 ^ 16;
      } in
      let e : rrq_recv s (ack_of k) ≡ read_block t =
        acked content k r s (omega arith) phase a ∙ simp (acknowledged, whole) in
      subst (Steps content (k + 1) 0 (packet_of content (k + 1) ∷ [])) (sym e)
        (read_block-Steps content (k + 1) t fits (omega (arith, a.number)) a.rest_eq)
  | inr (_, nothing) ↦ absurd (omega arith)
]

-- The transfer has come to its end, with nothing more to send.
abbrev pub Over : Rrq × List (List ℕ) → Type 0
Over m = (m.0.phase ≡ finished) × (m.1 ≡ [])

pub last-Over :
    (content : List ℕ) (k r : ℕ) (s : Rrq)
    → k < 65535
    → length content < 512 * (k + 1)
    → Asks content k r s
    → Over (rrq_recv s (ack_of k))
unfolding acknowledged
last-Over content k r s small short a = elim a.waits [
  | inl phase ↦
      let size = ap length a.chunk_eq in
      let part : ltb (length s.chunk) data_size ≡ true = lt→ltb (length s.chunk) data_size (
        omega
          (arith, size, length-take 512 (drop (512 * k) content), length-drop (512 * k) content)) in
      subst Over (sym (acked content k r s small phase a)) (rw part (refl, refl))
  | inr (phase, _) ↦ subst Over (sym (acked_final content k r s small phase a)) (refl, refl)
]
