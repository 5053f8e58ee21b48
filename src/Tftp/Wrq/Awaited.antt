-- ===== src/Tftp/Wrq/Awaited.antt =====
-- What `handle_wrq` does with a block that is awaited, and with an older one.
use csci_4220_network_progra.Base.{
  ℕ, suc, ◌+◌, ◌-◌, ◌*◌, ◌/◌, ◌%◌, ◌^◌, ◌≤◌, ◌<◌, ◌≡◌, refl, sym, ◌∙◌, ap, true, false, List, ◌∷◌,
  ◌++◌, ltb, ◌==◌, length, take, drop, min, arith, take_all, length-take, length-drop, take-add,
  take-append_exact, lt→ltb, le→ltb-false, ==_iff,
}
use csci_4220_network_progra.Tftp.Packet.{
  op_data, data_size, packet_buffer_size, get16, data_packet, length-data_packet, overlay, Recv,
  datagram, timeout, interrupted,
}
use csci_4220_network_progra.Tftp.Wrq.{receiving, completed, Wrq, wrq_accept, wrq_datagram}
use csci_4220_network_progra.Tftp.Wrq.Transfer.{chunk, length-chunk-le, overlay-data_packet}

-- The datagram with block `k + 1`.
abbrev pub block_of : List ℕ → ℕ → Recv
block_of content k = datagram (data_packet (k + 1) (chunk content k))

-- Block `k + 1` is awaited, after so many silences, and it and those behind it come in their order.
-- Before each of them older blocks may come again, and fewer than ten silences in a row.
pub data Arriving (content : List ℕ) : (k retries : ℕ) → List Recv → Type 0 where
  last :
      (k r : ℕ) (es : List Recv)
      → 512 * k ≤ length content
      → length content < 512 * (k + 1)
      → Arriving content k r (block_of content k ∷ es)
  next :
      (k r : ℕ) (es : List Recv)
      → 512 * (k + 1) ≤ length content
      → Arriving content (k + 1) 0 es
      → Arriving content k r (block_of content k ∷ es)
  again :
      (j k r : ℕ) (es : List Recv)
      → j < k
      → 512 * k ≤ length content
      → Arriving content k 0 es
      → Arriving content k r (block_of content j ∷ es)
  late :
      (k r : ℕ) (es : List Recv)
      → r + 1 < 10
      → Arriving content k (r + 1) es
      → Arriving content k r (timeout ∷ es)
  signalled :
      (k r : ℕ) (es : List Recv) → Arriving content k r es → Arriving content k r (interrupted ∷ es)

-- The transfer waits for block `k + 1`, and has those before it.
pub record Waits (content : List ℕ) (k r : ℕ) (s : Wrq) : Type 0 where
  pub phase : s.phase ≡ receiving
  pub number : s.block ≡ k + 1
  pub retries : s.retries ≡ r
  pub file : s.file ≡ take (512 * k) content

pub record Ends (content : List ℕ) (s : Wrq) : Type 0 where
  pub phase : s.phase ≡ completed
  pub file : s.file ≡ content

-- What lies in the buffer when a block has come.
pub record Lies (content : List ℕ) (j n : ℕ) (buf : List ℕ) : Type 0 where
  pub junk : List ℕ
  pub op : get16 buf ≡ op_data
  pub number : get16 (drop 2 buf) ≡ j + 1
  pub bytes : drop 4 buf ≡ chunk content j ++ junk
  pub size : n ≡ 4 + length (chunk content j)

number_back : (j : ℕ) → j < 65535 → (j + 1) / 256 % 256 * 256 + (j + 1) % 256 ≡ j + 1
number_back j h = omega arith

pub block-Lies :
    (content buf : List ℕ) (j : ℕ)
    → j < 65535
    → Lies content j
        (min (length (data_packet (j + 1) (chunk content j))) packet_buffer_size)
        (overlay (data_packet (j + 1) (chunk content j)) buf)
unfolding get16
block-Lies content buf j small =
    let c = chunk content j in
    let short = length-chunk-le content j in
    let lies = overlay-data_packet (j + 1) c buf short in
    record {
      junk = drop (suc (suc (suc (suc (length c))))) buf;
      op = ap get16 lies;
      number = ap (λ (b : List ℕ). get16 (drop 2 b)) lies ∙ number_back j small;
      bytes = ap (λ (b : List ℕ). drop 4 b) lies;
      size = omega (arith, length-data_packet (j + 1) c, short);
    }

-- The bytes of a block that is taken.
grown :
    (content : List ℕ) (k n r : ℕ) (s : Wrq) (l : Lies content k n s.buf)
    → Waits content k r s
    → s.file ++ take (n - 4) (drop 4 s.buf) ≡ take (512 * k + 512) content
grown content k n r s l w =
    let bytes : take (n - 4) (drop 4 s.buf) ≡ chunk content k =
      rw (l.bytes) (take-append_exact (chunk content k) l.junk (n - 4) (omega (arith, l.size))) in
    rw (w.file, bytes) (take-add (512 * k) 512 content)

accepted :
    (content : List ℕ) (k n r : ℕ) (s : Wrq)
    → Lies content k n s.buf
    → Waits content k r s
    → wrq_datagram s n ≡ wrq_accept s n
unfolding wrq_datagram
accepted content k n r s l w =
    let is_data : (get16 s.buf == op_data) ≡ true = rw (l.op) refl in
    let hit : (get16 (drop 2 s.buf) == s.block) ≡ true =
      (==_iff (get16 (drop 2 s.buf)) s.block).1 (l.number ∙ sym (w.number)) in
    simp (wrq_datagram, is_data, hit)

pub last-Ends :
    (content : List ℕ) (k n r : ℕ) (s : Wrq)
    → 512 * k ≤ length content
    → length content < 512 * (k + 1)
    → Lies content k n s.buf
    → Waits content k r s
    → Ends content (wrq_datagram s n).0
unfolding wrq_accept
last-Ends content k n r s fits short l w =
    let taken = grown content k n r s l w in
    let rest = length-drop (512 * k) content in
    let read = length-take 512 (drop (512 * k) content) in
    let enough = le→ltb-false n 4 (omega (arith, l.size)) in
    let small : ltb (n - 4) data_size ≡ true =
      lt→ltb (n - 4) data_size (omega (arith, l.size, read, rest)) in
    rw (accepted content k n r s l w) (
      rw (enough, small)
        (record { phase = refl; file = taken ∙ take_all (512 * k + 512) content (omega arith) }))

pub next-Waits :
    (content : List ℕ) (k n r : ℕ) (s : Wrq)
    → k < 65534
    → 512 * (k + 1) ≤ length content
    → Lies content k n s.buf
    → Waits content k r s
    → Waits content (k + 1) 0 (wrq_datagram s n).0
unfolding wrq_accept
next-Waits content k n r s small fits l w =
    let taken = grown content k n r s l w in
    let rest = length-drop (512 * k) content in
    let read = length-take 512 (drop (512 * k) content) in
    let enough = le→ltb-false n 4 (omega (arith, l.size)) in
    let whole = le→ltb-false (n - 4) data_size (omega (arith, l.size, read, rest)) in
    let b : (s.block + 1) % 2 ^ 16 ≡ k + 1 + 1 = omega (arith, w.number) in
    rw (accepted content k n r s l w) (
      rw (enough, whole)
        (record {
          phase = w.phase;
          number = b;
          retries = refl;
          file = taken ∙ ap (λ (t : ℕ). take t content) (omega arith);
        }))

pub again-Waits :
    (content : List ℕ) (j k n r : ℕ) (s : Wrq)
    → j < k
    → Lies content j n s.buf
    → Waits content k r s
    → Waits content k 0 (wrq_datagram s n).0
unfolding wrq_datagram
again-Waits content j k n r s older l w =
    let is_data : (get16 s.buf == op_data) ≡ true = rw (l.op) refl in
    let num = l.number in
    let at = w.number in
    let miss : (get16 (drop 2 s.buf) == s.block) ≡ false = ground arith in
    let before : ltb (get16 (drop 2 s.buf)) s.block ≡ true = lt→ltb _ _ (omega arith) in
    rw (is_data, miss, before)
      (record { phase = w.phase; number = w.number; retries = refl; file = w.file })
