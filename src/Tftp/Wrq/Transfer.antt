-- ===== src/Tftp/Wrq/Transfer.antt =====
-- A file that a client writes, over a network that loses, repeats and reorders its packets.
use csci_4220_network_progra.Base.{
  ℕ, zero, suc, ◌+◌, ◌-◌, ◌*◌, ◌/◌, ◌%◌, ◌^◌, ◌≤◌, ◌<◌, ◌≡◌, refl, ◌∙◌, ap, true, false, List, [],
  ◌∷◌, ◌++◌, ltb, ◌==◌, length, take, drop, min, arith, take_all, length-take, length-drop,
  take-add, take-append_exact, Bool-cases, ltb→lt, ltb-false→le, le→ltb-false, ==_iff, inl, inr,
}
use csci_4220_network_progra.Tftp.Packet.{
  op_data, data_size, packet_buffer_size, put16, get16, data_packet, length-data_packet, overlay,
  Recv, datagram, timeout, interrupted, failed,
}
use csci_4220_network_progra.Tftp.Wrq.{
  Phase, receiving, completed, timed_out, Wrq, wrq_start, wrq_timeout, wrq_accept, wrq_datagram,
  wrq_recv, is_receiving, wrq_run,
}

-- The bytes of block `k + 1`.
abbrev pub chunk : List ℕ → ℕ → List ℕ
chunk content k = take data_size (drop (512 * k) content)

-- What the network may deliver: any block of the file, any number of times, or nothing.
pub data Delivered (content : List ℕ) : Recv → Type 0 where
  block :
      (k : ℕ)
      → 512 * k ≤ length content
      → Delivered content (datagram (data_packet (k + 1) (chunk content k)))
  late : Delivered content timeout
  signalled : Delivered content interrupted
  broken : Delivered content failed

-- What the file holds in each phase of the transfer.
abbrev pub Progress : List ℕ → Phase → ℕ → List ℕ → Type 0
Progress content receiving b file =
    (k : ℕ) × (b ≡ k + 1) × (512 * k ≤ length content) × (file ≡ take (512 * k) content)
Progress content completed b file = file ≡ content
Progress content _ b file = (k : ℕ) × (file ≡ take (512 * k) content)

abbrev Holds : List ℕ → Wrq → Type 0
Holds content s = Progress content s.phase s.block s.file

pub length-chunk-le : (content : List ℕ) (k : ℕ) → length (chunk content k) ≤ 512
length-chunk-le content k = omega (arith, length-take 512 (drop (512 * k) content))

pub overlay-data_packet :
    (b : ℕ) (c buf : List ℕ)
    → length c ≤ 512
    → overlay (data_packet b c) buf
      ≡ 0 ∷ 3 ∷ (b / 256 % 256) ∷ (b % 256) ∷ (c ++ drop (suc (suc (suc (suc (length c))))) buf)
unfolding overlay data_packet put16
overlay-data_packet b c buf h =
    ap
      (λ (t : List ℕ).
        0 ∷ 3 ∷ (b / 256 % 256) ∷ (b % 256) ∷ (t ++ drop (suc (suc (suc (suc (length t))))) buf))
      (take_all 512 c h)

-- What the awaited block does to the file.
accept-Progress :
    (content : List ℕ) (s : Wrq) (k n : ℕ) (junk : List ℕ)
    → length content < 512 * 65535
    → s.block ≡ k + 1
    → 512 * k ≤ length content
    → s.phase ≡ receiving
    → s.file ≡ take (512 * k) content
    → drop 4 s.buf ≡ chunk content k ++ junk
    → n ≡ 4 + length (chunk content k)
    → Holds content (wrq_accept s n).0
unfolding wrq_accept
accept-Progress content s k n junk small at fits phase file buf size =
    let bytes : take (n - 4) (drop 4 s.buf) ≡ chunk content k =
      rw buf (take-append_exact (chunk content k) junk (n - 4) (omega arith)) in
    let grown : s.file ++ take (n - 4) (drop 4 s.buf) ≡ take (512 * k + 512) content =
      rw (file, bytes) (take-add (512 * k) 512 content) in
    let long = length-take 512 (drop (512 * k) content) in
    let rest = length-drop (512 * k) content in
    let enough = le→ltb-false n 4 (omega (arith, size)) in
    elim (Bool-cases (ltb (n - 4) data_size)) [
      | inl last ↦
          let short = ltb→lt (n - 4) data_size last in
          rw (enough, last)
            (grown ∙ take_all (512 * k + 512) content (omega (arith, short, size, long, rest)))
      | inr more ↦
          let full = ltb-false→le (n - 4) data_size more in
          let b : (s.block + 1) % 2 ^ 16 ≡ k + 1 + 1 = omega (arith, at, fits, small) in
          rw (enough, more, phase)
            (
              k + 1,
              b,
              omega (arith, full, size, long, rest),
              grown ∙ ap (λ (t : ℕ). take t content) (omega arith),
            )
    ]

-- A block of the file lies in the buffer, with anything behind it.
block-Progress :
    (content : List ℕ) (s : Wrq) (j n : ℕ) (junk : List ℕ)
    → length content < 512 * 65535
    → s.phase ≡ receiving
    → get16 s.buf ≡ op_data
    → get16 (drop 2 s.buf) ≡ j + 1
    → drop 4 s.buf ≡ chunk content j ++ junk
    → n ≡ 4 + length (chunk content j)
    → Holds content s
    → Holds content (wrq_datagram s n).0
unfolding wrq_datagram
block-Progress content s j n junk small phase op num buf size h =
    let (k, at, fits, file) = (rw phase at h) in
    let is_data : (get16 s.buf == op_data) ≡ true = rw op refl in
    elim (Bool-cases (j + 1 == s.block)) [
      | inl awaited ↦
          let same : j ≡ k = omega (arith, (==_iff (j + 1) s.block).0 awaited, at) in
          rw (is_data, num, awaited)
            (accept-Progress content s k n junk small at fits phase file (rw (← same) buf)
              (rw (← same) size))
      | inr other ↦ elim (Bool-cases (ltb (j + 1) s.block)) [
        | inl again ↦ rw (is_data, num, other, again) h
        | inr future ↦ rw (is_data, num, other, future) (k, file)
      ]
    ]

datagram-Progress :
    (content : List ℕ) (s : Wrq) (j : ℕ)
    → length content < 512 * 65535
    → s.phase ≡ receiving
    → 512 * j ≤ length content
    → Holds content s
    → Holds content (wrq_recv s (datagram (data_packet (j + 1) (chunk content j)))).0
unfolding wrq_recv get16
datagram-Progress content s j small phase fits h =
    let c = chunk content j in
    let short = length-chunk-le content j in
    let lies = overlay-data_packet (j + 1) c s.buf short in
    block-Progress content (record s { buf = overlay (data_packet (j + 1) c) s.buf }) j
      (min (length (data_packet (j + 1) c)) packet_buffer_size) _ small phase (ap get16 lies)
      (ap (λ (b : List ℕ). get16 (drop 2 b)) lies ∙ number j fits small)
      (ap (λ (b : List ℕ). drop 4 b) lies) (omega (arith, length-data_packet (j + 1) c, short)) h
  where
    number :
        (j : ℕ)
        → 512 * j ≤ length content
        → length content < 512 * 65535
        → (j + 1) / 256 % 256 * 256 + (j + 1) % 256 ≡ j + 1
    number j fits small = omega arith

recv-Progress :
    (content : List ℕ) (s : Wrq) (e : Recv)
    → length content < 512 * 65535
    → Delivered content e
    → s.phase ≡ receiving
    → Holds content s
    → Holds content (wrq_recv s e).0
unfolding wrq_recv wrq_timeout
recv-Progress content s _ small (block j fits) phase h =
    datagram-Progress content s j small phase fits h
recv-Progress content s _ small late phase h = elim (Bool-cases (s.retries + 1 == 10)) [
  | inl done ↦ rw done (let (k, at, fits, file) = (rw phase at h) in (k, file))
  | inr again ↦ rw again h
]
recv-Progress content s _ small signalled phase h = h
recv-Progress content s _ small broken phase h =
    let (k, at, fits, file) = (rw phase at h) in (k, file)

-- Every event is one that the network may deliver.
pub data AllDelivered (content : List ℕ) : List Recv → Type 0 where
  nil : AllDelivered content []
  cons :
      {e : Recv} {es : List Recv}
      → Delivered content e
      → AllDelivered content es
      → AllDelivered content (e ∷ es)

receiving_of : (p : Phase) → is_receiving p ≡ true → p ≡ receiving
receiving_of receiving h = refl
receiving_of _ h = cc

run-Progress :
    (content : List ℕ) (s : Wrq) {es : List Recv}
    → length content < 512 * 65535
    → AllDelivered content es
    → Holds content s
    → Holds content (wrq_run s es).0
unfolding wrq_run
run-Progress content s small nil h = h
run-Progress content s small (cons {e} {es} d ds) h = elim (Bool-cases (is_receiving s.phase)) [
  | inl on ↦ rw on (
      run-Progress content (wrq_recv s e).0 small ds
        (recv-Progress content s e small d (receiving_of s.phase on) h))
  | inr off ↦ rw off h
]

-- A client writes a file of fewer than 65535 * 512 bytes. Whatever the network loses, repeats or
-- reorders, the server's file consists of whole blocks from the start of the client's file, and if
-- the transfer has completed it is the client's file.
pub wrq_run-Progress :
    (content buf : List ℕ) (es : List Recv)
    → length content < 512 * 65535
    → AllDelivered content es
    → let (s, _) = wrq_run (wrq_start buf).0 es in Progress content s.phase s.block s.file
unfolding wrq_start
wrq_run-Progress content buf es small d =
    run-Progress content (wrq_start buf).0 small d (0, omega arith, omega arith, refl)

pub timeouts : ℕ → List Recv
timeouts zero = []
timeouts (suc n) = timeout ∷ timeouts n

-- A client that falls silent is given up: when the timeouts in a row come to ten, the transfer has
-- ended and the partial file is removed.
pub wrq_run-timeouts :
    (s : Wrq) (n : ℕ)
    → s.phase ≡ receiving
    → s.retries + suc n ≡ 10
    → ((wrq_run s (timeouts (suc n))).0.phase ≡ timed_out)
      × ((wrq_run s (timeouts (suc n))).0.removed ≡ true)
unfolding wrq_run wrq_recv wrq_timeout timeouts
wrq_run-timeouts s zero phase total =
    let done : (s.retries + 1 == 10) ≡ true = (==_iff (s.retries + 1) 10).1 (omega arith) in
    rw (phase, done) (refl, refl)
wrq_run-timeouts s (suc n) phase total =
    let again : (s.retries + 1 == 10) ≡ false = ground arith in
    rw (phase, again)
      (wrq_run-timeouts (record s { phase = receiving; retries = s.retries + 1 }) n refl
        (omega arith))
