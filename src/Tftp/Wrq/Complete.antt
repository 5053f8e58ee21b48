-- ===== src/Tftp/Wrq/Complete.antt =====
-- A file that a client writes comes to its end when each block comes in time.
use csci_4220_network_progra.Base.{
  ℕ, ◌+◌, ◌*◌, ◌<◌, ◌≡◌, refl, true, false, List, [], ◌∷◌, ◌==◌, length, arith,
}
use csci_4220_network_progra.Tftp.Packet.{Recv, timeout, interrupted}
use csci_4220_network_progra.Tftp.Wrq.{
  completed, Wrq, wrq_start, wrq_timeout, wrq_recv, is_receiving, wrq_run,
}
use csci_4220_network_progra.Tftp.Wrq.Awaited.{
  block_of, Arriving, last, next, again, late, signalled, Waits, Ends, block-Lies, last-Ends,
  next-Waits, again-Waits,
}

-- The datagram lies in the buffer, and nothing else has changed.
buffered :
    (content : List ℕ) (k r : ℕ) (s : Wrq) (b : List ℕ)
    → Waits content k r s
    → Waits content k r (record s { buf = b })
buffered content k r s b w = record {
  phase = w.phase;
  number = w.number;
  retries = w.retries;
  file = w.file;
}

on : (content : List ℕ) (k r : ℕ) (s : Wrq) → Waits content k r s → is_receiving s.phase ≡ true
on content k r s w = rw (w.phase) refl

Ends-stays :
    (content : List ℕ) (s : Wrq) (es : List Recv) → Ends content s → Ends content (wrq_run s es).0
unfolding wrq_run
Ends-stays content s [] h = h
Ends-stays content s (e ∷ es) h =
    let off : is_receiving s.phase ≡ false = (rw (h.phase) refl) in rw off h

-- One round of the loop, while it goes on.
round :
    (s : Wrq) (e : Recv) (es : List Recv)
    → is_receiving s.phase ≡ true
    → (wrq_run s (e ∷ es)).0 ≡ (wrq_run (wrq_recv s e).0 es).0
unfolding wrq_run
round s e es h = rw h refl

timeout-Waits :
    (content : List ℕ) (k r : ℕ) (s : Wrq)
    → r + 1 < 10
    → Waits content k r s
    → Waits content k (r + 1) (wrq_recv s timeout).0
unfolding wrq_recv wrq_timeout
timeout-Waits content k r s few w =
    let same = w.retries in
    let more : (s.retries + 1 == 10) ≡ false = ground arith in
    rw more (record { phase = w.phase; number = w.number; retries = omega arith; file = w.file })

run-Ends :
    (content : List ℕ) (k r : ℕ) (s : Wrq) {es : List Recv}
    → length content < 512 * 65535
    → Arriving content k r es
    → Waits content k r s
    → Ends content (wrq_run s es).0
unfolding wrq_recv
run-Ends content k r s small (last _ _ es fits short) w =
    rw (round s (block_of content k) es (on content k r s w)) (
      Ends-stays content _ es (
        last-Ends content k _ r (record s { buf = _ }) fits short
          (block-Lies content s.buf k (omega arith)) (buffered content k r s _ w)))
run-Ends content k r s small (next _ _ es fits more) w =
    rw (round s (block_of content k) es (on content k r s w)) (
      run-Ends content (k + 1) 0 (wrq_recv s (block_of content k)).0 small more (
        next-Waits content k _ r (record s { buf = _ }) (omega arith) fits
          (block-Lies content s.buf k (omega arith)) (buffered content k r s _ w)))
run-Ends content k r s small (again j _ _ es older fits more) w =
    rw (round s (block_of content j) es (on content k r s w)) (
      run-Ends content k 0 (wrq_recv s (block_of content j)).0 small more (
        again-Waits content j k _ r (record s { buf = _ }) older
          (block-Lies content s.buf j (omega arith)) (buffered content k r s _ w)))
run-Ends content k r s small (late _ _ es few more) w =
    rw (round s timeout es (on content k r s w)) (
      run-Ends content k (r + 1) (wrq_recv s timeout).0 small more
        (timeout-Waits content k r s few w))
run-Ends content k r s small (signalled _ _ es more) w =
    rw (round s interrupted es (on content k r s w)) (run-Ends content k r s small more w)

-- A client writes a file of fewer than 65535 * 512 bytes, and its blocks come in their order, with
-- older blocks that come again and with silences, fewer than ten in a row, before each of them. Then
-- the transfer completes, and the server's file is the client's, whatever comes behind the last block.
pub wrq_run-completes :
    (content buf : List ℕ) (es : List Recv)
    → length content < 512 * 65535
    → Arriving content 0 0 es
    → let s : Wrq = (wrq_run (wrq_start buf).0 es).0 in (s.phase ≡ completed) × (s.file ≡ content)
unfolding wrq_start
wrq_run-completes content buf es small a =
    let h =
      run-Ends content 0 0 (wrq_start buf).0 small a
        (record { phase = refl; number = refl; retries = refl; file = refl }) in
    (h.phase, h.file)
