-- ===== src/Tftp/Rrq/Complete.antt =====
-- A file that a client reads comes to its end when each block is acknowledged in time.
use csci_4220_network_progra.Base.{
  ℕ, ◌+◌, ◌*◌, ◌≤◌, ◌<◌, ◌≡◌, refl, sym, ◌∙◌, ap, true, false, List, [], ◌∷◌, ◌++◌, length, take,
  arith, map, length-take, Bool-cases, inl, inr, ◌⊎◌, subst,
}
use csci_4220_network_progra.Tftp.Packet.{data_size, Recv, datagram, timeout, interrupted}
use csci_4220_network_progra.Tftp.Wrq.Awaited.{Arriving, last, next, again}
use csci_4220_network_progra.Tftp.Wrq.Complete.{wrq_run-completes}
use csci_4220_network_progra.Tftp.Wrq.{wrq_start, wrq_run, completed}
use csci_4220_network_progra.Tftp.Rrq.{
  sending, finished, Rrq, is_nil, current_data, read_block, rrq_start, rrq_recv, is_waiting,
  rrq_run,
}
use csci_4220_network_progra.Tftp.Rrq.Rule.{is_nil-true, is_nil-false}
use csci_4220_network_progra.Tftp.Rrq.Answers.{
  ack_of, Answering, to_last, to_next, to_older, silent, signalled, Asks, Steps, packet_of, on,
  Over, older-Steps, silent-Steps, signalled-Steps, read_block-Steps, next-Steps, last-Over,
}

-- A round of the loop that sends one packet.
round :
    (s : Rrq) (e : Recv) (es : List Recv) {p : List ℕ}
    → is_waiting s.phase ≡ true
    → (rrq_recv s e).1 ≡ p ∷ []
    → rrq_run s (e ∷ es) ≡ ((rrq_run (rrq_recv s e).0 es).0, p ∷ (rrq_run (rrq_recv s e).0 es).1)
unfolding rrq_run
round s e es h sent = rw h (
    ap
      (λ (ps : List (List ℕ)).
        ((rrq_run (rrq_recv s e).0 es).0, ps ++ (rrq_run (rrq_recv s e).0 es).1))
      sent)

run-off : (s : Rrq) (es : List Recv) → s.phase ≡ finished → rrq_run s es ≡ (s, [])
unfolding rrq_run
run-off s [] h = refl
run-off s (e ∷ es) h = let off : is_waiting s.phase ≡ false = (rw h refl) in rw off refl

last_round :
    (s : Rrq) (e : Recv) (es : List Recv)
    → is_waiting s.phase ≡ true
    → Over (rrq_recv s e)
    → Over (rrq_run s (e ∷ es))
unfolding rrq_run
last_round s e es h (phase, sent) =
    let rest = run-off (rrq_recv s e).0 es phase in
    rw h (
      ap (λ (m : Rrq × List (List ℕ)). m.0.phase) rest ∙ phase,
      rw sent (ap (λ (m : Rrq × List (List ℕ)). m.1) rest),
    )

-- The packets as they come to the other end.
abbrev pub delivered : List (List ℕ) → List Recv
delivered ps = map datagram ps

-- The transfer ends, and if there is a next block, what is sent from now on brings it and all behind it.
abbrev Goes : List ℕ → ℕ → Rrq × List (List ℕ) → Type 0
Goes content k m =
    (m.0.phase ≡ finished)
    × (512 * (k + 1) < length content → Arriving content (k + 1) 0 (delivered m.1))

module _ (content : List ℕ) (small : length content < 512 * 65535) where
  resent :
      (k r r' : ℕ) (s : Rrq) (e : Recv) (es : List Recv)
      → Asks content k r s
      → Steps content k r' (packet_of content k ∷ []) (rrq_recv s e)
      → Goes content k (rrq_run (rrq_recv s e).0 es)
      → Goes content k (rrq_run s (e ∷ es))
  resent k r r' s e es a t (phase, more) =
      subst (Goes content k) (sym (round s e es (on a) t.sent_eq))
        (phase, λ h. again k (k + 1) 0 _ (omega arith) (omega arith) (more h))

  brings :
      (k : ℕ) (ps : List (List ℕ))
      → 512 * k ≤ length content
      → ((512 * (k + 1) < length content) ⊎ (length content < 512 * (k + 1)))
      → (512 * (k + 1) < length content → Arriving content (k + 1) 0 (delivered ps))
      → Arriving content k 0 (delivered (packet_of content k ∷ ps))
  brings k ps fits (inl more) h = next k 0 (delivered ps) (omega arith) (h more)
  brings k ps fits (inr short) h = last k 0 (delivered ps) fits short

  ends :
      {k r : ℕ} {es : List Recv}
      → Answering content k r es
      → (512 * (k + 1) < length content) ⊎ (length content < 512 * (k + 1))
  ends (to_last k r es fits short) = inr short
  ends (to_next k r es fits more) = inl fits
  ends (to_older j k r es older more) = ends more
  ends (silent k r es few more) = ends more
  ends (signalled k r es more) = ends more

  run-Goes :
      (k r : ℕ) (s : Rrq) {es : List Recv}
      → 512 * k ≤ length content
      → Answering content k r es
      → Asks content k r s
      → Goes content k (rrq_run s es)
  run-Goes k r s fits (to_last _ _ es _ short) a =
      let (phase, sent) =
        last_round s (ack_of k) es (on a) (last-Over content k r s (omega arith) short a) in
      (phase, λ h. absurd (omega arith))
  run-Goes k r s fits (to_next _ _ es more rest) a =
      let t = next-Steps content k r s (omega arith) more a in
      let (phase, brought) =
        run-Goes (k + 1) 0 (rrq_recv s (ack_of k)).0 (omega arith) rest t.asks in
      subst (Goes content k) (sym (round s (ack_of k) es (on a) t.sent_eq))
        (phase, λ h. brings (k + 1) _ (omega arith) (ends rest) brought)
  run-Goes k r s fits (to_older j _ _ es older rest) a =
      let t = older-Steps content j k r s older (omega arith) a in
      resent k r r s (ack_of j) es a t (run-Goes k r (rrq_recv s (ack_of j)).0 fits rest t.asks)
  run-Goes k r s fits (silent _ _ es few rest) a =
      let t = silent-Steps content k r s few a in
      resent k r (r + 1) s timeout es a t
        (run-Goes k (r + 1) (rrq_recv s timeout).0 fits rest t.asks)
  run-Goes k r s fits (signalled _ _ es rest) a =
      let t = signalled-Steps content k r s a in
      resent k r r s interrupted es a t (run-Goes k r (rrq_recv s interrupted).0 fits rest t.asks)

  start-Steps :
      (buf : List ℕ) → Steps content 0 0 (packet_of content 0 ∷ []) (rrq_start buf content)
  unfolding rrq_start read_block current_data
  start-Steps buf = elim (Bool-cases (is_nil (take data_size content))) [
    | inl none_left ↦
        let nothing : length content ≡ 0 =
          omega (arith, is_nil-true (take 512 content) none_left, length-take 512 content) in
        rw none_left (record {
          asks = record {
            waits = inr (refl, nothing);
            number = refl;
            retries = refl;
            chunk_eq = refl;
            rest_eq = refl;
          };
          sent_eq = refl;
        })
    | inr more ↦
        read_block-Steps content 0
          (record {
            phase = sending;
            block = 1;
            retries = 0;
            buf = buf;
            chunk = [];
            rest = content;
            at_start = true;
          })
          (omega (arith, is_nil-false (take 512 content) more, length-take 512 content)) refl refl
  ]

  run-Arriving :
      (buf : List ℕ) (es : List Recv)
      → Answering content 0 0 es
      → let (s, first) = rrq_start buf content in
        ((rrq_run s es).0.phase ≡ finished)
        × Arriving content 0 0 (delivered (first ++ (rrq_run s es).1))
  run-Arriving buf es a =
      let t = start-Steps buf in
      let (phase, more) = run-Goes 0 0 (rrq_start buf content).0 (omega arith) a t.asks in
      (
        phase,
        subst
            (λ (ps : List (List ℕ)).
              Arriving content 0 0 (delivered (ps ++ (rrq_run (rrq_start buf content).0 es).1)))
            (sym t.sent_eq) (brings 0 _ (omega arith) (ends a) more),
      )

-- A client reads a file of fewer than 65535 * 512 bytes whose size is no multiple of 512, or nothing.
-- It acknowledges the blocks in their order; before each acknowledgement it may acknowledge older
-- blocks and be silent, fewer than ten times for a block. Then the transfer ends, and a server to which
-- the packets are written, as they are sent, completes with the same file.
pub rrq_run-wrq_run :
    (content buf to : List ℕ) (es : List Recv)
    → length content < 512 * 65535
    → Answering content 0 0 es
    → let (s, first) = rrq_start buf content in
      let t = wrq_run (wrq_start to).0 (delivered (first ++ (rrq_run s es).1)) in
      ((rrq_run s es).0.phase ≡ finished) × (t.0.phase ≡ completed) × (t.0.file ≡ content)
rrq_run-wrq_run content buf to es small a =
    let (phase, arriving) = run-Arriving content small buf es a in
    let (completes, same) = wrq_run-completes content to _ small arriving in
    (phase, completes, same)
