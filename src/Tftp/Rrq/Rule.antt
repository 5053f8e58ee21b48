-- ===== src/Tftp/Rrq/Rule.antt =====
-- The rule for properties of the transfer that every step keeps.
use csci_4220_network_progra.Base.{
  ℕ, ◌+◌, ◌<◌, ◌≡◌, refl, true, false, ◌&&◌, List, [], ◌∷◌, ◌==◌, length, drop, arith, Bool-cases,
  inl, inr, All, All-append,
}
use csci_4220_network_progra.Tftp.Packet.{
  op_ack, get16, data_packet, overlay, Recv, datagram, timeout, interrupted, failed,
}
use csci_4220_network_progra.Tftp.Rrq.{
  Phase, final, finished, gave_up, crashed, Rrq, is_nil, current_data, acknowledged, rrq_datagram,
  rrq_timeout, rrq_recv, is_waiting, rrq_run,
}

pub is_nil-true : (xs : List ℕ) → is_nil xs ≡ true → length xs ≡ 0
is_nil-true [] h = refl
is_nil-true (x ∷ xs) h = cc

pub is_nil-false : (xs : List ℕ) → is_nil xs ≡ false → 0 < length xs
is_nil-false [] h = cc
is_nil-false (x ∷ xs) h = omega arith

-- A property of states and one of packets that every step keeps.
pub record Kept (P : Rrq → Type 0) (Q : List ℕ → Type 0) : Type 0 where
  pub current : (s : Rrq) → is_waiting s.phase ≡ true → P s → Q (data_packet s.block s.chunk)
  pub control : (s : Rrq) (b : List ℕ) → P s → P (record s { buf = b })
  pub retry : (s : Rrq) (n : ℕ) → P s → P (record s { retries = n })
  pub stop : (s : Rrq) (ph : Phase) → is_waiting ph ≡ false → P s → P (record s { phase = ph })
  pub ack :
      (s : Rrq) → is_waiting s.phase ≡ true → P s → P (acknowledged s).0 × All Q (acknowledged s).1

module _ {P : Rrq → Type 0} {Q : List ℕ → Type 0} (k : Kept P Q) where
  datagram-Kept :
      (s : Rrq) → is_waiting s.phase ≡ true → P s → P (rrq_datagram s).0 × All Q (rrq_datagram s).1
  unfolding rrq_datagram current_data
  datagram-Kept s on p =
      elim (Bool-cases (get16 s.buf == op_ack && get16 (drop 2 s.buf) == s.block)) [
        | inl hit ↦ rw hit (by_phase s.phase)
        | inr other ↦ rw other (p, (k.current s on p, tt))
      ]
    where
      by_phase :
          (ph : Phase)
          → let out : Rrq × List (List ℕ) = elim ph [
            | final ↦ (record s { phase = finished }, [])
            | _ ↦ acknowledged s
          ] in
            P out.0 × All Q out.1
      by_phase final = (k.stop s finished refl p, tt)
      by_phase _ = k.ack s on p

  recv-Kept :
      (s : Rrq) (e : Recv)
      → is_waiting s.phase ≡ true
      → P s
      → P (rrq_recv s e).0 × All Q (rrq_recv s e).1
  unfolding rrq_recv rrq_timeout current_data
  recv-Kept s (datagram d) on p =
      datagram-Kept (record s { buf = overlay d s.buf }) on (k.control s (overlay d s.buf) p)
  recv-Kept s timeout on p = elim (Bool-cases (s.retries + 1 == 10)) [
    | inl done ↦
        rw done (k.stop (record s { retries = s.retries + 1 }) gave_up refl (k.retry s _ p), tt)
    | inr again ↦ rw again (k.retry s _ p, (k.current s on p, tt))
  ]
  recv-Kept s interrupted on p = (p, (k.current s on p, tt))
  recv-Kept s failed on p = (k.stop s crashed refl p, tt)

  pub run-Kept : (s : Rrq) (es : List Recv) → P s → All Q (rrq_run s es).1
  unfolding rrq_run
  run-Kept s [] p = tt
  run-Kept s (e ∷ es) p = elim (Bool-cases (is_waiting s.phase)) [
    | inl on ↦ rw on (
        All-append Q (rrq_recv s e).1 (rrq_run (rrq_recv s e).0 es).1 (recv-Kept s e on p).1
          (run-Kept (rrq_recv s e).0 es (recv-Kept s e on p).0))
    | inr off ↦ rw off tt
  ]
