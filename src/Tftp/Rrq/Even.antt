-- ===== src/Tftp/Rrq/Even.antt =====
-- A file whose size is a multiple of 512: what `handle_rrq` sends.
use csci_4220_network_progra.Base.{
  ℕ, zero, suc, ◌+◌, ◌*◌, ◌%◌, ◌^◌, ◌≡◌, refl, false, List, ◌++◌, length, take, arith, Bool-cases,
  inl, inr, All, length-take, length-drop, le→ltb-false,
}
use csci_4220_network_progra.Tftp.Packet.{data_size, length-data_packet, Recv}
use csci_4220_network_progra.Tftp.Rrq.{
  Rrq, is_nil, current_data, read_block, rrq_start, acknowledged, rrq_run,
}
use csci_4220_network_progra.Tftp.Rrq.Rule.{is_nil-true, is_nil-false, Kept, run-Kept}

-- The state of a transfer of a file whose size is a multiple of 512.
record IsEven (s : Rrq) : Type 0 where
  whole : length s.chunk ≡ 512
  left : ℕ
  left_eq : length s.rest ≡ 512 * left
  started : s.at_start ≡ false

abbrev pub IsFull : List ℕ → Type 0
IsFull p = length p ≡ 516

read_block-IsEven :
    (s : Rrq) (j : ℕ)
    → length s.rest ≡ 512 * j
    → s.at_start ≡ false
    → length s.chunk ≡ 512
    → IsEven (read_block s).0 × All IsFull (read_block s).1
unfolding read_block current_data
read_block-IsEven s zero size started whole = elim (Bool-cases (is_nil (take data_size s.rest))) [
  | inl none_left ↦
      rw (none_left, started)
        (record { whole = whole; left = 0; left_eq = size; started = refl }, tt)
  | inr more ↦
      absurd (omega (arith, is_nil-false (take 512 s.rest) more, length-take 512 s.rest, size))
]
read_block-IsEven s (suc j) size started whole =
    let whole_block : length (take 512 s.rest) ≡ 512 =
      omega (arith, length-take 512 s.rest, size) in
    elim (Bool-cases (is_nil (take data_size s.rest))) [
      | inl none_left ↦ absurd (omega (arith, is_nil-true (take 512 s.rest) none_left, whole_block))
      | inr more ↦ rw more (
        record {
          whole = whole_block;
          left = j;
          left_eq = omega (arith, length-drop 512 s.rest, size);
          started = refl;
        },
        (omega (arith, length-data_packet s.block (take 512 s.rest), whole_block), tt),
      )
    ]

acknowledged-IsEven :
    (s : Rrq) → IsEven s → IsEven (acknowledged s).0 × All IsFull (acknowledged s).1
unfolding acknowledged
acknowledged-IsEven s h = rw (le→ltb-false (length s.chunk) data_size (omega (arith, h.whole))) (
    read_block-IsEven (record s { block = (s.block + 1) % 2 ^ 16 }) h.left h.left_eq h.started
      h.whole)

Kept-IsEven : Kept IsEven IsFull
Kept-IsEven = record {
  current = λ s on h. omega (arith, length-data_packet s.block s.chunk, h.whole);
  control =
      λ s b h. record { whole = h.whole; left = h.left; left_eq = h.left_eq; started = h.started };
  retry =
      λ s n h. record { whole = h.whole; left = h.left; left_eq = h.left_eq; started = h.started };
  stop = λ s ph off h. record {
    whole = h.whole;
    left = h.left;
    left_eq = h.left_eq;
    started = h.started;
  };
  ack = λ s on h. acknowledged-IsEven s h;
}

-- The file is longer than nothing and its size is a multiple of 512. Then, whatever the client
-- answers, every packet of the transfer carries 512 bytes: the short block that would tell the
-- client that the file has ended is never sent.
pub rrq_run-IsFull :
    (buf content : List ℕ) (es : List Recv) (j : ℕ)
    → length content ≡ 512 * suc j
    → All IsFull ((rrq_start buf content).1 ++ (rrq_run (rrq_start buf content).0 es).1)
unfolding rrq_start read_block current_data
rrq_run-IsFull buf content es j size =
    let whole_block : length (take 512 content) ≡ 512 =
      omega (arith, length-take 512 content, size) in
    elim (Bool-cases (is_nil (take data_size content))) [
      | inl none_left ↦
          absurd (omega (arith, is_nil-true (take 512 content) none_left, whole_block))
      | inr more ↦ rw more (
        omega (arith, length-data_packet 1 (take 512 content), whole_block),
        run-Kept Kept-IsEven _ es (record {
          whole = whole_block;
          left = j;
          left_eq = omega (arith, length-drop 512 content, size);
          started = refl;
        }),
      )
    ]
