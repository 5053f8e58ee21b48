-- ===== src/Tftp/Rrq/Blocks.antt =====
-- What `handle_rrq` sends, whatever comes back from the client.
use csci_4220_network_progra.Base.{
  ℕ, ◌+◌, ◌*◌, ◌%◌, ◌^◌, ◌≤◌, ◌<◌, ◌≡◌, refl, ap, ap₂, ◌∙◌, true, List, [], ◌++◌, ltb, length, take,
  drop, arith, Bool-cases, inl, inr, All, All-append, length-take, length-drop, drop-drop,
  ltb-false→le,
}
use csci_4220_network_progra.Tftp.Packet.{data_size, data_packet, Recv}
use csci_4220_network_progra.Tftp.Wrq.Transfer.{chunk}
use csci_4220_network_progra.Tftp.Rrq.{
  sending, Rrq, is_nil, current_data, read_block, rrq_start, acknowledged, is_waiting, rrq_run,
}
use csci_4220_network_progra.Tftp.Rrq.Rule.{Kept, run-Kept}

-- Where a transfer stands that waits for block `k + 1`.
record At (content : List ℕ) (s : Rrq) : Type 0 where
  k : ℕ
  number : s.block ≡ k + 1
  fits : 512 * k ≤ length content
  chunk_eq : s.chunk ≡ chunk content k
  rest_eq : s.rest ≡ drop (512 * (k + 1)) content

abbrev IfWaiting : List ℕ → Rrq → Type 0
IfWaiting content s = is_waiting s.phase ≡ true → At content s

-- A packet that carries a block of the file under its number.
abbrev pub IsBlock : List ℕ → List ℕ → Type 0
IsBlock content p =
    (k : ℕ) × (512 * k ≤ length content) × (p ≡ data_packet (k + 1) (chunk content k))

At-IsBlock :
    (content : List ℕ) (s : Rrq) → At content s → IsBlock content (data_packet s.block s.chunk)
At-IsBlock content s a = (a.k, a.fits, ap₂ data_packet a.number a.chunk_eq)

-- The next block is read, at a place in the file where no block has been read yet or after a whole one.
read_block-At :
    (content : List ℕ) (s : Rrq) (k : ℕ)
    → s.block ≡ k + 1
    → 512 * k ≤ length content
    → s.rest ≡ drop (512 * k) content
    → IfWaiting content (read_block s).0 × All (IsBlock content) (read_block s).1
unfolding read_block current_data
read_block-At content s k number fits rest =
    let at : take data_size s.rest ≡ chunk content k = ap (take data_size) rest in
    let beyond : drop data_size s.rest ≡ drop (512 * (k + 1)) content =
      ap (drop data_size) rest
      ∙ (drop-drop (512 * k) 512 content ∙ ap (λ (t : ℕ). drop t content) (omega arith)) in
    let here : IsBlock content (data_packet s.block (take data_size s.rest)) =
      (k, fits, ap₂ data_packet number at) in
    elim (Bool-cases (is_nil (take data_size s.rest))) [
      | inl none_left ↦ elim (Bool-cases s.at_start) [
        | inl first ↦
            rw (none_left, first)
              (
                (λ _. record {
                  k = k;
                  number = number;
                  fits = fits;
                  chunk_eq = at;
                  rest_eq = beyond;
                }),
                (here, tt),
              )
        | inr later ↦ rw (none_left, later) ((λ on. cc), tt)
      ]
      | inr more ↦ rw more (
        (λ _. record { k = k; number = number; fits = fits; chunk_eq = at; rest_eq = beyond }),
        (here, tt),
      )
    ]

acknowledged-At :
    (content : List ℕ) (s : Rrq)
    → length content < 512 * 65535
    → At content s
    → IfWaiting content (acknowledged s).0 × All (IsBlock content) (acknowledged s).1
unfolding acknowledged
acknowledged-At content s small a = elim (Bool-cases (ltb (length s.chunk) data_size)) [
  | inl short ↦ rw short ((λ on. cc), tt)
  | inr whole ↦
      let long = ltb-false→le (length s.chunk) data_size whole in
      let read = length-take 512 (drop (512 * a.k) content) in
      let rest = length-drop (512 * a.k) content in
      let same = ap length a.chunk_eq in
      rw whole (
        read_block-At content (record s { block = (s.block + 1) % 2 ^ 16 }) (a.k + 1)
          (omega (arith, a.number, a.fits, small)) (omega (arith, long, read, rest, same))
          a.rest_eq)
]

Kept-At :
    (content : List ℕ) → length content < 512 * 65535 → Kept (IfWaiting content) (IsBlock content)
Kept-At content small = record {
  current = λ s on h. At-IsBlock content s (h on);
  control = λ s b h on. At-frame s b s.retries (h on);
  retry = λ s n h on. At-frame s s.buf n (h on);
  stop = λ s ph off h on. cc;
  ack = λ s on h. acknowledged-At content s small (h on);
}
  where
    At-frame :
        (s : Rrq) (b : List ℕ) (n : ℕ)
        → At content s
        → At content (record s { buf = b; retries = n })
    At-frame s b n a = record {
      k = a.k;
      number = a.number;
      fits = a.fits;
      chunk_eq = a.chunk_eq;
      rest_eq = a.rest_eq;
    }

-- For a file of fewer than 65535 * 512 bytes every packet of the transfer carries a block of the
-- file under its number, whatever the client answers and however often it is silent.
pub rrq_run-IsBlock :
    (buf content : List ℕ) (es : List Recv)
    → length content < 512 * 65535
    → All (IsBlock content) ((rrq_start buf content).1 ++ (rrq_run (rrq_start buf content).0 es).1)
unfolding rrq_start
rrq_run-IsBlock buf content es small =
    let first =
      read_block-At content
        (record {
          phase = sending;
          block = 1;
          retries = 0;
          buf = buf;
          chunk = [];
          rest = content;
          at_start = true;
        })
        0 refl (omega arith) refl in
    All-append (IsBlock content) _ _ first.1 (run-Kept (Kept-At content small) _ es first.0)
