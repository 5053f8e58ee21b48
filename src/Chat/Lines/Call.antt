-- ===== src/Chat/Lines/Call.antt =====
-- One call of `handle_client_message` on bytes that fit into the buffer.
use mathlib.Core.List.{append_assoc}
use csci_4220_network_progra.Base.{
  ℕ, suc, ◌+◌, ◌-◌, ◌≡◌, ◌≤◌, ◌<◌, refl, sym, ap, ap₂, ◌∙◌, false, List, [], ◌∷◌, ◌++◌, ◌==◌,
  length, arith, take, drop, length-append, drop-append_exact, drop-append_le, take-append_exact,
  All-drop, All-append, le→ltb-false, lt→ltb, length-drop, drop-drop,
}
use csci_4220_network_progra.Chat.Room.{Client}
use csci_4220_network_progra.Chat.Lines.{keep_partial, Received, kept, handle_client_message}
use csci_4220_network_progra.Chat.Lines.Split.{Lines, split, IsClean, OnOneLine, split-OnOneLine}
use csci_4220_network_progra.Chat.Lines.Stream.{jobs_of, cut_lines-CutAs}

-- The buffer begins with the partial line `p`; behind it stands no newline, and the last byte of the
-- array is zero.
pub record Holds (c : Client) (p : List ℕ) : Type 0 where
  pub tail : List ℕ
  pub inbuf_eq : c.inbuf ≡ p ++ (tail ++ 0 ∷ [])
  pub len_eq : c.inbuf_len ≡ length p
  pub full : length c.inbuf ≡ 2048
  pub quiet : OnOneLine tail

-- What a call does with bytes that fit: jobs for the lines that are now complete, and the partial
-- line kept.
pub record Takes (addr fd : ℕ) (username : List ℕ) (s : Lines) (o : Received) : Type 0 where
  pub client : Client
  pub result : o ≡ kept client (jobs_of fd username s.complete)
  pub same_addr : client.addr ≡ addr
  pub same_fd : client.fd ≡ fd
  pub same_username : client.username ≡ username
  pub holds : Holds client s.partial

filled_eq :
    (c : Client) (p d : List ℕ) (h : Holds c p)
    → length p + length d < 2048
    → take c.inbuf_len c.inbuf ++ (d ++ drop (c.inbuf_len + length d) c.inbuf)
      ≡ (p ++ d) ++ (drop (length d) h.tail ++ 0 ∷ [])
filled_eq c p d h fits =
    let front : take c.inbuf_len c.inbuf ≡ p =
      ap (take c.inbuf_len) h.inbuf_eq
      ∙ take-append_exact p (h.tail ++ 0 ∷ []) c.inbuf_len h.len_eq in
    let size : length p + (length h.tail + 1) ≡ 2048 = omega (
      arith,
      ap length h.inbuf_eq,
      h.full,
      length-append p (h.tail ++ 0 ∷ []),
      length-append h.tail (0 ∷ []),
    ) in
    let back : drop (c.inbuf_len + length d) c.inbuf ≡ drop (length d) h.tail ++ 0 ∷ [] =
      ap (drop (c.inbuf_len + length d)) h.inbuf_eq
      ∙ (sym (drop-drop c.inbuf_len (length d) (p ++ (h.tail ++ 0 ∷ [])))
          ∙ (ap (drop (length d)) (drop-append_exact c.inbuf_len p (h.tail ++ 0 ∷ []) h.len_eq)
              ∙ drop-append_le (length d) h.tail (0 ∷ []) (omega (arith, size, fits)))) in
    ap₂ (λ (a b : List ℕ). a ++ (d ++ b)) front back ∙ sym (append_assoc p d _)

-- The end of a call, from what the loop has left.
keep_partial-Takes :
    (c : Client) (s : Lines) (passed tail : List ℕ)
    → c.inbuf_len ≡ length passed + length s.partial
    → OnOneLine (passed ++ (s.partial ++ tail))
    → length (passed ++ (s.partial ++ (tail ++ 0 ∷ []))) ≡ 2048
    → Takes c.addr c.fd c.username s (
        keep_partial c (record {
          jobs = jobs_of c.fd c.username s.complete;
          passed = passed;
          rest = s.partial ++ (tail ++ 0 ∷ []);
        }))
unfolding keep_partial
keep_partial-Takes c s passed tail at lines full =
    let q = s.partial in
    let n = c.inbuf_len - length passed in
    let size : n ≡ length q = omega (arith, at) in
    let whole : passed ++ (q ++ (tail ++ 0 ∷ [])) ≡ (passed ++ (q ++ tail)) ++ 0 ∷ [] =
      ap (λ (b : List ℕ). passed ++ b) (sym (append_assoc q tail (0 ∷ [])))
      ∙ sym (append_assoc passed (q ++ tail) (0 ∷ [])) in
    let room : n ≤ length (passed ++ (q ++ tail)) =
      omega (arith, size, length-append passed (q ++ tail), length-append q tail) in
    let buf : take n (q ++ (tail ++ 0 ∷ [])) ++ drop n (passed ++ (q ++ (tail ++ 0 ∷ [])))
        ≡ q ++ (drop n (passed ++ (q ++ tail)) ++ 0 ∷ []) =
      ap₂ (λ (a b : List ℕ). a ++ b) (take-append_exact q (tail ++ 0 ∷ []) n size)
        (ap (drop n) whole ∙ drop-append_le n (passed ++ (q ++ tail)) (0 ∷ []) room) in
    let len = length-drop n (passed ++ (q ++ tail)) in
    rw (le→ltb-false c.inbuf_len (length passed) (omega (arith, at))) (record {
      client = record c {
        inbuf = take n (q ++ (tail ++ 0 ∷ [])) ++ drop n (passed ++ (q ++ (tail ++ 0 ∷ [])));
        inbuf_len = n;
      };
      result = refl;
      same_addr = refl;
      same_fd = refl;
      same_username = refl;
      holds = record {
        tail = drop n (passed ++ (q ++ tail));
        inbuf_eq = buf;
        len_eq = size;
        full =
            ap length buf
            ∙ omega (
              arith,
              length-append q (drop n (passed ++ (q ++ tail)) ++ 0 ∷ []),
              length-append (drop n (passed ++ (q ++ tail))) (0 ∷ []),
              len,
              size,
              room,
              full,
              ap length whole,
              length-append (passed ++ (q ++ tail)) (0 ∷ []),
            );
        quiet = All-drop _ n (passed ++ (q ++ tail)) lines;
      };
    })

pub receive-Takes :
    (c : Client) (p d : List ℕ)
    → 0 < length d
    → length p + length d < 2048
    → IsClean p
    → IsClean d
    → Holds c p
    → Takes c.addr c.fd c.username (split (p ++ d)) (handle_client_message c d)
unfolding handle_client_message
receive-Takes c p d some_bytes fits clean_p clean_d h =
    let filled = filled_eq c p d h fits in
    let t = drop (length d) h.tail in
    let tail_size : length p + (length h.tail + 1) ≡ 2048 = omega (
      arith,
      ap length h.inbuf_eq,
      h.full,
      length-append p (h.tail ++ 0 ∷ []),
      length-append h.tail (0 ∷ []),
    ) in
    let longer : length (p ++ d) < suc (length ((p ++ d) ++ (t ++ 0 ∷ []))) =
      omega (arith, length-append (p ++ d) (t ++ 0 ∷ [])) in
    let quiet = All-drop _ (length d) h.tail h.quiet in
    let cut =
      cut_lines-CutAs c.fd c.username t (suc (length ((p ++ d) ++ (t ++ 0 ∷ [])))) (p ++ d) longer
        (All-append _ p d clean_p clean_d) quiet in
    let q = (split (p ++ d)).partial in
    let both = length-append p d in
    rw
      (
        is_zero_false (length d) some_bytes,
        lt→ltb (c.inbuf_len + length d) 2048 (omega (arith, h.len_eq, fits)),
        filled,
        cut.result,
      )
      (keep_partial-Takes (record c { inbuf_len = c.inbuf_len + length d }) (split (p ++ d))
        cut.passed t (omega (arith, h.len_eq, cut.size, both))
        (All-append _ cut.passed (q ++ t) cut.passed_lines
          (All-append _ q t (split-OnOneLine (p ++ d)) quiet))
        (omega (
          arith,
          length-append cut.passed (q ++ (t ++ 0 ∷ [])),
          length-append q (t ++ 0 ∷ []),
          length-append t (0 ∷ []),
          cut.size,
          both,
          tail_size,
          fits,
          length-drop (length d) h.tail,
        )))
  where
    is_zero_false : (n : ℕ) → 0 < n → (n == 0) ≡ false
    is_zero_false n h = ground arith
