-- ===== src/Chat/Lines/Stream.antt =====
-- What `handle_client_message` makes of a stream of bytes.
use mathlib.Core.List.{append_assoc}
use csci_4220_network_progra.Base.{
  ℕ, zero, suc, ◌+◌, ◌≡◌, ◌<◌, refl, ap, Option, some, List, [], ◌∷◌, ◌++◌, ◌==◌, length, arith,
  Bool-cases, inl, inr, length-append, All-left, All-right, All-append,
}
use csci_4220_network_progra.Chat.Queue.{Job}
use csci_4220_network_progra.Chat.Lines.{
  found, absent, strchr, drop_cr, string_of, line_job, Cut, cut_lines,
}
use csci_4220_network_progra.Chat.Lines.Split.{
  Lines, split, before, IsClean, OnOneLine, unended, line, shape, without_cr,
}

strchr-absent : (s : List ℕ) → OnOneLine s → strchr 10 (s ++ 0 ∷ []) ≡ absent
unfolding strchr
strchr-absent [] h = refl
strchr-absent (c ∷ s) h = ground (arith, strchr-absent s h.1)

strchr-found :
    (l rest : List ℕ) → IsClean l → OnOneLine l → strchr 10 (l ++ 10 ∷ rest) ≡ found l rest
unfolding strchr
strchr-found [] rest clean one = refl
strchr-found (c ∷ l) rest clean one = ground (arith, strchr-found l rest clean.1 one.1)

string_of_clean : (l : List ℕ) → IsClean l → string_of l ≡ l
unfolding string_of
string_of_clean [] h = refl
string_of_clean (c ∷ l) h = ground (arith, string_of_clean l h.1)

string_of-drop_cr : (l : List ℕ) → IsClean l → string_of (drop_cr l) ≡ without_cr l
unfolding string_of drop_cr without_cr
string_of-drop_cr [] h = refl
string_of-drop_cr (c ∷ []) h = ground arith
string_of-drop_cr (c ∷ d ∷ l) h = ground (arith, string_of-drop_cr (d ∷ l) h.1)

drop_cr-OnOneLine : (l : List ℕ) → OnOneLine l → OnOneLine (drop_cr l)
unfolding drop_cr
drop_cr-OnOneLine [] h = tt
drop_cr-OnOneLine (c ∷ []) h = elim (Bool-cases (c == 13)) [
  | inl cr ↦ rw cr (omega arith, tt)
  | inr other ↦ rw other h
]
drop_cr-OnOneLine (c ∷ d ∷ l) h = (h.0, drop_cr-OnOneLine (d ∷ l) h.1)

length-drop_cr : (l : List ℕ) → length (drop_cr l) ≡ length l
unfolding drop_cr
length-drop_cr [] = refl
length-drop_cr (c ∷ []) = ground arith
length-drop_cr (c ∷ d ∷ l) = ap suc (length-drop_cr (d ∷ l))

-- The jobs of complete lines, in their order.
abbrev pub jobs_of : (fd : ℕ) → (username : List ℕ) → List (List ℕ) → List Job
jobs_of fd username [] = []
jobs_of fd username (l ∷ ls) = line_job fd username (without_cr l) ++ jobs_of fd username ls

-- What the loop does with a stream that lies in the buffer in front of bytes without a newline, of
-- which the last is zero.
pub record CutAs (fd : ℕ) (username : List ℕ) (s : Lines) (n : ℕ) (tail : List ℕ) (o : Option Cut)
    : Type 0 where
  pub passed : List ℕ
  pub result :
      o
      ≡ some (record {
        jobs = jobs_of fd username s.complete;
        passed = passed;
        rest = s.partial ++ (tail ++ 0 ∷ []);
      })
  pub passed_lines : OnOneLine passed
  pub size : length passed + length s.partial ≡ n

module _ (fd : ℕ) (username tail : List ℕ) where
  CutAs-line :
      (fuel : ℕ) (l rest : List ℕ)
      → IsClean l
      → OnOneLine l
      → CutAs fd username
          (split rest)
          (length rest)
          tail
          (cut_lines fuel fd username (rest ++ (tail ++ 0 ∷ [])))
      → CutAs fd username
          (before (l ∷ []) (split rest))
          (length (l ++ 10 ∷ rest))
          tail
          (cut_lines (suc fuel) fd username (l ++ 10 ∷ (rest ++ (tail ++ 0 ∷ []))))
  unfolding cut_lines
  CutAs-line fuel l rest clean one c = record {
    passed = drop_cr l ++ 0 ∷ c.passed;
    result =
        rw
          (
            cut_lines,
            strchr-found l (rest ++ (tail ++ 0 ∷ [])) clean one,
            c.result,
            string_of-drop_cr l clean,
          )
          refl;
    passed_lines =
        All-append _ (drop_cr l) (0 ∷ c.passed) (drop_cr-OnOneLine l one)
          (omega arith, c.passed_lines);
    size = omega (
      arith,
      length-append (drop_cr l) (0 ∷ c.passed),
      length-append l (10 ∷ rest),
      length-drop_cr l,
      c.size,
    );
  }

  pub cut_lines-CutAs :
      (fuel : ℕ) (s : List ℕ)
      → length s < fuel
      → IsClean s
      → OnOneLine tail
      → CutAs fd username
          (split s)
          (length s)
          tail
          (cut_lines fuel fd username (s ++ (tail ++ 0 ∷ [])))
  unfolding cut_lines
  cut_lines-CutAs zero s h clean quiet = absurd (omega arith)
  cut_lines-CutAs (suc fuel) s h clean quiet = elim (shape s) [
    | unended one e ↦
        let none_left : strchr 10 (s ++ (tail ++ 0 ∷ [])) ≡ absent =
          rw (← append_assoc) (strchr-absent (s ++ tail) (All-append _ s tail one quiet)) in
        rw (cut_lines, none_left, e)
          (record { passed = []; result = refl; passed_lines = tt; size = omega arith })
    | line l rest at one e ↦
        let clean' : IsClean (l ++ 10 ∷ rest) = rw at at clean in
        let shorter : length rest < fuel =
          omega (arith, h, ap length at, length-append l (10 ∷ rest)) in
        rw (e, at, append_assoc)
          (CutAs-line fuel l rest (All-left _ l (10 ∷ rest) clean') one
            (cut_lines-CutAs fuel rest shorter (All-right _ l (10 ∷ rest) clean').1 quiet))
  ]
