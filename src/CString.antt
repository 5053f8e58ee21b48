-- ===== src/CString.antt =====
-- What the programs use of <ctype.h>, <strings.h>, sscanf and atoi, in the C locale, on strings
-- without their closing zero.
use csci_4220_network_progra.Base.{
  min, ℕ, ◌+◌, ◌-◌, ◌*◌, ◌%◌, ◌^◌, ◌≡◌, refl, Bool, true, false, ◌||◌, ◌&&◌, Option, none, some,
  length, take, drop, List, [], ◌∷◌, leb, ◌==◌, if◌then◌else◌, arith, ap₂,
}

-- White space of `isspace` in the C locale.
abbrev pub is_space : ℕ → Bool
is_space c = c == 32 || leb 9 c && leb c 13

abbrev pub lower : ℕ → ℕ
lower c = if leb 65 c && leb c 90 then c + 32 else c

-- `strcasecmp` gives 0.
unfoldable pub same_caseless : List ℕ → List ℕ → Bool
same_caseless [] [] = true
same_caseless (c ∷ cs) (d ∷ ds) = lower c == lower d && same_caseless cs ds
same_caseless _ _ = false

abbrev pub is_alnum : ℕ → Bool
is_alnum c = (leb 48 c && leb c 57) || (leb 65 c && leb c 90) || (leb 97 c && leb c 122)

-- The bytes up to the first zero.
unfoldable pub until_nul : List ℕ → List ℕ
until_nul [] = []
until_nul (c ∷ cs) = let rest = until_nul cs in if c == 0 then [] else c ∷ rest

-- What `%s` skips, and what it takes.
unfoldable pub skip_spaces : List ℕ → List ℕ
skip_spaces [] = []
skip_spaces (c ∷ cs) = let rest = skip_spaces cs in if is_space c then rest else c ∷ cs

unfoldable pub word : List ℕ → List ℕ
word [] = []
word (c ∷ cs) = let rest = word cs in if c == 0 || is_space c then [] else c ∷ rest

-- `%Ns` with a width: the word and what stands behind it, or none if there is no word.
unfoldable pub scan_string : (width : ℕ) → List ℕ → Option (List ℕ × List ℕ)
unfolding skip_spaces word
scan_string width s =
    let from = skip_spaces s in
    let w = take width (word from) in if length w == 0 then none else some (w, drop (length w) from)

abbrev is_digit : ℕ → Bool
is_digit c = leb 48 c && leb c 57

-- The digits at the front of a string, read on top of a value, and what stands behind them.
unfoldable pub scan_digits : List ℕ → (value : ℕ) → ℕ × List ℕ
scan_digits [] value = (value, [])
scan_digits (c ∷ cs) value =
    let rest = scan_digits cs (value * 10 + (c - 48)) in
    if is_digit c then rest else (value, c ∷ cs)

abbrev starts_with_digit : List ℕ → Bool
starts_with_digit [] = false
starts_with_digit (c ∷ cs) = is_digit c

-- `strtol` cuts a number off at the ends of a `long` of 64 bits; an `int` then keeps its low 32 bits.
abbrev pub to_int : Bool → (value : ℕ) → ℕ
to_int negative value =
    if negative
    then (2 ^ 32 - min value (2 ^ 63) % 2 ^ 32) % 2 ^ 32
    else min value (2 ^ 63 - 1) % 2 ^ 32

-- The digits behind a sign, as a word of 32 bits.
unfoldable pub scan_signed : Bool → List ℕ → Option (ℕ × List ℕ)
unfolding scan_digits
scan_signed negative s =
    let (value, rest) = scan_digits s 0 in
    if starts_with_digit s then some (to_int negative value, rest) else none

unfoldable pub scan_sign : List ℕ → Option (ℕ × List ℕ)
unfolding scan_signed
scan_sign [] = none
scan_sign (c ∷ cs) =
    if c == 45
    then scan_signed true cs
    else if c == 43
    then scan_signed false cs
    else scan_signed false (c ∷ cs)

-- `%d`, into an `int` as a word of 32 bits.
unfoldable pub scan_int : List ℕ → Option (ℕ × List ℕ)
unfolding scan_sign skip_spaces
scan_int s = scan_sign (skip_spaces s)

-- `atoi`, as a word of 32 bits; 0 where there is no number.
abbrev pub atoi : List ℕ → ℕ
atoi s = elim (scan_int s) [ none ↦ 0 | some (v, _) ↦ v ]

pub same_caseless_comm : (a b : List ℕ) → same_caseless a b ≡ same_caseless b a
unfolding same_caseless
same_caseless_comm [] [] = refl
same_caseless_comm [] (d ∷ ds) = refl
same_caseless_comm (c ∷ cs) [] = refl
same_caseless_comm (c ∷ cs) (d ∷ ds) =
    ap₂ ◌&&◌ (==-comm (lower c) (lower d)) (same_caseless_comm cs ds)
  where
    ==-comm : (m n : ℕ) → (m == n) ≡ (n == m)
    ==-comm m n = ground arith
