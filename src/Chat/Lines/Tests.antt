-- ===== src/Chat/Lines/Tests.antt =====
-- The input of a client of the chatroom server: two lines that arrive in three reads.
use csci_4220_network_progra.Base.{
  ℕ, zero, suc, ◌≡◌, refl, List, [], ◌∷◌, ◌++◌, arith, All, length, length-append,
}
use csci_4220_network_progra.Chat.Room.{Client}
use csci_4220_network_progra.Chat.Lines.{receive_all}
use csci_4220_network_progra.Chat.Lines.Split.{split, OnOneLine, without_cr}
use csci_4220_network_progra.Chat.Lines.Call.{Holds, Takes}
use csci_4220_network_progra.Chat.Lines.Receive.{Fits, join, IsLine, receive_all-split}

abbrev pub zeros : ℕ → List ℕ
zeros zero = []
zeros (suc n) = 0 ∷ zeros n

pub zeros-OnOneLine : (n : ℕ) → OnOneLine (zeros n)
zeros-OnOneLine zero = tt
zeros-OnOneLine (suc n) = (omega arith, zeros-OnOneLine n)

length-zeros : (n : ℕ) → length (zeros n) ≡ n
length-zeros zero = refl
length-zeros (suc n) = omega (arith, length-zeros n)

abbrev pub ann : Client
ann = record { addr = 100; fd = 4; username = 65 ∷ []; inbuf = zeros 2047 ++ 0 ∷ []; inbuf_len = 0 }

pub ann-Holds : Holds ann []
ann-Holds = record {
  tail = zeros 2047;
  inbuf_eq = refl;
  len_eq = refl;
  full = omega (arith, length-append (zeros 2047) (0 ∷ []), length-zeros 2047);
  quiet = zeros-OnOneLine 2047;
}

-- "hi" and "ok", each with a newline behind it.
abbrev reads : List (List ℕ)
reads = (104 ∷ []) ∷ (105 ∷ 10 ∷ 111 ∷ []) ∷ (107 ∷ 10 ∷ []) ∷ []

reads-Fits : Fits [] reads
unfolding split
reads-Fits = (
  omega arith,
  omega arith,
  (omega arith, tt),
  (
    omega arith,
    omega arith,
    (omega arith, (omega arith, (omega arith, tt))),
    (omega arith, omega arith, (omega arith, (omega arith, tt)), tt),
  ),
)

hi_and_ok-IsLine : All IsLine ((104 ∷ 105 ∷ []) ∷ (111 ∷ 107 ∷ []) ∷ [])
unfolding without_cr
hi_and_ok-IsLine = (
  record {
    some_bytes = omega arith;
    short = omega arith;
    one_line = (omega arith, (omega arith, tt));
    no_cr = refl;
  },
  (
    record {
      some_bytes = omega arith;
      short = omega arith;
      one_line = (omega arith, (omega arith, tt));
      no_cr = refl;
    },
    tt,
  ),
)

receive_all-split_example : Takes 100 4 (65 ∷ []) (split (join reads)) (receive_all ann reads)
receive_all-split_example = receive_all-split ann reads ann-Holds reads-Fits
