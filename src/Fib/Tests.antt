-- ===== src/Fib/Tests.antt =====
-- Ten numbers among four threads, and the largest number that fits.
use csci_4220_network_progra.Base.{
  codes, ◌^◌, ◌+◌, ℕ, List, ◌++◌, ◌≡◌, refl, some, none, [], ◌∷◌, ltb, if◌then◌else◌, arith,
}
use csci_4220_network_progra.Fib.{divide, divide_from, numbers, count}
use csci_4220_network_progra.Fib.Reply.{
  summary, summary_text, reply, collect, worker_thread, compute, thread_line, thread_text,
  digits_from,
}
use csci_4220_network_progra.Fib.Client.{opening, bar, client_main}
use csci_4220_network_progra.Fib.Client.Shown.{joined, client_main-shows}
use csci_4220_network_progra.CString.{skip_spaces, scan_digits, scan_signed, scan_sign, scan_int}
use csci_4220_network_progra.Fib.Session.{wrote, client_handler, client_message}
use csci_4220_network_progra.Fib.Session.Answered.{client_handler-sum}
use csci_4220_network_progra.Fib.Number.{fib, fib_loop, fibonacci, fib-fibonacci}

ten_by_four :
    divide 10 4
    ≡ record { start = 1; end = 3 }
      ∷ record { start = 4; end = 6 }
      ∷ record { start = 7; end = 8 }
      ∷ record { start = 9; end = 10 }
      ∷ []
unfolding divide divide_from
ten_by_four = refl

fib_92 : fib 92 ≡ some 7540113804746346429
unfolding fib fib_loop
fib_92 = refl

fib_93 : fib 93 ≡ none
unfolding fib fib_loop
fib_93 = refl

fib-fibonacci_example : fib 7 ≡ (if ltb (fibonacci 7) (2 ^ 63) then some (fibonacci 7) else none)
fib-fibonacci_example = fib-fibonacci 7 (omega arith)

-- The user types "10".
client_handler-sum_example :
    (message : List ℕ) × (total : ℕ) × (lines : List ℕ) × (client_message (codes "10")
      ≡ some message)
    × (total + 1 ≡ fibonacci 12)
    × (client_handler 4 (some message) ≡ wrote (lines ++ summary 10 total))
unfolding scan_int scan_sign scan_signed scan_digits skip_spaces
client_handler-sum_example =
    client_handler-sum (codes "10") [] 10 4 refl (omega arith) (omega arith) (omega arith)
      (omega arith) (omega arith)

-- What a server with one thread answers to the number 1, in two pieces.
abbrev pieces : List (List ℕ)
pieces =
    (codes "T1: [1" ++ 226 ∷ 128 ∷ 147 ∷ [])
    ∷ codes "1] -> 1\nTotal computed = 1 Fibonacci numbers\nSum = 1\n"
    ∷ []

one-answered : client_handler 1 (some (codes "1\n")) ≡ wrote (joined pieces)
unfolding count client_handler reply collect worker_thread compute thread_line thread_text summary
    summary_text digits_from divide divide_from numbers fib fib_loop scan_int scan_sign scan_signed
    scan_digits skip_spaces
one-answered = refl

client_main-shows_example :
    (total : ℕ) × (lines : List ℕ) × (total + 1 ≡ fibonacci 3)
    × (client_main (codes "127.0.0.1") (codes "9000") [] (codes "1") pieces
        ≡ some (record {
          written = codes "1\n";
          screen =
              opening (codes "127.0.0.1") (codes "9000") []
              ++ (codes "\nServer response:\n" ++ (bar ++ ((lines ++ summary 1 total) ++ bar)));
        }))
unfolding scan_int scan_sign scan_signed scan_digits skip_spaces client_message digits_from
client_main-shows_example =
    client_main-shows (codes "127.0.0.1") (codes "9000") [] (codes "1") [] (codes "1\n") 1 1 pieces
      refl (omega arith) (omega arith) (omega arith) (omega arith) (omega arith) refl one-answered
      (omega arith, (omega arith, tt))
