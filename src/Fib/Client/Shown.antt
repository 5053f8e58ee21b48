-- ===== src/Fib/Client/Shown.antt =====
-- A number from the user of the client to the server, and the answer on the terminal.
use csci_4220_network_progra.Base.{
  ℕ, ◌+◌, ◌/◌, ◌^◌, ◌≤◌, ◌<◌, ◌≡◌, refl, sym, ap, ◌∙◌, false, ◌||◌, none, some, List, [], ◌∷◌, ◌++◌,
  leb, ◌==◌, length, codes, arith, All, Bool-cases, Option-cases, inl, inr, subst,
}
use mathlib.Core.Option.{some-injective}
use csci_4220_network_progra.CString.{scan_int, atoi, until_nul}
use csci_4220_network_progra.Fib.Number.{fibonacci}
use csci_4220_network_progra.Fib.Reply.{summary, reply}
use csci_4220_network_progra.Fib.Session.{
  Answer, closed, overflowed, wrote, client_handler, client_message,
}
use csci_4220_network_progra.Fib.Session.Answered.{client_handler-sum}
use csci_4220_network_progra.Fib.Client.{show_reads, opening, bar, client_main}
use csci_4220_network_progra.Fib.Client.Plain.{IsPlain, reply-IsPlain}

-- The pieces of a text.
abbrev pub joined : List (List ℕ) → List ℕ
joined [] = []
joined (d ∷ ds) = d ++ joined ds

until_nul-IsPlain : (a : List ℕ) → IsPlain a → until_nul a ≡ a
unfolding until_nul
until_nul-IsPlain [] p = refl
until_nul-IsPlain (c ∷ a) p =
    let byte : (c == 0) ≡ false = let n = p.0 in ground arith in
    rw (byte, until_nul-IsPlain a p.1) refl

split : (a b : List ℕ) → IsPlain (a ++ b) → IsPlain a × IsPlain b
split [] b p = (tt, p)
split (c ∷ a) b p = let (q, r) = split a b p.1 in ((p.0, q), r)

show_reads-joined :
    (ds : List (List ℕ))
    → All (λ d. 0 < length d) ds
    → IsPlain (joined ds)
    → show_reads ds ≡ joined ds
unfolding show_reads
show_reads-joined [] h p = refl
show_reads-joined ([] ∷ ds) h p = absurd (omega (arith, h.0))
show_reads-joined ((c ∷ cs) ∷ ds) h p =
    let (q, r) = split (c ∷ cs) (joined ds) p in
    rw (until_nul-IsPlain (c ∷ cs) q, show_reads-joined ds h.1 r) refl

abbrev text_of : Answer → List ℕ
text_of closed = []
text_of overflowed = []
text_of (wrote text) = text

reply-Answer :
    (n t : ℕ) {text : List ℕ} {a : Answer}
    → a ≡ elim (reply n t) [ none ↦ overflowed | some response ↦ wrote response ]
    → a ≡ wrote text
    → IsPlain text
reply-Answer n t {text} e at = elim (Option-cases (reply n t)) [
  | inl over ↦ let no : overflowed ≡ wrote text = sym (rw over at e) ∙ at in cc
  | inr (response, ok) ↦
      let same : wrote response ≡ wrote text = sym (rw ok at e) ∙ at in
      subst IsPlain (ap text_of same) (reply-IsPlain n t ok)
]

client_handler-IsPlain :
    (t : ℕ) (buffer : List ℕ) {text : List ℕ}
    → client_handler t (some buffer) ≡ wrote text
    → IsPlain text
unfolding client_handler
client_handler-IsPlain t buffer {text} at =
    let n = atoi buffer in
    elim (Bool-cases (n == 0 || leb (2 ^ 31) n)) [
      | inl bad ↦ let no : closed ≡ wrote text = (rw (client_handler, bad) at at) in cc
      | inr good ↦ reply-Answer n t (simp (client_handler, good)) at
    ]

-- The user of the client types the number n, and the server is in the range in which it answers: at
-- most seven threads, fewer than twelve numbers to a thread before the rest is handed out, and the
-- Fibonacci number of n + 2 fits into a `long`. In whatever pieces the answer arrives, the client has
-- written its message, and its terminal shows the whole answer between two bars, ending with the line
-- that names n and the sum of the first n Fibonacci numbers, one less than the number of n + 2.
pub client_main-shows :
    (server_ip port first typed rest message : List ℕ) (n num_threads : ℕ) (ds : List (List ℕ))
    → scan_int typed ≡ some (n, rest)
    → 0 < n
    → 0 < num_threads
    → num_threads ≤ 7
    → n / num_threads < 12
    → fibonacci (n + 2) < 2 ^ 63
    → client_message typed ≡ some message
    → client_handler num_threads (some message) ≡ wrote (joined ds)
    → All (λ d. 0 < length d) ds
    → (total : ℕ) × (lines : List ℕ) × (total + 1 ≡ fibonacci (n + 2))
      × (client_main server_ip port first typed ds
          ≡ some (record {
            written = message;
            screen =
                opening server_ip port first
                ++ (codes "\nServer response:\n" ++ (bar ++ ((lines ++ summary n total) ++ bar)));
          }))
unfolding client_main
client_main-shows server_ip port first typed rest message n t ds typed_n some_n pos few share small
      sends answers pieces =
    let (message', total, lines, sends', sum, answers') =
      client_handler-sum typed rest n t typed_n some_n pos few share small in
    let same : message' ≡ message = some-injective message' message (sym sends' ∙ sends) in
    let text : joined ds ≡ lines ++ summary n total =
      ap text_of
        (sym answers ∙ (sym (ap (λ (m : List ℕ). client_handler t (some m)) same) ∙ answers')) in
    let shows : show_reads ds ≡ lines ++ summary n total =
      show_reads-joined ds pieces (client_handler-IsPlain t message answers) ∙ text in
    (total, lines, sum, simp (client_main, sends, shows))
