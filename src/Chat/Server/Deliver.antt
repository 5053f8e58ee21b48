-- ===== src/Chat/Server/Deliver.antt =====
-- From a line that a client says to what the other clients get, and the end of the workers.
use csci_4220_network_progra.Base.{
  ℕ, ◌≡◌, ◌≢◌, refl, sym, subst, ap, ◌∙◌, false, none, some, List, [], ◌∷◌, ◌++◌, ◌==◌, length,
  take, Bool-cases, inl, inr, ◌⊎◌, arith,
}
use mathlib.Core.List.{append-nil, append_assoc}
use csci_4220_network_progra.Chat.Queue.{Job}
use csci_4220_network_progra.Chat.Room.{Client, Effect, sent, queued, text, broadcast_message}
use csci_4220_network_progra.Chat.Process.{same, strip, find_client, process_line, process_message}
use csci_4220_network_progra.Chat.Server.{
  Server, Out, Bcast, admit, main_round, serve_clients, broadcast_all, worked, worker_round, pushes,
  others,
}

-- Each client but the excluded one gets the text once, in the order of the list.
abbrev pub Gets : List Client → ℕ → List ℕ → List Effect → Type 0
Gets [] fd msg es = es ≡ []
Gets (c ∷ cs) fd msg es =
    ((c.fd ≡ fd) × Gets cs fd msg es)
    ⊎ ((c.fd ≢ fd)
        × (rest : List Effect) × (es ≡ sent c.fd (text msg) ∷ rest)
        × Gets cs fd msg rest)

broadcast_message-Gets :
    (cs : List Client) (msg : List ℕ) (fd : ℕ) → Gets cs fd msg (broadcast_message cs msg (some fd))
unfolding broadcast_message
broadcast_message-Gets [] msg fd = refl
broadcast_message-Gets (c ∷ cs) msg fd = elim (Bool-cases (c.fd == fd)) [
  | inl own ↦ rw own (inl (ground arith, broadcast_message-Gets cs msg fd))
  | inr other ↦ rw other (inr (ground arith, _, refl, broadcast_message-Gets cs msg fd))
]

broadcast_all-Gets :
    (cs : List Client) (fd : ℕ) (m : List ℕ)
    → Gets cs fd m (broadcast_all cs (record { sender_fd = fd; msg = m } ∷ []))
unfolding broadcast_all
broadcast_all-Gets cs fd m =
    subst (λ (es : List Effect). Gets cs fd m es)
      (sym (append-nil (broadcast_message cs m (some fd)))) (broadcast_message-Gets cs m fd)

serve_clients-idle :
    (cs : List Client) (s : Server)
    → serve_clients (λ _. none) cs s ≡ some (record { server = s; effects = [] })
unfolding serve_clients
serve_clients-idle [] s = refl
serve_clients-idle (c ∷ cs) s = rw (serve_clients-idle cs s) refl

process_message-queued :
    (cs : List Client) (job : Job) (sender : Client)
    → find_client cs job.sender_fd ≡ some sender
    → (length sender.username == 0) ≡ false
    → same (take 1 (strip job.msg)) (47 ∷ []) ≡ false
    → process_message cs job ≡ (
      cs,
      queued sender.fd
            (take 1023 (take 2047 (sender.username ++ (58 ∷ 32 ∷ (strip job.msg ++ 10 ∷ [])))))
          ∷ [],
    )
unfolding process_message process_line
process_message-queued cs job sender found named plain =
    rw (process_message, found, named, process_line, plain) refl

broadcast_all-append :
    (cs : List Client) (xs bs : List Bcast)
    → broadcast_all cs (xs ++ bs) ≡ broadcast_all cs xs ++ broadcast_all cs bs
unfolding broadcast_all
broadcast_all-append cs [] bs = refl
broadcast_all-append cs (a ∷ xs) bs =
    ap (λ (es : List Effect). broadcast_message cs a.msg (some a.sender_fd) ++ es)
      (broadcast_all-append cs xs bs)
    ∙ sym (append_assoc (broadcast_message cs a.msg (some a.sender_fd)) _ _)

-- A round in which nothing comes drains the queue.
main_round-drain :
    (t : Server)
    → main_round t none (λ _. none)
      ≡ some (record {
        server = record t { bcast_queue = [] };
        effects = broadcast_all t.room.clients t.bcast_queue;
      })
unfolding main_round admit
main_round-drain t = rw (main_round, serve_clients-idle t.room.clients t) refl

worker_round-pushes :
    (s : Server) (job : Job) (rest : List Job) (fd : ℕ) (m : List ℕ)
    → s.shutdown_flag ≡ false
    → s.job_queue ≡ job ∷ rest
    → process_message s.room.clients job ≡ (s.room.clients, queued fd m ∷ [])
    → worker_round s
      ≡ worked (record {
        server = record s {
          job_queue = rest;
          bcast_queue = s.bcast_queue ++ record { sender_fd = fd; msg = m } ∷ [];
        };
        effects = [];
      })
unfolding worker_round pushes others
worker_round-pushes s job rest fd m up jobs said = simp (worker_round, up, jobs, said)

-- A worker takes a line of a client that has a name, and the line is no command. Then the next round
-- of the main loop, in which nothing else comes, sends the messages that were waiting and then "name:
-- line" with a newline behind it, cut off after 2047 bytes by `snprintf` and then after 1023 by
-- `strncpy`, so that a long line loses its end and its newline. It goes to every client but those with
-- the descriptor of the sender, once to each, in the order of the list; the round does nothing else.
pub worker_round-main_round-Gets :
    (s : Server) (job : Job) (rest : List Job) (sender : Client)
    → s.shutdown_flag ≡ false
    → s.job_queue ≡ job ∷ rest
    → find_client s.room.clients job.sender_fd ≡ some sender
    → (length sender.username == 0) ≡ false
    → same (take 1 (strip job.msg)) (47 ∷ []) ≡ false
    → (o p : Out) × (es : List Effect) × (worker_round s ≡ worked o)
      × (main_round o.server none (λ _. none) ≡ some p)
      × (p.effects ≡ broadcast_all s.room.clients s.bcast_queue ++ es)
      × Gets s.room.clients sender.fd
          (take 1023 (take 2047 (sender.username ++ (58 ∷ 32 ∷ (strip job.msg ++ 10 ∷ [])))))
          es
worker_round-main_round-Gets s job rest sender up jobs found named plain =
    by_message (take 1023 (take 2047 (sender.username ++ (58 ∷ 32 ∷ (strip job.msg ++ 10 ∷ [])))))
      (process_message-queued s.room.clients job sender found named plain)
  where
    by_message :
        (m : List ℕ)
        → process_message s.room.clients job ≡ (s.room.clients, queued sender.fd m ∷ [])
        → (o p : Out) × (es : List Effect) × (worker_round s ≡ worked o)
          × (main_round o.server none (λ _. none) ≡ some p)
          × (p.effects ≡ broadcast_all s.room.clients s.bcast_queue ++ es)
          × Gets s.room.clients sender.fd m es
    by_message m said = (
      _,
      _,
      broadcast_all s.room.clients (record { sender_fd = sender.fd; msg = m } ∷ []),
      worker_round-pushes s job rest sender.fd m up jobs said,
      main_round-drain _,
      broadcast_all-append s.room.clients s.bcast_queue _,
      broadcast_all-Gets s.room.clients sender.fd m,
    )
