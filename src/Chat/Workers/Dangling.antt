-- ===== src/Chat/Workers/Dangling.antt =====
-- A worker keeps a pointer to a client while `main` frees it.
use csci_4220_network_progra.Base.{
  ℕ, suc, ◌≡◌, ◌≢◌, refl, sym, ap, ◌∙◌, true, none, some, List, [], ◌∷◌, ◌==◌, ==_iff, All,
  Bool-cases, inl, inr, subst,
}
use csci_4220_network_progra.Chat.Queue.{Job}
use csci_4220_network_progra.Chat.Room.{Client, is_username_taken, unlink, remove_client}
use csci_4220_network_progra.Chat.Lines.{handle_client_message}
use csci_4220_network_progra.Chat.Serve.{find_addr}
use csci_4220_network_progra.Chat.Server.{Server, serve_client, shut_down}
use csci_4220_network_progra.Chat.Server.Clients.{AddrsApart}
use csci_4220_network_progra.Chat.Workers.{
  Pc, found, naming, free, faulted, Moved, goes, work, looping, System, Act, receives, breaks,
  leaves, receive, main_step, worker, main, step, run,
}
use csci_4220_network_progra.Chat.Workers.Alone.{alone, turns, run-turns, find_addr-addr}

-- A worker holds the pointer.
pub data Points (sender : ℕ) : Pc → Type 0 where
  at_message : (job : Job) → Points sender (found sender job)
  at_check : (username : List ℕ) → Points sender (naming sender username)
  at_write : (username : List ℕ) → Points sender (free sender username)

-- What `main` does frees the client: the client has hung up, `select` has failed, or the flag is set.
pub data Frees (s : System) (sender : ℕ) : Act → Type 0 where
  hangs_up : Frees s sender (receives sender [])
  breaks_off : Frees s sender breaks
  shuts_down : s.server.shutdown_flag ≡ true → Frees s sender leaves

find_addr-apart : (a : ℕ) (cs : List Client) → All (λ d. d.addr ≢ a) cs → find_addr cs a ≡ none
unfolding find_addr
find_addr-apart a [] h = refl
find_addr-apart a (c ∷ cs) h = elim (Bool-cases (c.addr == a)) [
  | inl hit ↦ absurd (h.0 ((==_iff c.addr a).0 hit))
  | inr miss ↦ rw miss (find_addr-apart a cs h.1)
]

find_addr-unlink : (a : ℕ) (cs : List Client) → AddrsApart cs → find_addr (unlink a cs) a ≡ none
unfolding find_addr unlink
find_addr-unlink a [] h = refl
find_addr-unlink a (c ∷ cs) h = elim (Bool-cases (c.addr == a)) [
  | inl hit ↦ rw hit (
      find_addr-apart a cs
        (subst (λ (b : ℕ). All (λ d. d.addr ≢ b) cs) ((==_iff c.addr a).0 hit) h.0))
  | inr miss ↦ rw (miss, miss) (find_addr-unlink a cs h.1)
]

-- A worker that holds the pointer after that reads or writes freed memory, in its next step or in the
-- one behind it.
alone-step :
    (k : ℕ) (s : Server) (p : Pc) {m : Moved}
    → work s p ≡ m
    → (alone (suc k) s p).pc ≡ (alone k m.server m.pc).pc
unfolding alone
alone-step k s p e = ap (λ (m : Moved). (alone k m.server m.pc).pc) e

work-faulted : (s : Server) → (alone 1 s faulted).pc ≡ faulted
unfolding alone work
work-faulted s = refl

free-faulted :
    (s : Server) (sender : ℕ) (username : List ℕ)
    → find_addr s.room.clients sender ≡ none
    → work s (free sender username) ≡ goes s faulted
unfolding work
free-faulted s sender username gone = simp (work, gone)

alone-faulted :
    (s : Server) (sender : ℕ) {p : Pc}
    → Points sender p
    → find_addr s.room.clients sender ≡ none
    → (alone 2 s p).pc ≡ faulted
unfolding alone work
alone-faulted s sender (at_message job) gone =
    alone-step 1 s (found sender job) {m = goes s faulted} (simp (work, gone)) ∙ work-faulted s
alone-faulted s sender (at_check username) gone =
    elim (Bool-cases (is_username_taken s.room.clients username)) [
      | inl taken ↦
          alone-step 1 s (naming sender username) {m = goes s faulted} (simp (work, taken, gone))
          ∙ work-faulted s
      | inr unused ↦
          alone-step 1 s (naming sender username) {m = goes s (free sender username)}
            (simp (work, unused))
          ∙ alone-step 0 s (free sender username) (free-faulted s sender username gone)
    ]
alone-faulted s sender (at_write username) gone =
    alone-step 1 s (free sender username) (free-faulted s sender username gone) ∙ work-faulted s

main_step-gone :
    (s : System) (sender : ℕ) (act : Act) {c : Client}
    → find_addr s.server.room.clients sender ≡ some c
    → AddrsApart s.server.room.clients
    → Frees s sender act
    → (find_addr (main_step s act).server.room.clients sender ≡ none)
      × ((i : ℕ) → (main_step s act).pc i ≡ s.pc i)
unfolding main_step receive serve_client handle_client_message remove_client shut_down find_addr
main_step-gone s sender act {c} at apart hangs_up =
    let here = find_addr-addr s.server.room.clients sender at in
    rw (main_step, at)
      (
        ap (λ (a : ℕ). find_addr (unlink a s.server.room.clients) sender) here
            ∙ find_addr-unlink sender s.server.room.clients apart,
        λ i. refl,
      )
main_step-gone s sender act at apart breaks_off = (refl, λ i. refl)
main_step-gone s sender act at apart (shuts_down down) = simp (main_step, down) (refl, λ i. refl)

-- A worker has looked up the client that a job comes from, and has not yet done with it. If `main`
-- frees that client now, because it has hung up or because the loop has been left, the worker reads or
-- writes the freed memory.
pub run-faulted :
    (s : System) (i sender : ℕ) (act : Act) {c : Client}
    → s.main ≡ looping
    → AddrsApart s.server.room.clients
    → find_addr s.server.room.clients sender ≡ some c
    → Points sender (s.pc i)
    → Frees s sender act
    → (run (main act ∷ worker i ∷ worker i ∷ []) s).pc i ≡ faulted
unfolding run step
run-faulted s i sender act loops apart at points frees =
    let (gone, same) = main_step-gone s sender act at apart frees in
    let t = main_step s act in
    let r = run-turns 2 i t in
    let moved : step s (main act) ≡ t = simp (step, loops) in
    subst (λ (u : System). (run (turns 2 i) u).pc i ≡ faulted) (sym moved)
      (r.pc_eq ∙ alone-faulted t.server sender (subst (Points sender) (sym (same i)) points) gone)
