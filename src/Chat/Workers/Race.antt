-- ===== src/Chat/Workers/Race.antt =====
-- Two workers and one name.
use csci_4220_network_progra.Base.{
  ℕ, ◌≡◌, ◌≢◌, sym, ap, ◌∙◌, true, false, ◌||◌, not, some, List, [], ◌∷◌, ◌++◌, ◌==◌, length, arith,
  subst, take_all, length-take,
}
use csci_4220_network_progra.Chat.Queue.{Job}
use csci_4220_network_progra.Chat.Room.{Client, is_username_taken}
use csci_4220_network_progra.Chat.Process.{cut, is_valid, find_client}
use csci_4220_network_progra.Chat.Serve.{find_addr}
use csci_4220_network_progra.Chat.Server.{Server}
use csci_4220_network_progra.Chat.Server.Clients.{AddrsApart}
use csci_4220_network_progra.Chat.Workers.{idle, System, Turn, worker, run}
use csci_4220_network_progra.Chat.Workers.Alone.{turns, find_client-find_addr}
use csci_4220_network_progra.Chat.Workers.Naming.{
  run-Holding, BothNamed, writes-BothNamed, run-append,
}

-- Two workers are at the head of their loops, and the two oldest jobs are those of two clients without
-- a name that ask for the same one; it is valid, and no client has it.
pub record Rivals (s : System) (a b : Client) (u : List ℕ) : Type 0 where
  pub job_a : Job
  pub job_b : Job
  pub rest : List Job
  pub first_idle : s.pc 0 ≡ idle
  pub second_idle : s.pc 1 ≡ idle
  pub up : s.server.shutdown_flag ≡ false
  pub jobs : s.server.job_queue ≡ job_a ∷ job_b ∷ rest
  pub a_found : find_client s.server.room.clients job_a.sender_fd ≡ some a
  pub b_found : find_client s.server.room.clients job_b.sender_fd ≡ some b
  pub a_new : (length a.username == 0) ≡ true
  pub b_new : (length b.username == 0) ≡ true
  pub a_asks : cut 32 job_a.msg ≡ u
  pub b_asks : cut 32 job_b.msg ≡ u
  pub good : (not (is_valid u) || length u == 0) ≡ false
  pub unused : is_username_taken s.server.room.clients u ≡ false
  pub apart : AddrsApart s.server.room.clients
  pub two : a.addr ≢ b.addr

-- The name race. Whenever two workers are about to take the jobs of two clients that ask for the same
-- name, there is an order of their steps after which both clients have it: each worker looks whether
-- the name is taken before the other one writes it.
pub run-same_name :
    (s : System) (a b : Client) (u : List ℕ)
    → Rivals s a b u
    → (ts : List Turn) × BothNamed (run ts s).server.room.clients a b u
run-same_name s a b u h =
    let cs = s.server.room.clients in
    let a_at = find_client-find_addr cs h.job_a.sender_fd h.apart h.a_found in
    let b_at = find_client-find_addr cs h.job_b.sender_fd h.apart h.b_found in
    let one =
      run-Holding 0 s h.job_a (h.job_b ∷ h.rest) a u h.first_idle h.up h.jobs h.a_found a_at h.a_new
        h.a_asks h.good h.unused in
    let s1 = run (turns 5 0) s in
    let clients1 = ap (λ (v : Server). v.room.clients) one.server_eq in
    let two =
      run-Holding 1 s1 h.job_b h.rest b u (one.other_eq 1 (omega arith) ∙ h.second_idle)
        (ap (λ (v : Server). v.shutdown_flag) one.server_eq ∙ h.up)
        (ap (λ (v : Server). v.job_queue) one.server_eq)
        (ap (λ (ds : List Client). find_client ds h.job_b.sender_fd) clients1 ∙ h.b_found)
        (ap (λ (ds : List Client). find_addr ds b.addr) clients1 ∙ b_at) h.b_new h.b_asks h.good
        (ap (λ (ds : List Client). is_username_taken ds u) clients1 ∙ h.unused) in
    let s2 = run (turns 5 1) s1 in
    let clients2 = ap (λ (v : Server). v.room.clients) two.server_eq ∙ clients1 in
    let short : cut 32 u ≡ u =
      subst (λ (v : List ℕ). cut 32 v ≡ v) h.a_asks
        (take_all 31 (cut 32 h.job_a.msg) (omega (arith, length-take 31 h.job_a.msg))) in
    (
      turns 5 0 ++ (turns 5 1 ++ worker 0 ∷ worker 1 ∷ []),
      subst (λ (t : System). BothNamed t.server.room.clients a b u)
          (sym (
            run-append (turns 5 0) (turns 5 1 ++ worker 0 ∷ worker 1 ∷ []) s
            ∙ run-append (turns 5 1) (worker 0 ∷ worker 1 ∷ []) s1))
          (writes-BothNamed s2 a b u (two.other_eq 0 (omega arith) ∙ one.pc_eq) two.pc_eq
            (ap (λ (ds : List Client). find_addr ds a.addr) clients2 ∙ a_at)
            (ap (λ (ds : List Client). find_addr ds b.addr) clients2 ∙ b_at) h.two short),
    )
