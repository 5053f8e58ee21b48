-- ===== src/Chat/Workers/Naming.antt =====
-- A worker with a name for a client: how it comes to hold it, and how it writes it.
use csci_4220_network_progra.Base.{
  ℕ, suc, ◌≡◌, ◌≢◌, refl, sym, ap, ◌∙◌, true, false, ◌||◌, not, some, List, [], ◌∷◌, ◌++◌, ◌==◌,
  ==_iff, length, arith, Bool-cases, inl, inr, subst,
}
use mathlib.Core.Option.{some-injective}
use csci_4220_network_progra.Chat.Queue.{Job}
use csci_4220_network_progra.Chat.Room.{Client, is_username_taken}
use csci_4220_network_progra.Chat.Process.{cut, is_valid, find_client, set_username}
use csci_4220_network_progra.Chat.Serve.{find_addr}
use csci_4220_network_progra.Chat.Server.{Server}
use csci_4220_network_progra.Chat.Workers.{
  Pc, idle, popping, popped, found, naming, free, Moved, read_sender, write_name, work, System,
  worker_step, Turn, worker, step, run,
}
use csci_4220_network_progra.Chat.Workers.Alone.{alone, turns, After, run-turns}
use csci_4220_network_progra.Chat.Workers.Round.{head, takes}

find_addr-set_username_self :
    (cs : List Client) (a : ℕ) (u : List ℕ) {c : Client}
    → find_addr cs a ≡ some c
    → find_addr (set_username cs a u) a ≡ some (record c { username = cut 32 u })
unfolding find_addr set_username
find_addr-set_username_self [] a u h = cc
find_addr-set_username_self (d ∷ cs) a u {c} h = elim (Bool-cases (d.addr == a)) [
  | inl hit ↦
      let same = some-injective d c (rw hit at h) in
      rw hit (rw hit (ap (λ (x : Client). some (record x { username = cut 32 u })) same))
  | inr miss ↦ rw (miss, miss) (find_addr-set_username_self cs a u (rw miss at h))
]

find_addr-set_username_other :
    (cs : List Client) (a b : ℕ) (u : List ℕ)
    → a ≢ b
    → find_addr (set_username cs a u) b ≡ find_addr cs b
unfolding find_addr set_username
find_addr-set_username_other [] a b u ne = refl
find_addr-set_username_other (d ∷ cs) a b u ne = elim (Bool-cases (d.addr == a)) [
  | inl hit ↦ elim (Bool-cases (d.addr == b)) [
    | inl both ↦ absurd (ne (sym ((==_iff d.addr a).0 hit) ∙ (==_iff d.addr b).0 both))
    | inr other ↦ rw (hit, other) refl
  ]
  | inr miss ↦ elim (Bool-cases (d.addr == b)) [
    | inl it ↦ rw (miss, it) refl
    | inr other ↦ rw (miss, other) (find_addr-set_username_other cs a b u ne)
  ]
]

-- Where a worker comes to.
record Lands (m : Moved) (s : Server) (p : Pc) : Type 0 where
  server_eq : m.server ≡ s
  pc_eq : m.pc ≡ p

move-Lands :
    (k : ℕ) (s s' t : Server) (p p' q : Pc) (js : List Job)
    → work s p ≡ record { server = s'; pc = p'; took = js; effects = [] }
    → Lands (alone k s' p') t q
    → Lands (alone (suc k) s p) t q
unfolding alone
move-Lands k s s' t p p' q js e h = rw e (record { server_eq = h.server_eq; pc_eq = h.pc_eq })

-- A worker takes a job in which a client asks for a name that is valid and not taken, and comes to
-- the point before it writes the name.
module _ (s : Server) (job : Job) (rest : List Job) (c : Client) (up : s.shutdown_flag ≡ false)
    (jobs : s.job_queue ≡ job ∷ rest) (e : find_client s.room.clients job.sender_fd ≡ some c)
    (at : find_addr s.room.clients c.addr ≡ some c) (new : (length c.username == 0) ≡ true)
    (good : (not (is_valid (cut 32 job.msg)) || length (cut 32 job.msg) == 0) ≡ false)
    (unused : is_username_taken s.room.clients (cut 32 job.msg) ≡ false) where
  alone-free : Lands (alone 5 s idle) (record s { job_queue = rest }) (free c.addr (cut 32 job.msg))
  unfolding work read_sender alone
  alone-free =
      let t = record s { job_queue = rest } in
      move-Lands 4 s s t idle popping _ [] (head s up) (
        move-Lands 3 s t t popping (popped job) _ (job ∷ []) (takes s jobs) (
          move-Lands 2 t t t (popped job) (found c.addr job) _ [] (rw (work, e) refl) (
            move-Lands 1 t t t (found c.addr job) (naming c.addr (cut 32 job.msg)) _ []
              (rw (work, at, read_sender, new, good) refl)
              (move-Lands 0 t t t (naming c.addr (cut 32 job.msg)) (free c.addr (cut 32 job.msg)) _
                [] (rw (work, unused) refl) (record { server_eq = refl; pc_eq = refl })))))

pub run-append : (xs ys : List Turn) (s : System) → run (xs ++ ys) s ≡ run ys (run xs s)
unfolding run
run-append [] ys s = refl
run-append (x ∷ xs) ys s = run-append xs ys (step s x)

-- A worker writes the name that it holds.
step-free :
    (i : ℕ) (s : System) (sender : ℕ) (u : List ℕ) {c : Client}
    → s.pc i ≡ free sender u
    → find_addr s.server.room.clients sender ≡ some c
    → (step s (worker i)).server.room.clients ≡ set_username s.server.room.clients c.addr u
unfolding step worker_step work write_name
step-free i s sender u p e = rw (p, work, e) refl

-- What the steps of one worker up to the name leave.
pub record Holding (i : ℕ) (s : System) (t : System) (rest : List Job) (sender : ℕ) (u : List ℕ)
    : Type 0 where
  pub server_eq : t.server ≡ record (s.server) { job_queue = rest }
  pub pc_eq : t.pc i ≡ free sender u
  pub other_eq : (j : ℕ) → j ≢ i → t.pc j ≡ s.pc j

pub run-Holding :
    (i : ℕ) (s : System) (job : Job) (rest : List Job) (c : Client) (u : List ℕ)
    → s.pc i ≡ idle
    → s.server.shutdown_flag ≡ false
    → s.server.job_queue ≡ job ∷ rest
    → find_client s.server.room.clients job.sender_fd ≡ some c
    → find_addr s.server.room.clients c.addr ≡ some c
    → (length c.username == 0) ≡ true
    → cut 32 job.msg ≡ u
    → (not (is_valid u) || length u == 0) ≡ false
    → is_username_taken s.server.room.clients u ≡ false
    → Holding i s (run (turns 5 i) s) rest c.addr u
run-Holding i s job rest c u start up jobs e at new asks good unused =
    let r =
      subst (λ (p : Pc). After i s (alone 5 s.server p) (run (turns 5 i) s)) start
        (run-turns 5 i s) in
    let l = alone-free s.server job rest c up jobs e at new (rw asks good) (rw asks unused) in
    record {
      server_eq = r.server_eq ∙ l.server_eq;
      pc_eq = r.pc_eq ∙ (l.pc_eq ∙ ap (free c.addr) asks);
      other_eq = r.other_eq;
    }

-- Both clients have the name.
abbrev pub BothNamed : List Client → Client → Client → List ℕ → Type 0
BothNamed cs a b u =
    (a' b' : Client) × (find_addr cs a.addr ≡ some a')
    × (find_addr cs b.addr ≡ some b')
    × (a'.username ≡ u)
    × (b'.username ≡ u)

step-pc : (i j : ℕ) (s : System) → j ≢ i → (step s (worker i)).pc j ≡ s.pc j
unfolding step worker_step
step-pc i j s ne = ground arith

set_username-BothNamed :
    (cs : List Client) (a b : Client) (u : List ℕ)
    → find_addr cs a.addr ≡ some a
    → find_addr cs b.addr ≡ some b
    → a.addr ≢ b.addr
    → cut 32 u ≡ u
    → BothNamed (set_username (set_username cs a.addr u) b.addr u) a b u
set_username-BothNamed cs a b u a_at b_at two short =
    let other = find_addr-set_username_other cs a.addr b.addr u two ∙ b_at in
    (
      _,
      _,
      find_addr-set_username_other (set_username cs a.addr u) b.addr a.addr u (λ e. two (sym e))
          ∙ find_addr-set_username_self cs a.addr u a_at,
      find_addr-set_username_self (set_username cs a.addr u) b.addr u other,
      short,
      short,
    )

-- The two writes.
pub writes-BothNamed :
    (s : System) (a b : Client) (u : List ℕ)
    → s.pc 0 ≡ free a.addr u
    → s.pc 1 ≡ free b.addr u
    → find_addr s.server.room.clients a.addr ≡ some a
    → find_addr s.server.room.clients b.addr ≡ some b
    → a.addr ≢ b.addr
    → cut 32 u ≡ u
    → BothNamed (run (worker 0 ∷ worker 1 ∷ []) s).server.room.clients a b u
unfolding run
writes-BothNamed s a b u first second a_at b_at two short =
    let s1 = step s (worker 0) in
    let one = step-free 0 s a.addr u first a_at in
    let b_still =
      ap (λ (cs : List Client). find_addr cs b.addr) one
      ∙ (find_addr-set_username_other s.server.room.clients a.addr b.addr u two ∙ b_at) in
    let both =
      step-free 1 s1 b.addr u (step-pc 0 1 s (omega arith) ∙ second) b_still
      ∙ ap (λ (cs : List Client). set_username cs b.addr u) one in
    subst (λ (cs : List Client). BothNamed cs a b u) (sym both)
      (set_username-BothNamed s.server.room.clients a b u a_at b_at two short)
