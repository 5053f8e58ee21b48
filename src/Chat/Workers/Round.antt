-- ===== src/Chat/Workers/Round.antt =====
-- A worker that nothing disturbs, against the round of `Chat/Server`.
use csci_4220_network_progra.Base.{
  ℕ, suc, ◌≡◌, refl, sym, Bool, false, List, [], ◌∷◌, ◌++◌, if◌then◌else◌, Bool-cases, inl, inr,
  subst, ◌⊎◌,
}
use csci_4220_network_progra.Chat.Queue.{Job}
use csci_4220_network_progra.Chat.Process.{process_message}
use csci_4220_network_progra.Chat.Server.{
  Server, Turn, ends, waits, worked, worker_round, pushes, others,
}
use csci_4220_network_progra.Chat.Server.Clients.{AddrsApart}
use csci_4220_network_progra.Chat.Workers.{
  Pc, idle, popping, popped, ended, Moved, goes, pop_job, work, System, run,
}
use csci_4220_network_progra.Chat.Workers.Alone.{alone, turns, After, run-turns}
use csci_4220_network_progra.Chat.Workers.Processing.{Ends, popped-Processed}

-- What the round of a worker does, as steps.
abbrev pub Does : Server → Turn → Moved → Type 0
Does s ends m = (m.server ≡ s) × (m.pc ≡ ended) × (m.effects ≡ [])
Does s waits m = (m.server ≡ s) × (m.pc ≡ popping) × (m.effects ≡ [])
Does s (worked o) m = Ends m o.server o.effects

List-cases : (js : List Job) → (js ≡ []) ⊎ ((j : Job) × (rest : List Job) × (js ≡ j ∷ rest))
List-cases [] = inl refl
List-cases (j ∷ rest) = inr (j, rest, refl)

pub head :
    (s : Server) {b : Bool}
    → s.shutdown_flag ≡ b
    → work s idle ≡ goes s (if b then ended else popping)
unfolding work
head s e = simp e

empty :
    (s : Server) {b : Bool}
    → s.job_queue ≡ []
    → s.queues_closed ≡ b
    → work s popping ≡ goes s (if b then ended else popping)
unfolding work pop_job
empty s e f = simp (work, pop_job, e, f)

pub takes :
    (s : Server) {job : Job} {rest : List Job}
    → s.job_queue ≡ job ∷ rest
    → work s popping ≡ record {
      server = record s { job_queue = rest };
      pc = popped job;
      took = job ∷ [];
      effects = [];
    }
unfolding work pop_job
takes s e = simp (work, pop_job, e)

move-Does :
    (k : ℕ) (s s' s0 : Server) (t : Turn) (p q : Pc) (js : List Job)
    → work s p ≡ record { server = s'; pc = q; took = js; effects = [] }
    → Does s0 t (alone k s' q)
    → Does s0 t (alone (suc k) s p)
unfolding alone
move-Does k s s' s0 ends p q js e h = rw e h
move-Does k s s' s0 waits p q js e h = rw e h
move-Does k s s' s0 (worked o) p q js e h =
    rw e (record { server_eq = h.server_eq; pc_eq = h.pc_eq; effects_eq = h.effects_eq })

-- The outcome, with the round that has it.
abbrev Outcome : Server → Turn → Type 0
Outcome s t = (k : ℕ) × Does s t (alone k s idle)

job_round :
    (s : Server) (job : Job) (rest : List Job)
    → s.shutdown_flag ≡ false
    → s.job_queue ≡ job ∷ rest
    → worker_round s
      ≡ worked (record {
        server = record s {
          room = record (s.room) { clients = (process_message s.room.clients job).0 };
          job_queue = rest;
          bcast_queue = s.bcast_queue ++ pushes (process_message s.room.clients job).1;
        };
        effects = others (process_message s.room.clients job).1;
      })
unfolding worker_round
job_round s job rest up jobs = simp (worker_round, up, jobs)

alone-Outcome : (s : Server) → AddrsApart s.room.clients → Outcome s (worker_round s)
unfolding worker_round alone
alone-Outcome s apart = elim (Bool-cases s.shutdown_flag) [
  | inl down ↦
      let e : worker_round s ≡ ends = simp (worker_round, down) in
      subst (Outcome s) (sym e)
        (1, move-Does 0 s s s ends idle ended [] (head s down) (refl, refl, refl))
  | inr up ↦ elim (List-cases s.job_queue) [
    | inl nothing ↦ elim (Bool-cases s.queues_closed) [
      | inl shut ↦
          let e : worker_round s ≡ ends = simp (worker_round, up, nothing, shut) in
          subst (Outcome s) (sym e) (
            2,
            move-Does 1 s s s ends idle popping [] (head s up)
                (move-Does 0 s s s ends popping ended [] (empty s nothing shut) (refl, refl, refl)),
          )
      | inr open_still ↦
          let e : worker_round s ≡ waits = simp (worker_round, up, nothing, open_still) in
          subst (Outcome s) (sym e) (
            2,
            move-Does 1 s s s waits idle popping [] (head s up) (
                move-Does 0 s s s waits popping popping [] (empty s nothing open_still)
                  (refl, refl, refl)),
          )
    ]
    | inr (job, rest, jobs) ↦
        let (k, h) = popped-Processed (record s { job_queue = rest }) job apart in
        subst (Outcome s) (sym (job_round s job rest up jobs)) (
          suc (suc k),
          move-Does (suc k) s s s (worked _) idle popping [] (head s up) (
              move-Does k s (record s { job_queue = rest }) s (worked _) popping (popped job)
                (job ∷ []) (takes s jobs) h),
        )
  ]
]

-- A worker at the head of its loop, with nobody else in between, in a server in which the addresses of
-- the clients differ: after some steps of its own it has done what the round of `worker_round` does,
-- with the same server and the same effects. It is at the head again where the round has processed a
-- job, has ended where the round ends, and is in `q_pop` where the round waits.
pub run-worker_round :
    (i : ℕ) (s : System)
    → AddrsApart s.server.room.clients
    → s.pc i ≡ idle
    → (k : ℕ) × (m : Moved) × Does s.server (worker_round s.server) m
      × After i s m (run (turns k i) s)
run-worker_round i s apart at =
    let (k, h) = alone-Outcome s.server apart in
    (
      k,
      alone k s.server idle,
      h,
      subst (λ (p : Pc). After i s (alone k s.server p) (run (turns k i) s)) at (run-turns k i s),
    )
