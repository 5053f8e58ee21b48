-- ===== src/Chat/Server/Close.antt =====
-- The end of the workers.
use csci_4220_network_progra.Base.{
  suc, ◌≡◌, refl, true, false, some, List, [], ◌∷◌, ◌++◌, length, Bool-cases, inl, inr, ◌⊎◌,
}
use csci_4220_network_progra.Chat.Queue.{Job}
use csci_4220_network_progra.Chat.Process.{process_message}
use csci_4220_network_progra.Chat.Server.{
  Server, worked, worker_round, worker_thread, pushes, others,
}

-- The server when a worker has processed the job.
abbrev after : Server → Job → List Job → Server
after s job jobs =
    let (clients, effects) = process_message s.room.clients job in
    record s {
      room = record (s.room) { clients = clients };
      job_queue = jobs;
      bcast_queue = s.bcast_queue ++ pushes effects;
    }

worker_round-next :
    (s : Server) (job : Job) (jobs : List Job)
    → s.shutdown_flag ≡ false
    → s.job_queue ≡ job ∷ jobs
    → worker_round s
      ≡ worked (record {
        server = after s job jobs;
        effects = others (process_message s.room.clients job).1;
      })
unfolding worker_round
worker_round-next s job jobs up waiting = simp (worker_round, up, waiting)

-- When the queues are closed a worker that nothing disturbs ends: at once when the shutdown flag is
-- set, and otherwise when it has processed every job that was waiting. It never waits again.
pub worker_thread-ends :
    (s : Server) (jobs : List Job)
    → s.queues_closed ≡ true
    → s.job_queue ≡ jobs
    → (t : Server) × (worker_thread (suc (length jobs)) s ≡ some t)
      × (((s.shutdown_flag ≡ true) × (t ≡ s)) ⊎ ((s.shutdown_flag ≡ false) × (t.job_queue ≡ [])))
unfolding worker_thread worker_round
worker_thread-ends s [] shut waiting = elim (Bool-cases s.shutdown_flag) [
  | inl down ↦ (s, simp (worker_thread, worker_round, down), inl (down, refl))
  | inr up ↦ (s, simp (worker_thread, worker_round, up, waiting, shut), inr (up, waiting))
]
worker_thread-ends s (job ∷ jobs) shut waiting = elim (Bool-cases s.shutdown_flag) [
  | inl down ↦ (s, simp (worker_thread, worker_round, down), inl (down, refl))
  | inr up ↦
      let (t, e, end) = worker_thread-ends (after s job jobs) jobs shut refl in
      (
        t,
        rw (worker_thread, worker_round-next s job jobs up waiting, e) refl,
        inr (up, drained t end up),
      )
]
  where
    drained :
        {next : Server} (t : Server)
        → (((next.shutdown_flag ≡ true) × (t ≡ next))
            ⊎ ((next.shutdown_flag ≡ false) × (t.job_queue ≡ [])))
        → next.shutdown_flag ≡ false
        → t.job_queue ≡ []
    drained t (inl (down, same)) up = cc
    drained t (inr (up', done)) up = done
