-- ===== src/Chat/Workers/Ends.antt =====
-- The end of the workers, whatever the order of their steps.
use csci_4220_network_progra.Base.{
  ℕ, suc, ◌≡◌, ◌≢◌, ◌≤◌, ◌+◌, ◌*◌, refl, sym, ap, ◌∙◌, true, false, List, [], ◌∷◌, ◌==◌, ==_iff,
  if◌then◌else◌, length, length-append, arith, All, Bool-cases, inl, inr, ◌⊎◌, subst,
}
use csci_4220_network_progra.Chat.Queue.{Job}
use csci_4220_network_progra.Chat.Server.{Server, Bcast, admit, handle_signal, shut_down}
use csci_4220_network_progra.Chat.Workers.{
  Pc, idle, popping, popped, found, naming, free, ended, faulted, work, Main, looping, left,
  overrun, System, worker_step, Act, arrives, receives, drains, signalled, breaks, leaves, drain,
  main_step, Turn, worker, main, step, run,
}
use csci_4220_network_progra.Chat.Workers.Fifo.{work-Takes}
use csci_4220_network_progra.Chat.Workers.Measure.{weight, measure, work-Progress}

-- What everybody else's steps keep.
record Calm (i : ℕ) (s t : System) : Type 0 where
  pc_eq : t.pc i ≡ s.pc i
  fewer : length t.server.job_queue ≤ length s.server.job_queue
  closed : s.server.queues_closed ≡ true → t.server.queues_closed ≡ true

refl-Calm : (i : ℕ) (s : System) → Calm i s s
refl-Calm i s = record { pc_eq = refl; fewer = omega arith; closed = λ h. h }

-- `main` serves no client any more.
abbrev pub Quiet : Turn → Type 0
Quiet (worker i) = Unit
Quiet (main (receives addr received)) = ⊥
Quiet (main _) = Unit

drain-Calm : (i : ℕ) (s : System) (bs : List Bcast) → Calm i s (drain s bs)
unfolding drain
drain-Calm i s [] = refl-Calm i s
drain-Calm i s (b ∷ bs) = record { pc_eq = refl; fewer = omega arith; closed = λ h. h }

main_step-leaves : (s : System) → s.server.shutdown_flag ≡ false → main_step s leaves ≡ s
unfolding main_step
main_step-leaves s up = simp (main_step, up)

main_step-Calm : (i : ℕ) (s : System) (a : Act) → Quiet (main a) → Calm i s (main_step s a)
unfolding main_step admit handle_signal shut_down
main_step-Calm i s (arrives a) q = record { pc_eq = refl; fewer = omega arith; closed = λ h. h }
main_step-Calm i s (receives addr received) q = absurd q
main_step-Calm i s drains q = drain-Calm i s s.server.bcast_queue
main_step-Calm i s signalled q = record { pc_eq = refl; fewer = omega arith; closed = λ h. refl }
main_step-Calm i s breaks q = record { pc_eq = refl; fewer = omega arith; closed = λ h. refl }
main_step-Calm i s leaves q = elim (Bool-cases s.server.shutdown_flag) [
  | inl down ↦ rw down (record { pc_eq = refl; fewer = omega arith; closed = λ h. refl })
  | inr up ↦ subst (Calm i s) (sym (main_step-leaves s up)) (refl-Calm i s)
]

main-Calm : (i : ℕ) (s : System) (a : Act) → Quiet (main a) → Calm i s (step s (main a))
unfolding step
main-Calm i s a q = by_main s.main
  where
    by_main : (m : Main) → Calm i s (elim m [ looping ↦ main_step s a | left ↦ s | overrun ↦ s ])
    by_main looping = main_step-Calm i s a q
    by_main left = refl-Calm i s
    by_main overrun = refl-Calm i s

fewer_jobs : (s : Server) (p : Pc) → length (work s p).server.job_queue ≤ length s.job_queue
fewer_jobs s p =
    let m = work s p in
    let same =
      ap (λ (js : List Job). length js) (work-Takes s p)
      ∙ length-append m.took m.server.job_queue in
    omega arith

worker-Calm : (i j : ℕ) (s : System) → j ≢ i → Calm i s (step s (worker j))
unfolding step worker_step
worker-Calm i j s ne = record {
  pc_eq = ground arith;
  fewer = fewer_jobs s.server (s.pc j);
  closed = λ h. (work-Progress s.server (s.pc j)).closed_eq ∙ h;
}

own_step : (i : ℕ) (s : System) → (step s (worker i)).pc i ≡ (work s.server (s.pc i)).pc
unfolding step worker_step
own_step i s = ground arith

-- How often a worker moves.
unfoldable pub moves : ℕ → List Turn → ℕ
moves i [] = 0
moves i (worker j ∷ ts) = let rest = moves i ts in if j == i then suc rest else rest
moves i (main a ∷ ts) = moves i ts

-- A worker is over, or has enough moves before it.
abbrev Spent : Server → Pc → ℕ → Type 0
Spent s p k = (weight p ≡ 0) ⊎ (measure s p ≤ k)

Calm-Spent :
    (i k : ℕ) (s t : System) → Calm i s t → Spent s.server (s.pc i) k → Spent t.server (t.pc i) k
unfolding measure
Calm-Spent i k s t c (inl z) = inl (ap weight c.pc_eq ∙ z)
Calm-Spent i k s t c (inr h) =
    let same = ap weight c.pc_eq in let fewer = c.fewer in inr (omega arith)

work-Spent :
    (s : Server) (p : Pc) (k : ℕ)
    → s.queues_closed ≡ true
    → Spent s p (suc k)
    → Spent (work s p).server (work s p).pc k
work-Spent s p k shut (inl z) = inl ((work-Progress s p).over z)
work-Spent s p k shut (inr h) = elim (Bool-cases (weight p == 0)) [
  | inl z ↦ inl ((work-Progress s p).over ((==_iff (weight p) 0).0 z))
  | inr pos ↦ let less = (work-Progress s p).lowers (ground arith) shut in inr (omega arith)
]

own-Spent :
    (i k : ℕ) (s : System)
    → s.server.queues_closed ≡ true
    → Spent s.server (s.pc i) (suc k)
    → Spent (step s (worker i)).server ((step s (worker i)).pc i) k
unfolding step worker_step
own-Spent i k s shut h =
    subst (λ (p : Pc). Spent (work s.server (s.pc i)).server p k) (sym (own_step i s))
      (work-Spent s.server (s.pc i) k shut h)

own-closed :
    (i : ℕ) (s : System)
    → s.server.queues_closed ≡ true
    → (step s (worker i)).server.queues_closed ≡ true
unfolding step worker_step
own-closed i s h = (work-Progress s.server (s.pc i)).closed_eq ∙ h

run-Spent :
    (i : ℕ) (ts : List Turn) (s : System)
    → s.server.queues_closed ≡ true
    → All Quiet ts
    → Spent s.server (s.pc i) (moves i ts)
    → weight ((run ts s).pc i) ≡ 0
unfolding run moves measure
run-Spent i [] s shut q (inl z) = z
run-Spent i [] s shut q (inr h) = omega arith
run-Spent i (main a ∷ ts) s shut q h =
    let c = main-Calm i s a q.0 in
    run-Spent i ts (step s (main a)) (c.closed shut) q.1
      (Calm-Spent i (moves i ts) s (step s (main a)) c h)
run-Spent i (worker j ∷ ts) s shut q h = elim (Bool-cases (j == i)) [
  | inl own ↦
      let mine = (==_iff j i).0 own in
      let k : Spent s.server (s.pc i) (suc (moves i ts)) = (rw own at h) in
      subst (λ (n : ℕ). weight ((run ts (step s (worker n))).pc i) ≡ 0) (sym mine)
        (run-Spent i ts (step s (worker i)) (own-closed i s shut) q.1
          (own-Spent i (moves i ts) s shut k))
  | inr other ↦
      let ne : j ≢ i = ground arith in
      let c = worker-Calm i j s ne in
      run-Spent i ts (step s (worker j)) (c.closed shut) q.1
        (Calm-Spent i (moves i ts) s (step s (worker j)) c (rw other at h))
]

-- The worker has left its loop, or has touched freed memory.
abbrev pub Over : Pc → Type 0
Over p = (p ≡ ended) ⊎ (p ≡ faulted)

weight-Over : (p : Pc) → weight p ≡ 0 → Over p
unfolding weight
weight-Over idle z = absurd (omega arith)
weight-Over popping z = absurd (omega arith)
weight-Over (popped job) z = absurd (omega arith)
weight-Over (found sender job) z = absurd (omega arith)
weight-Over (naming sender username) z = absurd (omega arith)
weight-Over (free sender username) z = absurd (omega arith)
weight-Over ended z = inl refl
weight-Over faulted z = inr refl

weight_bound : (p : Pc) → weight p ≤ 6
unfolding weight
weight_bound idle = omega arith
weight_bound popping = omega arith
weight_bound (popped job) = omega arith
weight_bound (found sender job) = omega arith
weight_bound (naming sender username) = omega arith
weight_bound (free sender username) = omega arith
weight_bound ended = omega arith
weight_bound faulted = omega arith

-- When the queues are closed and `main` serves no client any more, every worker comes to its end,
-- however the steps of the workers and of `main` are ordered: a worker that is given six steps for
-- each job that waits, and six more, has left its loop by then, or has touched freed memory.
pub run-Over :
    (i : ℕ) (s : System) (ts : List Turn)
    → s.server.queues_closed ≡ true
    → All Quiet ts
    → 6 + 6 * length s.server.job_queue ≤ moves i ts
    → Over ((run ts s).pc i)
unfolding measure
run-Over i s ts shut q enough =
    let bound = weight_bound (s.pc i) in
    weight-Over ((run ts s).pc i) (run-Spent i ts s shut q (inr (omega arith)))
