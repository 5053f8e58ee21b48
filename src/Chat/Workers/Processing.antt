-- ===== src/Chat/Workers/Processing.antt =====
-- What a worker that nothing disturbs does with a job that it has taken.
use csci_4220_network_progra.Base.{
  ℕ, suc, ◌≡◌, refl, sym, ap, ◌∙◌, true, false, ◌||◌, not, none, some, List, [], ◌++◌, ◌==◌, length,
  Bool-cases, Option-cases, inl, inr,
}
use mathlib.Core.List.{append-nil}
use csci_4220_network_progra.Chat.Queue.{Job}
use csci_4220_network_progra.Chat.Room.{Client, Effect, is_username_taken}
use csci_4220_network_progra.Chat.Process.{
  cut, is_valid, find_client, setup_username, process_line, process_message,
}
use csci_4220_network_progra.Chat.Serve.{find_addr}
use csci_4220_network_progra.Chat.Server.{Server, Bcast, pushes, others}
use csci_4220_network_progra.Chat.Server.Clients.{AddrsApart}
use csci_4220_network_progra.Chat.Workers.{
  Pc, idle, popped, found, naming, free, Moved, goes, done, read_sender, write_name, work,
}
use csci_4220_network_progra.Chat.Workers.Alone.{alone, find_client-find_addr}

-- The end of a round: the server, a worker at the head of its loop, what has gone out.
pub record Ends (m : Moved) (s : Server) (effects : List Effect) : Type 0 where
  pub server_eq : m.server ≡ s
  pub pc_eq : m.pc ≡ idle
  pub effects_eq : m.effects ≡ effects

goes-Ends :
    (k : ℕ) (s t : Server) (p q : Pc) (es : List Effect)
    → work s p ≡ goes s q
    → Ends (alone k s q) t es
    → Ends (alone (suc k) s p) t es
unfolding alone
goes-Ends k s t p q es e h =
    rw e (record { server_eq = h.server_eq; pc_eq = h.pc_eq; effects_eq = h.effects_eq })

done-Ends :
    (s t : Server) (p : Pc) (es : List Effect)
    → work s p ≡ done t es
    → Ends (alone 1 s p) (record t { bcast_queue = t.bcast_queue ++ pushes es }) (others es)
unfolding alone
done-Ends s t p es e =
    rw e (record { server_eq = refl; pc_eq = refl; effects_eq = append-nil (others es) })

-- What comes of the job that a worker has taken.
abbrev pub Processed : Server → Job → List Client × List Effect → Type 0
Processed s job (cs, es) =
    (k : ℕ) × Ends (alone k s (popped job))
      (record s {
        room = record (s.room) { clients = cs };
        bcast_queue = s.bcast_queue ++ pushes es;
      })
      (others es)

module _ (s : Server) (job : Job) where
  gone-Processed :
      find_client s.room.clients job.sender_fd ≡ none → Processed s job (s.room.clients, [])
  unfolding alone work pushes others
  gone-Processed gone = (
    1,
    rw (work, gone)
        (record {
          server_eq =
              ap (λ (bs : List Bcast). record s { bcast_queue = bs })
                (sym (append-nil s.bcast_queue));
          pc_eq = refl;
          effects_eq = refl;
        }),
  )

  module _ (c : Client) (e : find_client s.room.clients job.sender_fd ≡ some c)
      (at : find_addr s.room.clients c.addr ≡ some c) where
    look_up : work s (popped job) ≡ goes s (found c.addr job)
    unfolding work
    look_up = rw (work, e) refl

    read : work s (found c.addr job) ≡ read_sender s c job
    unfolding work
    read = rw (work, at) refl

    named-Processed :
        (length c.username == 0) ≡ false
        → Processed s job (s.room.clients, process_line s.room.clients c job.msg)
    unfolding read_sender
    named-Processed named = (
      2,
      goes-Ends 1 s _ (popped job) (found c.addr job) _ look_up (
          done-Ends s s (found c.addr job) (process_line s.room.clients c job.msg)
            (read ∙ rw (read_sender, named) refl)),
    )

    new-Processed :
        (length c.username == 0) ≡ true → Processed s job (setup_username s.room.clients c job.msg)
    unfolding read_sender setup_username work write_name
    new-Processed new =
        elim (Bool-cases (not (is_valid (cut 32 job.msg)) || length (cut 32 job.msg) == 0)) [
          | inl bad ↦
              rw (setup_username, bad)
                (
                  2,
                  goes-Ends 1 s _ (popped job) (found c.addr job) _ look_up
                      (done-Ends s s (found c.addr job) _ (read ∙ rw (read_sender, new, bad) refl)),
                )
          | inr good ↦
              let valid : work s (found c.addr job) ≡ goes s (naming c.addr (cut 32 job.msg)) =
                read ∙ rw (read_sender, new, good) refl in
              elim (Bool-cases (is_username_taken s.room.clients (cut 32 job.msg))) [
                | inl taken ↦
                    rw (setup_username, good, taken)
                      (
                        3,
                        goes-Ends 2 s _ (popped job) (found c.addr job) _ look_up (
                            goes-Ends 1 s _ (found c.addr job) (naming c.addr (cut 32 job.msg)) _
                              valid
                              (done-Ends s s (naming c.addr (cut 32 job.msg)) _
                                (rw (work, taken, at) refl))),
                      )
                | inr unused ↦
                    rw (setup_username, good, unused)
                      (
                        4,
                        goes-Ends 3 s _ (popped job) (found c.addr job) _ look_up (
                            goes-Ends 2 s _ (found c.addr job) (naming c.addr (cut 32 job.msg)) _
                              valid
                              (goes-Ends 1 s _ (naming c.addr (cut 32 job.msg))
                                (free c.addr (cut 32 job.msg)) _ (rw (work, unused) refl)
                                (done-Ends s _ (free c.addr (cut 32 job.msg)) _
                                  (rw (work, at) refl)))),
                      )
              ]
        ]

  pub popped-Processed :
      AddrsApart s.room.clients → Processed s job (process_message s.room.clients job)
  unfolding process_message
  popped-Processed apart = elim (Option-cases (find_client s.room.clients job.sender_fd)) [
    | inl gone ↦ rw (process_message, gone) (gone-Processed gone)
    | inr (c, e) ↦
        let at = find_client-find_addr s.room.clients job.sender_fd apart e in
        elim (Bool-cases (length c.username == 0)) [
          | inl new ↦ rw (process_message, e, new) (new-Processed c e at new)
          | inr named ↦ rw (process_message, e, named) (named-Processed c e at named)
        ]
  ]
