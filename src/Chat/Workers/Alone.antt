-- ===== src/Chat/Workers/Alone.antt =====
-- A worker that takes several steps in a row.
use csci_4220_network_progra.Base.{
  ℕ, zero, suc, ◌≡◌, ◌≢◌, refl, sym, ap, ◌∙◌, some, List, [], ◌∷◌, ◌++◌, ◌==◌, ==_iff, arith, All,
  Bool-cases, inl, inr,
}
use mathlib.Core.List.{append_assoc, append-nil}
use mathlib.Core.Option.{some-injective}
use csci_4220_network_progra.Chat.Room.{Client}
use csci_4220_network_progra.Chat.Process.{find_client}
use csci_4220_network_progra.Chat.Serve.{find_addr}
use csci_4220_network_progra.Chat.Server.{Server}
use csci_4220_network_progra.Chat.Server.Clients.{AddrsApart}
use csci_4220_network_progra.Chat.Workers.{
  Pc, Moved, goes, work, System, update, worker_step, Turn, worker, step, run,
}

-- So many steps of a worker that nothing disturbs.
unfoldable pub alone : ℕ → Server → Pc → Moved
alone zero s p = goes s p
alone (suc k) s p =
    let m = work s p in
    let r = alone k m.server m.pc in
    record r { took = m.took ++ r.took; effects = m.effects ++ r.effects }

abbrev pub turns : ℕ → ℕ → List Turn
turns zero i = []
turns (suc k) i = worker i ∷ turns k i

-- What the system is after the steps of worker `i`.
pub record After (i : ℕ) (s : System) (m : Moved) (t : System) : Type 0 where
  pub server_eq : t.server ≡ m.server
  pub pc_eq : t.pc i ≡ m.pc
  pub other_eq : (j : ℕ) → j ≢ i → t.pc j ≡ s.pc j
  pub out_eq : t.out ≡ s.out ++ m.effects

pub update_self : (pc : ℕ → Pc) (i : ℕ) (p : Pc) → update pc i p i ≡ p
update_self pc i p = ground arith

update_other : (pc : ℕ → Pc) (i j : ℕ) (p : Pc) → j ≢ i → update pc i p j ≡ pc j
update_other pc i j p ne = ground arith

pub run-turns : (k i : ℕ) (s : System) → After i s (alone k s.server (s.pc i)) (run (turns k i) s)
unfolding run step worker_step alone
run-turns zero i s = record {
  server_eq = refl;
  pc_eq = refl;
  other_eq = λ j ne. refl;
  out_eq = sym (append-nil s.out);
}
run-turns (suc k) i s =
    let m = work s.server (s.pc i) in
    let s1 = worker_step i s in
    let r = (rw (update_self s.pc i m.pc) at (run-turns k i s1)) in
    record {
      server_eq = r.server_eq;
      pc_eq = r.pc_eq;
      other_eq = λ j ne. r.other_eq j ne ∙ update_other s.pc i j m.pc ne;
      out_eq = r.out_eq ∙ append_assoc s.out m.effects _;
    }

pub find_addr-addr : (cs : List Client) (a : ℕ) {c : Client} → find_addr cs a ≡ some c → c.addr ≡ a
unfolding find_addr
find_addr-addr [] a h = cc
find_addr-addr (d ∷ cs) a {c} h = elim (Bool-cases (d.addr == a)) [
  | inl hit ↦
      ap (λ (x : Client). x.addr) (sym (some-injective d c (rw hit at h))) ∙ (==_iff d.addr a).0 hit
  | inr miss ↦ find_addr-addr cs a (rw miss at h)
]

find_addr-ne :
    (cs : List Client) (a d : ℕ) {c : Client}
    → All (λ e. e.addr ≢ d) cs
    → find_addr cs a ≡ some c
    → a ≢ d
unfolding find_addr
find_addr-ne [] a d apart h = cc
find_addr-ne (e ∷ cs) a d apart h = elim (Bool-cases (e.addr == a)) [
  | inl hit ↦ rw (← (==_iff e.addr a).0 hit) apart.0
  | inr miss ↦ find_addr-ne cs a d apart.1 (rw miss at h)
]

-- Where the addresses differ, the pointer to a client leads to the client.
pub find_client-find_addr :
    (cs : List Client) (fd : ℕ) {c : Client}
    → AddrsApart cs
    → find_client cs fd ≡ some c
    → find_addr cs c.addr ≡ some c
unfolding find_client find_addr
find_client-find_addr [] fd apart h = cc
find_client-find_addr (d ∷ cs) fd {c} apart h = elim (Bool-cases (d.fd == fd)) [
  | inl hit ↦ let same = some-injective d c (rw hit at h) in rw (← same) (ground arith)
  | inr miss ↦
      let there = find_client-find_addr cs fd apart.1 (rw miss at h) in
      let behind = find_addr-ne cs c.addr d.addr apart.0 there in ground (arith, there, behind)
]
