-- ===== src/Router/Loop/Alive.antt =====
-- No route of finite cost goes through a dead neighbor.
use csci_4220_network_progra.Base.{
  ℕ, zero, suc, ◌+◌, ◌<◌, ◌≡◌, ◌≢◌, refl, Bool, true, false, ◌&&◌, Option, none, some, List, [],
  ◌∷◌, ltb, ◌==◌, get_elem?, set, All, All-set, All-get, All-imp, All-map, arith, Option-cases,
  Bool-cases, inl, inr,
}
use csci_4220_network_progra.Net.{ByteOrder}
use csci_4220_network_progra.Router.Types.{DvMsg, Neighbor, RouteEntry, Router, inf_cost, msg_dv}
use csci_4220_network_progra.Router.Dv.{dv_update}
use csci_4220_network_progra.Router.Dv.Relax.{learned_cases}
use csci_4220_network_progra.Router.Dv.Frame.{Kept, dv_update-frame, dv_update-All}
use csci_4220_network_progra.Router.Loop.{
  Datagram, Event, poison_route, find_port, overdue, bury, check_neighbor, check_loop, hear,
  on_control,
}

-- Every neighbor with the address is alive.
abbrev pub LiveAt : ℕ → List Neighbor → Type 0
LiveAt ip nbs = All (λ nb. nb.ip ≡ ip → nb.alive ≡ true) nbs

-- No address stands twice among the neighbors.
abbrev pub UniqueIps : List Neighbor → Type 0
UniqueIps [] = Unit
UniqueIps (nb ∷ nbs) = All (λ x. x.ip ≢ nb.ip) nbs × UniqueIps nbs

-- A route of finite cost leads over living neighbors, or has the cost 0 of a connected network.
abbrev pub IsUsable : List Neighbor → RouteEntry → Type 0
IsUsable nbs e = e.cost < inf_cost → LiveAt e.next_hop nbs × (e.next_hop ≡ 0 → e.cost ≡ 0)

-- The configuration gives the neighbors distinct addresses, none of them 0.0.0.0.
pub record IsAlive (r : Router) : Type 0 where
  pub unique : UniqueIps r.neighbors
  pub nonzero : All (λ nb. nb.ip ≢ 0) r.neighbors
  pub usable : All (IsUsable r.neighbors) r.routes

module _ (v : Neighbor) where
  UniqueIps-set :
      (nbs : List Neighbor) (i : ℕ) {nb : Neighbor}
      → get_elem? nbs i ≡ some nb
      → v.ip ≡ nb.ip
      → UniqueIps nbs
      → UniqueIps (set nbs i v)
  UniqueIps-set [] i at same u = cc
  UniqueIps-set (x ∷ nbs) zero {nb} at same u =
      let here : v.ip ≡ x.ip = ground arith in (rw here u.0, u.1)
  UniqueIps-set (x ∷ nbs) (suc i) at same u = (
    All-set (λ y. y.ip ≢ x.ip) nbs i v u.0 (rw same (All-get (λ y. y.ip ≢ x.ip) nbs i u.0 at)),
    UniqueIps-set nbs i at same u.1,
  )

  -- The one neighbor with its address is alive, so all are.
  LiveAt-set_self :
      (nbs : List Neighbor) (i : ℕ) {nb : Neighbor}
      → get_elem? nbs i ≡ some nb
      → v.ip ≡ nb.ip
      → v.alive ≡ true
      → UniqueIps nbs
      → LiveAt v.ip (set nbs i v)
  LiveAt-set_self [] i at same live u = cc
  LiveAt-set_self (x ∷ nbs) zero at same live u =
      let here : x.ip ≡ v.ip = ground arith in
      ((λ _. live), All-imp nbs (λ y ne e. absurd (ne (rw here e))) u.0)
  LiveAt-set_self (x ∷ nbs) (suc i) at same live u =
      let apart = All-get (λ y. y.ip ≢ x.ip) nbs i u.0 at in
      ((λ e. absurd (apart (ground arith))), LiveAt-set_self nbs i at same live u.1)

poison_route-IsUsable :
    (v : Neighbor) (nbs : List Neighbor) (i : ℕ) (e : RouteEntry)
    → IsUsable nbs e
    → IsUsable (set nbs i v) (poison_route v.ip e)
unfolding poison_route
poison_route-IsUsable v nbs i e h = elim (Bool-cases (e.next_hop == v.ip && ltb e.cost inf_cost)) [
  | inl hit ↦ rw hit (λ small. absurd (omega arith))
  | inr miss ↦ rw miss λ small. (
    All-set (λ nb. nb.ip ≡ e.next_hop → nb.alive ≡ true) nbs i v (h small).0
        (λ same. absurd (ground (arith, miss))),
    (h small).1,
  )
]

bury-IsAlive :
    (r : Router) (i : ℕ) (nb : Neighbor)
    → get_elem? r.neighbors i ≡ some nb
    → IsAlive r
    → IsAlive (bury r i nb)
bury-IsAlive r i nb at a =
    let v = record nb { alive = false } in
    record {
      unique = UniqueIps-set v r.neighbors i at refl a.unique;
      nonzero =
          All-set (λ x. x.ip ≢ 0) r.neighbors i v a.nonzero
            (All-get (λ x. x.ip ≢ 0) r.neighbors i a.nonzero at);
      usable =
          All-map (IsUsable (set r.neighbors i v)) (poison_route nb.ip) r.routes
            (All-imp r.routes (poison_route-IsUsable v r.neighbors i) a.usable);
    }

-- The sender of a vector is alive.
revive-IsAlive :
    (r : Router) (i : ℕ) (nb v : Neighbor)
    → get_elem? r.neighbors i ≡ some nb
    → v.ip ≡ nb.ip
    → v.alive ≡ true
    → IsAlive r
    → IsAlive (record r { neighbors = set r.neighbors i v })
revive-IsAlive r i nb v at same live a = record {
  unique = UniqueIps-set v r.neighbors i at same a.unique;
  nonzero =
      All-set (λ x. x.ip ≢ 0) r.neighbors i v a.nonzero
        (rw same (All-get (λ x. x.ip ≢ 0) r.neighbors i a.nonzero at));
  usable =
      All-imp r.routes
        (λ e h small. (
          All-set (λ x. x.ip ≡ e.next_hop → x.alive ≡ true) r.neighbors i v (h small).0 (λ _. live),
          (h small).1,
        ))
        a.usable;
}

learned-IsUsable :
    (now : ℕ) (v : Neighbor) (nbs : List Neighbor)
    → LiveAt v.ip nbs
    → v.ip ≢ 0
    → Kept now v (IsUsable nbs)
learned-IsUsable now v nbs live nz = record {
  fresh = λ net mask small. absurd (omega arith);
  written = λ c route e h w small. elim (learned_cases now v c route w) [
    | inl lost ↦ absurd (omega arith)
    | inr via ↦ (rw via live, λ zero_hop. absurd (nz (ground arith)))
  ];
}

-- What holds of the router that a step leaves, if it leaves one.
abbrev pub AliveOut : Option (Router × List Event) → Type 0
AliveOut none = Unit
AliveOut (some out) = IsAlive out.0

module _ (host : ByteOrder) (now : ℕ) where
  check_neighbor-IsAlive :
      (i : ℕ) (r : Router) → IsAlive r → IsAlive (check_neighbor host now i r).0
  unfolding check_neighbor
  check_neighbor-IsAlive i r a = elim (Option-cases (get_elem? r.neighbors i)) [
    | inl e ↦ rw (e, check_neighbor) a
    | inr (nb, e) ↦ elim (Bool-cases (overdue now nb)) [
      | inl late ↦ rw (e, check_neighbor) (rw late (bury-IsAlive r i nb e a))
      | inr fine ↦ rw (e, check_neighbor) (rw fine a)
    ]
  ]

  pub check_loop-IsAlive :
      (left i : ℕ) (r : Router) → IsAlive r → IsAlive (check_loop host now left i r).0
  unfolding check_loop
  check_loop-IsAlive zero i r a = a
  check_loop-IsAlive (suc left) i r a =
      check_loop-IsAlive left (i + 1) (check_neighbor host now i r).0 (check_neighbor-IsAlive i r a)

  dv_update-IsAlive :
      (v : Neighbor) (r : Router) (m : DvMsg) (q : Router × Bool)
      → dv_update host now v r m ≡ some q
      → LiveAt v.ip r.neighbors
      → v.ip ≢ 0
      → IsAlive r
      → IsAlive q.0
  dv_update-IsAlive v r m q run live nz a =
      let same = (dv_update-frame host now v r m q run).3 in
      let kept = learned-IsUsable now v r.neighbors live nz in
      record {
        unique = rw same a.unique;
        nonzero = rw same a.nonzero;
        usable = rw same (dv_update-All host now v (IsUsable r.neighbors) kept r m q run a.usable);
      }

  hear-IsAlive : (r : Router) (i : ℕ) (m : DvMsg) → IsAlive r → AliveOut (hear host now r i m)
  unfolding hear
  hear-IsAlive r i m a = elim (Option-cases (get_elem? r.neighbors i)) [
    | inl e ↦ rw (e, hear) a
    | inr (nb, e) ↦
        let v = record nb { last_heard = now; alive = true } in
        let r1 = record r { neighbors = set r.neighbors i v } in
        elim (Option-cases (dv_update host now v r1 m)) [
          | inl u ↦ rw (e, hear) (rw u tt)
          | inr (q, u) ↦
              rw (e, hear)
                (rw u (
                  dv_update-IsAlive v r1 m q u
                    (LiveAt-set_self v r.neighbors i e refl refl a.unique)
                    (All-get (λ x. x.ip ≢ 0) r.neighbors i a.nonzero e)
                    (revive-IsAlive r i nb v e refl refl a)))
        ]
  ]

  pub on_control-IsAlive :
      (r : Router) (d : Datagram DvMsg) → IsAlive r → AliveOut (on_control host now r d)
  unfolding on_control
  on_control-IsAlive r d a = elim (Bool-cases (ltb 0 d.rcvd && d.msg.type == msg_dv)) [
    | inl ready ↦ elim (Option-cases (find_port r.neighbors d.from_port)) [
      | inl e ↦ rw (ready, on_control) (rw e a)
      | inr (i, e) ↦ rw (ready, on_control) (rw e (hear-IsAlive r i d.msg a))
    ]
    | inr other ↦ rw (other, on_control) a
  ]
