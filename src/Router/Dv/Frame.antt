-- ===== src/Router/Dv/Frame.antt =====
-- What `dv_update` leaves alone, and a rule for properties of every route.
use mathlib.Core.Option.{some-injective}
use csci_4220_network_progra.Base.{
  ◌++◌, length, ℕ, zero, suc, ◌≡◌, refl, Bool, Option, none, some, List, [], ◌∷◌, arith, get_elem?,
  All, All-append, All-set, All-get, Option-cases, inl, inr, false, subst,
}
use csci_4220_network_progra.Net.{ByteOrder}
use csci_4220_network_progra.Router.Types.{Neighbor, RouteEntry, Router, DvEntry, DvMsg}
use csci_4220_network_progra.Router.Table.{fresh_route}
use csci_4220_network_progra.Router.Table.Add.{Added, old, new, full, rt_find_or_add-Added}
use csci_4220_network_progra.Router.Dv.{
  learned, write_back, apply_entry, dv_entry, dv_loop, dv_update,
}

-- All of a router but its routes.
abbrev pub SameFrame : Router → Router → Type 0
SameFrame q r =
    (q.self_id ≡ r.self_id)
    × (q.self_ip ≡ r.self_ip)
    × (q.ctrl_port ≡ r.ctrl_port)
    × (q.neighbors ≡ r.neighbors)

module _ (now : ℕ) (nb : Neighbor) where
  write_back-frame :
      (q : Router) (i : ℕ) (changed : Bool) (w : Option RouteEntry)
      → SameFrame (write_back q i changed w).0 q
  unfolding write_back
  write_back-frame q i changed none = (refl, refl, refl, refl)
  write_back-frame q i changed (some e) = (refl, refl, refl, refl)

  found-frame :
      (c : ℕ) (changed : Bool) (q : Router) (i : ℕ)
      → SameFrame (apply_entry now nb c changed (some i, q)).0 q
  unfolding apply_entry
  found-frame c changed q i = elim (Option-cases (get_elem? q.routes i)) [
    | inl e ↦ rw (e, apply_entry) (refl, refl, refl, refl)
    | inr (route, e) ↦ rw (e, apply_entry) (write_back-frame q i changed (learned now nb c route))
  ]

  apply_entry-frame :
      (c : ℕ) (changed : Bool) (r : Router) (net mask : ℕ) {out : Option ℕ × Router}
      → Added now r net mask out
      → SameFrame (apply_entry now nb c changed out).0 r
  unfolding apply_entry
  apply_entry-frame c changed r net mask (old i h f) = found-frame c changed r i
  apply_entry-frame c changed r net mask (new absent small f) =
      found-frame c changed (record r { routes = r.routes ++ fresh_route now net mask ∷ [] })
        (length r.routes)
  apply_entry-frame c changed r net mask (full absent big) = (refl, refl, refl, refl)

  -- A property that a fresh entry has and every write keeps.
  pub record Kept {κ} (P : RouteEntry → Type κ) : Type κ where
    pub fresh : (net mask : ℕ) → P (fresh_route now net mask)
    pub written : (c : ℕ) (route e : RouteEntry) → P route → learned now nb c route ≡ some e → P e

  module _ {κ} (P : RouteEntry → Type κ) (kept : Kept P) where
    write_back-All :
        (c : ℕ) (q : Router) (i : ℕ) (changed : Bool) (route : RouteEntry) (w : Option RouteEntry)
        → learned now nb c route ≡ w
        → P route
        → All P q.routes
        → All P (write_back q i changed w).0.routes
    unfolding write_back
    write_back-All c q i changed route none e p h = h
    write_back-All c q i changed route (some x) e p h =
        All-set P q.routes i x h (kept.written c route x p e)

    found-All :
        (c : ℕ) (changed : Bool) (q : Router) (i : ℕ)
        → All P q.routes
        → All P (apply_entry now nb c changed (some i, q)).0.routes
    unfolding apply_entry
    found-All c changed q i h = elim (Option-cases (get_elem? q.routes i)) [
      | inl e ↦ rw (e, apply_entry) h
      | inr (route, e) ↦
          rw (e, apply_entry)
            (write_back-All c q i changed route (learned now nb c route) refl
              (All-get P q.routes i h e) h)
    ]

    apply_entry-All :
        (c : ℕ) (changed : Bool) (r : Router) (net mask : ℕ) {out : Option ℕ × Router}
        → Added now r net mask out
        → All P r.routes
        → All P (apply_entry now nb c changed out).0.routes
    unfolding apply_entry
    apply_entry-All c changed r net mask (old i x f) h = found-All c changed r i h
    apply_entry-All c changed r net mask (new absent small f) h =
        found-All c changed (record r { routes = r.routes ++ fresh_route now net mask ∷ [] })
          (length r.routes) (All-append P r.routes _ h (kept.fresh net mask, tt))
    apply_entry-All c changed r net mask (full absent big) h = h

module _ (host : ByteOrder) (now : ℕ) (nb : Neighbor) where
  dv_loop-frame :
      (k : ℕ) (es : List DvEntry) (s q : Router × Bool)
      → dv_loop host now nb k es s ≡ some q
      → SameFrame q.0 s.0
  unfolding dv_loop dv_entry
  dv_loop-frame zero es s q h = ground arith
  dv_loop-frame (suc k) [] s q h = cc
  dv_loop-frame (suc k) (e ∷ es) (r, c) q h = ground (
    arith,
    dv_loop-frame k es (dv_entry host now nb e (r, c)) q h,
    apply_entry-frame now nb (host.ntohs e.cost) c r e.net e.mask
        (rt_find_or_add-Added now r e.net e.mask),
  )

  dv_loop-All {κ} :
      (P : RouteEntry → Type κ)
      → Kept now nb P
      → (k : ℕ) (es : List DvEntry) (s q : Router × Bool) → dv_loop host now nb k es s ≡ some q
      → All P s.0.routes
      → All P q.0.routes
  unfolding dv_loop dv_entry
  dv_loop-All P kept zero es s q h a =
      subst (λ (x : Router × Bool). All P x.0.routes) (some-injective s q h) a
  dv_loop-All P kept (suc k) [] s q h a = cc
  dv_loop-All P kept (suc k) (e ∷ es) (r, c) q h a =
      dv_loop-All P kept k es (dv_entry host now nb e (r, c)) q h (
        apply_entry-All now nb P kept (host.ntohs e.cost) c r e.net e.mask
          (rt_find_or_add-Added now r e.net e.mask) a)

  -- `dv_update` changes nothing of the router but its routes.
  pub dv_update-frame :
      (r : Router) (m : DvMsg) (q : Router × Bool)
      → dv_update host now nb r m ≡ some q
      → SameFrame q.0 r
  unfolding dv_update
  dv_update-frame r m q h = dv_loop-frame _ m.entries (r, false) q h

  pub dv_update-All {κ} :
      (P : RouteEntry → Type κ)
      → Kept now nb P
      → (r : Router) (m : DvMsg) (q : Router × Bool) → dv_update host now nb r m ≡ some q
      → All P r.routes
      → All P q.0.routes
  unfolding dv_update
  dv_update-All P kept r m q h a = dv_loop-All P kept _ m.entries (r, false) q h a
