-- ===== src/Router/Table/Add.antt =====
-- What `rt_find_or_add` promises: see the theorems.
use csci_4220_network_progra.Base.{
  ℕ, zero, suc, ◌≤◌, ◌<◌, ◌≡◌, refl, inl, inr, Option, none, some, List, [], ◌∷◌, ◌++◌, arith, leb,
  length, set, Bool-cases, Option-cases,
}
use csci_4220_network_progra.Router.Types.{RouteEntry, Router, max_dest}
use csci_4220_network_progra.Router.Table.{find_index, fresh_route, rt_find_or_add}
use csci_4220_network_progra.Router.Table.Keys.{
  route_at, Distinct, Holds, find_index-Holds, find_index-none, route_at-append, route_at-set,
}

-- The entry that a call works on: the one with the key, or a fresh one.
abbrev pub current : ℕ → Option RouteEntry → ℕ → ℕ → RouteEntry
current now none net mask = fresh_route now net mask
current now (some e) net mask = e

find_index-append :
    (es : List RouteEntry) (e : RouteEntry)
    → find_index es e.dest_net e.mask ≡ none
    → find_index (es ++ e ∷ []) e.dest_net e.mask ≡ some (length es)
unfolding find_index
find_index-append [] e h = ground arith
find_index-append (x ∷ es) e h = ground (arith, find_index-append es e)

pub Distinct-append :
    (es : List RouteEntry) (e : RouteEntry)
    → Distinct es
    → route_at es e.dest_net e.mask ≡ none
    → Distinct (es ++ e ∷ [])
unfolding route_at
Distinct-append [] e d h = (refl, tt)
Distinct-append (x ∷ es) e d h = (
  rw (route_at-append es e x.dest_net x.mask (ground arith)) (ground arith),
  Distinct-append es e d.1 (ground arith),
)

pub Distinct-set :
    (es : List RouteEntry) (net mask i : ℕ) (e : RouteEntry)
    → find_index es net mask ≡ some i
    → e.dest_net ≡ net
    → e.mask ≡ mask
    → Distinct es
    → Distinct (set es i e)
unfolding find_index route_at
Distinct-set [] net mask i e h p q d = tt
Distinct-set (x ∷ es) net mask zero e h p q d = ground arith
Distinct-set (x ∷ es) net mask (suc i) e h p q d = (
  rw (route_at-set es net mask i e x.dest_net x.mask (ground arith) p q) (ground arith),
  Distinct-set es net mask i e (ground arith) p q d.1,
)

-- The two outcomes of a call that returns an entry, and the one that returns NULL.
pub data Added (now : ℕ) (r : Router) (net mask : ℕ) : Option ℕ × Router → Type 0 where
  old :
      (i : ℕ)
      → Holds r.routes net mask i
      → find_index r.routes net mask ≡ some i
      → Added now r net mask (some i, r)
  new :
      route_at r.routes net mask ≡ none
      → length r.routes < max_dest
      → find_index (r.routes ++ fresh_route now net mask ∷ []) net mask ≡ some (length r.routes)
      → Added now r net mask
          (some (length r.routes), record r { routes = r.routes ++ fresh_route now net mask ∷ [] })
  full :
      route_at r.routes net mask ≡ none
      → max_dest ≤ length r.routes
      → Added now r net mask (none, r)

pub rt_find_or_add-Added :
    (now : ℕ) (r : Router) (net mask : ℕ) → Added now r net mask (rt_find_or_add now r net mask)
unfolding rt_find_or_add
rt_find_or_add-Added now r net mask = elim (Option-cases (find_index r.routes net mask)) [
  | inl e ↦ elim (Bool-cases (leb max_dest (length r.routes))) [
    | inl f ↦ rw (e, rt_find_or_add) (rw f (full (find_index-none _ net mask e) (ground arith)))
    | inr f ↦
        rw (e, rt_find_or_add)
          (rw f (
            new (find_index-none _ net mask e) (ground arith)
              (find_index-append r.routes (fresh_route now net mask) e)))
  ]
  | inr (i, e) ↦ rw (e, rt_find_or_add) (old i (find_index-Holds _ net mask i e) e)
]
