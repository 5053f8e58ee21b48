-- ===== src/Router/Dv/Table.antt =====
-- `dv_update` on the whole table, seen through its keys.
use csci_4220_network_progra.Base.{
  ℕ, zero, suc, ◌≤◌, ◌<◌, ◌≡◌, refl, ◌↔◌, Bool, true, false, ◌&&◌, Option, none, some, arith, ltb,
  ◌==◌, if◌then◌else◌, List, [], ◌∷◌, ◌++◌, length, All, All-append, All-set, length-append,
  length-set,
}
use csci_4220_network_progra.Net.{ByteOrder}
use csci_4220_network_progra.Router.Types.{
  Neighbor, RouteEntry, Router, DvEntry, DvMsg, inf_cost, max_dest,
}
use csci_4220_network_progra.Router.Table.{find_index, fresh_route}
use csci_4220_network_progra.Router.Table.Keys.{
  route_at, Distinct, Holds, find_index-Holds, route_at-append, route_at-set,
}
use csci_4220_network_progra.Router.Table.Add.{
  current, Added, old, new, full, rt_find_or_add-Added, Distinct-append, Distinct-set,
}
use csci_4220_network_progra.Router.Dv.{
  learned, write_back, apply_entry, dv_entry, dv_loop, dv_update,
}
use csci_4220_network_progra.Router.Dv.Relax.{settle, settled, learned-key, learned-cost-le}

-- No key stands twice, the array does not overflow, and no cost passes INF_COST.
pub record IsTable (es : List RouteEntry) : Type 0 where
  pub distinct : Distinct es
  pub small : length es ≤ max_dest
  pub costs : All (λ e. e.cost ≤ inf_cost) es

-- There is an entry with the key, or place for one.
abbrev pub has_room : List RouteEntry → ℕ → ℕ → Bool
has_room es net mask = elim (route_at es net mask) [
  | none ↦ ltb (length es) max_dest
  | some _ ↦ true
]

write_back-IsTable :
    (q : Router) (net mask i : ℕ) (changed : Bool) (w : Option RouteEntry)
    → find_index q.routes net mask ≡ some i
    → ((e : RouteEntry) → w ≡ some e → (e.dest_net ≡ net) × (e.mask ≡ mask) × (e.cost ≤ inf_cost))
    → IsTable q.routes
    → IsTable (write_back q i changed w).0.routes
unfolding write_back
write_back-IsTable q net mask i changed none f k t = t
write_back-IsTable q net mask i changed (some e) f k t = record {
  distinct = Distinct-set q.routes net mask i e f (k e refl).0 (k e refl).1 t.distinct;
  small = omega (arith, length-set q.routes i e, t.small);
  costs = All-set (λ x. x.cost ≤ inf_cost) q.routes i e t.costs (k e refl).2;
}

write_back-route_at :
    (q : Router) (net mask i : ℕ) (changed : Bool) (route : RouteEntry) (w : Option RouteEntry)
    (n m : ℕ)
    → find_index q.routes net mask ≡ some i
    → route_at q.routes net mask ≡ some route
    → ((e : RouteEntry) → w ≡ some e → (e.dest_net ≡ net) × (e.mask ≡ mask))
    → route_at (write_back q i changed w).0.routes n m
      ≡ (if net == n && mask == m then some (settle route w) else route_at q.routes n m)
unfolding write_back
write_back-route_at q net mask i changed route none n m f h k = ground arith
write_back-route_at q net mask i changed route (some e) n m f h k =
    ground (arith, route_at-set q.routes net mask i e n m f, k e)

module _ (now : ℕ) (nb : Neighbor) (c : ℕ) (changed : Bool) where
  apply_entry-found :
      (q : Router) (net mask i : ℕ) (h : Holds q.routes net mask i)
      → apply_entry now nb c changed (some i, q) ≡ write_back q i changed (learned now nb c h.entry)
  unfolding apply_entry
  apply_entry-found q net mask i h = rw (h.at, apply_entry)

  found-IsTable :
      (q : Router) (net mask i : ℕ) (h : Holds q.routes net mask i)
      → find_index q.routes net mask ≡ some i
      → IsTable q.routes
      → IsTable (apply_entry now nb c changed (some i, q)).0.routes
  found-IsTable q net mask i h f t = rw (apply_entry-found q net mask i h) (
      write_back-IsTable q net mask i changed (learned now nb c h.entry) f
        (λ e w. ground (
          arith,
          learned-key now nb c h.entry w,
          learned-cost-le now nb c h.entry w,
          h.net_eq,
          h.mask_eq,
        ))
        t)

  found-route_at :
      (q : Router) (net mask i : ℕ) (h : Holds q.routes net mask i)
      → find_index q.routes net mask ≡ some i
      → (n m : ℕ)
      → route_at (apply_entry now nb c changed (some i, q)).0.routes n m
        ≡ (if net == n && mask == m then some (settled now nb c h.entry) else route_at q.routes n m)
  unfolding settled
  found-route_at q net mask i h f n m = rw (apply_entry-found q net mask i h) (
      write_back-route_at q net mask i changed h.entry (learned now nb c h.entry) n m f h.found
        (λ e w. ground (arith, learned-key now nb c h.entry w, h.net_eq, h.mask_eq)))

  -- A table with the fresh entry.
  new-IsTable :
      (es : List RouteEntry) (net mask : ℕ)
      → route_at es net mask ≡ none
      → length es < max_dest
      → IsTable es
      → IsTable (es ++ fresh_route now net mask ∷ [])
  new-IsTable es net mask absent small t = record {
    distinct = Distinct-append es (fresh_route now net mask) t.distinct absent;
    small = omega (arith, length-append es (fresh_route now net mask ∷ []));
    costs =
        All-append (λ e. e.cost ≤ inf_cost) es (fresh_route now net mask ∷ []) t.costs
          (omega arith, tt);
  }

  new-route_at :
      (es : List RouteEntry) (net mask n m : ℕ) {i : ℕ}
      → (h : Holds (es ++ fresh_route now net mask ∷ []) net mask i) → route_at es net mask ≡ none
      → length es < max_dest
      → (if net == n && mask == m
          then some (settled now nb c h.entry)
          else route_at (es ++ fresh_route now net mask ∷ []) n m)
        ≡ (if has_room es net mask && (net == n && mask == m)
            then some (settled now nb c (current now (route_at es net mask) net mask))
            else route_at es n m)
  new-route_at es net mask n m h absent small = ground (
    arith,
    route_at-append es (fresh_route now net mask) n m absent,
    route_at-append es (fresh_route now net mask) net mask absent,
    h.found,
  )

  -- The table after a round, by the outcome of `rt_find_or_add`.
  apply_entry-IsTable :
      (r : Router) (net mask : ℕ) {out : Option ℕ × Router}
      → Added now r net mask out
      → IsTable r.routes
      → IsTable (apply_entry now nb c changed out).0.routes
  unfolding apply_entry
  apply_entry-IsTable r net mask (old i h f) t = found-IsTable r net mask i h f t
  apply_entry-IsTable r net mask (new absent small f) t =
      found-IsTable _ net mask _ (find_index-Holds _ net mask _ f) f
        (new-IsTable r.routes net mask absent small t)
  apply_entry-IsTable r net mask (full absent big) t = t

  apply_entry-route_at :
      (r : Router) (net mask : ℕ) {out : Option ℕ × Router}
      → Added now r net mask out
      → (n m : ℕ)
      → route_at (apply_entry now nb c changed out).0.routes n m ≡ (
          if has_room r.routes net mask && (net == n && mask == m)
          then some (settled now nb c (current now (route_at r.routes net mask) net mask))
          else route_at r.routes n m)
  unfolding apply_entry
  apply_entry-route_at r net mask (old i h f) n m =
      ground (arith, found-route_at r net mask i h f n m, h.found)
  apply_entry-route_at r net mask (new absent small f) n m =
      let q = record r { routes = r.routes ++ fresh_route now net mask ∷ [] } in
      rw (found-route_at q net mask _ (find_index-Holds _ net mask _ f) f n m)
        (new-route_at r.routes net mask n m (find_index-Holds _ net mask _ f) absent small)
  apply_entry-route_at r net mask (full absent big) n m = ground arith

module _ (host : ByteOrder) (now : ℕ) (nb : Neighbor) where
  -- One round keeps the table well formed.
  pub dv_entry-IsTable :
      (e : DvEntry) (r : Router) (changed : Bool)
      → IsTable r.routes
      → IsTable (dv_entry host now nb e (r, changed)).0.routes
  unfolding dv_entry
  dv_entry-IsTable e r changed t =
      apply_entry-IsTable now nb (host.ntohs e.cost) changed r e.net e.mask
        (rt_find_or_add-Added now r e.net e.mask) t

  -- One round of `dv_update`, on any table: if the network of the entry has a route, or there is
  -- place for one, its route becomes the settled one. Every other network keeps its route.
  pub dv_entry-route_at :
      (e : DvEntry) (r : Router) (changed : Bool) (n m : ℕ)
      → route_at (dv_entry host now nb e (r, changed)).0.routes n m ≡ (
          if has_room r.routes e.net e.mask && (e.net == n && e.mask == m)
          then some (
              settled now nb
                (host.ntohs e.cost)
                (current now (route_at r.routes e.net e.mask) e.net e.mask))
          else route_at r.routes n m)
  unfolding dv_entry
  dv_entry-route_at e r changed n m =
      apply_entry-route_at now nb (host.ntohs e.cost) changed r e.net e.mask
        (rt_find_or_add-Added now r e.net e.mask) n m

  dv_loop-IsTable :
      (k : ℕ) (es : List DvEntry) (r q : Router) (changed c : Bool)
      → IsTable r.routes
      → dv_loop host now nb k es (r, changed) ≡ some (q, c)
      → IsTable q.routes
  unfolding dv_loop
  dv_loop-IsTable zero es r q changed c t h = ground arith
  dv_loop-IsTable (suc k) [] r q changed c t h = cc
  dv_loop-IsTable (suc k) (e ∷ es) r q changed c t h =
      dv_loop-IsTable k es (dv_entry host now nb e (r, changed)).0 q _ c
        (dv_entry-IsTable e r changed t) h

  -- `dv_update` keeps the table well formed: no key twice, at most MAX_DEST entries, no cost over
  -- INF_COST.
  pub dv_update-IsTable :
      (r q : Router) (m : DvMsg) (c : Bool)
      → IsTable r.routes
      → dv_update host now nb r m ≡ some (q, c)
      → IsTable q.routes
  unfolding dv_update
  dv_update-IsTable r q m c t h = dv_loop-IsTable _ m.entries r q false c t h

  dv_loop-none_iff :
      (k : ℕ) (es : List DvEntry) (s : Router × Bool)
      → (dv_loop host now nb k es s ≡ none) ↔ (length es < k)
  unfolding dv_loop
  dv_loop-none_iff zero es s = (λ h. cc, λ h. absurd (omega arith))
  dv_loop-none_iff (suc k) [] s = (λ h. omega arith, λ h. refl)
  dv_loop-none_iff (suc k) (e ∷ es) s =
      let rest = dv_loop-none_iff k es (dv_entry host now nb e s) in
      (λ h. omega (arith, rest.0 h), λ h. rest.1 (omega arith))

  -- `dv_update` reads past the end of the array of the message exactly when the sender's count is
  -- greater than the size of the array: the count is not checked.
  pub dv_update-overrun :
      (r : Router) (m : DvMsg)
      → (dv_update host now nb r m ≡ none) ↔ (length m.entries < host.ntohs m.num)
  unfolding dv_update
  dv_update-overrun r m = dv_loop-none_iff _ m.entries (r, false)
