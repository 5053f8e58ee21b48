-- ===== src/Router/Dv/Size.antt =====
-- `dv_update` never takes an entry out of the table.
use csci_4220_network_progra.Base.{
  ℕ, ◌≤◌, Option, none, some, [], ◌∷◌, ◌++◌, length, get_elem?, arith, length-append, length-set,
  Option-cases, inl, inr, Bool,
}
use csci_4220_network_progra.Net.{ByteOrder}
use csci_4220_network_progra.Router.Types.{Neighbor, RouteEntry, Router, DvEntry}
use csci_4220_network_progra.Router.Table.{fresh_route}
use csci_4220_network_progra.Router.Table.Add.{Added, old, new, full, rt_find_or_add-Added}
use csci_4220_network_progra.Router.Dv.{learned, write_back, apply_entry, dv_entry}

write_back-length :
    (q : Router) (i : ℕ) (changed : Bool) (w : Option RouteEntry)
    → length q.routes ≤ length (write_back q i changed w).0.routes
unfolding write_back
write_back-length q i changed none = omega arith
write_back-length q i changed (some e) = omega (arith, length-set q.routes i e)

module _ (now : ℕ) (nb : Neighbor) (c : ℕ) (changed : Bool) where
  found-length :
      (q : Router) (i : ℕ)
      → length q.routes ≤ length (apply_entry now nb c changed (some i, q)).0.routes
  unfolding apply_entry
  found-length q i = elim (Option-cases (get_elem? q.routes i)) [
    | inl gone ↦ rw (apply_entry, gone) (omega arith)
    | inr (e, at) ↦ rw (apply_entry, at) (write_back-length q i changed (learned now nb c e))
  ]

  apply_entry-length :
      (r : Router) (net mask : ℕ) {out : Option ℕ × Router}
      → Added now r net mask out
      → length r.routes ≤ length (apply_entry now nb c changed out).0.routes
  unfolding apply_entry
  apply_entry-length r net mask (old i h f) = found-length r i
  apply_entry-length r net mask (new absent small f) =
      let q = record r { routes = r.routes ++ fresh_route now net mask ∷ [] } in
      omega (
        arith,
        found-length q (length r.routes),
        length-append r.routes (fresh_route now net mask ∷ []),
      )
  apply_entry-length r net mask (full absent big) = omega arith

pub dv_entry-length :
    (host : ByteOrder) (now : ℕ) (nb : Neighbor) (e : DvEntry) (r : Router) (changed : Bool)
    → length r.routes ≤ length (dv_entry host now nb e (r, changed)).0.routes
unfolding dv_entry
dv_entry-length host now nb e r changed =
    apply_entry-length now nb (host.ntohs e.cost) changed r e.net e.mask
      (rt_find_or_add-Added now r e.net e.mask)
