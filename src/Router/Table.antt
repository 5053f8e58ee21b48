-- ===== src/Router/Table.antt =====
-- hw3/starter/common.h: the routing table, `rt_find_or_add` and `rt_lookup`.
pub mod Keys
pub mod Add
pub mod Longest
use mathlib.Core.Option
use csci_4220_network_progra.Base.{
  ℕ, suc, ◌≡◌, Bool, true, false, ◌&&◌, Option, none, some, List, [], ◌∷◌, ◌++◌, bit_and, ltb, leb,
  ◌==◌, if◌then◌else◌, length,
}
use csci_4220_network_progra.Net.{ByteOrder}
use csci_4220_network_progra.Router.Types.{RouteEntry, Router, max_dest, inf_cost}

-- An entry is found by its network and its mask.
abbrev pub has_key : RouteEntry → ℕ → ℕ → Bool
has_key e net mask = e.dest_net == net && e.mask == mask

-- The index at which the search loop returns.
unfoldable pub find_index : List RouteEntry → ℕ → ℕ → Option ℕ
find_index [] net mask = none
find_index (e ∷ es) net mask =
    if has_key e net mask then some 0 else Option.map suc (find_index es net mask)

abbrev pub fresh_route : ℕ → ℕ → ℕ → RouteEntry
fresh_route now net mask = record {
  dest_net = net;
  mask = mask;
  next_hop = 0;
  iface = [];
  cost = inf_cost;
  last_update = now;
}

-- The pointer that the code returns is an index into `routes`; `now` is what `time(NULL)` gives.
unfoldable pub rt_find_or_add : ℕ → Router → ℕ → ℕ → Option ℕ × Router
rt_find_or_add now r net mask = elim (find_index r.routes net mask) [
  | some i ↦ (some i, r)
  | none ↦
      if leb max_dest (length r.routes)
      then (none, r)
      else (some (length r.routes), record r { routes = r.routes ++ fresh_route now net mask ∷ [] })
]

-- Whether `dst` lies in the subnet of an entry.
abbrev pub covers : RouteEntry → ℕ → Bool
covers e dst = bit_and dst e.mask == bit_and e.dest_net e.mask

module _ (host : ByteOrder) where
  -- The loop of `rt_lookup`, with `best` and `best_mask`. The entry is returned by value: no caller
  -- writes through the pointer.
  unfoldable pub lookup_loop : ℕ → List RouteEntry → Option RouteEntry → ℕ → Option RouteEntry
  lookup_loop dst [] best best_mask = best
  lookup_loop dst (e ∷ es) best best_mask =
      let better = covers e dst && ltb (host.ntohl best_mask) (host.ntohl e.mask) in
      lookup_loop dst es (if better then some e else best) (if better then e.mask else best_mask)

  unfoldable pub rt_lookup : Router → ℕ → Option RouteEntry
  unfolding lookup_loop
  rt_lookup r dst = lookup_loop dst r.routes none 0
