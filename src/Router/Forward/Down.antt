-- ===== src/Router/Forward/Down.antt =====
-- When `forward_data` reports that the next hop is down.
use csci_4220_network_progra.Base.{
  ℕ, ◌≡◌, ◌≢◌, ◌<◌, refl, true, false, some, List, [], ◌∷◌, ◌==◌, arith, All, Bool-cases,
  Option-cases, inl, inr,
}
use csci_4220_network_progra.Net.{ByteOrder}
use csci_4220_network_progra.Router.Types.{DataMsg, Neighbor, RouteEntry, Router, inf_cost}
use csci_4220_network_progra.Router.Table.{rt_lookup}
use csci_4220_network_progra.Router.Forward.{
  next_hop_down, find_neighbor, is_down, hop, forward_via, forward_route, forward_data,
}

-- If every neighbor with the address is alive, then so is the one that the search finds.
pub find_neighbor-alive :
    (nbs : List Neighbor) (ip : ℕ)
    → All (λ nb. nb.ip ≡ ip → nb.alive ≡ true) nbs
    → is_down (find_neighbor nbs ip) ≡ false
unfolding find_neighbor
find_neighbor-alive [] ip h = refl
find_neighbor-alive (nb ∷ nbs) ip h = elim (Bool-cases (nb.ip == ip)) [
  | inl hit ↦ rw hit (ground (arith, h.0 (ground (arith, hit))))
  | inr miss ↦ rw miss (find_neighbor-alive nbs ip h.1)
]

pub hop-next_hop : (e : RouteEntry) (dst : ℕ) → e.next_hop ≢ 0 → hop e dst ≡ e.next_hop
unfolding hop
hop-next_hop e dst h = ground arith

module _ (host : ByteOrder) where
  pub record Down (r : Router) (m : DataMsg) : Type 0 where
    pub route : RouteEntry
    pub looked_up : rt_lookup host r m.dst_ip ≡ some route
    pub reachable : route.cost < inf_cost
    pub not_connected : ¬ ((route.cost ≡ 0) × (route.next_hop ≡ 0))
    pub dead : is_down (find_neighbor r.neighbors (hop route m.dst_ip)) ≡ true

  pub forward_data-Down :
      (r : Router) (m : DataMsg) (ip : ℕ) → forward_data host r m ≡ next_hop_down ip → Down r m
  unfolding forward_data forward_route forward_via
  forward_data-Down r m ip h = elim (Option-cases (rt_lookup host r m.dst_ip)) [
    | inl e ↦ absurd (ground (arith, e))
    | inr (route, e) ↦ record {
      route = route;
      looked_up = e;
      reachable = ground (arith, e);
      not_connected = ground (arith, e);
      dead = ground (arith, e);
    }
  ]
