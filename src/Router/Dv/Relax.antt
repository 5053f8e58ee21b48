-- ===== src/Router/Dv/Relax.antt =====
-- One route against one offer of a neighbor: the Bellman-Ford equation.
use csci_4220_network_progra.Base.{
  ◌⊎◌, ℕ, ◌+◌, ◌^◌, ◌≤◌, ◌<◌, ◌≡◌, ◌↔◌, Option, none, some, arith, min, ltb, ◌==◌, if◌then◌else◌,
}
use csci_4220_network_progra.Router.Types.{Neighbor, RouteEntry, inf_cost}
use csci_4220_network_progra.Router.Dv.{learned}

-- The entry after the write, if there is one.
abbrev pub settle : RouteEntry → Option RouteEntry → RouteEntry
settle route none = route
settle route (some e) = e

unfoldable pub settled : ℕ → Neighbor → ℕ → RouteEntry → RouteEntry
settled now nb neighbor_cost route = settle route (learned now nb neighbor_cost route)

-- The cost of the path through the neighbor, at most the cost that stands for infinity.
abbrev pub via_cost : Neighbor → ℕ → ℕ
via_cost nb neighbor_cost = min inf_cost (nb.cost + neighbor_cost)

-- A round leaves the key of the entry alone.
pub learned-key :
    (now : ℕ) (nb : Neighbor) (c : ℕ) (route : RouteEntry) {e : RouteEntry}
    → learned now nb c route ≡ some e
    → (e.dest_net ≡ route.dest_net) × (e.mask ≡ route.mask)
unfolding learned
learned-key now nb c route h = ground arith

-- An entry keeps a cost of at most INF_COST.
pub learned-cost-le :
    (now : ℕ) (nb : Neighbor) (c : ℕ) (route : RouteEntry) {e : RouteEntry}
    → learned now nb c route ≡ some e
    → e.cost ≤ inf_cost
unfolding learned
learned-cost-le now nb c route h = ground arith

-- The Bellman-Ford equation: a route that goes through the neighbor takes the cost of the path
-- through it; any other route takes it only where it is cheaper, and then goes through the neighbor.
pub settled-bellman_ford :
    (now : ℕ) (nb : Neighbor) (c : ℕ) (route : RouteEntry)
    → nb.cost < 2 ^ 16
    → c < 2 ^ 16
    → route.cost ≤ inf_cost
    → ((settled now nb c route).cost
        ≡ (if route.next_hop == nb.ip then via_cost nb c else min route.cost (via_cost nb c)))
      × ((settled now nb c route).next_hop
          ≡ (if ltb (via_cost nb c) route.cost then nb.ip else route.next_hop))
unfolding settled learned
settled-bellman_ford now nb c route hn hc hr = (ground arith, ground arith)

-- The entry is written, and `changed` set, exactly when its cost or its next hop changes.
pub learned-none_iff :
    (now : ℕ) (nb : Neighbor) (c : ℕ) (route : RouteEntry)
    → nb.cost < 2 ^ 16
    → c < 2 ^ 16
    → route.cost ≤ inf_cost
    → (learned now nb c route ≡ none) ↔ (
        ((settled now nb c route).cost ≡ route.cost)
        × ((settled now nb c route).next_hop ≡ route.next_hop))
unfolding settled learned
learned-none_iff now nb c route hn hc hr = (λ h. (ground arith, ground arith), λ h. ground arith)

-- An offer of infinite cost leaves no path of finite cost through the neighbor.
pub settled-poison :
    (now : ℕ) (nb : Neighbor) (route : RouteEntry)
    → route.cost ≤ inf_cost
    → (settled now nb inf_cost route).next_hop ≡ nb.ip
    → (settled now nb inf_cost route).cost ≡ inf_cost
unfolding settled learned
settled-poison now nb route small via = ground arith

-- A written entry is unreachable, or goes through the neighbor.
pub learned_cases :
    (now : ℕ) (nb : Neighbor) (c : ℕ) (route : RouteEntry) {e : RouteEntry}
    → learned now nb c route ≡ some e
    → (e.cost ≡ inf_cost) ⊎ (e.next_hop ≡ nb.ip)
unfolding learned
learned_cases now nb c route h = ground arith
