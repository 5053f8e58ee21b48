-- ===== src/Starter/Offer.antt =====
-- One route against one offer of a neighbor, with costs that wrap.
use csci_4220_network_progra.Base.{
  ℕ, ◌+◌, ◌-◌, ◌^◌, ◌≤◌, ◌<◌, ◌≡◌, arith, min, ltb, ◌==◌, if◌then◌else◌,
}
use csci_4220_network_progra.Router.Types.{Neighbor, RouteEntry, inf_cost}
use csci_4220_network_progra.Router.Dv.Relax.{settle}
use csci_4220_network_progra.Starter.{learned, told_cost}

-- The cost of the path as the code sees it: 2^16 less where the sum does not fit into 16 bits.
abbrev pub offered : Neighbor → ℕ → ℕ
offered nb advertised_cost =
    if ltb (nb.cost + advertised_cost) (2 ^ 16)
    then nb.cost + advertised_cost
    else nb.cost + advertised_cost - 2 ^ 16

-- A route that goes through the neighbor takes the cost that it offers, and any other route takes it
-- only where it is cheaper, and then goes through the neighbor.
pub learned-offered :
    (now : ℕ) (nb : Neighbor) (c : ℕ) (route : RouteEntry)
    → nb.cost < 2 ^ 16
    → c < 2 ^ 16
    → route.cost ≤ inf_cost
    → ((settle route (learned now nb c route)).cost
        ≡ (if route.next_hop == nb.ip then offered nb c else min route.cost (offered nb c)))
      × ((settle route (learned now nb c route)).next_hop
          ≡ (if ltb (offered nb c) route.cost then nb.ip else route.next_hop))
unfolding learned
learned-offered now nb c route hn hc hr = (ground arith, ground arith)

-- In the earlier copy poison reverse makes a loop of two routers. A neighbor that has its route
-- through this router tells it the cost INF_COST. If the cost of the neighbor is at least 1 and at
-- most that of this router's own route, the sum wraps and the offer is taken: the route then goes
-- through the neighbor, and its cost is that of the neighbor less 1.
pub poison_reverse-loops :
    (now : ℕ) (me nb : Neighbor) (its_route route : RouteEntry)
    → its_route.next_hop ≡ me.ip
    → 0 < nb.cost
    → nb.cost < 2 ^ 16
    → route.cost ≤ inf_cost
    → nb.cost ≤ route.cost
    → ((settle route (learned now nb (told_cost me its_route) route)).next_hop ≡ nb.ip)
      × ((settle route (learned now nb (told_cost me its_route) route)).cost ≡ nb.cost - 1)
unfolding told_cost
poison_reverse-loops now me nb its_route route back some_cost hn hr dearer =
    let told : told_cost me its_route ≡ 65535 = ground (arith, back) in
    let (cost, next) = learned-offered now nb 65535 route hn (omega arith) hr in
    rw told (ground (arith, next), ground (arith, cost))
