-- ===== src/Starter/Tests.antt =====
-- A neighbor at cost 1 that has its route to a network through this router.
use csci_4220_network_progra.Base.{ℕ, ◌≡◌, refl, true, [], arith}
use csci_4220_network_progra.Router.Types.{Neighbor, RouteEntry}
use csci_4220_network_progra.Router.Dv.Relax.{settle}
use csci_4220_network_progra.Starter.{learned, told_cost}
use csci_4220_network_progra.Starter.Offer.{poison_reverse-loops}

abbrev me : Neighbor
me = record { ip = 1; ctrl_port = 6001; cost = 1; last_heard = 0; alive = true }

abbrev nb : Neighbor
nb = record { ip = 2; ctrl_port = 6002; cost = 1; last_heard = 0; alive = true }

abbrev route_via : (ip cost : ℕ) → RouteEntry
route_via ip cost = record {
  dest_net = 10;
  mask = 255;
  next_hop = ip;
  iface = [];
  cost = cost;
  last_update = 0;
}

poison_reverse-loops_example :
    ((settle (route_via 3 1) (learned 9 nb (told_cost me (route_via 1 2)) (route_via 3 1))).next_hop
      ≡ 2)
    × ((settle (route_via 3 1) (learned 9 nb (told_cost me (route_via 1 2)) (route_via 3 1))).cost
        ≡ 0)
poison_reverse-loops_example =
    poison_reverse-loops 9 me nb (route_via 1 2) (route_via 3 1) refl (omega arith) (omega arith)
      (omega arith) (omega arith)
