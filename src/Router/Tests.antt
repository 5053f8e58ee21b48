-- ===== src/Router/Tests.antt =====
-- The router on a host with the least significant byte first: three routers in a line.
use csci_4220_network_progra.Base.{
  ℕ, ◌<◌, length, ◌≡◌, ◌≢◌, refl, Bool, true, false, none, some, [], ◌∷◌, arith, ◌↔◌,
}
use csci_4220_network_progra.Net.{little_endian}
use csci_4220_network_progra.Router.Types.{DataMsg, DvEntry, Neighbor, RouteEntry, Router, inf_cost}
use csci_4220_network_progra.Router.Table.{
  fresh_route, find_index, lookup_loop, rt_find_or_add, rt_lookup,
}
use csci_4220_network_progra.Router.Table.Keys.{route_at}
use csci_4220_network_progra.Router.Table.Add.{Added, rt_find_or_add-Added}
use csci_4220_network_progra.Router.Table.Longest.{LookedUp, rt_lookup-LookedUp}
use csci_4220_network_progra.Router.Dv.{
  broadcast_dv, broadcast_loop, dv_update, dv_loop, apply_entry, fill, write_back, send_dv,
  told_cost, learned, dv_entry,
}
use csci_4220_network_progra.Router.Dv.Relax.{settled, settled-bellman_ford}
use csci_4220_network_progra.Router.Dv.Table.{
  IsTable, dv_entry-route_at, dv_update-IsTable, dv_update-overrun,
}
use csci_4220_network_progra.Router.Dv.Exchange.{
  Update, received, exchange-Update, exchange_no_loop,
}
use csci_4220_network_progra.Router.Forward.{forward, next_hop_down, find_neighbor, forward_data}
use csci_4220_network_progra.Router.Forward.Hops.{
  Forwarded, forward_data-Forwarded, travel, travel-ne-none,
}
use csci_4220_network_progra.Router.Loop.{
  State, woken, sent, logged, neighbor_dead, check_loop, check_neighbor, poison_route, any_via,
  round, step,
}
use csci_4220_network_progra.Router.Loop.Alive.{IsAlive}
use csci_4220_network_progra.Router.Loop.Reach.{here, next, step-IsAlive, Reach-next_hop_down}

-- 192.168.10.0, 10.0.20.0, 255.255.255.0, 127.0.1.1 and 127.0.1.2 as they lie in memory.
abbrev net_a : ℕ
net_a = 0x000a_a8c0

abbrev net_b : ℕ
net_b = 0x0014_000a

abbrev mask24 : ℕ
mask24 = 0x00ff_ffff

abbrev ip1 : ℕ
ip1 = 0x0101_007f

abbrev ip2 : ℕ
ip2 = 0x0201_007f

abbrev connected : ℕ → RouteEntry
connected n = record (fresh_route 0 n mask24) { cost = 0 }

abbrev through : ℕ → ℕ → RouteEntry
through n hop = record (fresh_route 0 n mask24) { cost = 1; next_hop = hop }

abbrev peer : ℕ → ℕ → Neighbor
peer ip port = record { ip = ip; ctrl_port = port; cost = 1; last_heard = 0; alive = true }

-- Router 1 owns the network a and reaches b through router 2.
abbrev r1 : Router
r1 = record {
  self_id = 1;
  self_ip = ip1;
  ctrl_port = 12000;
  neighbors = peer ip2 12001 ∷ [];
  routes = connected net_a ∷ through net_b ip2 ∷ [];
}

abbrev r2 : Router
r2 = record {
  self_id = 2;
  self_ip = ip2;
  ctrl_port = 12001;
  neighbors = peer ip1 12000 ∷ [];
  routes = connected net_b ∷ [];
}

abbrev packet : DataMsg
packet = record {
  type = 3;
  ttl = 7;
  src_ip = 0x0a0a_a8c0;
  dst_ip = 0x3714_000a;
  payload_len = 0;
  payload = [];
}

r1-IsTable : IsTable r1.routes
unfolding route_at
r1-IsTable = record { distinct = (refl, (refl, tt)); small = omega arith; costs = omega arith }

r1-IsAlive : IsAlive r1
r1-IsAlive = record {
  unique = (tt, tt);
  nonzero = omega arith;
  usable = (
    (λ _. (((λ _. refl), tt), λ _. refl)),
    ((λ _. (((λ _. refl), tt), λ e. absurd (omega arith))), tt),
  );
}

-- Router 2 hears of a at cost 1, and of b as unreachable.
exchange_runs :
    dv_update little_endian 9
      (peer ip1 12000)
      r2
      (received (send_dv little_endian r1 (peer ip2 12001)).msg [])
    ≡ some (
      record r2 { routes = connected net_b ∷ record (through net_a ip1) { last_update = 9 } ∷ [] },
      true,
    )
unfolding dv_update dv_loop dv_entry apply_entry send_dv fill told_cost find_index rt_find_or_add
    learned write_back
exchange_runs = refl

-- A packet for 10.0.20.55 leaves router 1 for the data port of router 2.
-- "hi"
abbrev greeting : DataMsg
greeting = record packet { payload_len = 512; payload = 104 ∷ 105 ∷ [] }

forward_runs :
    forward_data little_endian r1 greeting
    ≡ forward 13001 (record greeting { ttl = 6 }) 14 ip2 mask24 1
unfolding forward_data rt_lookup lookup_loop find_neighbor
forward_runs = refl

rt_find_or_add-Added_example : Added 5 r1 net_a mask24 (rt_find_or_add 5 r1 net_a mask24)
rt_find_or_add-Added_example = rt_find_or_add-Added 5 r1 net_a mask24

rt_lookup-LookedUp_example :
    LookedUp little_endian packet.dst_ip r1.routes (rt_lookup little_endian r1 packet.dst_ip)
rt_lookup-LookedUp_example = rt_lookup-LookedUp little_endian packet.dst_ip r1

settled-bellman_ford_example :
    ((settled 9 (peer ip1 12000) 3 (connected net_b)).cost ≡ 0)
    × ((settled 9 (peer ip1 12000) 3 (connected net_b)).next_hop ≡ 0)
settled-bellman_ford_example =
    settled-bellman_ford 9 (peer ip1 12000) 3 (connected net_b) (omega arith) (omega arith)
      (omega arith)

abbrev offer : DvEntry
offer = record { net = net_a; mask = mask24; cost = 256 }

dv_entry-route_at_example :
    route_at (dv_entry little_endian 9 (peer ip1 12000) offer (r2, false)).0.routes net_b mask24
    ≡ some (connected net_b)
unfolding route_at
dv_entry-route_at_example =
    dv_entry-route_at little_endian 9 (peer ip1 12000) offer r2 false net_b mask24

abbrev r2_after : Router
r2_after = record r2 {
  routes = connected net_b ∷ record (through net_a ip1) { last_update = 9 } ∷ [];
}

r2-IsTable : IsTable r2.routes
unfolding route_at
r2-IsTable = record { distinct = (refl, tt); small = omega arith; costs = omega arith }

dv_update-IsTable_example : IsTable r2_after.routes
dv_update-IsTable_example =
    dv_update-IsTable little_endian 9 (peer ip1 12000) r2 r2_after
      (received (send_dv little_endian r1 (peer ip2 12001)).msg []) true r2-IsTable exchange_runs

dv_update-overrun_example :
    (dv_update little_endian 9
        (peer ip1 12000)
        r2
        (record { type = 2; sender_id = 256; num = 256; entries = [] })
      ≡ none)
    ↔ (0 < 1)
dv_update-overrun_example =
    dv_update-overrun little_endian 9 (peer ip1 12000) r2
      (record { type = 2; sender_id = 256; num = 256; entries = [] })

exchange-Update_example :
    (q : Router × Bool) × (dv_update little_endian 9
        (peer ip1 12000)
        r2
        (received (send_dv little_endian r1 (peer ip2 12001)).msg [])
      ≡ some q)
    × Update 9
        (peer ip1 12000)
        (told_cost (peer ip2 12001) (connected net_a))
        net_a
        mask24
        (length q.0.routes)
        (route_at r2.routes net_a mask24)
        (route_at q.0.routes net_a mask24)
unfolding route_at
exchange-Update_example =
    exchange-Update little_endian 9 (peer ip1 12000) (peer ip2 12001) r1 r2 [] net_a mask24
      (connected net_a) r1-IsTable refl

-- Router 2 has lost its own network, and would take any path to it.
abbrev r2_cut : Router
r2_cut = record r2 { routes = record (through net_b ip1) { cost = 4 } ∷ [] }

r2_cut-IsTable : IsTable r2_cut.routes
unfolding route_at
r2_cut-IsTable = record { distinct = (refl, tt); small = omega arith; costs = omega arith }

abbrev r2_poisoned : Router
r2_poisoned = record r2 {
  routes =
      record (through net_b ip1) { cost = inf_cost; last_update = 9 }
      ∷ record (through net_a ip1) { last_update = 9 }
      ∷ [];
}

poison_runs :
    dv_update little_endian 9
      (peer ip1 12000)
      r2_cut
      (received (send_dv little_endian r1 (peer ip2 12001)).msg [])
    ≡ some (r2_poisoned, true)
unfolding dv_update dv_loop dv_entry apply_entry send_dv fill told_cost find_index rt_find_or_add
    learned write_back
poison_runs = refl

exchange_no_loop_example : ◌≡◌ {A = ℕ} inf_cost inf_cost
unfolding route_at
exchange_no_loop_example =
    exchange_no_loop little_endian 9 (peer ip1 12000) (peer ip2 12001) r1 r2_cut []
      (r2_poisoned, true) net_b mask24 (through net_b ip2)
      (record (through net_b ip1) { cost = inf_cost; last_update = 9 }) r1-IsTable r2_cut-IsTable
      poison_runs refl refl (omega arith) refl refl

forward_data-Forwarded_example :
    (forward_data little_endian r1 greeting
      ≡ forward 13001 (record greeting { ttl = 6 }) 14 ip2 mask24 1)
    ↔ Forwarded little_endian r1 greeting 13001 (record greeting { ttl = 6 }) 14 ip2 mask24 1
forward_data-Forwarded_example =
    forward_data-Forwarded little_endian r1 greeting 13001 (record greeting { ttl = 6 }) 14 ip2
      mask24 1

travel-ne-none_example : travel little_endian 8 (λ _. some r1) 13000 packet ≢ none
travel-ne-none_example = travel-ne-none little_endian 8 (λ _. some r1) 13000 packet (omega arith)

abbrev start : State
start = record { router = r1; next_broadcast = 5 }

-- A round at time 20: the neighbor has not been heard of for 20 seconds.
abbrev buried : Router
buried = record r1 {
  neighbors = record (peer ip2 12001) { alive = false } ∷ [];
  routes = connected net_a ∷ record (through net_b ip2) { cost = inf_cost } ∷ [];
}

abbrev later : State
later = record { router = buried; next_broadcast = 25 }

step_runs :
    step little_endian 20 start (woken none none)
    ≡ some (
      later,
      sent (send_dv little_endian r1 (peer ip2 12001)) ∷ logged neighbor_dead buried.routes ∷ [],
    )
unfolding step round check_loop check_neighbor poison_route any_via broadcast_dv broadcast_loop
step_runs = refl

step-IsAlive_example : IsAlive later.router
step-IsAlive_example =
    step-IsAlive little_endian 20 start later (woken none none) _ r1-IsAlive step_runs

Reach-next_hop_down_example : forward_data little_endian buried packet ≢ next_hop_down ip2
Reach-next_hop_down_example =
    Reach-next_hop_down little_endian start later packet ip2 r1-IsAlive
      (next 20 (woken none none) _ here step_runs)
