-- ===== src/Starter.antt =====
-- hw3/starter/starter/router.c: the earlier copy of the router, against the same common.h. What it has
-- in common with hw3/starter/router.c is taken from Router.
pub mod Loop
pub mod Offer
mod Tests
use csci_4220_network_progra.Base.{
  ℕ, zero, suc, ◌+◌, ◌-◌, ◌*◌, ◌%◌, ◌^◌, Bool, true, false, ◌&&◌, not, Option, none, some, List, [],
  ◌∷◌, map, ltb, leb, ◌==◌, if◌then◌else◌, length, get_elem?, set, take,
}
use csci_4220_network_progra.Net.{ByteOrder}
use csci_4220_network_progra.CString.{until_nul}
use csci_4220_network_progra.Router.Types.{
  DvEntry, DvMsg, DataMsg, Neighbor, RouteEntry, Router, inf_cost, msg_dv, get_data_port,
}
use csci_4220_network_progra.Router.Table.{rt_find_or_add, rt_lookup}
use csci_4220_network_progra.Router.Dv.{SentDv, write_back}
use csci_4220_network_progra.Router.Forward.{
  Action, deliver_connected, deliver_self, drop_ttl, no_match, next_hop_down, forward,
  find_neighbor,
}
use csci_4220_network_progra.Router.Conf.{Parsed}

-- The 16-bit sum, which wraps, cut off at INF_COST.
unfoldable pub new_cost : Neighbor → ℕ → ℕ
new_cost nb advertised_cost =
    let cost = (nb.cost + advertised_cost) % 2 ^ 16 in if leb inf_cost cost then inf_cost else cost

-- The write to `*route`, if there is one.
unfoldable pub learned :
    (now : ℕ) → Neighbor → (advertised_cost : ℕ) → RouteEntry → Option RouteEntry
unfolding new_cost
learned now nb advertised_cost route =
    let cost = new_cost nb advertised_cost in
    if ltb cost route.cost
    then some (record route { cost = cost; next_hop = nb.ip; last_update = now })
    else if route.next_hop == nb.ip && not (cost == route.cost)
    then some (record route { cost = cost; last_update = now })
    else none

-- The cost that `nb` is told.
unfoldable pub told_cost : Neighbor → RouteEntry → ℕ
told_cost nb route = if route.next_hop == nb.ip then inf_cost else route.cost

module _ (host : ByteOrder) where
  abbrev pub entry_for : Neighbor → RouteEntry → DvEntry
  entry_for nb route = record {
    net = route.dest_net;
    mask = route.mask;
    cost = host.htons (told_cost nb route);
  }

  -- The datagram, which goes to the address of the neighbor.
  unfoldable pub send_dv : Router → Neighbor → SentDv
  unfolding told_cost
  send_dv r nb =
      let entries = map (entry_for nb) r.routes in
      let num_entries = length entries % 2 ^ 16 in
      record {
        port = nb.ctrl_port;
        msg = record {
          type = msg_dv;
          sender_id = host.htons r.self_id;
          num = host.htons num_entries;
          entries = entries;
        };
        size = 1 + 2 + 2 + num_entries * 10;
      }

  -- The loop of `broadcast_dv`.
  unfoldable pub broadcast_loop : Router → List Neighbor → List SentDv
  unfolding send_dv
  broadcast_loop r [] = []
  broadcast_loop r (nb ∷ nbs) =
      let rest = broadcast_loop r nbs in if nb.alive then send_dv r nb ∷ rest else rest

  unfoldable pub broadcast_dv : Router → List SentDv
  unfolding broadcast_loop
  broadcast_dv r = broadcast_loop r r.neighbors

  module _ (now : ℕ) where
    -- What a round does with the pointer that `rt_find_or_add` returns.
    unfoldable pub apply_entry : Neighbor → ℕ → Bool → Option ℕ × Router → Router × Bool
    unfolding learned
    apply_entry nb advertised_cost changed (none, q) = (q, changed)
    apply_entry nb advertised_cost changed (some i, q) = elim (get_elem? q.routes i) [
      | none ↦ (q, changed)
      | some route ↦ write_back q i changed (learned now nb advertised_cost route)
    ]

    unfoldable pub dv_entry : Neighbor → DvEntry → Router × Bool → Router × Bool
    unfolding apply_entry
    dv_entry nb e (r, changed) =
        apply_entry nb (host.ntohs e.cost) changed (rt_find_or_add now r e.net e.mask)

    -- The loop over the first `n` entries; `none` is a read past the end of the buffer.
    unfoldable pub dv_loop : Neighbor → ℕ → List DvEntry → Router × Bool → Option (Router × Bool)
    unfolding dv_entry
    dv_loop nb zero es s = some s
    dv_loop nb (suc n) [] s = none
    dv_loop nb (suc n) (e ∷ es) s = dv_loop nb n es (dv_entry nb e s)

    -- `i` is the index of the neighbor that `nb` points to.
    unfoldable pub dv_update : Router → (i : ℕ) → DvMsg → Option (Router × Bool)
    unfolding dv_loop
    dv_update r i m = elim (get_elem? r.neighbors i) [
      | none ↦ some (r, false)
      | some nb ↦
          let sender = record nb { last_heard = now; alive = true } in
          dv_loop sender (host.ntohs m.num) m.entries
            (record r { neighbors = set r.neighbors i sender }, false)
    ]

  -- `"%.*s"` with `payload_len` as it stands in the packet, and what the buffer holds from the payload
  -- on.
  abbrev pub text : DataMsg → List ℕ
  text m = until_nul (take m.payload_len m.payload)

  -- From the search for the neighbor on.
  unfoldable pub forward_via : Router → DataMsg → (in_len : ℕ) → RouteEntry → Action
  unfolding get_data_port
  forward_via r m in_len route = elim (find_neighbor r.neighbors route.next_hop) [
    | none ↦ next_hop_down route.next_hop
    | some nb ↦
        if nb.alive
        then forward (get_data_port nb.ctrl_port) (record m { ttl = m.ttl - 1 }) in_len nb.ip
            route.mask route.cost
        else next_hop_down route.next_hop
  ]

  unfoldable pub forward_data : Router → DataMsg → (in_len : ℕ) → Action
  unfolding forward_via
  forward_data r m in_len = elim (rt_lookup host r m.dst_ip) [
    | none ↦ no_match m.dst_ip
    | some route ↦
        if route.next_hop == 0
        then deliver_connected m.dst_ip (text m)
        else if m.dst_ip == r.self_ip
        then deliver_self m.src_ip m.ttl (text m)
        else if leb m.ttl 1
        then drop_ttl
        else forward_via r m in_len route
  ]
