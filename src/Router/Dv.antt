-- ===== src/Router/Dv.antt =====
-- hw3/starter/router.c: `dv_update`, `send_dv` and `broadcast_dv`.
pub mod Relax
pub mod Table
pub mod Frame
pub mod Advert
pub mod Size
pub mod Exchange
use csci_4220_network_progra.Base.{
  ℕ, zero, suc, ◌+◌, ◌*◌, ◌%◌, ◌^◌, Bool, true, false, ◌&&◌, ◌||◌, not, Option, none, some, List,
  [], ◌∷◌, ltb, leb, ◌==◌, if◌then◌else◌, length, get_elem?, set,
}
use csci_4220_network_progra.Net.{ByteOrder}
use csci_4220_network_progra.Router.Types.{
  DvEntry, DvMsg, Neighbor, RouteEntry, Router, max_dest, inf_cost, msg_dv,
}
use csci_4220_network_progra.Router.Table.{rt_find_or_add}

-- The write to `*existing` when the neighbor calls the network unreachable, if there is one.
pub poisoned : ℕ → Neighbor → RouteEntry → Option RouteEntry
poisoned now nb existing =
    if existing.next_hop == nb.ip && ltb existing.cost inf_cost
    then some (record existing { cost = inf_cost; last_update = now })
    else none

-- `(uint32_t)nb->cost + (uint32_t)neighbor_cost`, cut off at INF_COST. Two 16-bit numbers do not
-- wrap a 32-bit sum.
pub path_cost : Neighbor → ℕ → ℕ
path_cost nb neighbor_cost =
    let new_cost = (nb.cost + neighbor_cost) % 2 ^ 32 in
    if ltb inf_cost new_cost then inf_cost else new_cost

-- The write to `*route` when the neighbor offers a path, if there is one.
pub relaxed : ℕ → Neighbor → ℕ → RouteEntry → Option RouteEntry
relaxed now nb new_cost route =
    if ltb new_cost route.cost || (route.next_hop == nb.ip && not (new_cost == route.cost))
    then some (record route { cost = new_cost % 2 ^ 16; next_hop = nb.ip; last_update = now })
    else none

unfoldable pub learned : ℕ → Neighbor → ℕ → RouteEntry → Option RouteEntry
unfolding poisoned relaxed path_cost
learned now nb neighbor_cost route =
    if leb inf_cost neighbor_cost
    then poisoned now nb route
    else relaxed now nb (path_cost nb neighbor_cost) route

-- A write goes to `routes[i]` and sets `changed`.
unfoldable pub write_back : Router → ℕ → Bool → Option RouteEntry → Router × Bool
write_back r i changed none = (r, changed)
write_back r i changed (some e) = (record r { routes = set r.routes i e }, true)

module _ (now : ℕ) (nb : Neighbor) where
  -- What a round does with the pointer that `rt_find_or_add` returns.
  unfoldable pub apply_entry : ℕ → Bool → Option ℕ × Router → Router × Bool
  unfolding write_back
  apply_entry neighbor_cost changed (none, q) = (q, changed)
  apply_entry neighbor_cost changed (some i, q) = elim (get_elem? q.routes i) [
    | none ↦ (q, changed)
    | some route ↦ write_back q i changed (learned now nb neighbor_cost route)
  ]

module _ (host : ByteOrder) (now : ℕ) (nb : Neighbor) where
  -- One round of the loop of `dv_update`, over the table and `changed`.
  unfoldable pub dv_entry : DvEntry → Router × Bool → Router × Bool
  unfolding apply_entry
  dv_entry e (r, changed) =
      apply_entry now nb (host.ntohs e.cost) changed (rt_find_or_add now r e.net e.mask)

  -- The loop over the first `n` entries; `none` is a read past the end of the array.
  unfoldable pub dv_loop : ℕ → List DvEntry → Router × Bool → Option (Router × Bool)
  dv_loop zero es s = some s
  dv_loop (suc n) [] s = none
  dv_loop (suc n) (e ∷ es) s = dv_loop n es (dv_entry e s)

  unfoldable pub dv_update : Router → DvMsg → Option (Router × Bool)
  dv_update r m = dv_loop (host.ntohs m.num) m.entries (r, false)

-- A datagram that leaves by the control socket: the bytes sent are the first `size` of `msg`.
pub record SentDv : Type 0 where
  pub port : ℕ
  pub msg : DvMsg
  pub size : ℕ

-- Split horizon with poison reverse: the cost that `nb` is told.
unfoldable pub told_cost : Neighbor → RouteEntry → ℕ
told_cost nb route =
    if not (route.next_hop == 0) && route.next_hop == nb.ip then inf_cost else route.cost

module _ (host : ByteOrder) where
  -- The loop of `send_dv` with `num` entries written so far.
  unfoldable pub fill : Neighbor → List RouteEntry → ℕ → List DvEntry
  unfolding told_cost
  fill nb [] num = []
  fill nb (route ∷ routes) num =
      let rest = fill nb routes (num + 1) in
      if leb max_dest num
      then []
      else (record {
        net = route.dest_net;
        mask = route.mask;
        cost = host.htons (told_cost nb route);
      }
          ∷ rest)

  unfoldable pub send_dv : Router → Neighbor → SentDv
  unfolding fill
  send_dv r nb =
      let entries = fill nb r.routes 0 in
      let num = host.htons (length entries % 2 ^ 16) in
      record {
        port = nb.ctrl_port;
        msg = record {
          type = msg_dv;
          sender_id = host.htons r.self_id;
          num = num;
          entries = entries;
        };
        size = 1 + 2 + 2 + host.ntohs num * 10;
      }

  -- The loop of `broadcast_dv`.
  unfoldable pub broadcast_loop : Router → List Neighbor → List SentDv
  unfolding send_dv
  broadcast_loop r [] = []
  broadcast_loop r (nb ∷ nbs) =
      let rest = broadcast_loop r nbs in if nb.alive then send_dv r nb ∷ rest else rest

  unfoldable pub broadcast_dv : Router → List SentDv
  unfolding broadcast_loop
  broadcast_dv r = broadcast_loop r r.neighbors
