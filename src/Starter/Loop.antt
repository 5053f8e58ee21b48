-- ===== src/Starter/Loop.antt =====
-- hw3/starter/starter/router.c: one round of the event loop of `main`.
use csci_4220_network_progra.Base.{
  ℕ, zero, suc, ◌+◌, ◌-◌, Bool, true, false, ◌&&◌, ◌||◌, Option, none, some, List, [], ◌∷◌, ◌++◌,
  map, ltb, leb, ◌==◌, if◌then◌else◌, length, get_elem?, set,
}
use csci_4220_network_progra.Net.{ByteOrder}
use csci_4220_network_progra.Router.Types.{
  DataMsg, DvMsg, Neighbor, RouteEntry, Router, inf_cost, update_interval_sec, dead_interval_sec,
  msg_dv, msg_data,
}
use csci_4220_network_progra.Router.Loop.{
  Event, sent, logged, acted, dv_updated, neighbor_dead, State,
}
use csci_4220_network_progra.Router.Conf
use csci_4220_network_progra.Router.Conf.{Parsed, Conf}
use csci_4220_network_progra.Starter.{broadcast_dv, dv_update, forward_data}

-- `trim` and `parse_conf` have the same text in both copies.
abbrev pub parse_conf : (inet_aton : List ℕ → Option ℕ) → (now : ℕ) → Option (List ℕ) → Parsed
parse_conf inet_aton now file = Conf.parse_conf inet_aton now file

-- What the loop of `main` starts from.
abbrev pub initial : (now : ℕ) → Conf → State
initial now c = record { router = c.router; next_broadcast = now + update_interval_sec }

-- What `recvfrom` leaves: its result (0 for an error), the address of the sender, the buffer.
pub record Datagram (M : Type 0) : Type 0 where
  pub len : ℕ
  pub from_ip : ℕ
  pub msg : M

abbrev pub poison_route : ℕ → RouteEntry → RouteEntry
poison_route ip e = if e.next_hop == ip then record e { cost = inf_cost } else e

unfoldable pub any_via : ℕ → List RouteEntry → Bool
any_via ip [] = false
any_via ip (e ∷ es) = e.next_hop == ip || any_via ip es

-- The timeout check of `neighbors[i]`, with `table_changed_by_timeout`.
unfoldable pub check_neighbor : (now i : ℕ) → Router × Bool → Router × Bool
unfolding any_via
check_neighbor now i (r, changed) = elim (get_elem? r.neighbors i) [
  | none ↦ (r, changed)
  | some nb ↦
      if nb.alive && ltb dead_interval_sec (now - nb.last_heard)
      then (
        record r {
          neighbors = set r.neighbors i (record nb { alive = false });
          routes = map (poison_route nb.ip) r.routes;
        },
        changed || any_via nb.ip r.routes,
      )
      else (r, changed)
]

-- The loop over the neighbors, with `left` rounds to go from index `i` on.
unfoldable pub check_loop : (now left i : ℕ) → Router × Bool → Router × Bool
unfolding check_neighbor
check_loop now zero i s = s
check_loop now (suc left) i s = check_loop now left (i + 1) (check_neighbor now i s)

-- The index of the first neighbor with the address.
unfoldable pub find_ip : List Neighbor → ℕ → Option ℕ
find_ip [] ip = none
find_ip (nb ∷ nbs) ip = elim (nb.ip == ip) [
  | true ↦ some 0
  | false ↦ elim (find_ip nbs ip) [ none ↦ none | some i ↦ some (suc i) ]
]

module _ (host : ByteOrder) (now : ℕ) where
  unfoldable pub on_control : Router → Datagram DvMsg → Option (Router × List Event)
  unfolding find_ip
  on_control r d =
      if leb 5 d.len && d.msg.type == msg_dv
      then elim (find_ip r.neighbors d.from_ip) [
        | none ↦ some (r, [])
        | some i ↦ elim (dv_update host now r i d.msg) [
          | none ↦ none
          | some (q, changed) ↦ some (q, if changed then logged dv_updated q.routes ∷ [] else [])
        ]
      ]
      else some (r, [])

  unfoldable pub on_data : Router → Datagram DataMsg → List Event
  on_data r d =
      if leb 12 d.len && d.msg.type == msg_data
      then acted (forward_data host r d.msg d.len) ∷ []
      else []

  -- The round after `select` has returned without an interruption. `none` is the overrun of
  -- `dv_update`.
  unfoldable pub round :
      State → Option (Datagram DvMsg) → Option (Datagram DataMsg) → Option (State × List Event)
  unfolding check_loop on_control on_data
  round s ctrl packet =
      let due = leb s.next_broadcast now in
      let next = (if due then now + update_interval_sec else s.next_broadcast) in
      let periodic : List Event = (if due then map sent (broadcast_dv host s.router) else []) in
      let (r1, timed_out) = check_loop now (length s.router.neighbors) 0 (s.router, false) in
      let dead : List Event = (if timed_out then logged neighbor_dead r1.routes ∷ [] else []) in
      let heard : Option (Router × List Event) = elim ctrl [
        | none ↦ some (r1, [])
        | some d ↦ on_control r1 d
      ] in
      elim heard [
        | none ↦ none
        | some (r2, updates) ↦
            let moved : List Event = elim packet [ none ↦ [] | some d ↦ on_data r2 d ] in
            some (
              record { router = r2; next_broadcast = next },
              ((periodic ++ dead) ++ updates) ++ moved,
            )
      ]
