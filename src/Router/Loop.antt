-- ===== src/Router/Loop.antt =====
-- hw3/starter/router.c: one round of the event loop of `main`.
pub mod Alive
pub mod Reach
use csci_4220_network_progra.Base.{
  ℕ, zero, suc, ◌+◌, ◌-◌, Bool, true, false, ◌&&◌, ◌||◌, not, Option, none, some, List, [], ◌∷◌,
  ◌++◌, map, ltb, leb, ◌==◌, if◌then◌else◌, length, get_elem?, set,
}
use csci_4220_network_progra.Net.{ByteOrder}
use csci_4220_network_progra.Router.Types.{
  DataMsg, DvMsg, Neighbor, RouteEntry, Router, inf_cost, update_interval_sec, dead_interval_sec,
  msg_dv, msg_data,
}
use csci_4220_network_progra.Router.Dv.{SentDv, broadcast_dv, dv_update}
use csci_4220_network_progra.Router.Forward.{Action, forward_data}

-- The tables that `log_table` prints.
pub data Reason : Type 0 where
  dv_updated neighbor_dead : Reason

-- What a round does that the outside sees.
pub data Event : Type 0 where
  sent : SentDv → Event
  logged : Reason → List RouteEntry → Event
  acted : Action → Event

-- What `recvfrom` leaves: the count of bytes (0 for an error), the port of the sender, the buffer.
pub record Datagram (M : Type 0) : Type 0 where
  pub rcvd : ℕ
  pub from_port : ℕ
  pub msg : M

-- What `select` returns: an interruption by a signal, or the datagrams of the sockets that are ready.
pub data Woken : Type 0 where
  interrupted : Woken
  woken : Option (Datagram DvMsg) → Option (Datagram DataMsg) → Woken

pub record State : Type 0 where
  pub router : Router
  pub next_broadcast : ℕ

abbrev pub is_via : ℕ → RouteEntry → Bool
is_via ip e = e.next_hop == ip && ltb e.cost inf_cost

-- The loop that poisons the routes through a dead neighbor, and the `changed` that it leaves.
unfoldable pub poison_route : ℕ → RouteEntry → RouteEntry
poison_route ip e = if is_via ip e then record e { cost = inf_cost } else e

unfoldable pub any_via : ℕ → List RouteEntry → Bool
any_via ip [] = false
any_via ip (e ∷ es) = is_via ip e || any_via ip es

-- The index of the first neighbor with the control port.
pub find_port : List Neighbor → ℕ → Option ℕ
find_port [] port = none
find_port (nb ∷ nbs) port = elim (nb.ctrl_port == port) [
  | true ↦ some 0
  | false ↦ elim (find_port nbs port) [ none ↦ none | some i ↦ some (suc i) ]
]

abbrev pub overdue : ℕ → Neighbor → Bool
overdue now nb = nb.alive && leb dead_interval_sec (now - nb.last_heard)

-- The router when a neighbor has just been given up.
abbrev pub bury : Router → ℕ → Neighbor → Router
bury r i nb = record r {
  neighbors = set r.neighbors i (record nb { alive = false });
  routes = map (poison_route nb.ip) r.routes;
}

module _ (host : ByteOrder) (now : ℕ) where
  abbrev pub broadcast : Router → List Event
  broadcast r = map sent (broadcast_dv host r)

  -- The timeout check of `neighbors[i]`.
  unfoldable pub check_neighbor : ℕ → Router → Router × List Event
  unfolding poison_route any_via
  check_neighbor i r = elim (get_elem? r.neighbors i) [
    | none ↦ (r, [])
    | some nb ↦
        if overdue now nb
        then (
          bury r i nb,
          if any_via nb.ip r.routes
              then logged neighbor_dead (bury r i nb).routes ∷ broadcast (bury r i nb)
              else [],
        )
        else (r, [])
  ]

  -- The loop over the neighbors, with `left` rounds to go from index `i` on.
  unfoldable pub check_loop : ℕ → ℕ → Router → Router × List Event
  unfolding check_neighbor
  check_loop zero i r = (r, [])
  check_loop (suc left) i r =
      let (r1, out) = check_neighbor i r in
      let (r2, rest) = check_loop left (i + 1) r1 in (r2, out ++ rest)

  -- A message from a known neighbor: it is alive, and its vector is taken in.
  pub hear : Router → ℕ → DvMsg → Option (Router × List Event)
  hear r i m = elim (get_elem? r.neighbors i) [
    | none ↦ some (r, [])
    | some nb ↦
        let sender = record nb { last_heard = now; alive = true } in
        elim (dv_update host now sender (record r { neighbors = set r.neighbors i sender }) m) [
          | none ↦ none
          | some (q, changed) ↦ some (q, if changed then logged dv_updated q.routes ∷ [] else [])
        ]
  ]

  pub on_control : Router → Datagram DvMsg → Option (Router × List Event)
  unfolding hear find_port
  on_control r d =
      if ltb 0 d.rcvd && d.msg.type == msg_dv
      then elim (find_port r.neighbors d.from_port) [
        | none ↦ some (r, [])
        | some i ↦ hear r i d.msg
      ]
      else some (r, [])

  pub on_data : Router → Datagram DataMsg → List Event
  on_data r d =
      if ltb 0 d.rcvd && d.msg.type == msg_data then acted (forward_data host r d.msg) ∷ [] else []

  -- The round after `select` has returned. `none` is the overrun of `dv_update`.
  unfoldable pub round :
      State → Option (Datagram DvMsg) → Option (Datagram DataMsg) → Option (State × List Event)
  unfolding check_loop on_control on_data
  round s ctrl packet =
      let due = leb s.next_broadcast now in
      let next = (if due then now + update_interval_sec else s.next_broadcast) in
      let periodic = (if due then broadcast s.router else []) in
      let (r1, dead) = check_loop (length s.router.neighbors) 0 s.router in
      let heard : Option (Router × List Event) = elim ctrl [
        | none ↦ some (r1, [])
        | some d ↦ on_control r1 d
      ] in
      elim heard [
        | none ↦ none
        | some (r2, updates) ↦
            let moved : List Event = elim packet [ none ↦ [] | some d ↦ on_data r2 d ] in
            some (
              record { router = r2; next_broadcast = next },
              ((periodic ++ dead) ++ updates) ++ moved,
            )
      ]

  unfoldable pub step : State → Woken → Option (State × List Event)
  unfolding round
  step s interrupted = some (s, [])
  step s (woken ctrl packet) = round s ctrl packet
