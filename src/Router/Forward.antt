-- ===== src/Router/Forward.antt =====
-- hw3/starter/router.c: `forward_data`.
pub mod Hops
pub mod Down
use csci_4220_network_progra.Base.{
  ℕ, zero, suc, ◌+◌, ◌-◌, Bool, true, false, ◌&&◌, not, Option, none, some, List, [], ◌∷◌, ltb, leb,
  length, ◌==◌, if◌then◌else◌, take,
}
use csci_4220_network_progra.Net.{ByteOrder}
use csci_4220_network_progra.CString.{until_nul}
use csci_4220_network_progra.Router.Types.{
  DataMsg, Neighbor, RouteEntry, Router, inf_cost, get_data_port,
}
use csci_4220_network_progra.Router.Table.{rt_lookup}

-- What the call prints, and for a forwarded packet the datagram that it sends to `port`: the first
-- `size` bytes of `out`. `overrun` is a read behind the end of the packet.
pub data Action : Type 0 where
  deliver_connected : (dst : ℕ) (text : List ℕ) → Action
  deliver_self : (src ttl : ℕ) (text : List ℕ) → Action
  drop_ttl : Action
  no_match : (dst : ℕ) → Action
  next_hop_down : (ip : ℕ) → Action
  forward : (port : ℕ) (out : DataMsg) (size via mask cost : ℕ) → Action
  overrun : Action

-- The bytes of `payload`.
abbrev pub payload_size : ℕ
payload_size = 128

-- The first neighbor with the address.
unfoldable pub find_neighbor : List Neighbor → ℕ → Option Neighbor
find_neighbor [] ip = none
find_neighbor (nb ∷ nbs) ip = if nb.ip == ip then some nb else find_neighbor nbs ip

abbrev pub is_connected : Option RouteEntry → Bool
is_connected none = false
is_connected (some e) = e.cost == 0 && e.next_hop == 0

abbrev pub is_down : Option Neighbor → Bool
is_down none = false
is_down (some nb) = not nb.alive

-- The second search of the neighbors, for the data port; 0 if there is none.
pub data_port : Option Neighbor → ℕ
unfolding get_data_port
data_port none = 0
data_port (some nb) = get_data_port nb.ctrl_port

-- The address that the packet goes to next.
pub hop : RouteEntry → ℕ → ℕ
hop route dst = if route.next_hop == 0 then dst else route.next_hop

module _ (host : ByteOrder) where
  -- `"%.*s"` with the length and the payload of the packet.
  unfoldable pub text : DataMsg → List ℕ
  text m = until_nul (take (host.ntohs m.payload_len) m.payload)

  -- `printf` goes past the array when the length allows it and no zero stands in the array.
  abbrev pub text_overruns : DataMsg → Bool
  text_overruns m =
      ltb payload_size (host.ntohs m.payload_len) && leb payload_size (length (text m))

  -- A packet that is printed.
  unfoldable pub delivered : DataMsg → Action → Action
  delivered m printed = if text_overruns m then overrun else printed

  -- From the choice of the next hop on.
  unfoldable pub forward_via : Router → DataMsg → RouteEntry → Action
  unfolding hop data_port
  forward_via r m route =
      let nb = find_neighbor r.neighbors (hop route m.dst_ip) in
      let port = data_port nb in
      if is_down nb
      then next_hop_down (hop route m.dst_ip)
      else if port == 0
      then no_match m.dst_ip
      else if ltb payload_size (host.ntohs m.payload_len)
      then overrun
      else forward port (record m { ttl = m.ttl - 1 })
          (1 + 1 + 4 + 4 + 2 + host.ntohs m.payload_len) (hop route m.dst_ip) route.mask route.cost

  pub forward_route : Router → DataMsg → Option RouteEntry → Action
  unfolding forward_via
  forward_route r m none = no_match m.dst_ip
  forward_route r m (some route) =
      if leb inf_cost route.cost then no_match m.dst_ip else forward_via r m route

  unfoldable pub forward_data : Router → DataMsg → Action
  unfolding text delivered forward_route
  forward_data r m =
      let match = rt_lookup host r m.dst_ip in
      if is_connected match
      then delivered m (deliver_connected m.dst_ip (text m))
      else if m.dst_ip == r.self_ip
      then delivered m (deliver_self m.src_ip m.ttl (text m))
      else if m.ttl == 0
      then drop_ttl
      else forward_route r m match
