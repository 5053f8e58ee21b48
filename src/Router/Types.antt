-- ===== src/Router/Types.antt =====
-- hw3/starter/common.h: constants, messages, and the state of one router.
use csci_4220_network_progra.Base.{ℕ, ◌+◌, ◌%◌, ◌^◌, Bool, List}

abbrev pub max_neigh : ℕ
max_neigh = 16

abbrev pub max_dest : ℕ
max_dest = 128

-- The cost of an unreachable network.
abbrev pub inf_cost : ℕ
inf_cost = 65535

abbrev pub update_interval_sec : ℕ
update_interval_sec = 5

abbrev pub dead_interval_sec : ℕ
dead_interval_sec = 15

abbrev pub data_port_offset : ℕ
data_port_offset = 1000

abbrev pub msg_dv : ℕ
msg_dv = 2

abbrev pub msg_data : ℕ
msg_data = 3

-- One entry of a distance vector; all three fields are in network byte order.
pub record DvEntry : Type 0 where
  pub net : ℕ
  pub mask : ℕ
  pub cost : ℕ

-- `entries` holds the whole array `e`, whatever `num` says of it.
pub record DvMsg : Type 0 where
  pub type : ℕ
  pub sender_id : ℕ
  pub num : ℕ
  pub entries : List DvEntry

pub record DataMsg : Type 0 where
  pub type : ℕ
  pub ttl : ℕ
  pub src_ip : ℕ
  pub dst_ip : ℕ
  pub payload_len : ℕ
  pub payload : List ℕ

pub record Neighbor : Type 0 where
  pub ip : ℕ
  pub ctrl_port : ℕ
  pub cost : ℕ
  pub last_heard : ℕ
  pub alive : Bool

pub record RouteEntry : Type 0 where
  pub dest_net : ℕ
  pub mask : ℕ
  pub next_hop : ℕ
  pub iface : List ℕ
  pub cost : ℕ
  pub last_update : ℕ

-- `num_neighbors` and `num_routes` are the lengths of the two lists.
pub record Router : Type 0 where
  pub self_id : ℕ
  pub self_ip : ℕ
  pub ctrl_port : ℕ
  pub neighbors : List Neighbor
  pub routes : List RouteEntry

-- A `uint16_t` sum wraps.
unfoldable pub get_data_port : ℕ → ℕ
get_data_port ctrl = (ctrl + data_port_offset) % 2 ^ 16
