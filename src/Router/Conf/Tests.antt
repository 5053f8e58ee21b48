-- ===== src/Router/Conf/Tests.antt =====
-- A small configuration file, and a packet that `sendpkt` sends.
use csci_4220_network_progra.Base.{
  ℕ, true, false, ◌≡◌, ◌≢◌, refl, Option, none, some, List, [], ◌∷◌, codes, arith, length,
  if◌then◌else◌, ◌==◌,
}
use csci_4220_network_progra.Net.{little_endian}
use csci_4220_network_progra.CString.{scan_string, scan_digits, scan_signed, scan_sign, scan_int}
use csci_4220_network_progra.Router.Types.{DataMsg}
use csci_4220_network_progra.Router.Table.{rt_find_or_add, find_index}
use csci_4220_network_progra.Router.Forward.{forward_data, next_hop_down}
use csci_4220_network_progra.CString.{until_nul}
use csci_4220_network_progra.Router.Loop.Reach.{here}
use csci_4220_network_progra.Router.Conf.{
  Conf, parsed, write_route, route_words, route_line, neighbor_fields, neighbor_line, self_ip_line,
  conf_line, trim, begins, read_line, read_lines, fgets_all, parse_conf, initial,
}
use csci_4220_network_progra.Router.Conf.Start.{
  Accepts, parse_conf-Accepts, parse_conf-next_hop_down,
}

-- Every string of one byte is an address here.
abbrev inet_aton : List ℕ → Option ℕ
inet_aton s = if length s == 1 then (elim s [ [] ↦ none | c ∷ cs ↦ some c ]) else none

abbrev file : List ℕ
file = codes "router_id 1\nself_ip A\nlisten_port 6001\nroutes:\nC M 0 eth0\nneighbors:\nB 6002 1\n"

abbrev conf : Conf
conf = record {
  router = record {
    self_id = 1;
    self_ip = 65;
    ctrl_port = 6001;
    neighbors = record { ip = 66; ctrl_port = 6002; cost = 1; last_heard = 7; alive = true } ∷ [];
    routes =
        record {
          dest_net = 67;
          mask = 77;
          next_hop = 48;
          cost = 1;
          iface = codes "eth0";
          last_update = 7;
        }
        ∷ [];
  };
  in_routes = false;
  in_neigh = true;
}

parse_conf_file : parse_conf inet_aton 7 (some file) ≡ parsed conf
unfolding parse_conf read_lines read_line conf_line self_ip_line route_line route_words
    neighbor_line neighbor_fields write_route fgets_all begins trim until_nul rt_find_or_add
    find_index scan_string scan_digits scan_signed scan_sign scan_int
parse_conf_file = refl

parse_conf-Accepts_example : Accepts (parse_conf inet_aton 7 (some file))
parse_conf-Accepts_example = parse_conf-Accepts inet_aton 7 (some file)

abbrev packet : DataMsg
packet = record { type = 3; ttl = 9; src_ip = 66; dst_ip = 67; payload_len = 0; payload = [] }

parse_conf-next_hop_down_example : forward_data little_endian conf.router packet ≢ next_hop_down 66
unfolding initial
parse_conf-next_hop_down_example =
    parse_conf-next_hop_down inet_aton 7 (some file) conf little_endian (initial inet_aton 7 conf)
      packet 66 parse_conf_file (tt, tt) (omega arith, tt) here
