-- ===== src/Router/Conf.antt =====
-- hw3/starter/router.c: `trim` and `parse_conf`, and how `main` starts.
pub mod Lines
pub mod Start
mod Tests
use csci_4220_network_progra.Base.{
  ℕ, zero, suc, ◌+◌, ◌-◌, ◌%◌, ◌^◌, Bool, true, false, ◌&&◌, ◌||◌, not, Option, none, some, List,
  [], ◌∷◌, ◌++◌, ltb, leb, ◌==◌, if◌then◌else◌, length, take, drop, set, get_elem?, codes,
}
use csci_4220_network_progra.CString.{is_space, scan_string, scan_int}
use csci_4220_network_progra.Router.Types.{
  Neighbor, RouteEntry, Router, max_neigh, update_interval_sec,
}
use csci_4220_network_progra.Router.Table.{rt_find_or_add}
use csci_4220_network_progra.CString.{until_nul}
use csci_4220_network_progra.Router.Loop.{State}

abbrev pub max_line : ℕ
max_line = 256

-- The white space at the end of a string goes.
unfoldable pub trim : List ℕ → List ℕ
trim [] = []
trim (c ∷ cs) = let rest = trim cs in if is_space c && length rest == 0 then [] else c ∷ rest

-- What `fgets` gives in turn: it stops behind a newline, or when the array is full.
unfoldable pub fgets_all : List ℕ → (line : List ℕ) → List (List ℕ)
fgets_all [] line = if length line == 0 then [] else line ∷ []
fgets_all (c ∷ cs) line = elim (c == 10 || leb (max_line - 2) (length line)) [
  | true ↦ (line ++ c ∷ []) ∷ fgets_all cs []
  | false ↦ fgets_all cs (line ++ c ∷ [])
]

-- `strncmp(line, s, strlen(s)) == 0`
unfoldable pub begins : List ℕ → List ℕ → Bool
begins line [] = true
begins [] (d ∷ ds) = false
begins (c ∷ cs) (d ∷ ds) = c == d && begins cs ds

pub record Conf : Type 0 where
  pub router : Router
  pub in_routes : Bool
  pub in_neigh : Bool

-- `die` has ended the program, a null pointer is written through, a variable is read that `sscanf` has
-- not set, or the configuration so far.
pub data Parsed : Type 0 where
  died crashed undefined : Parsed
  parsed : Conf → Parsed

module _ (inet_aton : List ℕ → Option ℕ) (now : ℕ) where
  -- The write to `*e`.
  unfoldable pub write_route : Conf → (next_hop : ℕ) → (ifn : List ℕ) → Option ℕ × Router → Parsed
  write_route c next_hop ifn (none, r) = crashed
  write_route c next_hop ifn (some i, r) = elim (get_elem? r.routes i) [
    | none ↦ crashed
    | some e ↦ parsed (record c {
      router = record r {
        routes = set r.routes i (record e {
          next_hop = next_hop;
          cost = if next_hop == 0 then 0 else 1;
          iface = take 7 ifn;
          last_update = now;
        });
      };
    })
  ]

  -- Four words, whatever stands behind them; a line with fewer is passed over.
  unfoldable pub route_words : List ℕ → Option (List ℕ × List ℕ × List ℕ × List ℕ)
  route_words line = elim (scan_string 63 line) [
    | none ↦ none
    | some (net, l1) ↦ elim (scan_string 63 l1) [
      | none ↦ none
      | some (mask, l2) ↦ elim (scan_string 63 l2) [
        | none ↦ none
        | some (nh, l3) ↦ elim (scan_string 15 l3) [
          | none ↦ none
          | some (ifn, l4) ↦ some (net, mask, nh, ifn)
        ]
      ]
    ]
  ]

  unfoldable pub route_line : Conf → List ℕ → Parsed
  unfolding write_route route_words
  route_line c line = elim (route_words line) [
    | none ↦ parsed c
    | some (net, mask, nh, ifn) ↦ elim (inet_aton net) [
      | none ↦ died
      | some a1 ↦ elim (inet_aton mask) [
        | none ↦ died
        | some a2 ↦ elim (inet_aton nh) [
          | none ↦ died
          | some a3 ↦ write_route c a3 ifn (rt_find_or_add now c.router a1 a2)
        ]
      ]
    ]
  ]

  -- A word and two numbers.
  unfoldable pub neighbor_fields : List ℕ → Option (List ℕ × ℕ × ℕ)
  neighbor_fields line = elim (scan_string 63 line) [
    | none ↦ none
    | some (ip, l1) ↦ elim (scan_int l1) [
      | none ↦ none
      | some (port, l2) ↦ elim (scan_int l2) [
        | none ↦ none
        | some (cost, l3) ↦ some (ip, port, cost)
      ]
    ]
  ]

  unfoldable pub neighbor_line : Conf → List ℕ → Parsed
  unfolding neighbor_fields
  neighbor_line c line = elim (neighbor_fields line) [
    | none ↦ parsed c
    | some (ip, port, cost) ↦ elim (inet_aton ip) [
      | none ↦ died
      | some a ↦
          if leb max_neigh (length c.router.neighbors)
          then died
          else parsed (record c {
            router = record (c.router) {
              neighbors =
                  c.router.neighbors
                  ++ record {
                    ip = a;
                    ctrl_port = port % 2 ^ 16;
                    cost = cost % 2 ^ 16;
                    last_heard = now;
                    alive = true;
                  }
                    ∷ [];
            };
          })
    ]
  ]

  unfoldable pub self_ip_line : Conf → List ℕ → Parsed
  self_ip_line c line = elim (scan_string 63 (drop 7 line)) [
    | none ↦ undefined
    | some (ip, _) ↦ elim (inet_aton ip) [
      | none ↦ died
      | some a ↦ parsed (record c { router = record (c.router) { self_ip = a } })
    ]
  ]

  -- The body of the loop for a line that is neither empty nor a comment.
  unfoldable pub conf_line : Conf → List ℕ → Parsed
  unfolding self_ip_line route_line neighbor_line
  conf_line c line =
      if begins line (codes "router_id")
      then (elim (scan_int (drop 9 line)) [
        | none ↦ undefined
        | some (v, _) ↦ parsed (record c { router = record (c.router) { self_id = v % 2 ^ 16 } })
      ])
      else if begins line (codes "self_ip")
      then self_ip_line c line
      else if begins line (codes "listen_port")
      then (elim (scan_int (drop 11 line)) [
        | none ↦ undefined
        | some (p, _) ↦ parsed (record c { router = record (c.router) { ctrl_port = p % 2 ^ 16 } })
      ])
      else if begins line (codes "routes")
      then parsed (record c { in_routes = true; in_neigh = false })
      else if begins line (codes "neighbors")
      then parsed (record c { in_routes = false; in_neigh = true })
      else if c.in_routes
      then route_line c line
      else if c.in_neigh
      then neighbor_line c line
      else parsed c

  -- A line as `fgets` leaves it; an empty one and a comment are passed over.
  unfoldable pub read_line : Conf → List ℕ → Parsed
  unfolding conf_line
  read_line c chunk =
      let line = trim (until_nul chunk) in
      if length line == 0 || begins line (codes "#") then parsed c else conf_line c line

  -- The loop, over what `fgets` gives.
  unfoldable pub read_lines : List (List ℕ) → Conf → Parsed
  unfolding read_line
  read_lines [] c = parsed c
  read_lines (l ∷ ls) c = elim (read_line c l) [
    | died ↦ died
    | crashed ↦ crashed
    | undefined ↦ undefined
    | parsed c' ↦ read_lines ls c'
  ]

  abbrev pub blank : Conf
  blank = record {
    router = record { self_id = 0; self_ip = 0; ctrl_port = 0; neighbors = []; routes = [] };
    in_routes = false;
    in_neigh = false;
  }

  -- The file that is open, or none.
  unfoldable pub parse_conf : Option (List ℕ) → Parsed
  unfolding read_lines fgets_all
  parse_conf none = died
  parse_conf (some file) = elim (read_lines (fgets_all file []) blank) [
    | died ↦ died
    | crashed ↦ crashed
    | undefined ↦ undefined
    | parsed c ↦ if c.router.self_ip == 0 || c.router.ctrl_port == 0 then died else parsed c
  ]

  -- What the loop of `main` starts from.
  unfoldable pub initial : Conf → State
  initial c = record { router = c.router; next_broadcast = now + update_interval_sec }
