-- ===== src/Router/Conf/Start.antt =====
-- The router that a configuration gives.
use csci_4220_network_progra.Base.{
  ℕ, ◌≡◌, ◌≢◌, subst, ◌||◌, Option, none, some, List, [], ◌==◌, if◌then◌else◌, arith, All, All-imp,
  Bool-cases, inl, inr,
}
use csci_4220_network_progra.Net.{ByteOrder}
use csci_4220_network_progra.Router.Types.{DataMsg, Router}
use csci_4220_network_progra.Router.Forward.{forward_data, next_hop_down}
use csci_4220_network_progra.Router.Loop.{State}
use csci_4220_network_progra.Router.Loop.Alive.{UniqueIps, IsAlive}
use csci_4220_network_progra.Router.Loop.Reach.{Reach, Reach-next_hop_down}
use csci_4220_network_progra.Router.Conf.{
  Conf, Parsed, died, crashed, undefined, parsed, read_lines, fgets_all, blank, parse_conf, initial,
}
use csci_4220_network_progra.Router.Conf.Lines.{IsStart, Starts, read_lines-blank}

-- What the parser accepts: at most 16 neighbors, all of them alive, at most 128 routes, each connected
-- at cost 0 or through a next hop at cost 1, and an address and a port of the router that are not
-- zero.
abbrev pub Accepts : Parsed → Type 0
Accepts (parsed c) = IsStart (c.router) × (c.router.self_ip ≢ 0) × (c.router.ctrl_port ≢ 0)
Accepts _ = Unit

-- Every configuration file that is accepted gives a router with at most 16 neighbors, all of them
-- alive, at most 128 routes, each at cost 0 where it has no next hop and at cost 1 where it has one,
-- and an address and a control port that are not zero.
pub parse_conf-Accepts :
    (inet_aton : List ℕ → Option ℕ) (now : ℕ) (file : Option (List ℕ))
    → Accepts (parse_conf inet_aton now file)
unfolding parse_conf
parse_conf-Accepts inet_aton now none = tt
parse_conf-Accepts inet_aton now (some file) =
    go (read_lines inet_aton now (fgets_all file []) (blank inet_aton now))
      (read_lines-blank inet_aton now (fgets_all file []))
  where
    go :
        (p : Parsed)
        → Starts p
        → Accepts (elim p [
          | died ↦ died
          | crashed ↦ crashed
          | undefined ↦ undefined
          | parsed c ↦ if c.router.self_ip == 0 || c.router.ctrl_port == 0 then died else parsed c
        ])
    go died h = tt
    go crashed h = tt
    go undefined h = tt
    go (parsed c) h = elim (Bool-cases (c.router.self_ip == 0 || c.router.ctrl_port == 0)) [
      | inl missing ↦ rw missing tt
      | inr given ↦ rw given (h, ground (arith, given), ground (arith, given))
    ]

usable :
    (r : Router) → IsStart r → UniqueIps r.neighbors → All (λ nb. nb.ip ≢ 0) r.neighbors → IsAlive r
usable r h unique nonzero = record {
  unique = unique;
  nonzero = nonzero;
  usable =
      All-imp r.routes (λ e ok small. (All-imp r.neighbors (λ nb up _. up) h.alive, ok.0)) h.routes;
}

-- A router that starts from a configuration file whose neighbors have distinct addresses, none of
-- them 0.0.0.0, never prints NEXT HOP DOWN.
pub parse_conf-next_hop_down :
    (inet_aton : List ℕ → Option ℕ) (now : ℕ) (file : Option (List ℕ)) (c : Conf) (host : ByteOrder)
    (t : State) (m : DataMsg) (ip : ℕ)
    → parse_conf inet_aton now file ≡ parsed c
    → UniqueIps c.router.neighbors
    → All (λ nb. nb.ip ≢ 0) c.router.neighbors
    → Reach host (initial inet_aton now c) t
    → forward_data host t.router m ≢ next_hop_down ip
unfolding initial
parse_conf-next_hop_down inet_aton now file c host t m ip e unique nonzero r =
    let accepted : Accepts (parsed c) = subst Accepts e (parse_conf-Accepts inet_aton now file) in
    Reach-next_hop_down host (initial inet_aton now c) t m ip
      (usable c.router accepted.0 unique nonzero) r
