-- ===== src/Router/Conf/Lines.antt =====
-- What each line of a configuration keeps.
use csci_4220_network_progra.Base.{
  ℕ, ◌≡◌, ◌≢◌, ◌≤◌, ◌<◌, refl, Bool, true, false, ◌||◌, Option, none, some, List, [], ◌∷◌, ◌++◌,
  leb, ◌==◌, if◌then◌else◌, length, take, drop, codes, set, get_elem?, arith, All, All-append,
  All-set, length-append, length-set, Bool-cases, Option-cases, inl, inr,
}
use csci_4220_network_progra.CString.{scan_string, scan_int}
use csci_4220_network_progra.Router.Types.{RouteEntry, Router}
use csci_4220_network_progra.Router.Table.{rt_find_or_add, find_index, fresh_route}
use csci_4220_network_progra.CString.{until_nul}
use csci_4220_network_progra.Router.Conf.{
  trim, begins, Conf, Parsed, died, crashed, undefined, parsed, write_route, route_words,
  route_line, neighbor_fields, neighbor_line, self_ip_line, conf_line, read_line, read_lines, blank,
}

-- A route of the configuration: connected at cost 0, or through a next hop at cost 1.
abbrev pub IsConfigured : RouteEntry → Type 0
IsConfigured e = (e.next_hop ≡ 0 → e.cost ≡ 0) × (e.next_hop ≢ 0 → e.cost ≡ 1)

pub record IsStart (r : Router) : Type 0 where
  pub few_neighbors : length r.neighbors ≤ 16
  pub few_routes : length r.routes ≤ 128
  pub alive : All (λ nb. nb.alive ≡ true) r.neighbors
  pub routes : All IsConfigured r.routes

-- What a step of the parser leaves, if it leaves a configuration.
abbrev pub Starts : Parsed → Type 0
Starts (parsed c) = IsStart (c.router)
Starts _ = Unit

set_last :
    (es : List RouteEntry) (f e : RouteEntry)
    → All IsConfigured es
    → IsConfigured e
    → All IsConfigured (set (es ++ f ∷ []) (length es) e)
set_last [] f e h ok = (ok, tt)
set_last (x ∷ es) f e h ok = (h.0, set_last es f e h.1 ok)

-- Writing a route over one that is there, or over a fresh one.
route-IsStart :
    (r : Router) (i : ℕ) (e : RouteEntry)
    → IsStart r
    → IsConfigured e
    → IsStart (record r { routes = set r.routes i e })
route-IsStart r i e h ok = record {
  few_neighbors = h.few_neighbors;
  few_routes = omega (arith, length-set r.routes i e, h.few_routes);
  alive = h.alive;
  routes = All-set IsConfigured r.routes i e h.routes ok;
}

module _ (inet_aton : List ℕ → Option ℕ) (now : ℕ) where
  write_route-Starts :
      (c : Conf) (hop : ℕ) (ifn : List ℕ) (net mask : ℕ)
      → IsStart (c.router)
      → Starts (write_route inet_aton now c hop ifn (rt_find_or_add now c.router net mask))
  unfolding write_route rt_find_or_add
  write_route-Starts c hop ifn net mask h =
      elim (Option-cases (find_index c.router.routes net mask)) [
        | inr (i, at) ↦ elim (Option-cases (get_elem? c.router.routes i)) [
          | inl n ↦ rw (rt_find_or_add, at, write_route, n) tt
          | inr (e, got) ↦
              rw (rt_find_or_add, at, write_route, got) (route-IsStart c.router i _ h (cost_ok e))
        ]
        | inl new ↦ elim (Bool-cases (leb 128 (length c.router.routes))) [
          | inl full ↦ rw (rt_find_or_add, new, full, write_route) tt
          | inr room ↦
              let es = c.router.routes in
              let f = fresh_route now net mask in
              elim (Option-cases (get_elem? (es ++ f ∷ []) (length es))) [
                | inl n ↦ rw (rt_find_or_add, new, room, write_route, n) tt
                | inr (e, got) ↦
                    rw (rt_find_or_add, new, room, write_route, got)
                      (record {
                        few_neighbors = h.few_neighbors;
                        few_routes = omega (
                          arith,
                          length-set (es ++ f ∷ []) (length es) (written e),
                          length-append es (f ∷ []),
                          below (length es) room,
                        );
                        alive = h.alive;
                        routes = set_last es f (written e) h.routes (cost_ok e);
                      })
              ]
        ]
      ]
    where
      written : RouteEntry → RouteEntry
      written e = record e {
        next_hop = hop;
        cost = if hop == 0 then 0 else 1;
        iface = take 7 ifn;
        last_update = now;
      }

      cost_ok : (e : RouteEntry) → IsConfigured (written e)
      cost_ok e = elim (Bool-cases (hop == 0)) [
        | inl own ↦ rw own ((λ _. refl), λ n. absurd (n (ground (arith, own))))
        | inr far ↦ rw far ((λ z. absurd (ground arith)), λ _. refl)
      ]

      below : (n : ℕ) → leb 128 n ≡ false → n < 128
      below n h = ground arith

  route_line-Starts :
      (c : Conf) (line : List ℕ) → IsStart (c.router) → Starts (route_line inet_aton now c line)
  unfolding route_line
  route_line-Starts c line h = elim (Option-cases (route_words inet_aton now line)) [
    | inl n ↦ rw (route_line, n) h
    | inr ((net, mask, nh, ifn), e) ↦ elim (Option-cases (inet_aton net)) [
      | inl n ↦ rw (route_line, e, n) tt
      | inr (a1, e1) ↦ elim (Option-cases (inet_aton mask)) [
        | inl n ↦ rw (route_line, e, e1, n) tt
        | inr (a2, e2) ↦ elim (Option-cases (inet_aton nh)) [
          | inl n ↦ rw (route_line, e, e1, e2, n) tt
          | inr (a3, e3) ↦ rw (route_line, e, e1, e2, e3) (write_route-Starts c a3 ifn a1 a2 h)
        ]
      ]
    ]
  ]

  neighbor_line-Starts :
      (c : Conf) (line : List ℕ) → IsStart (c.router) → Starts (neighbor_line inet_aton now c line)
  unfolding neighbor_line
  neighbor_line-Starts c line h = elim (Option-cases (neighbor_fields inet_aton now line)) [
    | inl n ↦ rw (neighbor_line, n) h
    | inr ((ip, port, cost), e) ↦ elim (Option-cases (inet_aton ip)) [
      | inl n ↦ rw (neighbor_line, e, n) tt
      | inr (a, e1) ↦ elim (Bool-cases (leb 16 (length c.router.neighbors))) [
        | inl full ↦ rw (neighbor_line, e, e1, full) tt
        | inr room ↦
            rw (neighbor_line, e, e1, room)
              (record {
                few_neighbors = omega (
                  arith,
                  length-append c.router.neighbors (_ ∷ []),
                  below (length c.router.neighbors) room,
                );
                few_routes = h.few_routes;
                alive = All-append _ c.router.neighbors (_ ∷ []) h.alive (refl, tt);
                routes = h.routes;
              })
      ]
    ]
  ]
    where
      below : (n : ℕ) → leb 16 n ≡ false → n < 16
      below n h = ground arith

  same_lists :
      (r q : Router) → q.neighbors ≡ r.neighbors → q.routes ≡ r.routes → IsStart r → IsStart q
  same_lists r q e f h = record {
    few_neighbors = rw e h.few_neighbors;
    few_routes = rw f h.few_routes;
    alive = rw e h.alive;
    routes = rw f h.routes;
  }

  self_ip_line-Starts :
      (c : Conf) (line : List ℕ) → IsStart (c.router) → Starts (self_ip_line inet_aton now c line)
  unfolding self_ip_line
  self_ip_line-Starts c line h = elim (Option-cases (scan_string 63 (drop 7 line))) [
    | inl n ↦ rw (self_ip_line, n) tt
    | inr ((ip, rest), e) ↦ elim (Option-cases (inet_aton ip)) [
      | inl n ↦ rw (self_ip_line, e, n) tt
      | inr (a, e1) ↦ rw (self_ip_line, e, e1) (same_lists c.router _ refl refl h)
    ]
  ]

  if-Starts : (b : Bool) (x y : Parsed) → Starts x → Starts y → Starts (if b then x else y)
  if-Starts true x y hx hy = hx
  if-Starts false x y hx hy = hy

  scan-Starts :
      (o : Option (ℕ × List ℕ)) (f : ℕ → Conf)
      → ((v : ℕ) → IsStart ((f v).router))
      → Starts (elim o [ none ↦ undefined | some (v, _) ↦ parsed (f v) ])
  scan-Starts none f h = tt
  scan-Starts (some (v, _)) f h = h v

  conf_line-Starts :
      (c : Conf) (line : List ℕ) → IsStart (c.router) → Starts (conf_line inet_aton now c line)
  unfolding conf_line
  conf_line-Starts c line h =
      if-Starts (begins line (codes "router_id")) _ _
        (scan-Starts (scan_int (drop 9 line)) _ (λ v. same_lists c.router _ refl refl h))
        (if-Starts (begins line (codes "self_ip")) _ _ (self_ip_line-Starts c line h) (
          if-Starts (begins line (codes "listen_port")) _ _
            (scan-Starts (scan_int (drop 11 line)) _ (λ v. same_lists c.router _ refl refl h))
            (if-Starts (begins line (codes "routes")) _ _ h (
              if-Starts (begins line (codes "neighbors")) _ _ h (
                if-Starts c.in_routes _ _ (route_line-Starts c line h)
                  (if-Starts c.in_neigh _ _ (neighbor_line-Starts c line h) h))))))

  read_line-Starts :
      (c : Conf) (chunk : List ℕ) → IsStart (c.router) → Starts (read_line inet_aton now c chunk)
  unfolding read_line
  read_line-Starts c chunk h =
      let line = trim (until_nul chunk) in
      if-Starts (length line == 0 || begins line (codes "#")) _ _ h (conf_line-Starts c line h)

  read_lines-Starts :
      (ls : List (List ℕ)) (c : Conf) → IsStart (c.router) → Starts (read_lines inet_aton now ls c)
  unfolding read_lines
  read_lines-Starts [] c h = h
  read_lines-Starts (l ∷ ls) c h =
      go (read_lines-Starts ls) (read_line inet_aton now c l) (read_line-Starts c l h)
    where
      go :
          ((c : Conf) → IsStart (c.router) → Starts (read_lines inet_aton now ls c))
          → (p : Parsed) → Starts p
          → Starts (elim p [
            | died ↦ died
            | crashed ↦ crashed
            | undefined ↦ undefined
            | parsed c' ↦ read_lines inet_aton now ls c'
          ])
      go ih died h = tt
      go ih crashed h = tt
      go ih undefined h = tt
      go ih (parsed c') h = ih c' h

  pub read_lines-blank :
      (ls : List (List ℕ)) → Starts (read_lines inet_aton now ls (blank inet_aton now))
  read_lines-blank ls =
      read_lines-Starts ls (blank inet_aton now)
        (record { few_neighbors = omega arith; few_routes = omega arith; alive = tt; routes = tt })
