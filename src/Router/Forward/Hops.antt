-- ===== src/Router/Forward/Hops.antt =====
-- What `forward_data` forwards, and how far a packet goes.
use csci_4220_network_progra.Base.{
  ℕ, zero, suc, ◌-◌, ◌<◌, ◌≡◌, ◌≢◌, ◌≤◌, ◌+◌, ◌↔◌, ◌==◌, refl, ap, not, ltb, leb, true, false, ◌⊎◌,
  inl, inr, Option, none, some, arith, Option-cases,
}
use csci_4220_network_progra.Net.{ByteOrder}
use csci_4220_network_progra.Router.Types.{
  DataMsg, Neighbor, RouteEntry, Router, inf_cost, get_data_port,
}
use csci_4220_network_progra.Router.Table.{rt_lookup}
use csci_4220_network_progra.Router.Forward.{
  Action, no_match, forward, is_down, is_connected, find_neighbor, hop, forward_via, forward_route,
  forward_data,
}

module _ (host : ByteOrder) where
  -- When a packet is forwarded, and as what: the port, the datagram, its size, and what is printed.
  pub record Forwarded (r : Router) (m : DataMsg) (port : ℕ) (out : DataMsg)
      (size via mask cost : ℕ) : Type 0 where
    pub route : RouteEntry
    pub nb : Neighbor
    pub looked_up : rt_lookup host r m.dst_ip ≡ some route
    pub reachable : route.cost < inf_cost
    pub not_connected : ¬ ((route.cost ≡ 0) × (route.next_hop ≡ 0))
    pub not_self : m.dst_ip ≢ r.self_ip
    pub living : 0 < m.ttl
    pub neighbor : find_neighbor r.neighbors (hop route m.dst_ip) ≡ some nb
    pub alive : nb.alive ≡ true
    pub to : port ≡ get_data_port nb.ctrl_port
    pub port_ok : port ≢ 0
    pub packet : out ≡ record m { ttl = m.ttl - 1 }
    pub short : host.ntohs m.payload_len ≤ 128
    pub whole : size ≡ 12 + host.ntohs m.payload_len
    pub printed : (via ≡ hop route m.dst_ip) × (mask ≡ route.mask) × (cost ≡ route.cost)

  forward_via-neighbor :
      (r : Router) (m : DataMsg) (route : RouteEntry) {port : ℕ} {out : DataMsg}
      {size via mask cost : ℕ}
      → forward_via host r m route ≡ forward port out size via mask cost
      → (nb : Neighbor) × (find_neighbor r.neighbors (hop route m.dst_ip) ≡ some nb)
        × (nb.alive ≡ true)
        × (port ≡ get_data_port nb.ctrl_port)
        × (port ≢ 0)
        × (out ≡ record m { ttl = m.ttl - 1 })
        × (host.ntohs m.payload_len ≤ 128)
        × (size ≡ 12 + host.ntohs m.payload_len)
        × ((via ≡ hop route m.dst_ip) × (mask ≡ route.mask) × (cost ≡ route.cost))
  unfolding forward_via
  forward_via-neighbor r m route h =
      elim (Option-cases (find_neighbor r.neighbors (hop route m.dst_ip))) [
        | inl e ↦ absurd (ground (arith, e))
        | inr (nb, e) ↦ (
          nb,
          e,
          ground (arith, e),
          ground (arith, e),
          ground (arith, e),
          ground (arith, e),
          ground (arith, e),
          ground (arith, e),
          ground (arith, e),
        )
      ]

  pub forward-Forwarded :
      (r : Router) (m : DataMsg) (port : ℕ) (out : DataMsg) (size via mask cost : ℕ)
      → forward_data host r m ≡ forward port out size via mask cost
      → Forwarded r m port out size via mask cost
  unfolding forward_data forward_route
  forward-Forwarded r m port out size via mask cost h =
      elim (Option-cases (rt_lookup host r m.dst_ip)) [
        | inl e ↦ absurd (ground (arith, e))
        | inr (route, e) ↦
            let (nb, f, alive, to, ok, packet, short, whole, printed) =
              forward_via-neighbor r m route {port = port} {out = out} {size = size} {via = via}
                {mask = mask} {cost = cost} (ground (arith, e)) in
            record {
              route = route;
              nb = nb;
              looked_up = e;
              reachable = ground (arith, e);
              not_connected = ground (arith, e);
              not_self = ground (arith, e);
              living = ground (arith, e);
              neighbor = f;
              alive = alive;
              to = to;
              port_ok = ok;
              packet = packet;
              short = short;
              whole = whole;
              printed = printed;
            }
      ]

  Forwarded-via :
      (r : Router) (m : DataMsg) (port : ℕ) (out : DataMsg) (size via mask cost : ℕ)
      → (f : Forwarded r m port out size via mask cost)
      → forward_via host r m (f.route) ≡ forward port out size via mask cost
  unfolding forward_via
  Forwarded-via r m port out size via mask cost f =
      let up : is_down (some (f.nb)) ≡ false = ap not f.alive in
      let open_port : (get_data_port (f.nb).ctrl_port == 0) ≡ false =
        let p = f.port_ok in let q = f.to in ground arith in
      let fits : ltb 128 (host.ntohs m.payload_len) ≡ false = let s = f.short in ground arith in
      let (v, k, c) = f.printed in
      simp (forward_via, f.neighbor, up, open_port, fits, f.to, f.packet, f.whole, v, k, c)

  Forwarded-forward :
      (r : Router) (m : DataMsg) (port : ℕ) (out : DataMsg) (size via mask cost : ℕ)
      → Forwarded r m port out size via mask cost
      → forward_data host r m ≡ forward port out size via mask cost
  unfolding forward_data forward_route
  Forwarded-forward r m port out size via mask cost f =
      let away : is_connected (some (f.route)) ≡ false = let n = f.not_connected in ground arith in
      let onward : (m.dst_ip == r.self_ip) ≡ false = let n = f.not_self in ground arith in
      let living : (m.ttl == 0) ≡ false = let n = f.living in ground arith in
      let finite : leb inf_cost (f.route).cost ≡ false = let n = f.reachable in ground arith in
      simp (
        forward_data,
        f.looked_up,
        away,
        onward,
        living,
        forward_route,
        finite,
        Forwarded-via r m port out size via mask cost f,
      )

  -- A packet is forwarded if and only if `rt_lookup` finds a route for its destination, which has a
  -- finite cost and is no network of the router's own, the destination is not the router, the TTL is
  -- not zero, the next hop is a living neighbor with a data port, and the payload has at most 128
  -- bytes.
  -- It then goes to that port, with the twelve bytes in front of the payload and the whole payload,
  -- and nothing in it changes but the TTL, which falls by one; the line that is printed names the
  -- next hop, and the mask and the cost of the route.
  pub forward_data-Forwarded :
      (r : Router) (m : DataMsg) (port : ℕ) (out : DataMsg) (size via mask cost : ℕ)
      → (forward_data host r m ≡ forward port out size via mask cost)
        ↔ Forwarded r m port out size via mask cost
  forward_data-Forwarded r m port out size via mask cost = (
    forward-Forwarded r m port out size via mask cost,
    Forwarded-forward r m port out size via mask cost,
  )

  -- The routers that listen on each data port.
  abbrev pub Network : Type 0
  Network = ℕ → Option Router

  -- A packet on its way from router to router, for at most `fuel` of them: where it ends, and what
  -- the last router does with it. `lost` is a port at which nobody listens.
  pub data End : Type 0 where
    lost : (port : ℕ) → End
    ended : (port : ℕ) → Action → End

  pub travel : ℕ → Network → ℕ → DataMsg → Option End
  travel zero net port m = none
  travel (suc fuel) net port m = elim (net port) [
    | none ↦ some (lost port)
    | some r ↦ elim (forward_data host r m) [
      | forward next out size via mask cost ↦ travel fuel net next out
      | other ↦ some (ended port other)
    ]
  ]

  Action-cases :
      (a : Action)
      → ((port : ℕ) × (out : DataMsg) × (size : ℕ) × (via : ℕ) × (mask : ℕ) × (cost : ℕ) × (a
            ≡ forward port out size via mask cost))
        ⊎ ((fuel : ℕ) (net : Network) (port : ℕ) (m : DataMsg) (r : Router)
            → net port ≡ some r
            → forward_data host r m ≡ a
            → travel (suc fuel) net port m ≡ some (ended port a))
  unfolding travel
  Action-cases (forward port out size via mask cost) = inl (port, out, size, via, mask, cost, refl)
  Action-cases (no_match dst) = inr (λ fuel net port m r e f. rw (e, travel) (rw (f, travel)))
  Action-cases other = inr (λ fuel net port m r e f. rw (e, travel) (rw (f, travel)))

  -- A packet with TTL t is forwarded at most t times in any network, whatever its tables say.
  pub travel-ne-none :
      (fuel : ℕ) (net : Network) (port : ℕ) (m : DataMsg)
      → m.ttl < fuel
      → travel fuel net port m ≢ none
  unfolding travel
  travel-ne-none zero net port m h e = absurd (omega arith)
  travel-ne-none (suc fuel) net port m h e = elim (Option-cases (net port)) [
    | inl gone ↦ absurd (ground (arith, e, gone))
    | inr (r, here) ↦ elim (Action-cases (forward_data host r m)) [
      | inr stops ↦ absurd (ground (arith, e, stops fuel net port m r here refl))
      | inl (next, out, size, via, mask, cost, a) ↦
          let f = forward-Forwarded r m next out size via mask cost a in
          travel-ne-none fuel net next out (ground (arith, f.living, f.packet))
            (ground (arith, e, here, a))
    ]
  ]
