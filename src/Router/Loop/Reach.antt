-- ===== src/Router/Loop/Reach.antt =====
-- The event loop over time: the states that it reaches, and what they exclude.
use csci_4220_network_progra.Base.{
  ℕ, ◌≡◌, ◌≢◌, subst, Option, none, some, List, [], length, Option-cases, inl, inr,
}
use csci_4220_network_progra.Net.{ByteOrder}
use csci_4220_network_progra.Router.Types.{DataMsg, DvMsg}
use mathlib.Core.Option.{some-injective}
use csci_4220_network_progra.Router.Loop.{
  State, Woken, interrupted, woken, Datagram, Event, check_loop, on_control, round, step,
}
use csci_4220_network_progra.Router.Table.Longest.{rt_lookup-All}
use csci_4220_network_progra.Router.Forward.{forward_data, next_hop_down}
use csci_4220_network_progra.Router.Forward.Down.{
  forward_data-Down, find_neighbor-alive, hop-next_hop,
}
use csci_4220_network_progra.Router.Loop.Alive.{
  IsAlive, IsUsable, check_loop-IsAlive, on_control-IsAlive,
}

module _ (host : ByteOrder) (now : ℕ) where
  abbrev AliveState : Option (State × List Event) → Type 0
  AliveState none = Unit
  AliveState (some out) = IsAlive out.0.router

  round-IsAlive :
      (s : State) (ctrl : Option (Datagram DvMsg)) (packet : Option (Datagram DataMsg))
      → IsAlive s.router
      → AliveState (round host now s ctrl packet)
  unfolding round
  round-IsAlive s none packet a =
      check_loop-IsAlive host now (length s.router.neighbors) 0 s.router a
  round-IsAlive s (some d) packet a =
      let r1 = (check_loop host now (length s.router.neighbors) 0 s.router).0 in
      let heard =
        on_control-IsAlive host now r1 d
          (check_loop-IsAlive host now (length s.router.neighbors) 0 s.router a) in
      elim (Option-cases (on_control host now r1 d)) [
        | inl e ↦ rw (e, round) tt
        | inr (out, e) ↦ rw (e, round) (rw e at heard)
      ]

  -- A round of the event loop, in which no call reads outside a message, keeps this of a router: the
  -- addresses of the neighbors are distinct and none is 0.0.0.0, and a route of finite cost has a next
  -- hop that is the address of no dead neighbor, and the cost 0 if it has no next hop.
  pub step-IsAlive :
      (s t : State) (w : Woken) (out : List Event)
      → IsAlive s.router
      → step host now s w ≡ some (t, out)
      → IsAlive t.router
  unfolding step
  step-IsAlive s t interrupted out a h =
      subst (λ (x : State × List Event). IsAlive x.0.router) (some-injective (s, []) (t, out) h) a
  step-IsAlive s t (woken ctrl packet) out a h = rw h at (round-IsAlive s ctrl packet a)

-- The states that the event loop runs through, at any times and with any datagrams.
pub data Reach (host : ByteOrder) (s : State) : State → Type 0 where
  here : Reach host s s
  next :
      {t u : State} (now : ℕ) (w : Woken) (out : List Event)
      → Reach host s t
      → step host now t w ≡ some (u, out)
      → Reach host s u

pub Reach-IsAlive :
    {host : ByteOrder} {s t : State} → IsAlive s.router → Reach host s t → IsAlive t.router
Reach-IsAlive a here = a
Reach-IsAlive {host} a (next {t} {u} now w out r h) =
    step-IsAlive host now t u w out (Reach-IsAlive a r) h

-- The branch `NEXT HOP DOWN` is dead. A router starts with neighbors whose addresses are distinct and
-- none of them 0.0.0.0, and with routes of finite cost whose next hops are the addresses of no dead
-- neighbor, at cost 0 where there is no next hop. Then no state of the event loop is reached in which
-- `forward_data` takes the branch.
pub Reach-next_hop_down :
    (host : ByteOrder) (s t : State) (m : DataMsg) (ip : ℕ)
    → IsAlive s.router
    → Reach host s t
    → forward_data host t.router m ≢ next_hop_down ip
Reach-next_hop_down host s t m ip a r h =
    let d = forward_data-Down host t.router m ip h in
    let usable =
      rt_lookup-All host m.dst_ip (IsUsable t.router.neighbors) t.router d.route
        (Reach-IsAlive a r).usable d.looked_up d.reachable in
    let onward : d.route.next_hop ≢ 0 = λ e. d.not_connected (usable.1 e, e) in
    let up = find_neighbor-alive t.router.neighbors d.route.next_hop usable.0 in
    cc (d.dead, up, hop-next_hop d.route m.dst_ip onward)
