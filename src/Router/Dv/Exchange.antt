-- ===== src/Router/Dv/Exchange.antt =====
-- A router sends its vector to a neighbor, and the neighbor takes it in.
use csci_4220_network_progra.Base.{
  ℕ, ◌≤◌, ◌≡◌, refl, ◌∙◌, ◌≢◌, sym, subst, ap, Bool, true, false, ltb, arith, List, [], ◌∷◌, ◌++◌,
  map, length, All, Bool-cases, Option-cases, Option, none, some, inl, inr,
}
use csci_4220_network_progra.Net.{ByteOrder}
use csci_4220_network_progra.Router.Types.{
  Neighbor, RouteEntry, Router, DvEntry, DvMsg, inf_cost, max_dest,
}
use csci_4220_network_progra.Router.Table.{has_key}
use csci_4220_network_progra.Router.Table.Keys.{route_at, route_at-All, Distinct}
use csci_4220_network_progra.Router.Table.Add.{current}
use csci_4220_network_progra.Router.Dv.{told_cost, send_dv, dv_entry, dv_loop, dv_update}
use csci_4220_network_progra.Router.Dv.Relax.{settled, settled-poison}
use csci_4220_network_progra.Router.Dv.Table.{IsTable, has_room, dv_entry-route_at}
use csci_4220_network_progra.Router.Dv.Size.{dv_entry-length}
use mathlib.Core.Option.{some-injective}
use csci_4220_network_progra.Router.Dv.Advert.{
  advert, told_cost-le, told_cost-poison, send_dv-entries,
}

-- The message as it stands in the receiver's buffer: what was sent, and then whatever the buffer
-- held before.
abbrev pub received : DvMsg → List DvEntry → DvMsg
received m rest = record m { entries = m.entries ++ rest }

-- What one round, or a whole message, does to the route for a network, when the table then has
-- `size` entries: it settles with the cost `c`, or there was none and there is none, since the table
-- is full.
pub data Update (now : ℕ) (nb : Neighbor) (c net mask size : ℕ) (before : Option RouteEntry)
    : Option RouteEntry → Type 0 where
  settles :
      Update now nb c net mask size before (some (settled now nb c (current now before net mask)))
  no_place : before ≡ none → max_dest ≤ size → Update now nb c net mask size before none

-- The table grows.
Update-grows :
    {now : ℕ} {nb : Neighbor} {c net mask size more : ℕ} {before out : Option RouteEntry}
    → size ≤ more
    → Update now nb c net mask size before out
    → Update now nb c net mask more before out
Update-grows le settles = settles
Update-grows le (no_place absent full) = no_place absent (omega arith)

Update-settled :
    {now : ℕ} {nb : Neighbor} {c net mask size : ℕ} {before out : Option RouteEntry}
    {after : RouteEntry}
    → Update now nb c net mask size before out
    → out ≡ some after
    → after ≡ settled now nb c (current now before net mask)
Update-settled settles h = cc
Update-settled (no_place none_left full) h = cc

current_small :
    (now : ℕ) (es : List RouteEntry) (n m : ℕ)
    → All (λ e. e.cost ≤ inf_cost) es
    → (current now (route_at es n m) n m).cost ≤ inf_cost
current_small now es n m small = elim (Option-cases (route_at es n m)) [
  | inl absent ↦ rw absent (omega arith)
  | inr (e, at) ↦ rw at (route_at-All (λ x. x.cost ≤ inf_cost) es n m small at)
]

has_room-full : (es : List RouteEntry) (n m : ℕ) → has_room es n m ≡ false → max_dest ≤ length es
unfolding route_at
has_room-full es n m h = elim (Option-cases (route_at es n m)) [
  | inl absent ↦
      let over : ltb (length es) max_dest ≡ false = (rw (has_room, absent) at h) in ground arith
  | inr (e, at) ↦ let no : true ≡ false = (rw (has_room, at) at h) in cc
]

module _ (host : ByteOrder) (now : ℕ) (nb : Neighbor) (me : Neighbor) where
  -- `me` is the receiver as the sender knows it, `nb` the sender as the receiver knows it.
  loop-route_at-none :
      (es : List RouteEntry) (rest : List DvEntry) (s q : Router × Bool) (n m : ℕ)
      → route_at es n m ≡ none
      → dv_loop host now nb (length es) (map (advert host me) es ++ rest) s ≡ some q
      → route_at q.0.routes n m ≡ route_at s.0.routes n m
  unfolding dv_loop route_at
  loop-route_at-none [] rest s q n m absent h = ground arith
  loop-route_at-none (e ∷ es) rest (r, c) q n m absent h = ground (
    arith,
    loop-route_at-none es rest (dv_entry host now nb (advert host me e) (r, c)) q n m,
    dv_entry-route_at host now nb (advert host me e) r c n m,
  )

  loop-length :
      (es : List RouteEntry) (rest : List DvEntry) (s q : Router × Bool)
      → dv_loop host now nb (length es) (map (advert host me) es ++ rest) s ≡ some q
      → length s.0.routes ≤ length q.0.routes
  unfolding dv_loop
  loop-length [] rest s q h =
      let same = ap (λ (x : Router × Bool). length x.0.routes) (some-injective s q h) in omega arith
  loop-length (e ∷ es) rest (r, c) q h =
      let one = dv_entry-length host now nb (advert host me e) r c in
      let others = loop-length es rest (dv_entry host now nb (advert host me e) (r, c)) q h in
      omega arith

  dv_entry-Update :
      (e : RouteEntry) (r : Router) (c : Bool)
      → e.cost ≤ inf_cost
      → Update now nb
          (told_cost me e)
          e.dest_net
          e.mask
          (length (dv_entry host now nb (advert host me e) (r, c)).0.routes)
          (route_at r.routes e.dest_net e.mask)
          (route_at (dv_entry host now nb (advert host me e) (r, c)).0.routes e.dest_net e.mask)
  dv_entry-Update e r c small =
      let after = dv_entry-route_at host now nb (advert host me e) r c e.dest_net e.mask in
      let told = host.ntohs-htons (told_cost me e) (omega (arith, told_cost-le me e small)) in
      elim (Bool-cases (has_room r.routes e.dest_net e.mask)) [
        | inl room ↦
            subst (Update now nb (told_cost me e) e.dest_net e.mask _ _)
              (sym (ground (arith, after, told, room))) settles
        | inr none_left ↦
            let full = has_room-full r.routes e.dest_net e.mask none_left in
            let grown = dv_entry-length host now nb (advert host me e) r c in
            subst (Update now nb (told_cost me e) e.dest_net e.mask _ _)
              (sym (ground (arith, after, none_left)))
              (no_place (ground (arith, none_left)) (omega arith))
      ]

  loop-Update :
      (es : List RouteEntry) (rest : List DvEntry) (s q : Router × Bool) (n m : ℕ) (e : RouteEntry)
      → Distinct es
      → All (λ x. x.cost ≤ inf_cost) es
      → route_at es n m ≡ some e
      → dv_loop host now nb (length es) (map (advert host me) es ++ rest) s ≡ some q
      → Update now nb
          (told_cost me e)
          n
          m
          (length q.0.routes)
          (route_at s.0.routes n m)
          (route_at q.0.routes n m)
  unfolding dv_loop route_at
  loop-Update [] rest s q n m e d small at h = cc
  loop-Update (x ∷ es) rest (r, c) q n m e d small at h = elim (Bool-cases (has_key x n m)) [
    | inl hit ↦
        let dest : x.dest_net ≡ n = ground (arith, hit) in
        let width : x.mask ≡ m = ground (arith, hit) in
        let this : x ≡ e = ground (arith, hit, at) in
        let s1 = dv_entry host now nb (advert host me x) (r, c) in
        rw (← dest, ← width, ← this)
          (rw (loop-route_at-none es rest s1 q x.dest_net x.mask d.0 h)
            (Update-grows (loop-length es rest s1 q h) (dv_entry-Update x r c small.0)))
    | inr miss ↦
        let s1 = dv_entry host now nb (advert host me x) (r, c) in
        let same : route_at s1.0.routes n m ≡ route_at r.routes n m =
          ground (arith, miss, dv_entry-route_at host now nb (advert host me x) r c n m) in
        subst
          (λ b. Update now nb (told_cost me e) n m (length q.0.routes) b (route_at q.0.routes n m))
          same (loop-Update es rest s1 q n m e d.1 small.1 (ground (arith, miss, at)) h)
  ]

  loop_total :
      (es : List RouteEntry) (rest : List DvEntry) (s : Router × Bool)
      → (q : Router × Bool) × (dv_loop host now nb (length es) (map (advert host me) es ++ rest) s
          ≡ some q)
  unfolding dv_loop
  loop_total [] rest s = (s, refl)
  loop_total (e ∷ es) rest s = loop_total es rest (dv_entry host now nb (advert host me e) s)

  dv_update-received :
      (sender r : Router) (rest : List DvEntry)
      → IsTable sender.routes
      → dv_update host now nb r (received (send_dv host sender me).msg rest)
        ≡ dv_loop host now nb
            (length sender.routes)
            (map (advert host me) sender.routes ++ rest)
            (r, false)
  unfolding dv_update
  dv_update-received sender r rest t =
      let sent = send_dv-entries host me sender t.small in rw (sent.0, sent.1)

  -- A router `r` takes in the vector that `sender` sent it. The message is taken in whole, whatever
  -- the buffer held behind it; and the route for a network in the sender's table settles with the
  -- cost that the sender told, unless the router had no route for the network and its table ends up
  -- full, with MAX_DEST entries or more; then it has none afterwards.
  pub exchange-Update :
      (sender r : Router) (rest : List DvEntry) (n m : ℕ) (e : RouteEntry)
      → IsTable sender.routes
      → route_at sender.routes n m ≡ some e
      → (q : Router × Bool) × (dv_update host now nb r (received (send_dv host sender me).msg rest)
          ≡ some q)
        × Update now nb
            (told_cost me e)
            n
            m
            (length q.0.routes)
            (route_at r.routes n m)
            (route_at q.0.routes n m)
  exchange-Update sender r rest n m e t at =
      let (q, run) = loop_total sender.routes rest (r, false) in
      (
        q,
        dv_update-received sender r rest t ∙ run,
        loop-Update sender.routes rest (r, false) q n m e t.distinct t.costs at run,
      )

  -- Split horizon with poison reverse: after a router has taken in the vector of a neighbor, it has
  -- no path of finite cost through that neighbor to a network that the neighbor reaches through it.
  pub exchange_no_loop :
      (sender r : Router) (rest : List DvEntry) (q : Router × Bool) (n m : ℕ) (e after : RouteEntry)
      → IsTable sender.routes
      → IsTable r.routes
      → dv_update host now nb r (received (send_dv host sender me).msg rest) ≡ some q
      → route_at sender.routes n m ≡ some e
      → e.next_hop ≡ me.ip
      → me.ip ≢ 0
      → route_at q.0.routes n m ≡ some after
      → after.next_hop ≡ nb.ip
      → after.cost ≡ inf_cost
  exchange_no_loop sender r rest q n m e after t t' run at via known found back =
      let told : told_cost me e ≡ inf_cost = told_cost-poison me e known via in
      let u =
        loop-Update sender.routes rest (r, false) q n m e t.distinct t.costs at
          (sym (dv_update-received sender r rest t) ∙ run) in
      let small = current_small now r.routes n m t'.costs in
      let cost : after ≡ settled now nb inf_cost (current now (route_at r.routes n m) n m) =
        rw (← told) (Update-settled u found) in
      rw cost
        (settled-poison now nb (current now (route_at r.routes n m) n m) small (rw cost at back))
