-- ===== src/Router/Dv/Advert.antt =====
-- What `send_dv` puts on the wire.
use csci_4220_network_progra.Base.{
  ℕ, ◌+◌, ◌*◌, ◌%◌, ◌^◌, ◌≤◌, ◌≡◌, ◌≢◌, refl, ap, arith, List, [], ◌∷◌, map, length, length-map,
}
use csci_4220_network_progra.Net.{ByteOrder}
use csci_4220_network_progra.Router.Types.{
  Neighbor, RouteEntry, Router, DvEntry, inf_cost, max_dest,
}
use csci_4220_network_progra.Router.Dv.{told_cost, fill, send_dv}

pub told_cost-le : (nb : Neighbor) (e : RouteEntry) → e.cost ≤ inf_cost → told_cost nb e ≤ inf_cost
unfolding told_cost
told_cost-le nb e h = ground arith

-- A route through the neighbor itself is told as unreachable.
pub told_cost-poison :
    (nb : Neighbor) (e : RouteEntry) → nb.ip ≢ 0 → e.next_hop ≡ nb.ip → told_cost nb e ≡ inf_cost
unfolding told_cost
told_cost-poison nb e h via = ground arith

module _ (host : ByteOrder) (nb : Neighbor) where
  -- A route as the neighbor is told of it.
  abbrev pub advert : RouteEntry → DvEntry
  advert e = record { net = e.dest_net; mask = e.mask; cost = host.htons (told_cost nb e) }

  fill-map :
      (es : List RouteEntry) (num : ℕ)
      → num + length es ≤ max_dest
      → fill host nb es num ≡ map advert es
  unfolding fill
  fill-map [] num h = refl
  fill-map (e ∷ es) num h = ground (arith, fill-map es (num + 1))

  -- With at most MAX_DEST routes `send_dv` sends one entry for each, in the order of the table; the
  -- count reads back as the number of routes; and the datagram ends with the last entry, at 5 bytes
  -- for the header and 10 for each entry.
  pub send_dv-entries :
      (r : Router)
      → length r.routes ≤ max_dest
      → ((send_dv host r nb).msg.entries ≡ map advert r.routes)
        × (host.ntohs (send_dv host r nb).msg.num ≡ length r.routes)
        × ((send_dv host r nb).size ≡ 5 + 10 * length r.routes)
  unfolding send_dv
  send_dv-entries r h =
      let entries = fill-map r.routes 0 (omega arith) in
      let count : length (fill host nb r.routes 0) % 2 ^ 16 ≡ length r.routes =
        omega (arith, ap length entries, length-map r.routes advert) in
      let read = host.ntohs-htons (length r.routes) (omega arith) in
      (entries, rw count read, rw count (omega (arith, read)))
