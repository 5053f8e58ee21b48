-- ===== src/Router/Table/Longest.antt =====
-- `rt_lookup` finds the longest prefix.
use mathlib.Core.Option.{some-injective}
use csci_4220_network_progra.Base.{
  ℕ, ◌≤◌, ◌<◌, ◌≡◌, refl, ap, subst, true, ◌&&◌, ◌⊎◌, inl, inr, Option, none, some, List, [], ◌∷◌,
  ◌++◌, arith, ltb, All, All-middle, Bool-cases,
}
use csci_4220_network_progra.Net.{ByteOrder}
use csci_4220_network_progra.Router.Types.{RouteEntry, Router}
use csci_4220_network_progra.Router.Table.{covers, lookup_loop, rt_lookup}

module _ (host : ByteOrder) (dst : ℕ) where
  -- The mask of an entry as a number, most significant byte first.
  abbrev pub width : RouteEntry → ℕ
  width e = host.ntohl e.mask

  -- An entry that covers `dst` has a mask of at most, or of less than, `w`.
  abbrev pub AtMost : ℕ → RouteEntry → Type 0
  AtMost w e = covers e dst ≡ true → width e ≤ w

  abbrev pub Under : ℕ → RouteEntry → Type 0
  Under w e = covers e dst ≡ true → width e < w

  -- `best` is the first entry of those with the widest mask among the entries that cover `dst`, and
  -- its mask is wider than `w`.
  pub record Longest (es : List RouteEntry) (w : ℕ) (best : RouteEntry) : Type 0 where
    pub before : List RouteEntry
    pub after : List RouteEntry
    pub split : es ≡ before ++ best ∷ after
    pub covering : covers best dst ≡ true
    pub wider : w < width best
    pub earlier : All (Under (width best)) before
    pub later : All (AtMost (width best)) after

  lookup_loop-Longest :
      (es : List RouteEntry) (best : Option RouteEntry) (best_mask : ℕ)
      → ((lookup_loop host dst es best best_mask ≡ best) × All (AtMost (host.ntohl best_mask)) es)
        ⊎ ((e : RouteEntry) × (lookup_loop host dst es best best_mask ≡ some e)
            × Longest es (host.ntohl best_mask) e)
  unfolding lookup_loop
  lookup_loop-Longest [] best best_mask = inl (refl, tt)
  lookup_loop-Longest (e ∷ es) best best_mask =
      elim (Bool-cases (covers e dst && ltb (host.ntohl best_mask) (width e))) [
        | inl better ↦ rw better (elim (lookup_loop-Longest es (some e) e.mask) [
          | inl (same, rest) ↦ inr (
            e,
            same,
            record {
              before = [];
              after = es;
              split = refl;
              covering = ground arith;
              wider = ground arith;
              earlier = tt;
              later = rest;
            },
          )
          | inr (b, found, l) ↦ inr (
            b,
            found,
            record {
              before = e ∷ l.before;
              after = l.after;
              split = ap (◌∷◌ e) l.split;
              covering = l.covering;
              wider = ground arith;
              earlier = ((λ _. l.wider), l.earlier);
              later = l.later;
            },
          )
        ])
        | inr worse ↦ rw worse (elim (lookup_loop-Longest es best best_mask) [
          | inl (same, rest) ↦ inl (same, ((λ c. ground arith), rest))
          | inr (b, found, l) ↦ inr (
            b,
            found,
            record {
              before = e ∷ l.before;
              after = l.after;
              split = ap (◌∷◌ e) l.split;
              covering = l.covering;
              wider = l.wider;
              earlier = ((λ c. ground arith), l.earlier);
              later = l.later;
            },
          )
        ])
      ]

  -- What `rt_lookup` returns, with nothing assumed of the table.
  pub data LookedUp (es : List RouteEntry) : Option RouteEntry → Type 0 where
    nothing : All (AtMost 0) es → LookedUp es none
    longest : (e : RouteEntry) → Longest es 0 e → LookedUp es (some e)

  -- `rt_lookup` returns the first entry of those with the widest mask among the entries that cover
  -- the address, and that mask is not zero; or it returns NULL, and then every entry that covers
  -- the address has the mask zero.
  pub rt_lookup-LookedUp : (r : Router) → LookedUp r.routes (rt_lookup host r dst)
  unfolding rt_lookup
  rt_lookup-LookedUp r = elim (lookup_loop-Longest r.routes none 0) [
    | inl (same, rest) ↦ rw same (nothing (rw host.ntohl-zero at rest))
    | inr (e, found, l) ↦ rw found (longest e (rw host.ntohl-zero at l))
  ]

  no_default :
      (es : List RouteEntry) (found : Option RouteEntry)
      → All (λ e. covers e dst ≡ true → e.mask ≡ 0) es
      → LookedUp es found
      → found ≡ none
  no_default es found h (nothing _) = refl
  no_default es found h (longest e l) =
      let zero_mask : e.mask ≡ 0 =
        All-middle (λ x. covers x dst ≡ true → x.mask ≡ 0) l.before e l.after
          (subst (All (λ x. covers x dst ≡ true → x.mask ≡ 0)) l.split h) l.covering in
      absurd (omega (arith, l.wider, ap host.ntohl zero_mask, host.ntohl-zero))

  -- A table in which only default routes (mask 0.0.0.0) cover the address has no match.
  pub rt_lookup-default :
      (r : Router)
      → All (λ e. covers e dst ≡ true → e.mask ≡ 0) r.routes
      → rt_lookup host r dst ≡ none
  rt_lookup-default r h = no_default r.routes (rt_lookup host r dst) h (rt_lookup-LookedUp r)

  looked_up-All {κ} :
      (P : RouteEntry → Type κ) (es : List RouteEntry) {found : Option RouteEntry} (e : RouteEntry)
      → All P es
      → LookedUp es found
      → found ≡ some e
      → P e
  looked_up-All P es e h (nothing _) at = cc
  looked_up-All P es e h (longest b l) at =
      subst P (some-injective b e at) (All-middle P l.before b l.after (subst (All P) l.split h))

  -- What `rt_lookup` returns stands in the table.
  pub rt_lookup-All {κ} :
      (P : RouteEntry → Type κ) (r : Router) (e : RouteEntry)
      → All P r.routes
      → rt_lookup host r dst ≡ some e
      → P e
  rt_lookup-All P r e h at = looked_up-All P r.routes e h (rt_lookup-LookedUp r) at
