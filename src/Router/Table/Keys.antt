-- ===== src/Router/Table/Keys.antt =====
-- The table seen through its keys: which entry a network and mask lead to.
use csci_4220_network_progra.Base.{
  All, subst, inl, inr, Bool-cases, ℕ, zero, suc, ◌≡◌, refl, Option, none, some, List, [], ◌∷◌,
  ◌++◌, arith, if◌then◌else◌, get_elem?, set,
}
use csci_4220_network_progra.Router.Types.{RouteEntry}
use csci_4220_network_progra.Router.Table.{has_key, find_index}

-- The first entry with the key.
unfoldable pub route_at : List RouteEntry → ℕ → ℕ → Option RouteEntry
route_at [] net mask = none
route_at (e ∷ es) net mask = if has_key e net mask then some e else route_at es net mask

-- No key stands twice.
abbrev pub Distinct : List RouteEntry → Type 0
Distinct [] = Unit
Distinct (e ∷ es) = (route_at es e.dest_net e.mask ≡ none) × Distinct es

-- What the search returns: an index that holds the entry, which has the key.
pub record Holds (es : List RouteEntry) (net mask i : ℕ) : Type 0 where
  pub entry : RouteEntry
  pub at : get_elem? es i ≡ some entry
  pub found : route_at es net mask ≡ some entry
  pub net_eq : entry.dest_net ≡ net
  pub mask_eq : entry.mask ≡ mask

pub find_index-Holds :
    (es : List RouteEntry) (net mask i : ℕ) → find_index es net mask ≡ some i → Holds es net mask i
unfolding find_index route_at
find_index-Holds [] net mask i h = cc
find_index-Holds (e ∷ es) net mask zero h = record {
  entry = e;
  at = refl;
  found = ground arith;
  net_eq = ground arith;
  mask_eq = ground arith;
}
find_index-Holds (e ∷ es) net mask (suc i) h =
    let rest = find_index-Holds es net mask i (ground arith) in
    record {
      entry = rest.entry;
      at = rest.at;
      found = ground arith;
      net_eq = rest.net_eq;
      mask_eq = rest.mask_eq;
    }

pub find_index-none :
    (es : List RouteEntry) (net mask : ℕ)
    → find_index es net mask ≡ none
    → route_at es net mask ≡ none
unfolding find_index route_at
find_index-none [] net mask h = refl
find_index-none (e ∷ es) net mask h = ground (arith, find_index-none es net mask)

-- Writing an entry with the same key changes what that key leads to, and nothing else.
pub route_at-set :
    (es : List RouteEntry) (net mask i : ℕ) (e' : RouteEntry) (n m : ℕ)
    → find_index es net mask ≡ some i
    → e'.dest_net ≡ net
    → e'.mask ≡ mask
    → route_at (set es i e') n m ≡ (if has_key e' n m then some e' else route_at es n m)
unfolding find_index route_at
route_at-set [] net mask i e' n m h p q = cc
route_at-set (e ∷ es) net mask zero e' n m h p q = ground arith
route_at-set (e ∷ es) net mask (suc i) e' n m h p q =
    ground (arith, route_at-set es net mask i e' n m)

pub route_at-append :
    (es : List RouteEntry) (e : RouteEntry) (n m : ℕ)
    → route_at es e.dest_net e.mask ≡ none
    → route_at (es ++ e ∷ []) n m ≡ (if has_key e n m then some e else route_at es n m)
unfolding route_at
route_at-append [] e n m h = refl
route_at-append (x ∷ es) e n m h = ground (arith, route_at-append es e n m)

-- An entry that a key leads to stands in the table.
pub route_at-All {κ} :
    (P : RouteEntry → Type κ) (es : List RouteEntry) (n m : ℕ) {e : RouteEntry}
    → All P es
    → route_at es n m ≡ some e
    → P e
unfolding route_at
route_at-All P [] n m h at = cc
route_at-All P (x ∷ es) n m h at = elim (Bool-cases (has_key x n m)) [
  | inl hit ↦ subst P (ground (arith, hit, at)) h.0
  | inr miss ↦ route_at-All P es n m h.1 (ground (arith, miss, at))
]
