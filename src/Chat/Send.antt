-- ===== src/Chat/Send.antt =====
-- hw2/chatroom_server.c: `send_to_client`, over what `send` returns.
use mathlib.Core.List.{append_assoc}
use csci_4220_network_progra.Base.{
  ℕ, zero, suc, ◌+◌, ◌≡◌, ◌≤◌, ◌<◌, ◌⊎◌, inl, inr, refl, sym, ap, ◌∙◌, true, false, Option, none,
  some, List, [], ◌∷◌, ◌++◌, ◌==◌, length, take, drop, arith, Bool-cases, length-drop, take-drop,
}

-- The loop with the bytes that are left. The `i`-th call of `send` gets all of them and returns how many
-- it has taken, or 0 for an error too. There is fuel for as many calls; `none` is a loop that goes on.
unfoldable pub send_loop :
    (send : ℕ → List ℕ → ℕ) → (fuel i : ℕ) → (left : List ℕ) → Option (List ℕ)
send_loop send fuel i [] = some []
send_loop send zero i (c ∷ cs) = none
send_loop send (suc fuel) i (c ∷ cs) = elim (send i (c ∷ cs) == 0) [
  | true ↦ some []
  | false ↦ elim (send_loop send fuel (i + 1) (drop (send i (c ∷ cs)) (c ∷ cs))) [
    | none ↦ none
    | some out ↦ some (take (send i (c ∷ cs)) (c ∷ cs) ++ out)
  ]
]

-- The bytes that have gone out.
unfoldable pub send_to_client : (send : ℕ → List ℕ → ℕ) → (msg : List ℕ) → Option (List ℕ)
send_to_client send msg = send_loop send (length msg) 0 msg

send_loop-left :
    (send : ℕ → List ℕ → ℕ) (fuel i : ℕ) (msg : List ℕ)
    → ((j : ℕ) (s : List ℕ) → send j s ≤ length s)
    → length msg ≤ fuel
    → (out rest : List ℕ) × (send_loop send fuel i msg ≡ some out)
      × (msg ≡ out ++ rest)
      × ((rest ≡ []) ⊎ ((j : ℕ) × (send j rest ≡ 0)))
unfolding send_loop
send_loop-left send zero i [] part h = ([], [], refl, refl, inl refl)
send_loop-left send (suc fuel) i [] part h = ([], [], refl, refl, inl refl)
send_loop-left send zero i (c ∷ cs) part h = absurd (omega (arith, h))
send_loop-left send (suc fuel) i (c ∷ cs) part h = elim (Bool-cases (send i (c ∷ cs) == 0)) [
  | inl failed ↦ ([], c ∷ cs, rw (send_loop, failed) refl, refl, inr (i, ground (arith, failed)))
  | inr some_bytes ↦
      let k = send i (c ∷ cs) in
      let positive : 0 < k = ground (arith, some_bytes) in
      let shorter : length (drop k (c ∷ cs)) ≤ fuel =
        omega (arith, h, length-drop k (c ∷ cs), positive) in
      let (out, rest, e, split, end) =
        send_loop-left send fuel (i + 1) (drop k (c ∷ cs)) part shorter in
      (
        take k (c ∷ cs) ++ out,
        rest,
        rw (send_loop, some_bytes, e) refl,
        sym (take-drop k (c ∷ cs))
            ∙ (ap (λ (t : List ℕ). take k (c ∷ cs) ++ t) split
                ∙ sym (append_assoc (take k (c ∷ cs)) out rest)),
        end,
      )
]

-- However `send` cuts the text, the loop ends, and what has gone out is the front of the text. It is
-- the whole text unless `send` has failed, or taken nothing, on what is left of it.
pub send_to_client-left :
    (send : ℕ → List ℕ → ℕ) (msg : List ℕ)
    → ((j : ℕ) (s : List ℕ) → send j s ≤ length s)
    → (out rest : List ℕ) × (send_to_client send msg ≡ some out)
      × (msg ≡ out ++ rest)
      × ((rest ≡ []) ⊎ ((j : ℕ) × (send j rest ≡ 0)))
unfolding send_to_client
send_to_client-left send msg part = send_loop-left send (length msg) 0 msg part (omega arith)
