-- ===== src/Tftp/Request/Ports.antt =====
-- The ports that the server gives to its children.
use native.Mathlib.Nat.{mod-add-mod, mod-eq_of_lt}
use csci_4220_network_progra.Base.{
  ℕ, zero, suc, ◌+◌, ◌-◌, ◌%◌, ◌<◌, ◌≡◌, sym, ap, ◌∙◌, ltb, arith, Bool-cases, inl, inr, ltb→lt,
  ltb-false→le,
}
use csci_4220_network_progra.Tftp.Request.{next_port, child_port}

suc-mod_lt : (n d : ℕ) → n % d + 1 < d → suc n % d ≡ n % d + 1
suc-mod_lt n d h = ap (λ (t : ℕ). t % d) (omega arith) ∙ (sym (mod-add-mod n d 1) ∙ mod-eq_of_lt h)

suc-mod_eq : (n d : ℕ) → 0 < d → n % d + 1 ≡ d → suc n % d ≡ 0
suc-mod_eq n d pos h =
    ap (λ (t : ℕ). t % d) (omega arith) ∙ (sym (mod-add-mod n d 1) ∙ (rw h (grind arith)))

-- The children take the ports after the listening port in turn, and begin again after the last.
pub child_port-mod :
    (start_port end_port n : ℕ)
    → start_port < end_port
    → child_port start_port end_port n ≡ start_port + 1 + n % (end_port - start_port)
unfolding child_port next_port
child_port-mod s e zero h = omega arith
child_port-mod s e (suc n) h =
    let ih = child_port-mod s e n h in
    elim (Bool-cases (ltb e (child_port s e n + 1))) [
      | inl wrap ↦
          let last = ltb→lt e (child_port s e n + 1) wrap in
          rw wrap (omega (arith, suc-mod_eq n (e - s) (omega arith) (omega (arith, ih, last)), ih))
      | inr on ↦
          let room = ltb-false→le e (child_port s e n + 1) on in
          rw on (omega (arith, ih, suc-mod_lt n (e - s) (omega (arith, ih, room))))
    ]
