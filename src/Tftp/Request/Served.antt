-- ===== src/Tftp/Request/Served.antt =====
-- Every request gets a port.
use csci_4220_network_progra.Base.{
  ℕ, ◌+◌, ◌≤◌, ◌<◌, ◌≡◌, ◌≢◌, refl, Bool, true, false, List, [], ◌∷◌, ltb, ◌==◌, arith, All,
  Bool-cases, Option-cases, inl, inr, ltb-false→le, le→ltb-false,
}
use csci_4220_network_progra.CString.{same_caseless}
use csci_4220_network_progra.Tftp.Packet.{get16}
use csci_4220_network_progra.Tftp.Request.{
  octet, parse_request, Files, Session, no_port, handle_wrq, handle_rrq, handle_request, next_port,
  listen,
}

abbrev is_no_port : Session → Bool
is_no_port no_port = true
is_no_port _ = false

module _ (files : Files) (buf : List ℕ) where
  handle_wrq-port : (port : ℕ) (m : List ℕ) → is_no_port (handle_wrq files buf port m) ≡ false
  unfolding handle_wrq
  handle_wrq-port port m = elim (Option-cases (parse_request m)) [
    | inl n ↦ rw (handle_wrq, n) refl
    | inr ((filename, mode), e) ↦ elim (Bool-cases (same_caseless mode octet)) [
      | inl o ↦ elim (Bool-cases (files.exists filename)) [
        | inl x ↦ rw (handle_wrq, e, o, x) refl
        | inr x ↦ elim (Bool-cases (files.can_create filename)) [
          | inl c ↦ rw (handle_wrq, e, o, x, c) refl
          | inr c ↦ rw (handle_wrq, e, o, x, c) refl
        ]
      ]
      | inr o ↦ rw (handle_wrq, e, o) refl
    ]
  ]

  handle_rrq-port : (port : ℕ) (m : List ℕ) → is_no_port (handle_rrq files buf port m) ≡ false
  unfolding handle_rrq
  handle_rrq-port port m = elim (Option-cases (parse_request m)) [
    | inl n ↦ rw (handle_rrq, n) refl
    | inr ((filename, mode), e) ↦ elim (Bool-cases (same_caseless mode octet)) [
      | inl o ↦ elim (Option-cases (files.contents filename)) [
        | inl x ↦ rw (handle_rrq, e, o, x) refl
        | inr (content, x) ↦ rw (handle_rrq, e, o, x) refl
      ]
      | inr o ↦ rw (handle_rrq, e, o) refl
    ]
  ]

  handle_request-port :
      (port end_port : ℕ) (m : List ℕ)
      → port ≤ end_port
      → is_no_port (handle_request files buf port end_port m) ≡ false
  unfolding handle_request
  handle_request-port port end_port m h =
      let some_port = le→ltb-false end_port port h in
      elim (Bool-cases (get16 m == 1)) [
        | inl r ↦ rw (some_port, r) (handle_rrq-port port m)
        | inr n ↦ elim (Bool-cases (get16 m == 2)) [
          | inl w ↦ rw (some_port, n, w) (handle_wrq-port port m)
          | inr o ↦ rw (some_port, n, o) refl
        ]
      ]

  served_from :
      (start_port end_port port : ℕ) (ms : List (List ℕ))
      → start_port < end_port
      → port ≤ end_port
      → All (λ s. s ≢ no_port) (listen files buf start_port end_port port ms)
  unfolding listen next_port
  served_from start_port end_port port [] h p = tt
  served_from start_port end_port port (m ∷ ms) h p = (
    (λ e. let t : true ≡ false = (rw e at (handle_request-port port end_port m p)) in cc),
    elim (Bool-cases (ltb end_port (port + 1))) [
      | inl last ↦ rw last (served_from start_port end_port (start_port + 1) ms h (omega arith))
      | inr room ↦
          rw room (
            served_from start_port end_port (port + 1) ms h (ltb-false→le end_port (port + 1) room))
    ],
  )

-- When the range holds a port behind the listening port, no request meets the answer that no port is
-- available, however many come: the ports are used again.
pub listen-no_port :
    (files : Files) (buf : List ℕ) (start_port end_port : ℕ) (ms : List (List ℕ))
    → start_port < end_port
    → All (λ s. s ≢ no_port) (listen files buf start_port end_port (start_port + 1) ms)
listen-no_port files buf start_port end_port ms h =
    served_from files buf start_port end_port (start_port + 1) ms h (omega arith)
