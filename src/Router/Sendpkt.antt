-- ===== src/Router/Sendpkt.antt =====
-- hw3/starter/sendpkt.c: the client that sends one packet to a router.
use csci_4220_network_progra.Base.{
  ℕ, ◌+◌, ◌%◌, ◌^◌, ◌<◌, ◌≡◌, ◌≢◌, refl, sym, ap, ◌∙◌, false, Option, none, some, List, [], ◌∷◌,
  ◌++◌, leb, if◌then◌else◌, length, arith, All, length-append, take, take_all,
}
use mathlib.Core.List.{append_assoc, append-nil}
use csci_4220_network_progra.Net.{ByteOrder}
use csci_4220_network_progra.CString.{atoi}
use csci_4220_network_progra.Router.Types.{DataMsg, msg_data, get_data_port}
use csci_4220_network_progra.Router.Forward.{text}
use csci_4220_network_progra.CString.{until_nul}

abbrev space_before : List (List ℕ) → List ℕ
space_before [] = []
space_before (w ∷ ws) = 32 ∷ []

-- The loop that puts the words together, with `msg` written so far; it stops at a word that does not
-- fit into the 128 bytes.
unfoldable pub join_words : List (List ℕ) → (msg : List ℕ) → List ℕ
join_words [] msg = msg
join_words (w ∷ ws) msg =
    let rest = join_words ws (msg ++ (w ++ space_before ws)) in
    if leb 128 (length msg + length w + 1) then msg else rest

-- A datagram that leaves: the first `size` bytes of the packet, to the port.
pub record Sent : Type 0 where
  pub port : ℕ
  pub packet : DataMsg
  pub size : ℕ

module _ (host : ByteOrder) (inet_aton : List ℕ → Option ℕ) where
  -- The program on its arguments: the usage, a bad address, or a datagram. `payload` holds the bytes
  -- of the array that are written; the others are zero.
  unfoldable pub send_packet : (ctrl src dst ttl : List ℕ) → List (List ℕ) → Option Sent
  unfolding get_data_port join_words
  send_packet ctrl src dst ttl [] = none
  send_packet ctrl src dst ttl (w ∷ ws) = elim (inet_aton src) [
    | none ↦ none
    | some src_ip ↦ elim (inet_aton dst) [
      | none ↦ none
      | some dst_ip ↦
          let msg = join_words (w ∷ ws) [] in
          some (record {
            port = get_data_port (atoi ctrl % 2 ^ 16);
            packet = record {
              type = msg_data;
              ttl = atoi ttl % 2 ^ 8;
              src_ip = src_ip;
              dst_ip = dst_ip;
              payload_len = host.htons (length msg % 2 ^ 16);
              payload = msg;
            };
            size = 1 + 1 + 4 + 4 + 2 + length msg;
          })
    ]
  ]

-- The words with a space between them.
unfoldable pub spaced : List (List ℕ) → List ℕ
spaced [] = []
spaced (w ∷ ws) = w ++ (space_before ws ++ spaced ws)

join_words-spaced :
    (ws : List (List ℕ)) (msg : List ℕ)
    → length msg + length (spaced ws) + 1 < 128
    → join_words ws msg ≡ msg ++ spaced ws
unfolding join_words spaced
join_words-spaced [] msg h = sym (append-nil msg)
join_words-spaced (w ∷ ws) msg h =
    let size = length-append w (space_before ws ++ spaced ws) in
    let size2 = length-append (space_before ws) (spaced ws) in
    let fits : leb 128 (length msg + length w + 1) ≡ false =
      below (length msg + length w + 1) (omega (arith, h, size, size2)) in
    rw fits (
      join_words-spaced ws (msg ++ (w ++ space_before ws)) (
        omega (
          arith,
          h,
          size,
          size2,
          length-append msg (w ++ space_before ws),
          length-append w (space_before ws),
        ))
      ∙ (append_assoc msg (w ++ space_before ws) (spaced ws)
          ∙ ap (λ (t : List ℕ). msg ++ t) (append_assoc w (space_before ws) (spaced ws))))
  where
    below : (n : ℕ) → n < 128 → leb 128 n ≡ false
    below n h = ground arith

until_nul-clean : (s : List ℕ) → All (λ c. c ≢ 0) s → until_nul s ≡ s
unfolding until_nul
until_nul-clean [] h = refl
until_nul-clean (c ∷ s) h = ground (arith, until_nul-clean s h.1)

-- What the program sends arrives at the router as the text of the packet: the words with a space
-- between them, if they are fewer than 127 bytes together and hold no zero. The datagram goes to the
-- data port of the router and has twelve bytes in front of the text.
pub send_packet-text :
    (host : ByteOrder) (inet_aton : List ℕ → Option ℕ) (ctrl src dst ttl w : List ℕ)
    (ws : List (List ℕ)) (src_ip dst_ip : ℕ)
    → inet_aton src ≡ some src_ip
    → inet_aton dst ≡ some dst_ip
    → length (spaced (w ∷ ws)) < 127
    → All (λ c. c ≢ 0) (spaced (w ∷ ws))
    → (s : Sent) × (send_packet host inet_aton ctrl src dst ttl (w ∷ ws) ≡ some s)
      × (text host s.packet ≡ spaced (w ∷ ws))
      × (s.packet.dst_ip ≡ dst_ip)
      × (s.size ≡ 12 + length (spaced (w ∷ ws)))
unfolding send_packet text
send_packet-text host inet_aton ctrl src dst ttl w ws src_ip dst_ip es ed short clean =
    let whole : join_words (w ∷ ws) [] ≡ spaced (w ∷ ws) =
      join_words-spaced (w ∷ ws) [] (omega (arith, short)) in
    let all = spaced (w ∷ ws) in
    let size : length all % 2 ^ 16 ≡ length all = small (length all) short in
    let sent : host.ntohs (host.htons (length all % 2 ^ 16)) ≡ length all =
      host.ntohs-htons (length all % 2 ^ 16) (omega arith) ∙ size in
    rw (send_packet, es, ed, whole)
      (
        _,
        refl,
        ap until_nul (ap (λ (n : ℕ). take n all) sent ∙ take_all (length all) all (omega arith))
            ∙ until_nul-clean all clean,
        refl,
        refl,
      )
  where
    small : (n : ℕ) → n < 127 → n % 2 ^ 16 ≡ n
    small n h = omega (arith, h)
