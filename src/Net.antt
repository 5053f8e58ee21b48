-- ===== src/Net.antt =====
-- The byte order of the host: htons, ntohs, htonl and ntohl of <arpa/inet.h>.
use csci_4220_network_progra.Base.{ℕ, ◌+◌, ◌*◌, ◌/◌, ◌%◌, ◌^◌, ◌<◌, ◌≡◌, refl, arith}

-- What the programs rely on: the conversions keep the width, undo one another, and fix zero.
pub record ByteOrder : Type 0 where
  pub htons : ℕ → ℕ
  pub ntohs : ℕ → ℕ
  pub ntohl : ℕ → ℕ
  pub htons-lt : (x : ℕ) → x < 2 ^ 16 → htons x < 2 ^ 16
  pub ntohs-lt : (x : ℕ) → x < 2 ^ 16 → ntohs x < 2 ^ 16
  pub ntohs-htons : (x : ℕ) → x < 2 ^ 16 → ntohs (htons x) ≡ x
  pub ntohl-zero : ntohl 0 ≡ 0

abbrev pub swap16 : ℕ → ℕ
swap16 x = x % 256 * 256 + x / 256

abbrev pub swap32 : ℕ → ℕ
swap32 x = x % 256 * 2 ^ 24 + x / 256 % 256 * 2 ^ 16 + x / 2 ^ 16 % 256 * 256 + x / 2 ^ 24

pub swap16-lt : (x : ℕ) → x < 2 ^ 16 → swap16 x < 2 ^ 16
swap16-lt x h = omega arith

pub swap16-swap16 : (x : ℕ) → x < 2 ^ 16 → swap16 (swap16 x) ≡ x
swap16-swap16 x h = omega arith

pub swap32-zero : swap32 0 ≡ 0
swap32-zero = refl

-- A host with the least significant byte first.
abbrev pub little_endian : ByteOrder
little_endian = record {
  htons = swap16;
  ntohs = swap16;
  ntohl = swap32;
  htons-lt = swap16-lt;
  ntohs-lt = swap16-lt;
  ntohs-htons = swap16-swap16;
  ntohl-zero = swap32-zero;
}
