-- ===== src/Parser/Checksum.antt =====
-- internal/parser/parser.go: `ChecksumHex` over a whole body, and over two that differ in a byte.
use device_telemetry_ro.Prelude.{All, All-append, ℕ, ◌/◌, ◌%◌, ◌<◌, ◌≡◌, [], ◌∷◌, ◌++◌, arith}
use device_telemetry_ro.Prelude.Bytes.{Bytes}
use device_telemetry_ro.Text.{hex_digit, hex4}
use device_telemetry_ro.Parser.{crc_byte, crc_from, checksum_hex}
use device_telemetry_ro.Parser.Crc.{crc_byte_lt, crc_byte_inj_byte, crc_byte_inj_register}

abbrev pub AreBytes : Bytes → Type 0
AreBytes s = All (λ b. b < 256) s

-- The register is a uint16 throughout.
pub crc_from-lt : (c : ℕ) (body : Bytes) → c < 65536 → AreBytes body → crc_from c body < 65536
unfolding crc_from
crc_from-lt c [] hc h = hc
crc_from-lt c (b ∷ body) hc h = crc_from-lt (crc_byte c b) body (crc_byte_lt c b hc h.0) h.1

crc_from_inj :
    (c d : ℕ) (body : Bytes)
    → c < 65536
    → d < 65536
    → AreBytes body
    → crc_from c body ≡ crc_from d body
    → c ≡ d
unfolding crc_from
crc_from_inj c d [] hc hd h e = e
crc_from_inj c d (b ∷ body) hc hd h e = crc_byte_inj_register c d b hc hd h.0 (
    crc_from_inj (crc_byte c b) (crc_byte d b) body (crc_byte_lt c b hc h.0)
      (crc_byte_lt d b hd h.0) h.1 e)

-- Two bodies that differ in one byte, wherever it stands, leave different registers.
pub crc_sees_byte :
    (c : ℕ) (front back : Bytes) (b b' : ℕ)
    → c < 65536
    → AreBytes front
    → AreBytes back
    → b < 256
    → b' < 256
    → crc_from c (front ++ b ∷ back) ≡ crc_from c (front ++ b' ∷ back)
    → b ≡ b'
unfolding crc_from
crc_sees_byte c [] back b b' hc hf hk hb hb' e = crc_byte_inj_byte c b b' hc hb hb' (
    crc_from_inj (crc_byte c b) (crc_byte c b') back (crc_byte_lt c b hc hb)
      (crc_byte_lt c b' hc hb') hk e)
crc_sees_byte c (x ∷ front) back b b' hc hf hk hb hb' e =
    crc_sees_byte (crc_byte c x) front back b b' (crc_byte_lt c x hc hf.0) hf.1 hk hb hb' e

hex_digit_inj : (d e : ℕ) → d < 16 → e < 16 → hex_digit d ≡ hex_digit e → d ≡ e
unfolding hex_digit
hex_digit_inj d e hd he h = ground arith

hex4_inj : (n m : ℕ) → n < 65536 → m < 65536 → hex4 n ≡ hex4 m → n ≡ m
unfolding hex4
hex4_inj n m hn hm h =
    let a : hex_digit (n / 4096 % 16) ≡ hex_digit (m / 4096 % 16) = cc in
    let b : hex_digit (n / 256 % 16) ≡ hex_digit (m / 256 % 16) = cc in
    let c : hex_digit (n / 16 % 16) ≡ hex_digit (m / 16 % 16) = cc in
    let d : hex_digit (n % 16) ≡ hex_digit (m % 16) = cc in
    omega (
      arith,
      hex_digit_inj (n / 4096 % 16) (m / 4096 % 16) (omega arith) (omega arith) a,
      hex_digit_inj (n / 256 % 16) (m / 256 % 16) (omega arith) (omega arith) b,
      hex_digit_inj (n / 16 % 16) (m / 16 % 16) (omega arith) (omega arith) c,
      hex_digit_inj (n % 16) (m % 16) (omega arith) (omega arith) d,
    )

-- The checksums of two bodies that differ in one byte differ.
pub checksum_sees_byte :
    (front back : Bytes) (b b' : ℕ)
    → AreBytes front
    → AreBytes back
    → b < 256
    → b' < 256
    → checksum_hex (front ++ b ∷ back) ≡ checksum_hex (front ++ b' ∷ back)
    → b ≡ b'
unfolding checksum_hex
checksum_sees_byte front back b b' hf hk hb hb' e =
    crc_sees_byte 0xffff front back b b' (omega arith) hf hk hb hb' (
      hex4_inj (crc_from 0xffff (front ++ b ∷ back)) (crc_from 0xffff (front ++ b' ∷ back))
        (crc_from-lt 0xffff (front ++ b ∷ back) (omega arith)
          (All-append _ front (b ∷ back) (hb, hk) hf))
        (crc_from-lt 0xffff (front ++ b' ∷ back) (omega arith)
          (All-append _ front (b' ∷ back) (hb', hk) hf))
        e)
