-- ===== src/Text.antt =====
-- What the source uses of the packages strings, unicode, encoding/hex and fmt, on bytes. White space,
-- letters and digits of a single byte are those of Latin-1, since the source converts a byte to a
-- rune; strings.TrimSpace works on UTF-8.
pub mod Trim
pub mod Cut
use mathlib.Core.List.{reverse}
use device_telemetry_ro.Prelude.{
  ltb, leb, ◌==◌, if◌then◌else◌, ℕ, suc, ◌+◌, ◌-◌, ◌/◌, ◌%◌, Bool, true, false, ◌&&◌, ◌||◌, Option,
  none, some, List, [], ◌∷◌,
}
use device_telemetry_ro.Prelude.Bytes.{Bytes}

abbrev pub within : ℕ → ℕ → ℕ → Bool
within lo hi c = leb lo c && leb c hi

abbrev pub is_ascii_space : ℕ → Bool
is_ascii_space c = within 9 13 c || c == 32

-- unicode.IsSpace(rune(c)) of a byte
abbrev pub is_space : ℕ → Bool
is_space c = is_ascii_space c || c == 0x85 || c == 0xa0

abbrev pub is_upper : ℕ → Bool
is_upper c = within b'A' b'Z' c

abbrev pub is_digit : ℕ → Bool
is_digit c = within b'0' b'9' c

-- unicode.IsLetter(rune(c)) of a byte
abbrev pub is_letter : ℕ → Bool
is_letter c =
    is_upper c
    || within b'a' b'z' c
    || c == 0xaa
    || c == 0xb5
    || c == 0xba
    || within 0xc0 0xd6 c
    || within 0xd8 0xf6 c
    || within 0xf8 0xff c

-- The white space of two and of three bytes.
abbrev pub space2 : ℕ → ℕ → Bool
space2 a b = a == 0xc2 && (b == 0x85 || b == 0xa0)

abbrev pub space3 : ℕ → ℕ → ℕ → Bool
space3 a b c =
    (a == 0xe1 && b == 0x9a && c == 0x80)
    || (a == 0xe2 && b == 0x80 && (within 0x80 0x8a c || c == 0xa8 || c == 0xa9 || c == 0xaf))
    || (a == 0xe2 && b == 0x81 && c == 0x9f)
    || (a == 0xe3 && b == 0x80 && c == 0x80)

-- Drops runes from the front while they are white space; `two` and `three` read them in order.
unfoldable pub trim_front : (ℕ → ℕ → Bool) → (ℕ → ℕ → ℕ → Bool) → Bytes → Bytes
trim_front two three [] = []
trim_front two three (a ∷ []) = if is_ascii_space a then [] else a ∷ []
trim_front two three (a ∷ b ∷ []) =
    let one = trim_front two three (b ∷ []) in
    if is_ascii_space a then one else if two a b then [] else a ∷ b ∷ []
trim_front two three (a ∷ b ∷ c ∷ s) =
    let after_one = trim_front two three (b ∷ c ∷ s) in
    let after_two = trim_front two three (c ∷ s) in
    let after_three = trim_front two three s in
    if is_ascii_space a
    then after_one
    else if two a b
    then after_two
    else if three a b c
    then after_three
    else a ∷ b ∷ c ∷ s

abbrev pub trim_left : Bytes → Bytes
trim_left s = trim_front space2 space3 s

abbrev pub trim_right : Bytes → Bytes
trim_right s = reverse (trim_front (λ b a. space2 a b) (λ c b a. space3 a b c) (reverse s))

-- strings.TrimSpace
unfoldable pub trim_space : Bytes → Bytes
unfolding trim_front
trim_space s = trim_right (trim_left s)

abbrev onto_head : ℕ → List Bytes → List Bytes
onto_head c [] = (c ∷ []) ∷ []
onto_head c (f ∷ fs) = (c ∷ f) ∷ fs

-- strings.Split by a separator of one byte
unfoldable pub split : ℕ → Bytes → List Bytes
split sep [] = [] ∷ []
split sep (c ∷ s) = let rest = split sep s in if c == sep then [] ∷ rest else onto_head c rest

-- strings.Index and strings.LastIndex of one byte; `none` is -1
unfoldable pub index : ℕ → Bytes → Option ℕ
index b [] = none
index b (c ∷ s) =
    if c == b then some 0 else elim (index b s) [ none ↦ none | some i ↦ some (suc i) ]

unfoldable pub last_index : ℕ → Bytes → Option ℕ
last_index b [] = none
last_index b (c ∷ s) = elim (last_index b s) [
  | none ↦ (if c == b then some 0 else none)
  | some i ↦ some (suc i)
]

-- strings.ToUpper on ASCII. A byte from 0x80 stays what it is: no rune outside ASCII has a
-- hexadecimal digit for its upper case, and the source asks only about those.
unfoldable pub to_upper : ℕ → ℕ
to_upper c = if within b'a' b'z' c then c - 32 else c

abbrev pub is_hex : ℕ → Bool
is_hex c = is_digit c || within b'A' b'F' c || within b'a' b'f' c

-- hex.DecodeString succeeds: an even number of digits
unfoldable pub is_hex_string : Bytes → Bool
is_hex_string [] = true
is_hex_string (a ∷ []) = false
is_hex_string (a ∷ b ∷ s) = is_hex a && is_hex b && is_hex_string s

-- one digit of fmt's %X
unfoldable pub hex_digit : ℕ → ℕ
hex_digit d = if ltb d 10 then b'0' + d else b'A' + (d - 10)

-- fmt.Sprintf("%04X", n) of a 16-bit number
unfoldable pub hex4 : ℕ → Bytes
hex4 n =
    hex_digit (n / 4096 % 16)
    ∷ hex_digit (n / 256 % 16)
    ∷ hex_digit (n / 16 % 16)
    ∷ hex_digit (n % 16)
    ∷ []
