-- ===== src/Parser/Corrupt.antt =====
-- internal/parser/parser.go: messages that differ in one byte of the body.
use device_telemetry_ro.Prelude.{
  length, take, drop, ℕ, ◌+◌, ◌<◌, ◌≡◌, sym, ap, ◌∙◌, ◌≢◌, none, some, ◌∷◌, ◌++◌, map,
}
use device_telemetry_ro.Prelude.Bytes.{Bytes}
use device_telemetry_ro.Domain.{Time}
use device_telemetry_ro.External.{External}
use device_telemetry_ro.Text.{last_index, to_upper}
use device_telemetry_ro.Text.Cut.{last_index-append, take_front, drop_front}
use device_telemetry_ro.Parser.{Telemetry, valid, bar, checksum_hex, parse_message}
use device_telemetry_ro.Parser.Checksum.{AreBytes, checksum_sees_byte}
use device_telemetry_ro.Parser.Accept.{parse_message-Accepted}

-- A text has one cut at its last bar.
cut_unique :
    (body given body' given' : Bytes)
    → last_index bar given ≡ none
    → last_index bar given' ≡ none
    → body ++ bar ∷ given ≡ body' ++ bar ∷ given'
    → (body ≡ body') × (given ≡ given')
cut_unique body given body' given' last last' e =
    let same : some (length body) ≡ some (length body') =
      sym (last_index-append bar body given last)
      ∙ ap (last_index bar) e
      ∙ last_index-append bar body' given' last' in
    let lengths : length body ≡ length body' = cc in
    (
      sym (take_front body (bar ∷ given))
          ∙ ap (take (length body)) e
          ∙ ap (λ n. take n (body' ++ bar ∷ given')) lengths
          ∙ take_front body' (bar ∷ given'),
      sym (drop_front body bar given)
          ∙ ap (drop (length body + 1)) e
          ∙ ap (λ n. drop (n + 1) (body' ++ bar ∷ given')) lengths
          ∙ drop_front body' bar given',
    )

-- The checksum that an accepted message carries is that of its body.
pub checksum_of_accepted :
    (ext : External) (now : Time) (body given : Bytes) (t : Telemetry)
    → last_index bar given ≡ none
    → parse_message ext (body ++ bar ∷ given) now ≡ valid t
    → map to_upper given ≡ checksum_hex body
checksum_of_accepted ext now body given t last h =
    let a = parse_message-Accepted ext now (body ++ bar ∷ given) t h in
    let (same_body, same_given) = cut_unique body given a.body a.given last a.last a.cut in
    ap (map to_upper) same_given
    ∙ a.checked.matches
    ∙ a.checked.checksum
    ∙ ap checksum_hex (sym same_body)

-- If a message is accepted, then no message that differs from it in one byte of the body, that is,
-- before the last bar, is accepted, whenever it arrives: for bytes below 256.
pub parse_message-corrupt :
    (ext : External) (now now' : Time) (front back given : Bytes) (b b' : ℕ) (t t' : Telemetry)
    → AreBytes front
    → AreBytes back
    → b < 256
    → b' < 256
    → b ≢ b'
    → last_index bar given ≡ none
    → parse_message ext ((front ++ b ∷ back) ++ bar ∷ given) now ≡ valid t
    → parse_message ext ((front ++ b' ∷ back) ++ bar ∷ given) now' ≢ valid t'
parse_message-corrupt ext now now' front back given b b' t t' hf hk hb hb' ne last h h' = ne (
    checksum_sees_byte front back b b' hf hk hb hb' (
      sym (checksum_of_accepted ext now (front ++ b ∷ back) given t last h)
      ∙ checksum_of_accepted ext now' (front ++ b' ∷ back) given t' last h'))
