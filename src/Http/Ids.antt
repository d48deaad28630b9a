-- ===== src/Http/Ids.antt =====
-- internal/httpapi/devices.go with internal/service: the ids that newDeviceID makes.
use device_telemetry_ro.Prelude.{
  all, ℕ, zero, suc, ◌≡◌, refl, Bool, true, ◌&&◌, Option, none, some, List, [], ◌∷◌, arith,
}
use device_telemetry_ro.Parser.{device_id_byte}
use device_telemetry_ro.Service.{is_device_id}
use device_telemetry_ro.Http.Handlers.{alphabet, nth_or, drawn, drawn_from, new_device_id}

&&-left : (a b : Bool) → a && b ≡ true → a ≡ true
&&-left a b h = ground arith

&&-right : (a b : Bool) → a && b ≡ true → b ≡ true
&&-right a b h = ground arith

all_nth :
    (p : ℕ → Bool) (d : ℕ) (l : List ℕ) (n : ℕ)
    → p d ≡ true
    → all p l ≡ true
    → p (nth_or d l n) ≡ true
all_nth p d [] n h a = h
all_nth p d (x ∷ xs) zero h a = &&-left (p x) (all p xs) a
all_nth p d (x ∷ xs) (suc n) h a = all_nth p d xs n h (&&-right (p x) (all p xs) a)

drawn-device_id_byte : (o : Option ℕ) → device_id_byte (drawn o) ≡ true
unfolding drawn
drawn-device_id_byte none = refl
drawn-device_id_byte (some n) = all_nth device_id_byte b'A' alphabet n refl refl

all_drawn : (draw : ℕ → Option ℕ) (i n : ℕ) → all device_id_byte (drawn_from draw i n) ≡ true
all_drawn draw i zero = refl
all_drawn draw i (suc n) = rw (drawn-device_id_byte (draw i)) (all_drawn draw (suc i) n)

-- An id that `newDeviceID` makes is one that `RegisterDevice` accepts, whatever the random draws, and
-- also when they fail.
pub new_device_id-is_device_id : (draw : ℕ → Option ℕ) → is_device_id (new_device_id draw) ≡ true
unfolding new_device_id is_device_id
new_device_id-is_device_id draw = all_drawn draw 0 12
