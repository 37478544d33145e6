-- ===== src/Vue/Times.antt =====
-- Dates in the Vue client: `format_time_z`, and the expiration that `api_make_secret` sends.
use lens.Prelude.{ℕ, ◌+◌, ◌-◌, ◌*◌, ◌/◌, Bool, false, Option, none, some, leb, eqb, if◌then◌else◌}
use lens.Js.Value.{Value, undefined, null, num, str, to_number}
use lens.Js.Date.{epoch, max_time, iso_text, take_chars}
use lens.Vue.State.{Zone, west, east}

abbrev number_is_zero : Option ℕ → Bool
number_is_zero none = false
number_is_zero (some n) = eqb n 0

-- `d == 0`: `null` is equal to no number.
unfoldable pub equals_zero : Value → Bool
equals_zero undefined = false
equals_zero null = false
equals_zero d = number_is_zero (to_number d)

unfoldable pub date_text : ℕ → Value
date_text n = str (take_chars 10 (iso_text (n + epoch)))

-- `none` where `toISOString` throws a RangeError.
abbrev formatted : Option ℕ → Option Value
formatted none = none
formatted (some n) = if leb n max_time then some (date_text n) else none

unfoldable pub format_time_z : Value → Option Value
format_time_z d = if equals_zero d then some (num 0) else formatted (to_number d)

-- `Math.floor(tv0 - tzfix)`. The date picker offers no day before yesterday; the subtraction stops at 0,
-- where the source has a negative number for a day before 1970.
unfoldable pub expiration_of : ℕ → Zone → ℕ
expiration_of ms (west minutes) = ms / 1000 - minutes * 60
expiration_of ms (east minutes) = ms / 1000 + minutes * 60
