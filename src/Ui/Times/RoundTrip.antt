-- ===== src/Ui/Times/RoundTrip.antt =====
-- `parse_time_z` and `format_time_z` of lens3ui.js, one after the other.
use lens.Prelude.{
  ℕ, ◌+◌, ◌*◌, ◌/◌, ◌<◌, ◌≡◌, ap, String, some, arith, ltb, eqb, leb, le→leb, true, false,
}
use lens.Js.Number.{decimal, number_of_text}
use lens.Js.Value.{num, loosely, to_number}
use lens.Js.Date.{epoch, max_time}
use lens.Js.Date.Text.{time_value-iso_text}
use lens.Ui.Times.{since_epoch, parse_time_z, time_text, format_time_z}

-- The seconds from 1970 to the year 10000.
abbrev pub year_10000 : ℕ
year_10000 = 253402300800

since_epoch-add : (n : ℕ) → since_epoch ((n + epoch) * 1000 / 1000) ≡ decimal n
since_epoch-add n = rw q (rw late (ap decimal (omega arith)))
  where
    q : (n + epoch) * 1000 / 1000 ≡ n + epoch
    q = omega arith

    late : ltb (n + epoch) epoch ≡ false
    late = ground arith

parse_time_z-time_text : (n : ℕ) → n < year_10000 → parse_time_z (time_text n) ≡ decimal n
unfolding parse_time_z time_text
parse_time_z-time_text n h =
    rw (time_value-iso_text (n + epoch) (omega arith), parse_time_z) (since_epoch-add n)

time-in_range : (n : ℕ) → n < year_10000 → leb n max_time ≡ true
time-in_range n h = le→leb n max_time (omega arith)

not-zero : (n : ℕ) → 0 < n → eqb 0 n ≡ false
not-zero n h = ground arith

-- A time after 1970 and before the year 10000 that is formatted and parsed is the same, in digits.
pub parse-format_time_z :
    (n : ℕ)
    → 0 < n
    → n < year_10000
    → (t : String) × (format_time_z (num n) ≡ some t) × (parse_time_z t ≡ decimal n)
unfolding format_time_z loosely to_number number_of_text
parse-format_time_z n h k =
    (time_text n, rw (not-zero n h) (rw (time-in_range n k)), parse_time_z-time_text n k)
