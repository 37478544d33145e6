-- ===== src/Ui/Times.antt =====
-- Dates as texts: `parse_time_z` and `format_time_z`, and the default of the date input.
pub mod RoundTrip
use Prim.Native.String.{◌++◌}
use lens.Prelude.{ℕ, ◌+◌, ◌-◌, ◌/◌, String, Option, none, some, ltb, leb, if◌then◌else◌}
use lens.Js.Number.{decimal}
use lens.Js.Value.{Value, str, to_number, loosely}
use lens.Js.Date.{epoch, max_time, iso_text, take_chars, time_value}

-- `"" + n` of the integer `t - epoch`.
abbrev pub since_epoch : ℕ → String
since_epoch t = if ltb t epoch then "-" ++ decimal (epoch - t) else decimal (t - epoch)

unfoldable pub parse_time_z : String → String
parse_time_z s = elim (time_value s) [ none ↦ "NaN" | some ms ↦ since_epoch (ms / 1000) ]

unfoldable pub time_text : ℕ → String
time_text n = take_chars 19 (iso_text (n + epoch)) ++ "Z"

-- `none` where `toISOString` throws a RangeError.
abbrev pub formatted : Option ℕ → Option String
formatted none = none
formatted (some n) = if leb n max_time then some (time_text n) else none

unfoldable pub format_time_z : Value → Option String
format_time_z d = if loosely d "0" then some "0" else formatted (to_number d)

-- The value of a date input that is set to the time `n`; it is empty if there is no such time.
unfoldable pub date_input : ℕ → String
date_input n = if leb n max_time then take_chars 10 (iso_text (n + epoch)) else ""

-- The times that `kick_dump` shows: a text, read, and printed again.
unfoldable pub dump_times : String × Option String
dump_times = let t2 = parse_time_z "2023-06-14T15:15:15.000Z" in (t2, format_time_z (str t2))
