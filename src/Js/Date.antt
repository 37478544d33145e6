-- ===== src/Js/Date.antt =====
-- `Date` in UTC: `toISOString` of a time, and the reading of ISO texts. A time is counted in seconds, or
-- in milliseconds where it is said, from the beginning of the year 0, so that it is a natural number.
pub mod Calendar
pub mod Text
pub mod Cut
use lens.Prelude.{
  ℕ, zero, suc, ◌+◌, ◌-◌, ◌*◌, ◌/◌, ◌%◌, code, String, Bool, not, ◌&&◌, ◌||◌, List, [], ◌∷◌, Option,
  none, some, ltb, leb, eqb, if◌then◌else◌,
}
use lens.Js.Number.{digit, digit_value}

-- 1970-01-01.
abbrev pub epoch : ℕ
epoch = 719528 * 86400

-- The greatest time of a `Date`, in seconds from 1970.
abbrev pub max_time : ℕ
max_time = 8640000000000

unfoldable pub is_leap : ℕ → Bool
is_leap y = eqb (y % 4) 0 && (not (eqb (y % 100) 0) || eqb (y % 400) 0)

unfoldable pub days_in_year : ℕ → ℕ
unfolding is_leap
days_in_year y = if is_leap y then 366 else 365

unfoldable pub days_before_year : ℕ → ℕ
days_before_year y = 365 * y + (y + 3) / 4 - (y + 99) / 100 + (y + 399) / 400

unfoldable pub month_lengths : ℕ → List ℕ
unfolding is_leap
month_lengths y =
    31 ∷ (if is_leap y then 29 else 28) ∷ 31 ∷ 30 ∷ 31 ∷ 30 ∷ 31 ∷ 31 ∷ 30 ∷ 31 ∷ 30 ∷ 31 ∷ []

-- The month and day of a day of the year, both from 1, counted from month `m`; day 0 is the first.
unfoldable pub find_month : List ℕ → ℕ → ℕ → ℕ × ℕ
find_month [] m d = (m, d + 1)
find_month (l ∷ ls) m d = if ltb d l then (m, d + 1) else find_month ls (m + 1) (d - l)

-- The year of day `d`, counted from the first day of year `y`, and the day of that year.
unfoldable pub find_year : ℕ → ℕ → ℕ → ℕ × ℕ
unfolding days_in_year
find_year zero y d = (y, d)
find_year (suc fuel) y d =
    let later = find_year fuel (y + 1) (d - days_in_year y) in
    if ltb d (days_in_year y) then (y, d) else later

-- Four hundred years have 146097 days.
unfoldable pub year_of_day : ℕ → ℕ × ℕ
unfolding find_year
year_of_day d = find_year 400 (d / 146097 * 400) (d % 146097)

abbrev put2 : ℕ → String → String
put2 n rest = String.◌∷◌ (digit (n / 10 % 10)) (String.◌∷◌ (digit (n % 10)) rest)

abbrev put4 : ℕ → String → String
put4 n rest = put2 (n / 100) (put2 (n % 100) rest)

-- Years past 9999 have six digits and a sign.
abbrev put_year : ℕ → String → String
put_year y rest =
    if ltb y 10000 then put4 y rest else String.◌∷◌ "+" (put2 (y / 10000) (put4 (y % 10000) rest))

abbrev put_clock : ℕ → String → String
put_clock s rest =
    put2 (s / 3600) (String.◌∷◌ ":" (put2 (s / 60 % 60) (String.◌∷◌ ":" (put2 (s % 60) rest))))

-- `toISOString` of the whole second `t`.
unfoldable pub iso_text : ℕ → String
unfolding year_of_day find_month month_lengths digit
iso_text t =
    let (y, n) = year_of_day (t / 86400) in
    let (m, d) = find_month (month_lengths y) 1 n in
    put_year y (
      String.◌∷◌ "-"
        (put2 m (String.◌∷◌ "-" (put2 d (String.◌∷◌ "T" (put_clock (t % 86400) ".000Z"))))))

-- `s.substring(0, n)` of a text of ASCII characters.
unfoldable pub take_chars : ℕ → String → String
take_chars zero s = String.[]
take_chars (suc n) String.[] = String.[]
take_chars (suc n) (String.◌∷◌ c s) = String.◌∷◌ c (take_chars n s)

infixl 5 ◌>>=◌ ◌>>◌
abbrev ◌>>=◌ {ℓ κ} : {A : Type ℓ} {B : Type κ} → Option A → (A → Option B) → Option B
m >>= k = elim m [ some a ↦ k a | none ↦ none ]

abbrev ◌>>◌ {ℓ κ} : {A : Type ℓ} {B : Type κ} → Option A → Option B → Option B
m >> k = m >>= λ _. k

-- `k` digits that continue the number `n`, and what follows them.
unfoldable pub read_fixed : ℕ → ℕ → String → Option (ℕ × String)
unfolding digit_value
read_fixed zero n s = some (n, s)
read_fixed (suc k) n String.[] = none
read_fixed (suc k) n (String.◌∷◌ c s) = elim (digit_value c) [
  | none ↦ none
  | some d ↦ read_fixed k (n * 10 + d) s
]

-- The text behind an expected character.
unfoldable pub expect : ℕ → String → Option String
expect n String.[] = none
expect n (String.◌∷◌ c s) = if eqb (code c) n then some s else none

abbrev pub check : Bool → Option (Unit {0})
check b = if b then some tt else none

-- The days before month `m` (from 1), and the length of that month.
unfoldable pub month_at : List ℕ → ℕ → ℕ → Option (ℕ × ℕ)
month_at [] before m = none
month_at (l ∷ ls) before zero = none
month_at (l ∷ ls) before (suc zero) = some (before, l)
month_at (l ∷ ls) before (suc (suc m)) = month_at ls (before + l) (suc m)

-- The number of a day of the calendar, `none` if there is no such day.
unfoldable pub day_number : ℕ → ℕ → ℕ → Option ℕ
day_number y m d = do
  (before, len) ← month_at (month_lengths y) 0 m
  check (leb 1 d && leb d len)
  some (days_before_year y + before + (d - 1))

-- `HH:MM:SS`, in seconds.
unfoldable pub read_clock : String → Option (ℕ × String)
unfolding read_fixed expect
read_clock s = do
  (h, s1) ← read_fixed 2 0 s
  s2 ← expect b':' s1
  (m, s3) ← read_fixed 2 0 s2
  s4 ← expect b':' s3
  (sec, s5) ← read_fixed 2 0 s4
  check (ltb h 24 && (ltb m 60 && ltb sec 60))
  some (h * 3600 + m * 60 + sec, s5)

-- What follows the seconds: nothing or milliseconds, then `Z`. The result is in milliseconds.
unfoldable pub read_zone : String → Option ℕ
unfolding read_fixed expect
read_zone String.[] = none
read_zone (String.◌∷◌ c s) =
    if eqb (code c) b'Z' then elim s [ String.[] ↦ some 0 | _ ↦ none ] else do
      s1 ← expect b'.' (String.◌∷◌ c s)
      (ms, s2) ← read_fixed 3 0 s1
      s3 ← expect b'Z' s2
      elim s3 [ String.[] ↦ some ms | _ ↦ none ]

-- What follows a date: nothing, or a time of the day. The result is in milliseconds.
unfoldable pub read_time : String → Option ℕ
unfolding read_clock read_zone
read_time String.[] = some 0
read_time (String.◌∷◌ c s) = do
  s1 ← expect b'T' (String.◌∷◌ c s)
  (sec, s2) ← read_clock s1
  ms ← read_zone s2
  some (sec * 1000 + ms)

-- `new Date(s).getTime()` in milliseconds from the year 0, `none` for `NaN`. The texts that are read are
-- those of a date input, `YYYY-MM-DD`, and those with a time in UTC, `YYYY-MM-DDTHH:MM:SS[.mmm]Z`.
unfoldable pub time_value : String → Option ℕ
unfolding day_number month_at month_lengths days_before_year read_time
time_value s = do
  (y, s1) ← read_fixed 4 0 s
  s2 ← expect b'-' s1
  (m, s3) ← read_fixed 2 0 s2
  s4 ← expect b'-' s3
  (d, s5) ← read_fixed 2 0 s4
  day ← day_number y m d
  ms ← read_time s5
  some (day * 86400000 + ms)
