-- ===== src/Js/Date/Text.antt =====
-- The text of a time, cut to seconds, is read back as that time.
use Prim.Native.String.{◌++◌}
use text.Mathlib.TextLemmas.{nil-append, cons-append}
use lens.Prelude.{
  ℕ, suc, ◌+◌, ◌*◌, ◌/◌, ◌%◌, ◌<◌, ◌≡◌, refl, String, some, arith, ltb, lt→ltb, ◌&&◌, ap,
}
use lens.Js.Number.{digit}
use lens.Js.Number.Reading.{digit_value-digit}
use lens.Js.Date.{
  put2, put4, put_year, put_clock, iso_text, take_chars, read_fixed, expect, check, read_clock,
  read_zone, read_time, time_value, year_of_day, find_month, month_lengths,
}
use lens.Js.Date.Calendar.{IsDateOf, iso_date}

read_fixed-digit :
    (k a d : ℕ) (rest : String)
    → d < 10
    → read_fixed (suc k) a (String.◌∷◌ (digit d) rest) ≡ read_fixed k (a * 10 + d) rest
unfolding read_fixed
read_fixed-digit k a d rest h = rw (digit_value-digit d h, read_fixed)

read_fixed-put2 :
    (k a n : ℕ) (rest : String)
    → n < 100
    → read_fixed (suc (suc k)) a (put2 n rest) ≡ read_fixed k (a * 100 + n) rest
read_fixed-put2 k a n rest h =
    rw (read_fixed-digit (suc k) a (n / 10 % 10) (String.◌∷◌ (digit (n % 10)) rest) (omega arith)) (
      rw (read_fixed-digit k (a * 10 + n / 10 % 10) (n % 10) rest (omega arith))
        (ap (λ m. read_fixed k m rest) (omega arith)))

read2 : (n : ℕ) (rest : String) → n < 100 → read_fixed 2 0 (put2 n rest) ≡ some (n, rest)
unfolding read_fixed
read2 n rest h = rw (read_fixed-put2 0 0 n rest h) (ap (λ m. some (m, rest)) (omega arith))

read4 : (n : ℕ) (rest : String) → n < 10000 → read_fixed 4 0 (put4 n rest) ≡ some (n, rest)
unfolding read_fixed
read4 n rest h = rw (read_fixed-put2 2 0 (n / 100) (put2 (n % 100) rest) (omega arith)) (
    rw (read_fixed-put2 0 (0 * 100 + n / 100) (n % 100) rest (omega arith))
      (ap (λ m. some (m, rest)) (omega arith)))

-- A date and a time of the day, as a text of four digits for the year.
abbrev pub stamp : ℕ → ℕ → ℕ → ℕ → String → String
stamp y m d s rest =
    put4 y (String.◌∷◌ "-" (put2 m (String.◌∷◌ "-" (put2 d (String.◌∷◌ "T" (put_clock s rest))))))

cut_stamp : (y m d s : ℕ) → take_chars 19 (stamp y m d s ".000Z") ++ "Z" ≡ stamp y m d s "Z"
unfolding take_chars
cut_stamp y m d s =
    let cut : take_chars 19 (stamp y m d s ".000Z") ≡ stamp y m d s "" = refl in
    rw cut (simp (cons-append, nil-append))

in_range :
    (h m s : ℕ) → h < 24 → m < 60 → s < 60 → check (ltb h 24 && (ltb m 60 && ltb s 60)) ≡ some tt
in_range h m s a b c = ground arith

read_clock-put :
    (s : ℕ) (rest : String) → s < 86400 → read_clock (put_clock s rest) ≡ some (s, rest)
unfolding read_clock expect
read_clock-put s rest h = rw (read2 (s / 3600) _ (omega arith)) (
    rw (read2 (s / 60 % 60) _ (omega arith)) (
      rw (read2 (s % 60) _ (omega arith)) (
        rw (in_range (s / 3600) (s / 60 % 60) (s % 60) (omega arith) (omega arith) (omega arith))
          (ap (λ m. some (m, rest)) (omega arith)))))

read_time-put : (s : ℕ) → s < 86400 → read_time (String.◌∷◌ "T" (put_clock s "Z")) ≡ some (s * 1000)
unfolding read_time expect read_zone
read_time-put s h = rw (read_clock-put s "Z" h) (ap some (omega arith))

time_value-stamp :
    (n y m d s : ℕ)
    → IsDateOf n y m d
    → n < 3652425
    → s < 86400
    → time_value (stamp y m d s "Z") ≡ some (n * 86400000 + s * 1000)
unfolding time_value expect
time_value-stamp n y m d s date h k = rw (read4 y _ (date.year_in h)) (
    rw (read2 m _ (omega (arith, date.month_in)))
      (rw (read2 d _ (omega (arith, date.day_in))) (rw date.numbered (rw (read_time-put s k)))))

put_year-four : (y : ℕ) (rest : String) → y < 10000 → put_year y rest ≡ put4 y rest
put_year-four y rest h = rw (lt→ltb y 10000 h)

-- The text that `toISOString` gives for a time before the year 10000, cut to the seconds and closed by
-- `Z`, is read as that time.
pub time_value-iso_text :
    (t : ℕ) → t / 86400 < 3652425 → time_value (take_chars 19 (iso_text t) ++ "Z") ≡ some (t * 1000)
unfolding iso_text
time_value-iso_text t h =
    let (y, k) = year_of_day (t / 86400) in
    let (m, d) = find_month (month_lengths y) 1 k in
    let date = iso_date (t / 86400) y k m d refl refl in
    rw (put_year-four y _ (date.year_in h)) (
      rw (cut_stamp y m d (t % 86400)) (
        rw (time_value-stamp (t / 86400) y m d (t % 86400) date h (omega arith))
          (ap some (omega arith))))

-- A date alone, as a text of four digits for the year.
abbrev day_stamp : ℕ → ℕ → ℕ → String
day_stamp y m d = put4 y (String.◌∷◌ "-" (put2 m (String.◌∷◌ "-" (put2 d ""))))

cut_day : (y m d s : ℕ) → take_chars 10 (stamp y m d s ".000Z") ≡ day_stamp y m d
unfolding take_chars
cut_day y m d s = refl

time_value-day_stamp :
    (n y m d : ℕ)
    → IsDateOf n y m d
    → n < 3652425
    → time_value (day_stamp y m d) ≡ some (n * 86400000)
unfolding time_value expect read_time
time_value-day_stamp n y m d date h = rw (read4 y _ (date.year_in h)) (
    rw (read2 m _ (omega (arith, date.month_in)))
      (rw (read2 d _ (omega (arith, date.day_in))) (rw date.numbered (ap some (omega arith)))))

-- Cut to the date, it is read as the beginning of the day.
pub time_value-date :
    (t : ℕ)
    → t / 86400 < 3652425
    → time_value (take_chars 10 (iso_text t)) ≡ some (t / 86400 * 86400000)
unfolding iso_text
time_value-date t h =
    let (y, k) = year_of_day (t / 86400) in
    let (m, d) = find_month (month_lengths y) 1 k in
    let date = iso_date (t / 86400) y k m d refl refl in
    rw (put_year-four y _ (date.year_in h))
      (rw (cut_day y m d (t % 86400)) (time_value-day_stamp (t / 86400) y m d date h))
