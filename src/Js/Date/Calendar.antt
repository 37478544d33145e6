-- ===== src/Js/Date/Calendar.antt =====
-- Days and dates: the search for the year and the month of a day is the inverse of the numbering of days.
use lens.Prelude.{
  ℕ, zero, suc, ◌+◌, ◌-◌, ◌*◌, ◌/◌, ◌%◌, ◌≤◌, ◌<◌, ◌≡◌, refl, List, [], ◌∷◌, some, Bool-cases, inl,
  inr, arith, ltb, ltb→lt, leb, ◌&&◌, All, ap, length, false,
}
use lens.Js.Date.{
  is_leap, days_in_year, days_before_year, month_lengths, find_month, find_year, year_of_day,
  month_at, day_number, check,
}

pub days_before_year-suc : (y : ℕ) → days_before_year (y + 1) ≡ days_before_year y + days_in_year y
unfolding days_before_year days_in_year is_leap
days_before_year-suc y = ground arith

ltb-false : (a b : ℕ) → ltb a b ≡ false → b ≤ a
ltb-false a b h = ground arith

-- `p` is the year, before year `z`, and the day of the year (from 0) of day `n`.
pub record IsYearOf (n z : ℕ) (p : ℕ × ℕ) : Type 0 where
  pub sum : days_before_year p.0 + p.1 ≡ n
  pub within : p.1 < days_in_year p.0
  pub below : p.0 < z

find_year-IsYearOf :
    (fuel y d z n : ℕ)
    → y + fuel ≡ z
    → days_before_year y + d ≡ n
    → n < days_before_year z
    → IsYearOf n z (find_year fuel y d)
unfolding find_year
find_year-IsYearOf zero y d z n e q h =
    absurd (omega (arith, ap days_before_year (let e' : y ≡ z = omega arith in e')))
find_year-IsYearOf (suc fuel) y d z n e q h = elim (Bool-cases (ltb d (days_in_year y))) [
  | inl t ↦ rw t (record { sum = q; within = ltb→lt _ _ t; below = omega arith })
  | inr f ↦ rw f (
      find_year-IsYearOf fuel (y + 1) (d - days_in_year y) z n (omega arith)
        (omega (arith, days_before_year-suc y, ltb-false d (days_in_year y) f)) h)
]

cycles :
    (e : ℕ)
    → (days_before_year (e * 400) ≡ e * 146097)
      × (days_before_year (e * 400 + 400) ≡ e * 146097 + 146097)
unfolding days_before_year
cycles e = omega arith

-- The year of a day, and the day of that year; a day before the year `z` has a year before `z`.
pub year_of_day-IsYearOf : (n : ℕ) → IsYearOf n (n / 146097 * 400 + 400) (year_of_day n)
unfolding year_of_day
year_of_day-IsYearOf n =
    find_year-IsYearOf 400 (n / 146097 * 400) (n % 146097) _ n refl
      (omega (arith, cycles (n / 146097))) (omega (arith, cycles (n / 146097)))

abbrev total : List ℕ → ℕ
total [] = 0
total (l ∷ ls) = l + total ls

month_lengths-total : (y : ℕ) → total (month_lengths y) ≡ days_in_year y
unfolding month_lengths days_in_year
month_lengths-total y = ground arith

-- `p` is the month and the day of the month (from 1) of day `n` of a year whose months, from month `m`
-- on, have the lengths `ls`, with `b` days before them.
record IsMonthOf (ls : List ℕ) (b m n : ℕ) (p : ℕ × ℕ) : Type 0 where
  offset : ℕ
  before : ℕ
  len : ℕ
  month_is : p.0 ≡ m + offset
  found : month_at ls b (suc offset) ≡ some (before, len)
  sum : before + p.1 ≡ n + 1
  day_in : (1 ≤ p.1) × (p.1 ≤ len)
  few : offset < length ls
  short : len ≤ 31

find_month-IsMonthOf :
    (ls : List ℕ) (b m d n : ℕ)
    → b + d ≡ n
    → d < total ls
    → All (λ k. k ≤ 31) ls
    → IsMonthOf ls b m n (find_month ls m d)
unfolding find_month month_at
find_month-IsMonthOf [] b m d n q h a = absurd (omega arith)
find_month-IsMonthOf (l ∷ ls) b m d n q h (al, a) = elim (Bool-cases (ltb d l)) [
  | inl t ↦ rw t (record {
    offset = 0;
    before = b;
    len = l;
    month_is = omega arith;
    found = refl;
    sum = omega arith;
    day_in = omega (arith, ltb→lt d l t);
    few = omega arith;
    short = al;
  })
  | inr f ↦ rw f (
      let r =
        find_month-IsMonthOf ls (b + l) (m + 1) (d - l) n (omega (arith, ltb-false d l f))
          (omega (arith, ltb-false d l f)) a in
      record {
        offset = suc r.offset;
        before = r.before;
        len = r.len;
        month_is = omega (arith, r.month_is);
        found = r.found;
        sum = r.sum;
        day_in = r.day_in;
        few = omega (arith, r.few);
        short = r.short;
      })
]

lengths-short : (y : ℕ) → All (λ k. k ≤ 31) (month_lengths y)
unfolding month_lengths
lengths-short y = ground arith

twelve : (y o : ℕ) → o < length (month_lengths y) → o < 12
unfolding month_lengths
twelve y o h = h

-- The date of a day: the fields fit two digits, those of the year four digits if the day is before the
-- year 10000, and the date has that day's number.
pub record IsDateOf (n y m d : ℕ) : Type 0 where
  pub numbered : day_number y m d ≡ some n
  pub month_in : (1 ≤ m) × (m ≤ 12)
  pub day_in : (1 ≤ d) × (d ≤ 31)
  pub year_in : n < 3652425 → y < 10000

check-true : (d len : ℕ) → 1 ≤ d → d ≤ len → check (leb 1 d && leb d len) ≡ some tt
check-true d len h k = ground arith

day_number_lem :
    (n y k m d o before len : ℕ)
    → m ≡ suc o
    → month_at (month_lengths y) 0 (suc o) ≡ some (before, len)
    → (1 ≤ d) × (d ≤ len)
    → before + d ≡ k + 1
    → days_before_year y + k ≡ n
    → day_number y m d ≡ some n
unfolding day_number
day_number_lem n y k m d o before len e found (lo, hi) sum q =
    rw e (rw found (rw (check-true d len lo hi) (ap some (omega arith))))

date-IsDateOf :
    (n y k m d : ℕ)
    → IsYearOf n (n / 146097 * 400 + 400) (y, k)
    → IsMonthOf (month_lengths y) 0 1 k (m, d)
    → IsDateOf n y m d
date-IsDateOf n y k m d yr mo = record {
  numbered =
      day_number_lem n y k m d mo.offset mo.before mo.len (omega (arith, mo.month_is)) mo.found
        mo.day_in mo.sum yr.sum;
  month_in = omega (arith, mo.month_is, twelve y mo.offset mo.few);
  day_in = omega (arith, mo.day_in, mo.short);
  year_in = λ h. omega (arith, yr.below);
}

-- Each day has a date, found by the two searches.
pub iso_date :
    (n y k m d : ℕ)
    → year_of_day n ≡ (y, k)
    → find_month (month_lengths y) 1 k ≡ (m, d)
    → IsDateOf n y m d
iso_date n y k m d ey em =
    let yr : IsYearOf n (n / 146097 * 400 + 400) (y, k) = rw ey at (year_of_day-IsYearOf n) in
    date-IsDateOf n y k m d yr (
      rw em at (
        find_month-IsMonthOf (month_lengths y) 0 1 k k (omega arith)
          (omega (arith, month_lengths-total y, yr.within)) (lengths-short y)))
