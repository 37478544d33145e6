-- ===== src/Js/Date/Cut.antt =====
-- Texts of times that are cut to the day.
use Prim.Native.String.{◌++◌}
use text.Mathlib.TextLemmas.{cons-append}
use lens.Prelude.{
  ℕ, zero, suc, ◌/◌, ◌%◌, ◌≤◌, ltb, Bool, true, false, if◌then◌else◌, arith, String, ◌≡◌, refl, ap,
}
use lens.Js.Date.{
  put2, put4, put_year, put_clock, find_month, month_lengths, year_of_day, iso_text, take_chars,
}

-- The text has `n` characters at least.
abbrev IsLong : ℕ → String → Type 0
IsLong zero s = Unit
IsLong (suc n) String.[] = ⊥
IsLong (suc n) (String.◌∷◌ c s) = IsLong n s

four_or_six :
    (n : ℕ) (b : Bool) (s t : String) → IsLong n s → IsLong n t → IsLong n (if b then s else t)
four_or_six n true s t h k = h
four_or_six n false s t h k = k

year-IsLong :
    (y m d s : ℕ)
    → IsLong 10 (
        put_year y (
          String.◌∷◌ "-" (put2 m (String.◌∷◌ "-" (put2 d (String.◌∷◌ "T" (put_clock s ".000Z")))))))
year-IsLong y m d s =
    let rest =
      String.◌∷◌ "-" (put2 m (String.◌∷◌ "-" (put2 d (String.◌∷◌ "T" (put_clock s ".000Z"))))) in
    four_or_six 10 (ltb y 10000) (put4 y rest)
      (String.◌∷◌ "+" (put2 (y / 10000) (put4 (y % 10000) rest))) tt tt

iso_text-IsLong : (t : ℕ) → IsLong 10 (iso_text t)
unfolding iso_text
iso_text-IsLong t =
    let (y, k) = year_of_day (t / 86400) in
    let (m, d) = find_month (month_lengths y) 1 k in year-IsLong y m d (t % 86400)

take_chars-cut :
    (n m : ℕ) (s z : String)
    → n ≤ m
    → IsLong n s
    → take_chars n (take_chars m s ++ z) ≡ take_chars n s
unfolding take_chars
take_chars-cut zero m s z h k = refl
take_chars-cut (suc n) m String.[] z h k = absurd k
take_chars-cut (suc n) zero (String.◌∷◌ c s) z h k = absurd (omega (arith, h))
take_chars-cut (suc n) (suc m) (String.◌∷◌ c s) z h k =
    rw cons-append (ap (λ r. String.◌∷◌ c r) (take_chars-cut n m s z (omega (arith, h)) k))

-- The day of a printed time, before and after the time of the day is cut at the seconds.
pub take_chars-iso_text :
    (t : ℕ) → take_chars 10 (take_chars 19 (iso_text t) ++ "Z") ≡ take_chars 10 (iso_text t)
take_chars-iso_text t = take_chars-cut 10 19 (iso_text t) "Z" (omega arith) (iso_text-IsLong t)
