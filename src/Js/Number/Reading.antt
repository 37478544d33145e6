-- ===== src/Js/Number/Reading.antt =====
-- Decimal text is read back as the number.
use lens.Prelude.{
  ℕ, zero, suc, ◌+◌, ◌*◌, ◌/◌, ◌%◌, ◌<◌, ◌≡◌, refl, String, some, Bool-cases, inl, inr, arith, ltb,
  ltb→lt, ap,
}
use lens.Js.Number.{digit, digit_value, decimal_from, decimal, read_digits, number_of_text}

pub digit_value-digit : (n : ℕ) → n < 10 → digit_value (digit n) ≡ some n
unfolding digit_value digit
digit_value-digit zero h = refl
digit_value-digit (suc zero) h = refl
digit_value-digit (suc (suc zero)) h = refl
digit_value-digit (suc (suc (suc zero))) h = refl
digit_value-digit (suc (suc (suc (suc zero)))) h = refl
digit_value-digit (suc (suc (suc (suc (suc zero))))) h = refl
digit_value-digit (suc (suc (suc (suc (suc (suc zero)))))) h = refl
digit_value-digit (suc (suc (suc (suc (suc (suc (suc zero))))))) h = refl
digit_value-digit (suc (suc (suc (suc (suc (suc (suc (suc zero)))))))) h = refl
digit_value-digit (suc (suc (suc (suc (suc (suc (suc (suc (suc zero))))))))) h = refl
digit_value-digit (suc (suc (suc (suc (suc (suc (suc (suc (suc (suc n)))))))))) h =
    absurd (omega arith)

read_digits-digit :
    (a d : ℕ) (rest : String)
    → d < 10
    → read_digits a (String.◌∷◌ (digit d) rest) ≡ read_digits (a * 10 + d) rest
unfolding read_digits
read_digits-digit a d rest h = rw (digit_value-digit d h, read_digits)

-- The fuel `n + 1` is enough: all digits of `n` are written.
read_digits-decimal_from :
    (fuel n : ℕ) (rest : String)
    → n < fuel
    → read_digits 0 (decimal_from fuel n rest) ≡ read_digits n rest
unfolding decimal_from
read_digits-decimal_from zero n rest h = absurd (omega arith)
read_digits-decimal_from (suc fuel) n rest h = elim (Bool-cases (ltb n 10)) [
  | inl e ↦ rw e (
      rw (read_digits-digit 0 (n % 10) rest (omega arith))
        (ap (λ m. read_digits m rest) (omega (arith, ltb→lt n 10 e))))
  | inr e ↦ rw e (
      rw (read_digits-decimal_from fuel (n / 10) _ (ground arith)) (
        rw (read_digits-digit (n / 10) (n % 10) rest (omega arith))
          (ap (λ m. read_digits m rest) (omega arith))))
]

-- `Number("" + n)` is `n`.
pub number_of_text-decimal : (n : ℕ) → number_of_text (decimal n) ≡ some n
unfolding number_of_text decimal
number_of_text-decimal n =
    rw (read_digits-decimal_from (suc n) n "" (omega arith)) (unfold read_digits in refl)
