-- ===== src/Js/Number.antt =====
-- Decimal text. Numbers are the natural ones: the server's times and the UI's indices.
pub mod Reading
use lens.Prelude.{
  ℕ, zero, suc, ◌+◌, ◌-◌, ◌*◌, ◌/◌, ◌%◌, Char, code, String, Option, none, some, ◌&&◌, ltb, leb,
  if◌then◌else◌,
}

-- The digit of a number below ten.
unfoldable pub digit : ℕ → Char
digit zero = "0"
digit (suc zero) = "1"
digit (suc (suc zero)) = "2"
digit (suc (suc (suc zero))) = "3"
digit (suc (suc (suc (suc zero)))) = "4"
digit (suc (suc (suc (suc (suc zero))))) = "5"
digit (suc (suc (suc (suc (suc (suc zero)))))) = "6"
digit (suc (suc (suc (suc (suc (suc (suc zero))))))) = "7"
digit (suc (suc (suc (suc (suc (suc (suc (suc zero)))))))) = "8"
digit _ = "9"

unfoldable pub digit_value : Char → Option ℕ
digit_value c = if leb b'0' (code c) && leb (code c) b'9' then some (code c - b'0') else none

-- The digits of `n`, before `rest`. The fuel `n + 1` is enough, a division by ten makes `n` smaller.
unfoldable pub decimal_from : ℕ → ℕ → String → String
unfolding digit
decimal_from zero n rest = rest
decimal_from (suc fuel) n rest =
    let one_digit = String.◌∷◌ (digit (n % 10)) rest in
    let more = decimal_from fuel (n / 10) one_digit in if ltb n 10 then one_digit else more

-- `"" + n`
unfoldable pub decimal : ℕ → String
unfolding decimal_from
decimal n = decimal_from (suc n) n ""

-- Digits that continue a number.
unfoldable pub read_digits : ℕ → String → Option ℕ
unfolding digit_value
read_digits n String.[] = some n
read_digits n (String.◌∷◌ c s) = elim (digit_value c) [
  | none ↦ none
  | some d ↦ read_digits (n * 10 + d) s
]

-- `Number(s)`, `none` for `NaN`: the empty text is 0. Of the other spellings of numbers only runs of
-- digits are read.
unfoldable pub number_of_text : String → Option ℕ
unfolding read_digits
number_of_text s = read_digits 0 s
