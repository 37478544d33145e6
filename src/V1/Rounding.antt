-- ===== src/V1/Rounding.antt =====
-- The texts of times in v1, which are not rounded to seconds.
use text.Mathlib.TextLemmas.{append-nil}
use lens.Prelude.{
  ℕ, ◌-◌, ◌*◌, ◌/◌, ◌%◌, ◌≤◌, ◌≡◌, refl, ap, String, false, Option, some, none, arith, ltb,
}
use lens.Js.Number.{decimal}
use lens.Js.Date.{epoch, time_value}
use lens.Ui.Times
use lens.V1.Api

-- The text stands for a time in whole seconds from 1970 on, or for none.
abbrev pub IsWhole : Option ℕ → Type 0
IsWhole none = Unit
IsWhole (some ms) = (ms % 1000 ≡ 0) × (epoch * 1000 ≤ ms)

since_epoch-whole :
    (ms : ℕ)
    → ms % 1000 ≡ 0
    → epoch * 1000 ≤ ms
    → Api.since_epoch ms ≡ Times.since_epoch (ms / 1000)
unfolding Api.seconds_text
since_epoch-whole ms h k =
    rw (late ms k) (rw (rest ms h k) (rw append-nil (rw (later ms k) (ap decimal (omega arith)))))
  where
    late : (n : ℕ) → epoch * 1000 ≤ n → ltb n (epoch * 1000) ≡ false
    late n k = ground arith

    later : (n : ℕ) → epoch * 1000 ≤ n → ltb (n / 1000) epoch ≡ false
    later n k = ground arith

    rest : (n : ℕ) → n % 1000 ≡ 0 → epoch * 1000 ≤ n → (n - epoch * 1000) % 1000 ≡ 0
    rest n h k = omega arith

pub parse-whole : (t : String) → IsWhole (time_value t) → Api.parse_time_z t ≡ Times.parse_time_z t
unfolding Api.parse_time_z Times.parse_time_z
parse-whole t h = whole (time_value t) h
  where
    whole :
        (o : Option ℕ)
        → IsWhole o
        → ◌≡◌ {A = String}
            (elim o [ none ↦ "NaN" | some ms ↦ Api.since_epoch ms ])
            (elim o [ none ↦ "NaN" | some ms ↦ Times.since_epoch (ms / 1000) ])
    whole none h = refl
    whole (some ms) (h, k) = since_epoch-whole ms h k
