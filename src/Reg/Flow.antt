-- ===== src/Reg/Flow.antt =====
-- What a handler of v2/lens3/registrar.go does: it reads and writes the tables, and returns, or
-- answers with an error and stops, or panics. The panics are as handle_exc in
-- v2/lens3/multiplexer.go tells them apart: `panic(nil)` also quits the whole service.
pub mod Inversion
use lens.Prelude.{ℕ, String, Bool, true, false}

pub data Outcome {ℓ} (A : Type ℓ) : Type ℓ where
  returned : A → Outcome A
  refused : ℕ → String → Outcome A
  crashed quits : Outcome A

abbrev pub Go {ℓ} : Type ℓ → Type ℓ → Type ℓ
Go S A = S → Outcome A × S

module _ {ℓ} {S A : Type ℓ} where
  abbrev pub give : A → Go S A
  give a s = (returned a, s)

  -- The error of return_reg_error_response, with its code and message.
  abbrev pub refuse : ℕ → String → Go S A
  refuse code message s = (refused code message, s)

  -- The use of a null pointer.
  abbrev pub crash : Go S A
  crash s = (crashed, s)

  -- `panic(nil)`
  abbrev pub quit : Go S A
  quit s = (quits, s)

  abbrev pub gets : (S → A) → Go S A
  gets f s = (returned (f s), s)

module _ {ℓ} {S : Type ℓ} where
  abbrev pub modify : (S → S) → S → Outcome (Unit {ℓ}) × S
  modify f s = (returned tt, f s)

  abbrev pub assert_fatal : Bool → S → Outcome (Unit {ℓ}) × S
  assert_fatal true s = (returned tt, s)
  assert_fatal false s = (quits, s)

module _ {ℓ} {S A B : Type ℓ} where
  abbrev pub follow : Outcome A → (A → Go S B) → Go S B
  follow (returned a) f s = f a s
  follow (refused code message) f s = (refused code message, s)
  follow crashed f s = (crashed, s)
  follow quits f s = (quits, s)

  infixl 10 ◌>>=◌ ◌>>◌
  unfoldable pub ◌>>=◌ : Go S A → (A → Go S B) → Go S B
  ◌>>=◌ m f s = let (r, s') = m s in follow r f s'

  abbrev pub ◌>>◌ : Go S A → Go S B → Go S B
  m >> n = m >>= λ _. n
