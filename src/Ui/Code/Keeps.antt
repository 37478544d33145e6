-- ===== src/Ui/Code/Keeps.antt =====
-- What code keeps of the state, whether it ends or throws: a rule for each way to build it.
use lens.Prelude.{◌≡◌, refl, Bool, true, false, Option, none, some, List, [], ◌∷◌, if◌then◌else◌}
use lens.Ui.State.{App}
use lens.Ui.Code.{
  Error, M, Outcome, done, thrown, final, ret, throw, or_throw, read, after, ◌>>=◌, each, filter_by,
}

-- Started in a state with `P`, the code leaves one with `P`.
pub record Keeps (P : App → Type 0) {A : Type 0} (code : M A) : Type 0 where
  pub leaves : (s : App) → P s → P (final (code s))

module _ {A : Type 0} {P : App → Type 0} where
  -- Code that ends or throws where it started.
  still-Keeps : (code : M A) → ((s : App) → final (code s) ≡ s) → Keeps P code
  still-Keeps code same = record { leaves = λ s p. rw same p }

  pub throw-Keeps : (e : Error) → Keeps P (throw {A = A} e)
  unfolding throw
  throw-Keeps e = still-Keeps _ (λ s. refl)

  pub ret-Keeps : (a : A) → Keeps P (ret a)
  unfolding ret
  ret-Keeps a = still-Keeps _ (λ s. refl)

  pub or_throw-Keeps : (e : Error) (found : Option A) → Keeps P (or_throw e found)
  unfolding or_throw
  or_throw-Keeps e (some a) = still-Keeps _ (λ s. refl)
  or_throw-Keeps e none = still-Keeps _ (λ s. refl)

  pub read-Keeps : (part : App → A) → Keeps P (read part)
  unfolding read
  read-Keeps part = still-Keeps _ (λ s. refl)

  pub if-Keeps :
      (test : Bool) (code other : M A)
      → Keeps P code
      → Keeps P other
      → Keeps P (if test then code else other)
  if-Keeps false code other h k = k
  if-Keeps true code other h k = h

module _ {A B : Type 0} {P : App → Type 0} where
  -- The rest of a sequence runs from the outcome of its first part.
  after-final :
      (rest : A → M B) (first : Outcome A)
      → ((a : A) → Keeps P (rest a))
      → P (final first)
      → P (final (after first rest))
  after-final rest (thrown e s) k p = p
  after-final rest (done a s) k p = (k a).leaves s p

  pub bind-Keeps :
      (code : M A) (rest : A → M B)
      → Keeps P code
      → ((a : A) → Keeps P (rest a))
      → Keeps P (code >>= rest)
  unfolding ◌>>=◌
  bind-Keeps code rest h k = record { leaves = λ s p. after-final rest (code s) k (h.leaves s p) }

pub ruleset code_rules = (bind-Keeps, if-Keeps, or_throw-Keeps, read-Keeps, ret-Keeps, throw-Keeps)

module _ {A B : Type 0} {P : App → Type 0} where
  pub each-Keeps :
      (body : A → M B) (xs : List A) → ((x : A) → Keeps P (body x)) → Keeps P (each body xs)
  unfolding each
  each-Keeps body [] h = ret-Keeps []
  each-Keeps body (x ∷ xs) h =
      bind-Keeps _ _ (h x) (λ b. bind-Keeps _ _ (each-Keeps body xs h) (λ bs. ret-Keeps _))

module _ {A : Type 0} {P : App → Type 0} where
  pub filter_by-Keeps :
      (test : A → M Bool) (xs : List A) → ((x : A) → Keeps P (test x)) → Keeps P (filter_by test xs)
  unfolding filter_by
  filter_by-Keeps test [] h = ret-Keeps []
  filter_by-Keeps test (x ∷ xs) h =
      bind-Keeps _ _ (h x) (λ b. bind-Keeps _ _ (filter_by-Keeps test xs h) (λ ys. ret-Keeps _))

pub ruleset loop_rules = (code_rules, each-Keeps, filter_by-Keeps)
