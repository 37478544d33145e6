-- ===== src/Vue/Code/Keeps.antt =====
-- What code of the client keeps of the state, whether it ends or throws.
use lens.Prelude.{Bool, Option, none, some, List, [], ◌∷◌}
use lens.Vue.State.{Client}
use lens.Ui.Code.{Error}
use lens.Vue.Code.{
  V, Result, ended, failed, left, give, or_fail, look, next, ◌>>=◌, each, filter_by,
}

-- Started in a state with `P`, the code leaves one with `P`.
pub record Keeps (P : Client → Type 0) {A : Type 0} (m : V A) : Type 0 where
  pub leaves : (s : Client) → P s → P (left (m s))

module _ {P : Client → Type 0} {A : Type 0} where
  pub give-Keeps : (a : A) → Keeps P (give a)
  unfolding give
  give-Keeps a = record { leaves = λ s p. p }

  pub or_fail-Keeps : (e : Error) (o : Option A) → Keeps P (or_fail e o)
  unfolding or_fail
  or_fail-Keeps e none = record { leaves = λ s p. p }
  or_fail-Keeps e (some a) = record { leaves = λ s p. p }

  pub look-Keeps : (f : Client → A) → Keeps P (look f)
  unfolding look
  look-Keeps f = record { leaves = λ s p. p }

module _ {P : Client → Type 0} {A B : Type 0} where
  next-left :
      (k : A → V B) (o : Result A) → ((a : A) → Keeps P (k a)) → P (left o) → P (left (next o k))
  next-left k (ended a s) h p = (h a).leaves s p
  next-left k (failed e s) h p = p

  pub bind-Keeps :
      (m : V A) (k : A → V B) → Keeps P m → ((a : A) → Keeps P (k a)) → Keeps P (m >>= k)
  unfolding ◌>>=◌
  bind-Keeps m k h l = record { leaves = λ s p. next-left k (m s) l (h.leaves s p) }

pub ruleset client_rules = (bind-Keeps, or_fail-Keeps, look-Keeps, give-Keeps)

module _ {P : Client → Type 0} {A B : Type 0} where
  pub each-Keeps : (f : A → V B) (xs : List A) → ((x : A) → Keeps P (f x)) → Keeps P (each f xs)
  unfolding each
  each-Keeps f [] h = give-Keeps []
  each-Keeps f (x ∷ xs) h =
      bind-Keeps _ _ (h x) (λ b. bind-Keeps _ _ (each-Keeps f xs h) (λ bs. give-Keeps _))

module _ {P : Client → Type 0} {A : Type 0} where
  pub filter_by-Keeps :
      (f : A → V Bool) (xs : List A) → ((x : A) → Keeps P (f x)) → Keeps P (filter_by f xs)
  unfolding filter_by
  filter_by-Keeps f [] h = give-Keeps []
  filter_by-Keeps f (x ∷ xs) h =
      bind-Keeps _ _ (h x) (λ b. bind-Keeps _ _ (filter_by-Keeps f xs h) (λ ys. give-Keeps _))

pub ruleset client_loop_rules = (client_rules, each-Keeps, filter_by-Keeps)
