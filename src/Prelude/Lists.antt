-- ===== src/Prelude/Lists.antt =====
-- Lists measured and indexed by native numbers, under the library's names, and predicates on lists.
use Prim.Native.Nat.{ℕ, zero, suc}
use mathlib.Core.Path.{◌≡◌, subst}
use mathlib.Core.Option.{Option, none, some}
use mathlib.Core.List.{List, [], ◌∷◌, ◌++◌}

module _ {ℓ} {A : Type ℓ} where
  abbrev pub length : List A → ℕ
  length [] = 0
  length (x ∷ xs) = suc (length xs)

  abbrev pub get_elem? : List A → ℕ → Option A
  get_elem? [] i = none
  get_elem? (x ∷ xs) zero = some x
  get_elem? (x ∷ xs) (suc i) = get_elem? xs i

  -- Removal of one element; out of bounds nothing is removed.
  abbrev pub erase_idx : List A → ℕ → List A
  erase_idx [] i = []
  erase_idx (x ∷ xs) zero = xs
  erase_idx (x ∷ xs) (suc i) = x ∷ erase_idx xs i

module _ {ℓ κ} {A : Type ℓ} (P : A → Type κ) where
  abbrev pub All : List A → Type κ
  All [] = Unit
  All (x ∷ xs) = P x × All xs

  abbrev HoldsOf : Option A → Type κ
  HoldsOf none = Unit
  HoldsOf (some x) = P x

  pub All-append : (xs ys : List A) → All xs → All ys → All (xs ++ ys)
  All-append [] ys h k = k
  All-append (x ∷ xs) ys (p, h) k = (p, All-append xs ys h k)

  pub All-erase_idx : (xs : List A) (i : ℕ) → All xs → All (erase_idx xs i)
  All-erase_idx [] i h = h
  All-erase_idx (x ∷ xs) zero (p, h) = h
  All-erase_idx (x ∷ xs) (suc i) (p, h) = (p, All-erase_idx xs i h)

  pub All-get_elem? : (xs : List A) (i : ℕ) {x : A} → All xs → get_elem? xs i ≡ some x → P x
  All-get_elem? [] i h e = cc
  All-get_elem? (x ∷ xs) zero (p, h) e = subst (λ o. HoldsOf o) e p
  All-get_elem? (x ∷ xs) (suc i) (p, h) e = All-get_elem? xs i h e
