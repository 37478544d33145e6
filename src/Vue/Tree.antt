-- ===== src/Vue/Tree.antt =====
-- What a render function gives to Vue: the arguments of `createVNode`, `createBaseVNode` and
-- `createTextVNode`, as a tree. Flags for the compiler's optimisations and keys are left out, and a slot is
-- an element with the slot's name; the default slot is the list of children.
use mathlib.Core.List.{◌++◌}
use lens.Prelude.{ℕ, String, Bool, List, [], ◌∷◌, Option, none, some}
use lens.Js.Value.{Value}
use lens.Vue.Actions.{Event}

-- `assigns` names the place that `onUpdate:modelValue` assigns its argument to.
pub data Prop : Type 0 where
  text : String → Prop
  value : Value → Prop
  texts : List String → Prop
  assigns : String → Prop
  on_click : Event → Prop
  flag : Bool → Prop
  number : ℕ → Prop

mutual
  pub data Tree : Type 0 where
    text_node : String → Tree
    comment : Tree
    element : String → List (String × Prop) → Trees → Tree

  pub data Trees : Type 0 where
    no_trees : Trees
    then_tree : Tree → Trees → Trees

unfoldable pub trees : List Tree → Trees
trees [] = no_trees
trees (t ∷ ts) = then_tree t (trees ts)

abbrev pub el : String → List (String × Prop) → List Tree → Tree
unfolding trees
el tag props kids = element tag props (trees kids)

abbrev pub prop_clicks : List (String × Prop) → List Event
prop_clicks [] = []
prop_clicks ((k, on_click e) ∷ more) = e ∷ prop_clicks more
prop_clicks ((k, text _) ∷ more) = prop_clicks more
prop_clicks ((k, value _) ∷ more) = prop_clicks more
prop_clicks ((k, texts _) ∷ more) = prop_clicks more
prop_clicks ((k, assigns _) ∷ more) = prop_clicks more
prop_clicks ((k, flag _) ∷ more) = prop_clicks more
prop_clicks ((k, number _) ∷ more) = prop_clicks more

-- The events of the handlers of clicks of a tree, in its order. A button without one counts for
-- nothing.
unfoldable mutual
  pub clicks : Tree → List Event
  clicks (text_node s) = []
  clicks comment = []
  clicks (element tag props kids) = prop_clicks props ++ trees_clicks kids

  pub trees_clicks : Trees → List Event
  trees_clicks no_trees = []
  trees_clicks (then_tree t ts) = clicks t ++ trees_clicks ts

-- Code that renders: `none` where it throws a TypeError.
infixl 5 ◌>>=◌ ◌>>◌
abbrev pub ◌>>=◌ {ℓ κ} : {A : Type ℓ} {B : Type κ} → Option A → (A → Option B) → Option B
m >>= k = elim m [ some a ↦ k a | none ↦ none ]

abbrev pub ◌>>◌ {ℓ κ} : {A : Type ℓ} {B : Type κ} → Option A → Option B → Option B
m >> k = m >>= λ _. k

unfoldable pub traverse {ℓ} : {A : Type ℓ} → (A → Option Tree) → List A → Option (List Tree)
traverse f [] = some []
traverse f (x ∷ xs) = f x >>= λ t. traverse f xs >>= λ ts. some (t ∷ ts)
