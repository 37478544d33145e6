-- ===== src/Vue/View/Parts.antt =====
-- What the render functions use of Vue, and the parts that they share.
use lens.Prelude.{ℕ, zero, suc, ◌+◌, String, ◌≡◌, List, [], ◌∷◌, length, Option, none, some}
use lens.Js.Value.{Value, undefined, null, str, num, arr, items, list_of, chars}
use lens.Vue.Tree.{Tree, Prop, text, el, text_node, traverse}

abbrev pub range : ℕ → ℕ → List ℕ
range i zero = []
range i (suc n) = i ∷ range (i + 1) n

-- `toDisplayString`, and `renderList` over the elements of a list, over an array, and over the numbers below
-- a number.
pub record Framework : Type 1 where
  pub display : Value → String
  pub display_text : (t : String) → display (str t) ≡ t
  pub render_list : (A : Type 0) → (A → Option Tree) → List A → Option (List Tree)
  pub render_list_is :
      (A : Type 0) (f : A → Option Tree) (xs : List A) → render_list A f xs ≡ traverse f xs
  pub render_values : (Value → Option Tree) → Value → Option (List Tree)
  pub render_values_is :
      (f : Value → Option Tree) (vs : List Value) → render_values f (arr (items vs)) ≡ traverse f vs
  pub render_times : (ℕ → Option Tree) → Value → Option (List Tree)
  pub render_times_is :
      (f : ℕ → Option Tree) (n : ℕ) → render_times f (num n) ≡ traverse f (range 0 n)

-- `vs.length`, `none` where it throws a TypeError; what is no array and no text has none; an object with
-- a field of the name `length` is not modelled.
unfoldable pub length_of : Value → Option Value
unfolding list_of chars
length_of undefined = none
length_of null = none
length_of (arr vs) = some (num (length (list_of vs)))
length_of (str s) = some (num (length (chars s)))
length_of _ = some undefined

abbrev pub class : String → List (String × Prop)
class c = ("class", text c) ∷ []

abbrev pub spacer : Tree
spacer = el "VSpacer" [] []

-- A card of explanations.
abbrev pub note : String → Tree
note t =
    el "VCard" (("variant", text "outlined") ∷ class "w-100 ma-4")
      (el "VCardText" [] (text_node t ∷ []) ∷ [])

-- A heading.
abbrev pub heading : String → Tree
heading t = el "div" (class "text-h5 text-center w-100") (text_node t ∷ [])

-- A button with a tooltip.
abbrev pub tip : String → List (String × Prop) → Tree
tip t props =
    el "VTooltip" (("text", text t) ∷ []) (el "activator" [] (el "VBtn" props [] ∷ []) ∷ [])
