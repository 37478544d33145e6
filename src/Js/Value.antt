-- ===== src/Js/Value.antt =====
-- The values of the language, as far as responses of the server and the UI's own data need them.
-- `get` and `index` answer `none` where the language throws a TypeError.
use Prim.Native.String.{◌++◌}
use lens.Prelude.{
  ℕ, String, Bool, true, false, not, Option, none, some, List, [], ◌∷◌, eqb, ◌==◌, get_elem?,
  if◌then◌else◌,
}
use lens.Js.Number.{decimal, number_of_text}

mutual
  pub data Fields : Type 0 where
    no_fields : Fields
    field : String → Value → Fields → Fields

  pub data Values : Type 0 where
    no_items : Values
    item : Value → Values → Values

  pub data Value : Type 0 where
    undefined : Value
    str : String → Value
    num : ℕ → Value
    bool : Bool → Value
    null : Value
    obj : Fields → Value
    arr : Values → Value

unfoldable pub list_of : Values → List Value
list_of no_items = []
list_of (item v vs) = v ∷ list_of vs

unfoldable pub items : List Value → Values
items [] = no_items
items (v ∷ vs) = item v (items vs)

-- A property that is missing is `undefined`.
unfoldable pub lookup : String → Fields → Value
lookup k no_fields = undefined
lookup k (field j v fs) = if j == k then v else lookup k fs

-- `v[k]` for the property names that the UI uses; no number, text or array has them.
unfoldable pub get : Value → String → Option Value
unfolding lookup
get undefined k = none
get null k = none
get (obj fs) k = some (lookup k fs)
get _ k = some undefined

abbrev get_or_undefined : Option Value → Value
get_or_undefined none = undefined
get_or_undefined (some v) = v

unfoldable pub chars : String → List Value
chars String.[] = []
chars (String.◌∷◌ c s) = str (String.◌∷◌ c String.[]) ∷ chars s

-- `v[i]` for an index: an object has no such property.
unfoldable pub index : Value → ℕ → Option Value
unfolding list_of chars
index undefined i = none
index null i = none
index (arr vs) i = some (get_or_undefined (get_elem? (list_of vs) i))
index (str s) i = some (get_or_undefined (get_elem? (chars s) i))
index _ i = some undefined

-- Array methods (`filter`, `map`), on an array only.
unfoldable pub array : Value → Option (List Value)
unfolding list_of
array (arr vs) = some (list_of vs)
array _ = none

-- `for (const v of …)`
unfoldable pub iterate : Value → Option (List Value)
unfolding list_of chars
iterate (arr vs) = some (list_of vs)
iterate (str s) = some (chars s)
iterate _ = none

-- The loop over `v[0]`, `v[1]`, … up to `v.length`; what has no length is not entered;
-- an object with a field of the name `length` is not modelled.
unfoldable pub elements : Value → Option (List Value)
unfolding list_of chars
elements undefined = none
elements null = none
elements (arr vs) = some (list_of vs)
elements (str s) = some (chars s)
elements _ = some []

-- Whether a value counts as true in a test.
unfoldable pub truthy : Value → Bool
truthy undefined = false
truthy null = false
truthy (bool b) = b
truthy (num n) = not (eqb n 0)
truthy (str s) = not (s == "")
truthy (arr _) = true
truthy (obj _) = true

-- `String(v)`; an array is joined by commas, in which `undefined` and `null` are empty.
unfoldable mutual
  unfolding decimal

  pub to_text : Value → String
  to_text undefined = "undefined"
  to_text null = "null"
  to_text (bool true) = "true"
  to_text (bool false) = "false"
  to_text (num n) = decimal n
  to_text (str s) = s
  to_text (arr vs) = items_text vs
  to_text (obj _) = "[object Object]"

  pub items_text : Values → String
  items_text no_items = ""
  items_text (item v vs) = element_text v ++ more_text vs

  pub more_text : Values → String
  more_text no_items = ""
  more_text (item v vs) = "," ++ (element_text v ++ more_text vs)

  pub element_text : Value → String
  element_text undefined = ""
  element_text null = ""
  element_text (bool true) = "true"
  element_text (bool false) = "false"
  element_text (num n) = decimal n
  element_text (str s) = s
  element_text (arr vs) = items_text vs
  element_text (obj _) = "[object Object]"

-- `vs.join(sep)`
unfoldable pub join : String → List Value → String
unfolding element_text
join sep [] = ""
join sep (v ∷ []) = element_text v
join sep (v ∷ w ∷ vs) = element_text v ++ (sep ++ join sep (w ∷ vs))

abbrev number_of_bool : Bool → ℕ
number_of_bool true = 1
number_of_bool false = 0

-- `Number(v)`, `none` for `NaN`.
unfoldable pub to_number : Value → Option ℕ
unfolding number_of_text to_text
to_number undefined = none
to_number null = some 0
to_number (bool b) = some (number_of_bool b)
to_number (num n) = some n
to_number (str s) = number_of_text s
to_number (arr vs) = number_of_text (items_text vs)
to_number (obj _) = none

abbrev is_number : Option ℕ → ℕ → Bool
is_number none n = false
is_number (some m) n = eqb m n

-- `v == t` with a text, the loose equality.
unfoldable pub loosely : Value → String → Bool
unfolding number_of_text to_text
loosely undefined t = false
loosely null t = false
loosely (bool b) t = is_number (number_of_text t) (number_of_bool b)
loosely (num n) t = is_number (number_of_text t) n
loosely (str s) t = s == t
loosely (arr vs) t = items_text vs == t
loosely (obj _) t = "[object Object]" == t
