-- ===== src/Js/Assign.antt =====
-- Assignment to a property of an element: `vs[i].k = v`, `none` where it throws a TypeError.
use lens.Prelude.{ℕ, zero, suc, String, Option, none, some, ◌==◌, if◌then◌else◌}
use lens.Js.Value.{Value, obj, arr, Values, no_items, item, Fields, no_fields, field}

-- A new property stands behind the others.
unfoldable pub set_field : String → Value → Fields → Fields
set_field k v no_fields = field k v no_fields
set_field k v (field j w fs) =
    let rest = set_field k v fs in if j == k then field j v fs else field j w rest

-- A property that is given to an array is never read, and is left out.
unfoldable pub set_property : String → Value → Value → Option Value
unfolding set_field
set_property k v (obj fs) = some (obj (set_field k v fs))
set_property k v (arr vs) = some (arr vs)
set_property k v _ = none

abbrev with_rest : Value → Option Values → Option Values
with_rest v none = none
with_rest v (some vs) = some (item v vs)

abbrev with_first : Option Value → Values → Option Values
with_first none vs = none
with_first (some v) vs = some (item v vs)

unfoldable pub set_items : ℕ → String → Value → Values → Option Values
unfolding set_property
set_items i k v no_items = none
set_items zero k v (item w ws) = with_first (set_property k v w) ws
set_items (suc i) k v (item w ws) = with_rest w (set_items i k v ws)

abbrev as_array : Option Values → Option Value
as_array none = none
as_array (some vs) = some (arr vs)

-- Only an array has elements with properties.
unfoldable pub set_at : ℕ → String → Value → Value → Option Value
unfolding set_items
set_at i k v (arr vs) = as_array (set_items i k v vs)
set_at i k v _ = none
