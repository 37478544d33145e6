-- ===== src/Ui/Render.antt =====
-- Rendering: the `display_*` and `render_*` functions of lens3ui.js. Where the code replaces the children
-- of an element, the model replaces the list of nodes of that element.
use Prim.Native.String.{◌++◌}
use lens.Prelude.{ℕ, ◌+◌, ◌*◌, ◌/◌, String, Bool, true, List, [], ◌∷◌, map, ◌==◌, if◌then◌else◌}
use lens.Js.Value.{Value, undefined, null, bool, num, str, arr, obj, to_text, iterate}
use lens.Ui.Node.{
  Node, tree, text, number, flag, call, edit_pool, delete_pool, delete_bucket, delete_secret,
  copy_text,
}
use lens.Ui.State.{Key}
use lens.Ui.Code.{M, type_error, ◌>>=◌, ◌>>◌, ret, or_throw, prop, read, set_dom, each, throw}
use lens.Ui.Times.{date_input}

-- A line of the pool list, `{text: {label, value}}`.
pub record Row : Type 0 where
  pub label : String
  pub value : Value

abbrev pub row : String → Value → Row
row label value = record { label = label; value = value }

unfoldable pub display_pool_list : Bool → M (Unit {0})
display_pool_list v = set_dom (λ d. record d { pool_list_section = v })

unfoldable pub display_pool_edit : Bool → M (Unit {0})
display_pool_edit v = set_dom (λ d. record d { buckets_section = v; secrets_section = v })

unfoldable pub display_pool_make : Bool → M (Unit {0})
display_pool_make v = set_dom (λ d. record d { pool_make_section = v })

-- What an input shows that is given a value: `null` empties it.
unfoldable pub dom_value : Value → String
dom_value null = ""
dom_value undefined = "undefined"
dom_value (bool b) = to_text (bool b)
dom_value (num n) = to_text (num n)
dom_value (str s) = s
dom_value (arr vs) = to_text (arr vs)
dom_value (obj fs) = to_text (obj fs)

unfoldable pub option_node : Value → Node
option_node v = tree "option" (("text", text (to_text v)) ∷ ("value", text (to_text v)) ∷ []) []

-- The value of a fresh `select` is that of its first option.
unfoldable pub first_text : List Value → String
first_text [] = ""
first_text (v ∷ vs) = to_text v

unfoldable pub render_user_info : M (Unit {0})
render_user_info = do
  owner ← read (λ s. s.pool_data.owner)
  set_dom (λ d. record d { pool_owner = dom_value owner })
  choices ← read (λ s. s.pool_data.group_choices)
  groups ← or_throw type_error (iterate choices)
  let select = tree "select" (("id", text "group_choices") ∷ []) (map option_node groups)
  set_dom (λ d. record d { group_choices = select; group_value = first_text groups })

unfoldable pub render_secret_expiration_default : M (Unit {0})
render_secret_expiration_default = do
  now ← read (λ s. s.clock)
  let day7 = now / 1000 + 7 * 24 * 3600
  set_dom (λ d. record d { secret_expiration = date_input day7 })

unfoldable pub row_node : Row → Node
row_node i =
    let s = "<span class=\"label\">" ++ (i.label ++ (": </span>" ++ to_text i.value)) in
    tree "li" (("innerHTML", text s) ∷ []) []

unfoldable pub pool_node : ℕ → List Row → Node
pool_node p rows = tree "div" [] (
    tree "hr" [] []
    ∷ tree "input"
        (("onclick", call (edit_pool p)) ∷ ("type", text "button") ∷ ("value", text "Edit") ∷ []) []
    ∷ tree "input"
        (("onclick", call (delete_pool p))
          ∷ ("type", text "button")
          ∷ ("value", text "Delete")
          ∷ [])
        []
    ∷ tree "ul" (("style", text "list-style: none;") ∷ []) (map row_node rows)
    ∷ [])

-- The entries from index `p` on.
unfoldable pub pool_nodes : ℕ → List (List Row) → List Node
pool_nodes p [] = []
pool_nodes p (rows ∷ more) = pool_node p rows ∷ pool_nodes (p + 1) more

unfoldable pub render_pool_list : List (List Row) → M (Unit {0})
render_pool_list pool_li_items =
    set_dom (λ d. record d { list_of_pools = tree "div" [] (pool_nodes 0 pool_li_items) ∷ [] })

abbrev text_input : String → ℕ → Node
text_input value size =
    tree "input"
      (("type", text "text")
        ∷ ("value", text value)
        ∷ ("size", number size)
        ∷ ("disabled", flag true)
        ∷ [])
      []

-- An entry of the bucket list, with `b.name` and `b.bkt_policy`.
unfoldable pub bucket_row : Value → Value → Node
bucket_row name policy =
    let inputs = text_input (dom_value name) 30 ∷ text_input (dom_value policy) 10 ∷ [] in
    let label = tree "span" (("className", text "label") ∷ []) inputs in
    let button =
      tree "button"
        (("onclick", call (delete_bucket name)) ∷ ("innerText", text "Delete bucket") ∷ []) [] in
    tree "div" [] (label ∷ button ∷ [])

unfoldable pub bucket_node : Value → M Node
bucket_node b = do name ← prop b "name"; policy ← prop b "bkt_policy"; ret (bucket_row name policy)

unfoldable pub render_bucket_list : M (Unit {0})
render_bucket_list = do
  bucket_list ← read (λ s. s.pool_data.bucket_list)
  buckets ← or_throw type_error (iterate bucket_list)
  list ← each bucket_node buckets
  set_dom (λ d. record d { list_of_buckets = list })

abbrev copy_button : Value → Node
copy_button v = tree "button" (("onclick", call (copy_text v)) ∷ ("innerText", text "Copy") ∷ []) []

unfoldable pub secret_node : Key → Node
secret_node k = tree "div" [] (
    tree "span" (("className", text "label") ∷ [])
      (text_input (dom_value k.access_key) 22 ∷ copy_button k.access_key ∷ [])
    ∷ text_input (dom_value k.secret_key) 50
    ∷ copy_button k.secret_key
    ∷ tree "span" (("innerHTML", text "&emsp;Expires:") ∷ []) []
    ∷ tree "input"
        (("type", text "datetime")
          ∷ ("value", text k.expiration_time)
          ∷ ("disabled", flag true)
          ∷ [])
        []
    ∷ tree "button"
        (("onclick", call (delete_secret k.access_key)) ∷ ("innerText", text "Delete key") ∷ []) []
    ∷ [])

-- There is a section for each of the three policies; for another name `e` is null.
unfoldable pub render_secret_list_by_policy : String → List Key → M (Unit {0})
render_secret_list_by_policy policy keys =
    let list = map secret_node keys in
    if policy == "rw"
    then set_dom (λ d. record d { list_of_secrets_rw = list })
    else if policy == "ro"
    then set_dom (λ d. record d { list_of_secrets_ro = list })
    else if policy == "wo"
    then set_dom (λ d. record d { list_of_secrets_wo = list })
    else throw type_error

unfoldable pub render_secret_list : M (Unit {0})
render_secret_list = do
  rw_keys ← read (λ s. s.pool_data.secrets_rw)
  render_secret_list_by_policy "rw" rw_keys
  ro_keys ← read (λ s. s.pool_data.secrets_ro)
  render_secret_list_by_policy "ro" ro_keys
  wo_keys ← read (λ s. s.pool_data.secrets_wo)
  render_secret_list_by_policy "wo" wo_keys

unfoldable pub render_buckets_directory : M (Unit {0})
render_buckets_directory = do
  dir ← read (λ s. s.pool_data.buckets_directory)
  set_dom (λ d. record d { buckets_directory = dom_value dir })

abbrev line : String → Node
line s = tree "div" (("innerText", text s) ∷ []) []

unfoldable pub render_response : M (Unit {0})
render_response = do
  p ← read (λ s. s.pool_data)
  let d1 = line ("Status: " ++ to_text p.response_status)
  let d2 = line ("Reason: " ++ to_text p.response_reason)
  let d3 = line ("Timestamp: " ++ p.response_time)
  let d4 = line ("Message: " ++ to_text p.response_message)
  set_dom (λ d. record d { server_response = d1 ∷ d2 ∷ d3 ∷ d4 ∷ [] })
