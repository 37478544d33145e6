-- ===== src/Ui/Spec/Buttons.antt =====
-- The buttons that are rendered, and the requests that they send.
use Prim.Native.String.{◌++◌}
use mathlib.Core.List
use mathlib.Core.List.{append-nil}
use lens.Ui.Times.{date_input}
use lens.Ui.Spec.Lists.{list_of-items}
use lens.Prelude.{
  ℕ, suc, ◌+◌, ◌≡◌, refl, List, [], ◌∷◌, map, some, get_elem?, length, All, ◌*◌, ◌/◌, zero, ap,
}
use lens.Js.Value.{Value, str, get, to_text, index, items, arr}
use lens.Js.Json.{stringify}
use lens.Ui.State.{App, set_pool, list_pools}
use lens.Ui.Node.{
  Click, delete_bucket, delete_secret, edit_pool, delete_pool, copy_text, clicks, nodes_clicks,
  children, list_clicks,
}
use lens.Ui.Code.{◌>>=◌, done, final}
use lens.Ui.Render.{
  Row, row_node, pool_node, pool_nodes, bucket_row, secret_node, render_secret_expiration_default,
}
use lens.Ui.Data.{set_pool_data, set_pool_list_data}
use lens.Ui.Api.{no_args, api_delete_bucket, api_delete_secret, api_delete_pool, run_edit_pool}
use lens.Ui.Actions.{kick}
use lens.Ui.Spec.Shown.{set_pool_data_lem, set_pool_list_data_lem}
use lens.Ui.Spec.{
  Bucket, Secret, Desc, desc_value, IsTimely, shown_key, keys_with, edited, listed, rows,
}
use lens.Ui.Requests.{request, pending, network-api_call, network-pool_call}

list_clicks-buckets :
    (bs : List Bucket)
    → list_clicks (map (λ (b : Bucket). bucket_row (str b.name) (str b.bkt_policy)) bs)
      ≡ map (λ (b : Bucket). delete_bucket (str b.name)) bs
unfolding list_clicks clicks children bucket_row
list_clicks-buckets [] = refl
list_clicks-buckets (b ∷ bs) = ap (delete_bucket (str b.name) ∷◌) (list_clicks-buckets bs)

get_elem?-map :
    {A B : Type 0} (f : A → B) (xs : List A) (i : ℕ) {x : A}
    → get_elem? xs i ≡ some x
    → get_elem? (map f xs) i ≡ some (f x)
get_elem?-map f [] i e = cc
get_elem?-map f (x ∷ xs) zero e = cc
get_elem?-map f (x ∷ xs) (suc i) e = get_elem?-map f xs i e

-- The buttons of a list of keys: for each key, copying its two parts, and its deletion.
abbrev pub key_buttons : List Secret → List Click
key_buttons [] = []
key_buttons (k ∷ ks) =
    copy_text (str k.access_key)
    ∷ copy_text (str k.secret_key)
    ∷ delete_secret (str k.access_key)
    ∷ key_buttons ks

list_clicks-keys :
    (ks : List Secret) → list_clicks (map secret_node (map shown_key ks)) ≡ key_buttons ks
unfolding list_clicks clicks children secret_node
list_clicks-keys [] = refl
list_clicks-keys (k ∷ ks) =
    ap
      (λ more.
        copy_text (str k.access_key)
        ∷ copy_text (str k.secret_key)
        ∷ delete_secret (str k.access_key)
        ∷ more)
      (list_clicks-keys ks)

-- The buttons of the pool list, for `n` pools from index `p` on.
abbrev pub pool_buttons : ℕ → ℕ → List Click
pool_buttons p zero = []
pool_buttons p (suc n) = edit_pool p ∷ delete_pool p ∷ pool_buttons (p + 1) n

row_clicks : (rs : List Row) → nodes_clicks (children (map row_node rs)) ≡ []
unfolding clicks children row_node
row_clicks [] = refl
row_clicks (r ∷ rs) = row_clicks rs

pool_clicks :
    (p : ℕ) (ds : List Desc)
    → nodes_clicks (children (pool_nodes p (map rows ds))) ≡ pool_buttons p (length ds)
unfolding clicks children pool_nodes pool_node
pool_clicks p [] = refl
pool_clicks p (d ∷ ds) =
    rw (row_clicks (rows d))
      (ap (λ more. edit_pool p ∷ delete_pool p ∷ more) (pool_clicks (p + 1) ds))

module _ (d : Desc) (response : Value) (s : App) (times : IsTimely d)
    (sent : get response "pool_desc" ≡ some (desc_value d)) where
  abbrev editor : App
  editor = final (set_pool_data response s)

  -- When a response with the description of a pool, its times and those of its keys in the range of
  -- Date, is shown in the editor, the i-th button of the bucket list is the one of the i-th bucket,
  -- and it sends a DELETE request for that bucket of that pool.
  pub delete_bucket_button :
      (i : ℕ) (b : Bucket)
      → get_elem? d.buckets i ≡ some b
      → (get_elem? (list_clicks editor.dom.list_of_buckets) i ≡ some (delete_bucket (str b.name)))
        × ((final (kick (delete_bucket (str b.name)) editor)).network
            ≡ List.◌++◌ editor.network (
                pending "delete bucket"
                  (request "DELETE"
                    ("/pool/" ++ (d.pool_name ++ ("/bucket/" ++ b.name)))
                    (some "{}")
                    editor)
                  set_pool
                ∷ []))
  unfolding kick api_delete_bucket no_args stringify to_text
  delete_bucket_button i b e = rw (set_pool_data_lem d response s times sent) (
    rw (list_clicks-buckets d.buckets)
        (get_elem?-map (λ (b : Bucket). delete_bucket (str b.name)) d.buckets i e),
    network-pool_call _ _ _ _ (edited d s),
  )

  -- When such a response is shown in the editor, the buttons of each of the three lists of keys are, in
  -- order, those for copying the two parts of each key with that policy and for deleting it; the one
  -- for deleting a key sends a DELETE request for that key of that pool.
  pub delete_secret_button :
      (k : Secret)
      → (list_clicks editor.dom.list_of_secrets_rw ≡ key_buttons (keys_with "readwrite" d))
        × (list_clicks editor.dom.list_of_secrets_ro ≡ key_buttons (keys_with "readonly" d))
        × (list_clicks editor.dom.list_of_secrets_wo ≡ key_buttons (keys_with "writeonly" d))
        × ((final (kick (delete_secret (str k.access_key)) editor)).network
            ≡ List.◌++◌ editor.network (
                pending "delete access-key"
                  (request "DELETE"
                    ("/pool/" ++ (d.pool_name ++ ("/secret/" ++ k.access_key)))
                    (some "{}")
                    editor)
                  set_pool
                ∷ []))
  unfolding kick api_delete_secret no_args stringify to_text
  delete_secret_button k = rw (set_pool_data_lem d response s times sent) (
    list_clicks-keys (keys_with "readwrite" d),
    list_clicks-keys (keys_with "readonly" d),
    list_clicks-keys (keys_with "writeonly" d),
    network-pool_call _ _ _ _ (edited d s),
  )

pub index-map :
    (ds : List Desc) (i : ℕ) {d : Desc}
    → get_elem? ds i ≡ some d
    → index (arr (items (map desc_value ds))) i ≡ some (desc_value d)
unfolding index
index-map ds i e = rw list_of-items (rw (get_elem?-map desc_value ds i e))

module _ (ds : List Desc) (response : Value) (s : App) (times : All IsTimely ds)
    (sent : get response "pool_list" ≡ some (arr (items (map desc_value ds)))) where
  abbrev pool_list : App
  pool_list = final (set_pool_list_data response s)

  -- When a response with pools, their times and those of their keys in the range of Date, is
  -- listed, there are two buttons for each in order, and the one for deleting the i-th sends a
  -- DELETE request for that pool.
  pub delete_pool_button :
      (i : ℕ) (d : Desc)
      → get_elem? ds i ≡ some d
      → (list_clicks pool_list.dom.list_of_pools ≡ pool_buttons 0 (length ds))
        × ((final (kick (delete_pool i) pool_list)).network
            ≡ List.◌++◌ pool_list.network (
                pending "delete pool"
                  (request "DELETE" ("/pool/" ++ d.pool_name) (some "{}") pool_list)
                  list_pools
                ∷ []))
  unfolding kick api_delete_pool no_args stringify to_text list_clicks clicks children ◌>>=◌ get
  delete_pool_button i d e = rw (set_pool_list_data_lem ds response s times sent) (
    rw append-nil (pool_clicks 0 ds),
    rw (index-map ds i e) (network-api_call _ _ _ _ _ (listed ds s)),
  )

  -- When a response with pools, their times and those of their keys in the range of Date, is
  -- listed, the button for editing the i-th ends without an exception and shows that pool in the
  -- editor, in which the date input is a week ahead.
  pub edit_pool_button :
      (i : ℕ) (d : Desc)
      → get_elem? ds i ≡ some d
      → IsTimely d
      → kick (edit_pool i) pool_list
        ≡ done tt (
            edited d (record pool_list {
              dom = record (pool_list.dom) {
                secret_expiration = date_input (s.clock / 1000 + 7 * 24 * 3600);
              };
            }))
  unfolding kick run_edit_pool render_secret_expiration_default ◌>>=◌ get
  edit_pool_button i d e h =
      rw (set_pool_list_data_lem ds response s times sent)
        (rw (index-map ds i e) (set_pool_data_lem d _ _ h refl))
