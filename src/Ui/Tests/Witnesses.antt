-- ===== src/Ui/Tests/Witnesses.antt =====
-- The theorems on the Web-UI, applied to sample data.
use mathlib.Core.List
use mathlib.Core.List.{Perm}
use Prim.Native.String.{◌++◌}
use lens.Prelude.{
  ◌+◌, ◌*◌, ◌/◌, String, false, some, none, [], ◌∷◌, ◌≡◌, refl, inl, inr, map, All, get_elem?,
  arith,
}
use lens.Js.Value.{str, num, get, arr, items}
use lens.Js.Number.{decimal}
use lens.Ui.State.{App, set_pool, set_pool_list, list_pools}
use lens.Ui.Node.{delete_bucket, delete_secret, delete_pool, edit_pool, list_clicks}
use lens.Ui.Code.{done, final}
use lens.Ui.Times.{parse_time_z, format_time_z, date_input}
use lens.Ui.Times.RoundTrip.{parse-format_time_z}
use lens.Ui.Data.{set_pool_data, set_pool_list_data}
use lens.Ui.Api.{request_headers}
use lens.Ui.Actions.{
  load, show_pool_list, response, make_bucket, kick, kick_test_csrf, kick_make_secret, run, step,
}
use lens.Ui.Views.{On}
use lens.Ui.Views.Exclusive.{IsOneView, run-load-IsOneView}
use lens.Ui.Requests.{request, pending}
use lens.Ui.Requests.Sent.{IsRequest, run-IsRequest}
use lens.Ui.Requests.Answers.{apart_from_message, step-error, kick_test_csrf_lem, fake_token}
use lens.Ui.Requests.Secrets.{key_request, midnight, kick_make_secret_lem}
use lens.Ui.Spec.{desc_value, edited, listed, keys_with, shown_key}
use lens.Ui.Spec.Shown.{set_pool_data_lem, set_pool_list_data_lem}
use lens.Ui.Spec.Buttons.{
  key_buttons, pool_buttons, delete_bucket_button, delete_secret_button, delete_pool_button,
  edit_pool_button,
}
use lens.Ui.Spec.Division.{shown_keys, secrets-perm}
use lens.Ui.Tests.{
  pool-IsTimely, pool_response-pool_desc, page, pool, public_bucket, write_key, pool_response,
  list_response,
}

list_response-pool_list :
    get list_response "pool_list" ≡ some (arr (items (map desc_value (pool ∷ []))))
unfolding get
list_response-pool_list = refl

run-load-IsOneView_example : On IsOneView (run page (load ∷ show_pool_list ∷ []))
run-load-IsOneView_example = run-load-IsOneView page (show_pool_list ∷ [])

run-IsRequest_example :
    All
      (IsRequest "/lens3.sts")
      (run page (load ∷ make_bucket ∷ response 0 false none ∷ [])).network
run-IsRequest_example = run-IsRequest page (load ∷ make_bucket ∷ response 0 false none ∷ []) refl

set_pool_data_example : set_pool_data pool_response page ≡ done tt (edited pool page)
set_pool_data_example =
    set_pool_data_lem pool pool_response page pool-IsTimely pool_response-pool_desc

set_pool_list_data_example :
    set_pool_list_data list_response page ≡ done tt (listed (pool ∷ []) page)
set_pool_list_data_example =
    set_pool_list_data_lem (pool ∷ []) list_response page (pool-IsTimely, tt)
      list_response-pool_list

secrets-perm_example :
    Perm (shown_keys (final (set_pool_data pool_response page))) (map shown_key pool.secrets)
secrets-perm_example =
    secrets-perm pool pool_response page pool-IsTimely (inr (inl refl), (inl refl, tt))
      pool_response-pool_desc

parse-format_time_z_example :
    (t : String) × (format_time_z (num 1686755715) ≡ some t) × (parse_time_z t ≡ decimal 1686755715)
parse-format_time_z_example = parse-format_time_z 1686755715 (omega arith) (omega arith)

step-error_example :
    apart_from_message (step (step page load) (response 0 false (some pool_response)))
    ≡ apart_from_message (record (step page load) { network = [] })
unfolding lens.Ui.Tests.ui
step-error_example = step-error (step page load) 0 (some pool_response)

abbrev editor : App
editor = final (set_pool_data pool_response page)

abbrev pool_list : App
pool_list = final (set_pool_list_data list_response page)

delete_bucket_button_example :
    (get_elem? (list_clicks editor.dom.list_of_buckets) 1 ≡ some (delete_bucket (str "b2")))
    × ((final (kick (delete_bucket (str "b2")) editor)).network
        ≡ List.◌++◌ editor.network (
            pending "delete bucket"
              (request "DELETE" ("/pool/" ++ ("p1" ++ ("/bucket/" ++ "b2"))) (some "{}") editor)
              set_pool
            ∷ []))
delete_bucket_button_example =
    delete_bucket_button pool pool_response page pool-IsTimely pool_response-pool_desc 1
      public_bucket refl

delete_secret_button_example :
    (list_clicks editor.dom.list_of_secrets_rw ≡ key_buttons (keys_with "readwrite" pool))
    × (list_clicks editor.dom.list_of_secrets_ro ≡ key_buttons (keys_with "readonly" pool))
    × (list_clicks editor.dom.list_of_secrets_wo ≡ key_buttons (keys_with "writeonly" pool))
    × ((final (kick (delete_secret (str "k1")) editor)).network
        ≡ List.◌++◌ editor.network (
            pending "delete access-key"
              (request "DELETE" ("/pool/" ++ ("p1" ++ ("/secret/" ++ "k1"))) (some "{}") editor)
              set_pool
            ∷ []))
delete_secret_button_example =
    delete_secret_button pool pool_response page pool-IsTimely pool_response-pool_desc write_key

delete_pool_button_example :
    (list_clicks pool_list.dom.list_of_pools ≡ pool_buttons 0 1)
    × ((final (kick (delete_pool 0) pool_list)).network
        ≡ List.◌++◌ pool_list.network (
            pending "delete pool"
              (request "DELETE" ("/pool/" ++ "p1") (some "{}") pool_list)
              list_pools
            ∷ []))
delete_pool_button_example =
    delete_pool_button (pool ∷ []) list_response page (pool-IsTimely, tt) list_response-pool_list 0
      pool refl

edit_pool_button_example :
    kick (edit_pool 0) pool_list
    ≡ done tt (
        edited pool (record pool_list {
          dom = record (pool_list.dom) {
            secret_expiration = date_input (1686755715000 / 1000 + 7 * 24 * 3600);
          };
        }))
edit_pool_button_example =
    edit_pool_button (pool ∷ []) list_response page (pool-IsTimely, tt) list_response-pool_list 0
      pool refl pool-IsTimely

kick_test_csrf_example :
    ((final (kick_test_csrf page)).pool_data.x_csrf_token ≡ page.pool_data.x_csrf_token)
    × ((final (kick_test_csrf page)).network
        ≡ List.◌++◌ page.network (
            pending "list pools"
              (record {
                method = "GET";
                path = page.base_path_ ++ "/pool";
                body = none;
                headers = request_headers fake_token;
              })
              set_pool_list
            ∷ []))
kick_test_csrf_example = kick_test_csrf_lem page

-- A page whose date input shows a day.
abbrev dated : App
dated = record editor { dom = record (editor.dom) { secret_expiration = date_input 1686755715 } }

kick_make_secret_example :
    (final (kick_make_secret "readonly" dated)).network
    ≡ List.◌++◌ dated.network (key_request "readonly" (decimal (midnight 1686755715)) dated ∷ [])
kick_make_secret_example = kick_make_secret_lem "readonly" 1686755715 dated (omega arith) refl
