-- ===== src/Vue/Tests.antt =====
-- The Vue client on sample data, and its theorems applied there.
pub mod Rendering
mod Tokens
use Prim.Native.String.{◌++◌}
use mathlib.Core.List
use lens.Prelude.{All, ◌+◌, ◌*◌, String, some, [], ◌∷◌, ◌≡◌, refl, map, arith, length, true, false}
use lens.Js.Value.{
  Value, str, num, get, arr, items, index, elements, array, loosely, to_text, to_number, obj, field,
  no_fields,
}
use lens.Js.Date.{epoch, time_value, iso_text, take_chars}
use lens.Js.Json.{stringify}
use lens.Ui.Spec.{desc_value}
use lens.Ui.Tests.{pool_response-pool_desc, pool, pool_response, list_response}
use lens.Vue.State.{initial_pool_data, west, Client, Handler, list_pools}
use lens.Vue.Code.{ended, left, ◌>>=◌, filter_by, each}
use lens.Vue.Times.{format_time_z, equals_zero, date_text, expiration_of}
use lens.Vue.Client.{
  set_pool_data, set_pool_list, api_get_user_info, call, submit_request, request_headers,
  set_user_info_data, api_list_pools, edit_pool, copy_desc, has_policy, key_shown,
  format_time_in_keys, api_make_secret,
}
use lens.Vue.Actions.{
  make_secret, respond, receive, process, handle, create_pool_make, create, edit, response, step,
  run, kick_edit_pool, kick_delete_pool, kick_delete_bucket, kick_delete_secret, kick_make_secret,
}
use lens.Vue.Spec.{edited, listed}
use lens.Vue.Spec.Shown.{AreTimely, set_pool_data_shown}
use lens.Vue.Spec.Buttons.{request, pool_buttons_lem, editor_buttons_lem}
use lens.Vue.Expiry.{key_request, kick_make_secret_day}
use lens.Vue.Sent.{IsRequest, run-AreRequests}
use lens.Vue.Failure.{without_dialog, step-failure}

abbrev pub client : Client
client = record {
  pool_data = initial_pool_data 1686755715000;
  x_csrf_token = str "";
  network = [];
  clipboard = "";
  zone = west 300;
  base_path = "/lens3.sts";
}

abbrev pub user_response : Value
user_response = obj (
    field "user_info"
      (obj (field "uid" (str "u") (field "groups" (arr (items (str "g" ∷ []))) no_fields)))
      (field "x_csrf_token" (str "token") no_fields))

-- All of the code, for tests by evaluation.
unfoldable pub vue : Unit {0}
unfolding step handle create_pool_make api_get_user_info call ◌>>=◌ submit_request respond receive
    process request_headers set_user_info_data set_pool_list api_list_pools get items index elements
    array loosely to_text to_number stringify kick_edit_pool edit_pool set_pool_data copy_desc
    filter_by each has_policy key_shown format_time_in_keys format_time_z equals_zero date_text
    iso_text take_chars kick_make_secret api_make_secret expiration_of
vue = tt

pool-AreTimely : AreTimely pool.secrets
pool-AreTimely = (omega arith, (omega arith, tt))

list_response-pool_list :
    get list_response "pool_list" ≡ some (arr (items (map desc_value (pool ∷ []))))
unfolding get
list_response-pool_list = refl

set_pool_data_shown_example : set_pool_data pool_response client ≡ ended tt (edited pool client)
set_pool_data_shown_example =
    set_pool_data_shown pool pool_response client pool-AreTimely pool_response-pool_desc

abbrev editor : Client
editor = left (set_pool_data pool_response client)

abbrev pool_list : Client
pool_list = left (set_pool_list list_response client)

pool_buttons_example :
    (set_pool_list list_response client ≡ ended tt (listed (pool ∷ []) client))
    × (kick_edit_pool 0 pool_list ≡ ended tt (edited pool pool_list))
    × ((left (kick_delete_pool 0 pool_list)).network
        ≡ List.◌++◌ client.network (
            request "Delete pool" "DELETE" ("/pool/" ++ "p1") (some "{}") list_pools pool_list
            ∷ []))
pool_buttons_example =
    pool_buttons_lem (pool ∷ []) list_response client list_response-pool_list 0 pool refl
      pool-AreTimely

editor_buttons_example :
    ((left (kick_delete_bucket (str "b1") editor)).network
      ≡ List.◌++◌ client.network (
          request "Delete bucket" "DELETE"
            ("/pool/" ++ ("p1" ++ ("/bucket/" ++ "b1")))
            (some "{}")
            Handler.set_pool_data
            editor
          ∷ []))
    × ((left (kick_delete_secret (str "k1") editor)).network
        ≡ List.◌++◌ client.network (
            request "Delete secret" "DELETE"
              ("/pool/" ++ ("p1" ++ ("/secret/" ++ "k1")))
              (some "{}")
              Handler.set_pool_data
              editor
            ∷ []))
editor_buttons_example =
    editor_buttons_lem pool pool_response client pool-AreTimely pool_response-pool_desc "b1" "k1"

-- A session: the pools are listed, one is edited, and a day is picked; the editor is displayed, and one
-- request is under way.
session_test :
    (length
        (run client (
          create
          ∷ response 0 true (some user_response)
          ∷ response 0 true (some list_response)
          ∷ edit 0
          ∷ make_secret "readonly"
          ∷ [])).network
      ≡ 1)
    × ((run client (
          create
          ∷ response 0 true (some user_response)
          ∷ response 0 true (some list_response)
          ∷ edit 0
          ∷ [])).pool_data.edit_pool_visible
        ≡ true)
unfolding vue
session_test = (refl, refl)

-- A client in which the day 19500 is picked.
abbrev picked : Client
picked = record (edited pool client) {
  pool_data = record ((edited pool client).pool_data) {
    key_expiration_time = (19500 * 86400 + 300 * 60) * 1000;
  };
}

kick_make_secret_day_example :
    ((left (kick_make_secret "readonly" picked)).network
      ≡ List.◌++◌ picked.network (key_request "readonly" (19500 * 86400) picked ∷ []))
    × ((t : String) × (format_time_z (num (19500 * 86400)) ≡ some (str t))
        × (time_value t ≡ some ((19500 * 86400 + epoch) * 1000)))
kick_make_secret_day_example =
    kick_make_secret_day "readonly" 19500 picked (omega arith) (omega arith) (omega arith) refl

step-failure_example :
    without_dialog (step (step client create) (response 0 false (some pool_response)))
    ≡ without_dialog (record (step client create) { network = [] })
unfolding step handle create_pool_make api_get_user_info call ◌>>=◌ submit_request
step-failure_example = step-failure (step client create) 0 (some pool_response)

abbrev later : Client
later = run client (create ∷ make_secret "readonly" ∷ response 0 true (some user_response) ∷ [])

run-AreRequests_example : All (IsRequest "/lens3.sts") later.network
run-AreRequests_example =
    run-AreRequests client
      (create ∷ make_secret "readonly" ∷ response 0 true (some user_response) ∷ []) refl
