-- ===== src/Ui/Actions.antt =====
-- The event loop: the `kick_*` functions of lens3ui.js behind the buttons, the arrival of responses, and
-- what the user types. `kick_dump` only writes to the console.
use lens.Prelude.{
  ℕ, String, Bool, true, false, Option, none, some, List, get_elem?, erase_idx, if◌then◌else◌,
}
use Prim.Native.String.{◌++◌}
use lens.Js.Value.{Value, str, to_text}
use lens.Js.Json.{stringify}
use lens.Ui.Node.{Click, edit_pool, delete_pool, delete_bucket, delete_secret, copy_text}
use lens.Ui.State.{App, Dom, Handler, set_user_info, set_pool_list, set_pool, list_pools, Pending}
use lens.Ui.Code.{
  M, ret, ◌>>=◌, ◌>>◌, read, set_data, set_dom, final, set_clock, set_clipboard, set_network,
}
use lens.Ui.Render.{display_pool_list, display_pool_edit, display_pool_make}
use lens.Ui.Data.{show_message, set_user_info_data, set_pool_list_data, set_pool_data}
use lens.Ui.Api.{
  api_get_user_info, api_list_pools, api_make_pool, api_delete_pool, run_edit_pool, api_make_bucket,
  api_delete_bucket, api_make_secret, api_delete_secret,
}

unfoldable pub start_ui : M (Unit {0})
start_ui = do
  display_pool_make false
  display_pool_list false
  display_pool_edit false
  api_get_user_info

unfoldable pub kick_show_pool_make : M (Unit {0})
kick_show_pool_make = do display_pool_make true; api_get_user_info

unfoldable pub kick_show_pool_list : M (Unit {0})
kick_show_pool_list = do
  display_pool_make false
  api_list_pools
  display_pool_list true
  display_pool_edit false

unfoldable pub kick_make_pool : M (Unit {0})
kick_make_pool = do
  directory ← read (λ s. s.dom.pool_directory)
  gid ← read (λ s. s.dom.group_value)
  display_pool_make false
  api_make_pool directory gid

unfoldable pub kick_make_bucket : M (Unit {0})
kick_make_bucket = do
  name ← read (λ s. s.dom.bucket_name)
  policy ← read (λ s. s.dom.bucket_policy)
  api_make_bucket name policy

unfoldable pub kick_make_secret : String → M (Unit {0})
kick_make_secret policy = do
  expiry ← read (λ s. s.dom.secret_expiration)
  api_make_secret policy expiry

unfoldable pub copy_to_clipboard : Value → M (Unit {0})
copy_to_clipboard v = set_clipboard (to_text v)

-- The functions that the rendered buttons call.
unfoldable pub kick : Click → M (Unit {0})
kick (edit_pool p) = run_edit_pool p
kick (delete_pool p) = api_delete_pool p
kick (delete_bucket name) = api_delete_bucket name
kick (delete_secret key) = api_delete_secret key
kick (copy_text key) = copy_to_clipboard key

unfoldable pub kick_test_csrf : M (Unit {0})
kick_test_csrf = do
  save ← read (λ s. s.pool_data.x_csrf_token)
  set_data (λ p. record p { x_csrf_token = str "af3d34829c5f8ee19f8de0f97849bf7fc8a7e268" })
  api_list_pools
  set_data (λ p. record p { x_csrf_token = save })

-- The argument `process_response` of a request, called with the data of the response.
unfoldable pub process : Handler → Value → M (Unit {0})
process set_user_info response = set_user_info_data response
process set_pool_list response = set_pool_list_data response
process set_pool response = set_pool_data response
process list_pools response = api_list_pools

-- The functions that `submit_request` hangs on the response. In the first branch the code ends by an
-- exception, which nothing catches: it changes no state.
unfoldable pub receive : Pending → Bool → Value → M (Unit {0})
receive p is_ok response =
    if is_ok
    then (do
      show_message response (p.msg ++ (" ... done: " ++ stringify response))
      process p.handler response)
    else show_message response (p.msg ++ (" ... error: " ++ stringify response))

-- A response to the request at place `i`. Without data, the request failed or its body is no JSON: the
-- code writes to the console at most.
abbrev pub answer : Option Pending → Bool → Option Value → M (Unit {0})
answer none is_ok json = ret tt
answer (some p) is_ok none = ret tt
answer (some p) is_ok (some response) = receive p is_ok response

unfoldable pub respond : ℕ → Bool → Option Value → M (Unit {0})
respond i is_ok json = do
  network ← read (λ s. s.network)
  set_network (erase_idx network i)
  answer (get_elem? network i) is_ok json

-- What the user enters into the inputs.
pub data Input : Type 0 where
  pool_directory group_choices bucket_name bucket_policy secret_expiration : Input

unfoldable pub enter : Input → String → Dom → Dom
enter pool_directory v d = record d { pool_directory = v }
enter group_choices v d = record d { group_value = v }
enter bucket_name v d = record d { bucket_name = v }
enter bucket_policy v d = record d { bucket_policy = v }
enter secret_expiration v d = record d { secret_expiration = v }

pub data Event : Type 0 where
  load show_pool_make show_pool_list make_pool make_bucket test_csrf : Event
  make_secret : String → Event
  click : Click → Event
  input : Input → String → Event
  response : ℕ → Bool → Option Value → Event
  wait : ℕ → Event

unfoldable pub handle : Event → M (Unit {0})
handle load = start_ui
handle show_pool_make = kick_show_pool_make
handle show_pool_list = kick_show_pool_list
handle make_pool = kick_make_pool
handle make_bucket = kick_make_bucket
handle test_csrf = kick_test_csrf
handle (make_secret policy) = kick_make_secret policy
handle (click c) = kick c
handle (input i v) = set_dom (enter i v)
handle (response i is_ok json) = respond i is_ok json
handle (wait n) = set_clock n

-- An exception ends the handler of an event and not the page.
unfoldable pub step : App → Event → App
step s e = final (handle e s)

abbrev pub run : App → List Event → App
run s List.[] = s
run s (List.◌∷◌ e es) = run (step s e) es
