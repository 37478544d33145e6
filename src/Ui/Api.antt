-- ===== src/Ui/Api.antt =====
-- Requests: `submit_request` and the `api_*` functions of lens3ui.js. `fetch` puts a request behind those
-- under way; what happens to its response is in the module Actions.
use Prim.Native.String.{◌++◌}
use lens.Prelude.{ℕ, String, Option, none, some, List, [], ◌∷◌, not, if◌then◌else◌}
use lens.Js.Value.{Value, null, str, obj, no_fields, field, to_text, loosely, index}
use lens.Js.Json.{stringify}
use lens.Ui.State.{Request, Handler, set_user_info, set_pool_list, set_pool, list_pools}
use lens.Ui.Code.{M, type_error, ◌>>=◌, ◌>>◌, or_throw, prop, read, fetch}
use lens.Ui.Times.{parse_time_z}
use lens.Ui.Render.{render_secret_expiration_default}
use lens.Ui.Data.{show_message, set_pool_data}

-- The argument `triple`. A body of `null` is `none`.
pub record Triple : Type 0 where
  pub method : String
  pub path : String
  pub body : Option String

-- The header with the token is added unless the token is the empty text.
unfoldable pub request_headers : Value → List (String × String)
request_headers token =
    ("Content-Type", "application/json")
    ∷ (if not (loosely token "") then ("X-CSRF-Token", to_text token) ∷ [] else [])

unfoldable pub submit_request : String → Triple → Handler → M (Unit {0})
submit_request msg triple process_response = do
  show_message null (msg ++ " ...")
  token ← read (λ s. s.pool_data.x_csrf_token)
  let headers = request_headers token
  let method = triple.method
  let path = triple.path
  let body = triple.body
  let options : Request = record { method = method; path = path; body = body; headers = headers }
  fetch (record { msg = msg; request = options; handler = process_response })

-- The request of an `api_*` function, at a path below the base.
unfoldable pub api_call : String → String → String → Option String → Handler → M (Unit {0})
api_call msg method rest body process_response = do
  base ← read (λ s. s.base_path_)
  let path = base ++ rest
  submit_request msg (record { method = method; path = path; body = body }) process_response

-- The same below the path of the pool that is edited.
unfoldable pub pool_call : String → String → String → String → M (Unit {0})
pool_call msg method rest body = do
  name ← read (λ s. s.pool_data.pool_name)
  api_call msg method ("/pool/" ++ (to_text name ++ rest)) (some body) set_pool

unfoldable pub no_args : String
no_args = stringify (obj no_fields)

unfoldable pub api_get_user_info : M (Unit {0})
api_get_user_info = api_call "get user info" "GET" "/user-info" none set_user_info

unfoldable pub api_list_pools : M (Unit {0})
api_list_pools = api_call "list pools" "GET" "/pool" none set_pool_list

unfoldable pub api_make_pool : String → String → M (Unit {0})
api_make_pool directory gid =
    let args =
      obj (field "buckets_directory" (str directory) (field "owner_gid" (str gid) no_fields)) in
    api_call "make pool" "POST" "/pool" (some (stringify args)) set_pool

unfoldable pub api_delete_pool : ℕ → M (Unit {0})
api_delete_pool i = do
  descs ← read (λ s. s.pool_data.pool_desc_list)
  desc ← or_throw type_error (index descs i)
  pool_name ← prop desc "pool_name"
  api_call "delete pool" "DELETE" ("/pool/" ++ to_text pool_name) (some no_args) list_pools

unfoldable pub run_edit_pool : ℕ → M (Unit {0})
run_edit_pool i = do
  render_secret_expiration_default
  descs ← read (λ s. s.pool_data.pool_desc_list)
  desc ← or_throw type_error (index descs i)
  set_pool_data (obj (field "pool_desc" desc no_fields))

unfoldable pub api_make_bucket : String → String → M (Unit {0})
api_make_bucket name policy =
    let args = obj (field "name" (str name) (field "bkt_policy" (str policy) no_fields)) in
    pool_call "make bucket" "PUT" "/bucket" (stringify args)

unfoldable pub api_delete_bucket : Value → M (Unit {0})
api_delete_bucket name = pool_call "delete bucket" "DELETE" ("/bucket/" ++ to_text name) no_args

-- The arguments of a new access key.
unfoldable pub secret_args : String → String → Value
secret_args rw expiry =
    let expiration = str (parse_time_z expiry) in
    obj (field "key_policy" (str rw) (field "expiration_time" expiration no_fields))

unfoldable pub api_make_secret : String → String → M (Unit {0})
api_make_secret rw expiry =
    pool_call "make secret" "POST" "/secret" (stringify (secret_args rw expiry))

unfoldable pub api_delete_secret : Value → M (Unit {0})
api_delete_secret key = pool_call "delete access-key" "DELETE" ("/secret/" ++ to_text key) no_args
