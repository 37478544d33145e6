-- ===== src/Vue/Client.antt =====
-- The functions of lens3c: `submit_request`, the methods `api_*` and `edit_pool`, and what is done with
-- the data of responses. Assertions and output to the console change nothing, but their arguments are
-- evaluated.
use Prim.Native.String.{◌++◌}
use lens.Prelude.{
  ℕ, String, Bool, true, false, not, Option, none, some, List, [], ◌∷◌, if◌then◌else◌,
}
use lens.Js.Value.{
  Value, undefined, null, str, num, obj, no_fields, field, index, array, elements, to_text, loosely,
}
use lens.Js.Json.{stringify}
use lens.Ui.Code.{type_error, range_error}
use lens.Vue.State.{Key, PoolData, Request, Handler, list_pools}
use lens.Vue.Code.{
  V, give, or_fail, look, update, put_data, send, ◌>>=◌, ◌>>◌, prop, each, filter_by,
}
use lens.Vue.Times.{format_time_z, expiration_of}

unfoldable pub request_headers : Value → List (String × String)
request_headers token =
    ("Content-Type", "application/json")
    ∷ (if not (loosely token "") then ("X-CSRF-Token", to_text token) ∷ [] else [])

unfoldable pub submit_request : String → String → String → Option String → Handler → V (Unit {0})
submit_request op_name method path body process_response = do
  token ← look (λ s. s.x_csrf_token)
  let options : Request = record {
    method = method;
    path = path;
    body = body;
    headers = request_headers token;
  }
  send (record { op_name = op_name; request = options; handler = process_response })

-- A request to a path below the base.
unfoldable pub call : String → String → String → Option String → Handler → V (Unit {0})
call op_name method rest body process_response = do
  base ← look (λ s. s.base_path)
  submit_request op_name method (base ++ rest) body process_response

unfoldable pub no_args : String
no_args = stringify (obj no_fields)

unfoldable pub api_get_user_info : V (Unit {0})
api_get_user_info = call "Get user-info" "GET" "/user-info" none Handler.set_user_info_data

unfoldable pub api_list_pools : V (Unit {0})
api_list_pools = call "List pools" "GET" "/pool" none Handler.set_pool_list

unfoldable pub api_make_pool : V (Unit {0})
api_make_pool = do
  directory ← look (λ s. s.pool_data.buckets_directory)
  gid ← look (λ s. s.pool_data.group)
  let args = obj (field "buckets_directory" directory (field "owner_gid" gid no_fields))
  call "Make pool" "POST" "/pool" (some (stringify args)) list_pools

unfoldable pub api_delete_pool : Value → V (Unit {0})
api_delete_pool pool =
    call "Delete pool" "DELETE" ("/pool/" ++ to_text pool) (some no_args) list_pools

unfoldable pub api_make_bucket : Value → Value → Value → V (Unit {0})
api_make_bucket pool name policy =
    let args = obj (field "name" name (field "bkt_policy" policy no_fields)) in
    call "Make bucket" "PUT" ("/pool/" ++ (to_text pool ++ "/bucket")) (some (stringify args))
      Handler.set_pool_data

-- The argument `pool` is not used: the pool is the one of `pool_data`.
unfoldable pub api_delete_bucket : Value → Value → V (Unit {0})
api_delete_bucket pool name = do
  pool_name ← look (λ s. s.pool_data.pool_name)
  call "Delete bucket" "DELETE" ("/pool/" ++ (to_text pool_name ++ ("/bucket/" ++ to_text name)))
      (some no_args) Handler.set_pool_data

unfoldable pub api_make_secret : Value → String → V (Unit {0})
api_make_secret pool rw = do
  ms ← look (λ s. s.pool_data.key_expiration_time)
  zone ← look (λ s. s.zone)
  pool_name ← look (λ s. s.pool_data.pool_name)
  let expiration = num (expiration_of ms zone)
  let args = obj (field "key_policy" (str rw) (field "expiration_time" expiration no_fields))
  call "Make secret" "POST" ("/pool/" ++ (to_text pool_name ++ "/secret")) (some (stringify args))
      Handler.set_pool_data

unfoldable pub api_delete_secret : Value → Value → V (Unit {0})
api_delete_secret pool key = do
  pool_name ← look (λ s. s.pool_data.pool_name)
  call "Delete secret" "DELETE" ("/pool/" ++ (to_text pool_name ++ ("/secret/" ++ to_text key)))
      (some no_args) Handler.set_pool_data

-- The token is kept where the response has one.
abbrev pub keep_token : Value → V (Unit {0})
keep_token undefined = give tt
keep_token null = give tt
keep_token token = update (λ s. record s { x_csrf_token = token })

unfoldable pub set_user_info_data : Value → V (Unit {0})
set_user_info_data data_ = do
  d ← prop data_ "user_info"
  version ← prop d "api_version"
  token ← prop data_ "x_csrf_token"
  keep_token token
  update (λ s. record s { pool_data = record (s.pool_data) { base_path = s.base_path } })
  user ← prop d "uid"
  put_data (λ p. record p { user = user })
  groups ← prop d "groups"
  group ← or_fail type_error (index groups 0)
  put_data (λ p. record p { group = group; group_choices = groups })
  version ← prop d "lens3_version"
  put_data (λ p. record p { lens3_version = version })
  url ← prop d "s3_url"
  put_data (λ p. record p { s3_url = url })
  banner ← prop d "footer_banner"
  put_data (λ p. record p { footer_banner = banner; edit_pool_visible = false })
  api_list_pools

-- The output of the length throws where `dd` is `undefined` or `null`.
unfoldable pub set_pool_list : Value → V (Unit {0})
set_pool_list data_ = do
  dd ← prop data_ "pool_list"
  length ← or_fail type_error (elements dd)
  put_data (λ p. record p { pool_list = dd; edit_pool_visible = false })

unfoldable pub has_policy : String → Value → V Bool
has_policy t k = prop k "key_policy" >>= λ v. give (loosely v t)

unfoldable pub key_shown : Value → V Key
key_shown k = do
  access_key ← prop k "access_key"
  secret_key ← prop k "secret_key"
  expiration ← prop k "expiration_time"
  shown ← or_fail range_error (format_time_z expiration)
  give (record { access_key = access_key; secret_key = secret_key; expiration_time = shown })

unfoldable pub format_time_in_keys : List Value → V (List Key)
format_time_in_keys keys = each key_shown keys

-- `d[k]` for each property of a description, which is copied to a field of `pool_data`.
abbrev copy : Value → String → (Value → PoolData → PoolData) → V (Unit {0})
copy d k f = prop d k >>= λ v. put_data (f v)

unfoldable pub copy_desc : Value → V (Unit {0})
copy_desc d = do
  copy d "pool_name" (λ v p. record p { pool_name = v })
  copy d "buckets_directory" (λ v p. record p { buckets_directory = v })
  copy d "owner_uid" (λ v p. record p { user = v })
  copy d "owner_gid" (λ v p. record p { group = v })
  copy d "buckets" (λ v p. record p { buckets = v })
  copy d "secrets" (λ v p. record p { secrets = v })
  copy d "probe_key" (λ v p. record p { probe_key = v })
  copy d "expiration_time" (λ v p. record p { expiration_time = v })
  copy d "online_status" (λ v p. record p { online_status = v })
  copy d "user_enabled_status" (λ v p. record p { user_enabled_status = v })
  copy d "minio_state" (λ v p. record p { minio_state = v })
  copy d "minio_reason" (λ v p. record p { minio_reason = v })
  copy d "modification_time" (λ v p. record p { modification_time = v })

unfoldable pub set_pool_data : Value → V (Unit {0})
set_pool_data data_ = do
  d ← prop data_ "pool_desc"
  copy_desc d
  secrets ← prop d "secrets"
  keys ← or_fail type_error (array secrets)
  rwkeys ← filter_by (has_policy "readwrite") keys
  rokeys ← filter_by (has_policy "readonly") keys
  wokeys ← filter_by (has_policy "writeonly") keys
  rw_shown ← format_time_in_keys rwkeys
  put_data (λ p. record p { secrets_rw = rw_shown })
  ro_shown ← format_time_in_keys rokeys
  put_data (λ p. record p { secrets_ro = ro_shown })
  wo_shown ← format_time_in_keys wokeys
  put_data (λ p. record p { secrets_wo = wo_shown })
  put_data (λ p. record p {
    access_key_set =
        (record { policy = "readwrite"; keys = p.secrets_rw })
        ∷ (record { policy = "readonly"; keys = p.secrets_ro })
        ∷ (record { policy = "writeonly"; keys = p.secrets_wo })
        ∷ [];
    bucket_name = str "";
    bucket_policy = str "none";
    edit_pool_visible = true;
  })

unfoldable pub edit_pool : ℕ → V (Unit {0})
edit_pool i = do
  pools ← look (λ s. s.pool_data.pool_list)
  d ← or_fail type_error (index pools i)
  set_pool_data (obj (field "pool_desc" d no_fields))
