-- ===== src/VueV1/Client.antt =====
-- The functions of v1/ui/src/lens3c.ts. `api_make_secret` does not round to seconds.
use Prim.Native.String.{◌++◌}
use lens.Prelude.{ℕ, ◌+◌, ◌-◌, ◌*◌, String, some, Option, List}
use lens.Js.Value.{Value, to_text}
use lens.Js.Json.{quote}
use lens.V1.Api.{seconds_text}
use lens.Vue.State.{PoolData, Zone, west, east, Handler, Key}
use lens.Vue.Code.{V, look, ◌>>=◌}

abbrev initial_pool_data : ℕ → PoolData
initial_pool_data = lens.Vue.State.initial_pool_data

-- `tv0 - tzfix`, in milliseconds; the rounding of floating point is left out. The subtraction stops at 0,
-- where the source has a negative number for a day before 1970.
unfoldable pub expiration_ms : ℕ → Zone → ℕ
expiration_ms ms (west minutes) = ms - minutes * 60 * 1000
expiration_ms ms (east minutes) = ms + minutes * 60 * 1000

-- `JSON.stringify(args)`, where the expiration may have a fraction.
unfoldable pub secret_body : String → ℕ → String
unfolding quote
secret_body rw ms =
    let time = quote "expiration_time" ++ (":" ++ (seconds_text ms ++ "}")) in
    "{" ++ (quote "key_policy" ++ (":" ++ (quote rw ++ ("," ++ time))))

unfoldable pub api_make_secret : Value → String → V (Unit {0})
api_make_secret pool rw = do
  ms ← look (λ s. s.pool_data.key_expiration_time)
  zone ← look (λ s. s.zone)
  pool_name ← look (λ s. s.pool_data.pool_name)
  let body = secret_body rw (expiration_ms ms zone)
  lens.Vue.Client.call "Make secret" "POST" ("/pool/" ++ (to_text pool_name ++ "/secret"))
      (some body) Handler.set_pool_data

abbrev submit_request : String → String → String → Option String → Handler → V (Unit {0})
submit_request = lens.Vue.Client.submit_request

abbrev edit_pool : ℕ → V (Unit {0})
edit_pool = lens.Vue.Client.edit_pool

abbrev api_get_user_info : V (Unit {0})
api_get_user_info = lens.Vue.Client.api_get_user_info

abbrev api_list_pools : V (Unit {0})
api_list_pools = lens.Vue.Client.api_list_pools

abbrev api_make_pool : V (Unit {0})
api_make_pool = lens.Vue.Client.api_make_pool

abbrev api_delete_pool : Value → V (Unit {0})
api_delete_pool = lens.Vue.Client.api_delete_pool

abbrev api_make_bucket : Value → Value → Value → V (Unit {0})
api_make_bucket = lens.Vue.Client.api_make_bucket

abbrev api_delete_bucket : Value → Value → V (Unit {0})
api_delete_bucket = lens.Vue.Client.api_delete_bucket

abbrev api_delete_secret : Value → Value → V (Unit {0})
api_delete_secret = lens.Vue.Client.api_delete_secret

abbrev set_user_info_data : Value → V (Unit {0})
set_user_info_data = lens.Vue.Client.set_user_info_data

abbrev set_pool_list : Value → V (Unit {0})
set_pool_list = lens.Vue.Client.set_pool_list

abbrev set_pool_data : Value → V (Unit {0})
set_pool_data = lens.Vue.Client.set_pool_data

abbrev format_time_in_keys : List Value → V (List Key)
format_time_in_keys = lens.Vue.Client.format_time_in_keys

abbrev format_time_z : Value → Option Value
format_time_z = lens.Vue.Times.format_time_z
