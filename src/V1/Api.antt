-- ===== src/V1/Api.antt =====
-- The requests of v1's lens3ui.js. The text of a function is that of v2 but for `parse_time_z`, which does
-- not round to seconds.
use Prim.Native.String.{◌++◌}
use lens.Prelude.{ℕ, ◌-◌, ◌*◌, ◌/◌, ◌%◌, String, none, some, ltb, eqb, if◌then◌else◌}
use lens.Js.Number.{digit, decimal}
use lens.Js.Value.{Value, str, obj, no_fields, field}
use lens.Js.Json.{stringify}
use lens.Js.Date.{epoch, time_value}
use lens.Ui.State.{Handler}
use lens.Ui.Code.{M}
use lens.Ui.Api.{Triple, pool_call}
use lens.Ui.Api
use lens.Ui.Actions

-- What follows the seconds in the text of a number of seconds with `ms` milliseconds; the text of a number
-- has no zeros at the end of the fraction.
abbrev fraction : ℕ → String
fraction ms =
    if eqb ms 0
    then ""
    else if eqb (ms % 100) 0
    then String.◌∷◌ "." (String.◌∷◌ (digit (ms / 100)) "")
    else if eqb (ms % 10) 0
    then String.◌∷◌ "." (String.◌∷◌ (digit (ms / 100)) (String.◌∷◌ (digit (ms / 10 % 10)) ""))
    else String.◌∷◌ "." (
        String.◌∷◌ (digit (ms / 100))
          (String.◌∷◌ (digit (ms / 10 % 10)) (String.◌∷◌ (digit (ms % 10)) "")))

-- `"" + n / 1000`
unfoldable pub seconds_text : ℕ → String
unfolding digit
seconds_text n = decimal (n / 1000) ++ fraction (n % 1000)

-- The same of a time in milliseconds from the year 0.
abbrev pub since_epoch : ℕ → String
since_epoch t =
    if ltb t (epoch * 1000)
    then "-" ++ seconds_text (epoch * 1000 - t)
    else seconds_text (t - epoch * 1000)

unfoldable pub parse_time_z : String → String
parse_time_z s = elim (time_value s) [ none ↦ "NaN" | some ms ↦ since_epoch ms ]

unfoldable pub secret_args : String → String → Value
secret_args rw expiry =
    let expiration = str (parse_time_z expiry) in
    obj (field "key_policy" (str rw) (field "expiration_time" expiration no_fields))

unfoldable pub api_make_secret : String → String → M (Unit {0})
api_make_secret rw expiry =
    pool_call "make secret" "POST" "/secret" (stringify (secret_args rw expiry))

abbrev submit_request : String → Triple → Handler → M (Unit {0})
submit_request = Api.submit_request

abbrev api_get_user_info : M (Unit {0})
api_get_user_info = Api.api_get_user_info

abbrev pub api_list_pools : M (Unit {0})
api_list_pools = Api.api_list_pools

abbrev api_make_pool : String → String → M (Unit {0})
api_make_pool = Api.api_make_pool

abbrev api_delete_pool : ℕ → M (Unit {0})
api_delete_pool = Api.api_delete_pool

abbrev run_edit_pool : ℕ → M (Unit {0})
run_edit_pool = Api.run_edit_pool

abbrev api_make_bucket : String → String → M (Unit {0})
api_make_bucket = Api.api_make_bucket

abbrev api_delete_bucket : Value → M (Unit {0})
api_delete_bucket = Api.api_delete_bucket

abbrev api_delete_secret : Value → M (Unit {0})
api_delete_secret = Api.api_delete_secret

abbrev copy_to_clipboard : Value → M (Unit {0})
copy_to_clipboard = Actions.copy_to_clipboard
