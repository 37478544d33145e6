-- ===== src/Ui/Requests/Secrets.antt =====
-- The request for a new access key.
use Prim.Native.String.{◌++◌}
use mathlib.Core.List
use lens.Prelude.{
  ℕ, ◌+◌, ◌*◌, ◌/◌, ◌<◌, ◌≡◌, ◌∙◌, ap, String, some, [], ◌∷◌, arith, ltb, le→leb, false,
}
use lens.Js.Number.{decimal}
use lens.Js.Value.{str, obj, field, no_fields, to_text}
use lens.Js.Json.{stringify}
use lens.Js.Date.{epoch, max_time}
use lens.Js.Date.Text.{time_value-date}
use lens.Ui.State.{App, Pending, set_pool}
use lens.Ui.Code.{◌>>=◌, final}
use lens.Ui.Times.{parse_time_z, date_input, since_epoch}
use lens.Ui.Times.RoundTrip.{year_10000}
use lens.Ui.Api.{api_make_secret, secret_args}
use lens.Ui.Actions.{kick_make_secret}
use lens.Ui.Requests.{request, pending, network-pool_call}

-- The beginning of the day of a time.
abbrev pub midnight : ℕ → ℕ
midnight n = n / 86400 * 86400

since_epoch-midnight :
    (n : ℕ) → since_epoch ((n + epoch) / 86400 * 86400000 / 1000) ≡ decimal (midnight n)
since_epoch-midnight n = rw q (rw late (ap decimal (omega arith)))
  where
    q : (n + epoch) / 86400 * 86400000 / 1000 ≡ midnight n + epoch
    q = omega arith

    late : ltb (midnight n + epoch) epoch ≡ false
    late = ground arith

pub parse_time_z-date_input :
    (n : ℕ) → n < year_10000 → parse_time_z (date_input n) ≡ decimal (midnight n)
unfolding parse_time_z date_input
parse_time_z-date_input n h =
    rw (le→leb n max_time (omega arith))
      (rw (time_value-date (n + epoch) (omega arith), parse_time_z) (since_epoch-midnight n))

-- The request for a key with a policy and an expiration.
abbrev pub key_request : String → String → App → Pending
key_request policy expiration s =
    pending "make secret"
      (request "POST" ("/pool/" ++ (to_text s.pool_data.pool_name ++ "/secret"))
        (some (
          stringify (
            obj (
              field "key_policy" (str policy)
                (field "expiration_time" (str expiration) no_fields)))))
        s)
      set_pool

network-kick_make_secret :
    (policy : String) (s : App)
    → (final (kick_make_secret policy s)).network
      ≡ List.◌++◌ s.network (key_request policy (parse_time_z s.dom.secret_expiration) s ∷ [])
unfolding kick_make_secret ◌>>=◌ api_make_secret secret_args
network-kick_make_secret policy s = network-pool_call _ _ _ _ s

-- When the date input shows a day from 1970 to 9999, a new key for the pool that is edited is asked for
-- with the chosen policy, and with the beginning of that day, in UTC and in seconds, as the expiration.
-- That time is a text in the JSON data, and not a number.
pub kick_make_secret_lem :
    (policy : String) (n : ℕ) (s : App)
    → n < year_10000
    → s.dom.secret_expiration ≡ date_input n
    → (final (kick_make_secret policy s)).network
      ≡ List.◌++◌ s.network (key_request policy (decimal (midnight n)) s ∷ [])
kick_make_secret_lem policy n s h shown =
    network-kick_make_secret policy s
    ∙ ap (λ t. List.◌++◌ s.network (key_request policy t s ∷ []))
        (ap parse_time_z shown ∙ parse_time_z-date_input n h)
