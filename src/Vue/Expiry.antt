-- ===== src/Vue/Expiry.antt =====
-- The expiration of a new key in the Vue client, from the date picker to the list of keys.
use Prim.Native.String.{◌++◌}
use mathlib.Core.List
use lens.Prelude.{
  ℕ, ◌+◌, ◌-◌, ◌*◌, ◌<◌, ◌≡◌, ◌∙◌, refl, ap, String, some, [], ◌∷◌, arith, eqb, le→leb, false,
}
use lens.Js.Value.{str, num, obj, field, no_fields, to_text, to_number}
use lens.Js.Json.{stringify}
use lens.Js.Date.{epoch, max_time, take_chars, iso_text, time_value}
use lens.Js.Date.Text.{time_value-date}
use lens.Ui.Times.RoundTrip.{year_10000}
use lens.Vue.State.{Zone, west, east, Pending, Handler, Client}
use lens.Vue.Code.{◌>>=◌, left}
use lens.Vue.Times.{date_text, equals_zero, format_time_z, expiration_of}
use lens.Vue.Client.{api_make_secret}
use lens.Vue.Actions.{kick_make_secret}
use lens.Vue.Spec.Buttons.{request, network-call}

-- The `getTime()` of the beginning of a day in local time.
abbrev pub local_midnight : ℕ → Zone → ℕ
local_midnight day (west minutes) = (day * 86400 + minutes * 60) * 1000
local_midnight day (east minutes) = (day * 86400 - minutes * 60) * 1000

-- Local times are less than a day apart from UTC.
abbrev pub IsZone : Zone → Type 0
IsZone (west minutes) = minutes < 1440
IsZone (east minutes) = minutes < 1440

expiration_of-local_midnight :
    (day : ℕ) (zone : Zone)
    → 0 < day
    → IsZone zone
    → expiration_of (local_midnight day zone) zone ≡ day * 86400
unfolding expiration_of
expiration_of-local_midnight day (west minutes) h k = omega arith
expiration_of-local_midnight day (east minutes) h k = omega arith

-- The request for a key that expires at a time.
abbrev pub key_request : String → ℕ → Client → Pending
key_request rw time s =
    request "Make secret" "POST" ("/pool/" ++ (to_text s.pool_data.pool_name ++ "/secret"))
      (some (
        stringify
          (obj (field "key_policy" (str rw) (field "expiration_time" (num time) no_fields)))))
      Handler.set_pool_data s

network-kick_make_secret :
    (rw : String) (s : Client)
    → (left (kick_make_secret rw s)).network
      ≡ List.◌++◌ s.network
          (key_request rw (expiration_of s.pool_data.key_expiration_time s.zone) s ∷ [])
unfolding kick_make_secret api_make_secret ◌>>=◌
network-kick_make_secret rw s = network-call _ _ _ _ _ s

not-zero : (n : ℕ) → 0 < n → eqb n 0 ≡ false
not-zero n h = ground arith

shown-day :
    (day : ℕ)
    → 0 < day
    → day * 86400 < year_10000
    → (t : String) × (format_time_z (num (day * 86400)) ≡ some (str t))
      × (time_value t ≡ some ((day * 86400 + epoch) * 1000))
unfolding format_time_z equals_zero to_number date_text
shown-day day h k = (
  take_chars 10 (iso_text (day * 86400 + epoch)),
  rw (not-zero (day * 86400) (omega arith), le→leb (day * 86400) max_time (omega arith)) refl,
  time_value-date (day * 86400 + epoch) (omega arith) ∙ ap some (omega arith),
)

-- In any time zone, when the beginning of a day after 1970-01-01 and before the year 10000 is picked, in local
-- time, a key is asked for with the chosen policy that expires at the beginning of that day in UTC, as a
-- number of seconds; and when the server describes the key with that number, the text that is shown for it
-- is a date that stands for that very time.
pub kick_make_secret_day :
    (rw : String) (day : ℕ) (s : Client)
    → 0 < day
    → day * 86400 < year_10000
    → IsZone s.zone
    → s.pool_data.key_expiration_time ≡ local_midnight day s.zone
    → ((left (kick_make_secret rw s)).network
        ≡ List.◌++◌ s.network (key_request rw (day * 86400) s ∷ []))
      × ((t : String) × (format_time_z (num (day * 86400)) ≡ some (str t))
          × (time_value t ≡ some ((day * 86400 + epoch) * 1000)))
kick_make_secret_day rw day s h k zone picked = (
  network-kick_make_secret rw s
      ∙ ap (λ n. List.◌++◌ s.network (key_request rw n s ∷ []))
          (ap (λ ms. expiration_of ms s.zone) picked
            ∙ expiration_of-local_midnight day s.zone h zone),
  shown-day day h k,
)
