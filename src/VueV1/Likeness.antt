-- ===== src/VueV1/Likeness.antt =====
-- Where the Vue clients of v1 and v2 do the same.
use Prim.Native.String.{◌++◌}
use text.Mathlib.TextLemmas.{append-nil}
use lens.Prelude.{All, ◌∙◌, ℕ, ◌%◌, ◌/◌, ◌≡◌, refl, String, List, [], ◌∷◌, ap, arith, some}
use lens.Js.Value.{to_text, str, num, obj, field, no_fields}
use lens.Js.Json.{stringify}
use lens.Js.Number.{decimal}
use lens.V1.Api.{seconds_text}
use lens.Vue.State.{Client, Zone, west, east}
use lens.Vue.Times.{expiration_of}
use lens.Vue.Code.{◌>>=◌, left}
use lens.Vue.Actions.{Event}
use lens.VueV1.Client.{expiration_ms, secret_body}
use lens.VueV1.Whole.{IsWhole, PicksWhole, handle-IsWhole}
use lens.Vue.State.{Handler}

expiration_ms-whole :
    (ms : ℕ) (zone : Zone)
    → ms % 1000 ≡ 0
    → (expiration_ms ms zone % 1000 ≡ 0) × (expiration_ms ms zone / 1000 ≡ expiration_of ms zone)
unfolding expiration_ms expiration_of
expiration_ms-whole ms (west minutes) h = (omega arith, omega arith)
expiration_ms-whole ms (east minutes) h = (omega arith, omega arith)

seconds_text-whole : (ms : ℕ) → ms % 1000 ≡ 0 → seconds_text ms ≡ decimal (ms / 1000)
unfolding seconds_text
seconds_text-whole ms h = rw (h, append-nil) refl

secret_body-whole :
    (rw_ : String) (ms : ℕ)
    → ms % 1000 ≡ 0
    → secret_body rw_ ms
      ≡ stringify
          (obj (field "key_policy" (str rw_) (field "expiration_time" (num (ms / 1000)) no_fields)))
unfolding secret_body stringify
secret_body-whole rw_ ms h = rw (seconds_text-whole ms h) refl

secret-whole :
    (rw_ : String) (s : Client)
    → IsWhole s
    → left (lens.VueV1.Actions.kick_make_secret rw_ s)
      ≡ left (lens.Vue.Actions.kick_make_secret rw_ s)
unfolding lens.VueV1.Actions.kick_make_secret lens.Vue.Actions.kick_make_secret ◌>>=◌
    lens.VueV1.Client.api_make_secret lens.Vue.Client.api_make_secret
secret-whole rw_ s h =
    let (rest, time) = expiration_ms-whole s.pool_data.key_expiration_time s.zone h.whole in
    ap
      (λ body. left (
        lens.Vue.Client.call "Make secret" "POST"
          ("/pool/" ++ (to_text s.pool_data.pool_name ++ "/secret")) (some body)
          Handler.set_pool_data s))
      (secret_body-whole rw_ _ rest
        ∙ ap
            (λ n.
              stringify
                (obj (field "key_policy" (str rw_) (field "expiration_time" (num n) no_fields))))
            time)

step-whole :
    (e : Event) (s : Client) → IsWhole s → lens.VueV1.Actions.step s e ≡ lens.Vue.Actions.step s e
unfolding lens.VueV1.Actions.step lens.Vue.Actions.step lens.VueV1.Actions.handle
    lens.Vue.Actions.handle
step-whole (Event.make_secret rw_) s h = secret-whole rw_ s h
step-whole Event.create s h = refl
step-whole Event.make_pool s h = refl
step-whole Event.make_bucket s h = refl
step-whole Event.close s h = refl
step-whole (Event.edit i) s h = refl
step-whole (Event.delete_pool i) s h = refl
step-whole (Event.delete_bucket name) s h = refl
step-whole (Event.delete_secret key) s h = refl
step-whole (Event.copy_text v) s h = refl
step-whole Event.copy_url s h = refl
step-whole Event.leave_menu s h = refl
step-whole (Event.reason n v) s h = refl
step-whole (Event.input i) s h = refl
step-whole (Event.response i is_ok json) s h = refl

step-IsWhole :
    (e : Event) (s : Client) → IsWhole s → PicksWhole e → IsWhole (lens.Vue.Actions.step s e)
unfolding lens.Vue.Actions.step
step-IsWhole e s h k = (handle-IsWhole e k).leaves s h

-- When the time of the date picker is in whole seconds, and the times that are picked are, any events,
-- with responses of any form among them, leave the same client in v1 and in v2, its requests included.
pub run-whole :
    (es : List Event) (s : Client)
    → IsWhole s
    → All PicksWhole es
    → lens.VueV1.Actions.run s es ≡ lens.Vue.Actions.run s es
run-whole [] s h k = refl
run-whole (e ∷ es) s h (k, ks) =
    ap (λ t. lens.VueV1.Actions.run t es) (step-whole e s h)
    ∙ run-whole es _ (step-IsWhole e s h k) ks
