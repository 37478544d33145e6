-- ===== src/Vue/Tests/Tokens.antt =====
-- The theorems on the token of the Vue client, applied to a client that starts and to one that has a token.
use mathlib.Core.List
use Prim.Native.String.{◌++◌}
use lens.Prelude.{
  none, false, get_elem?, erase_idx, String, true, some, [], ◌∷◌, ◌≡◌, refl, All, List, arith,
  eq_iff,
}
use lens.Js.Value.{str, get, obj, arr, items, Fields, field, no_fields, lookup}
use lens.Vue.State.{Client, Request, Handler}
use lens.Vue.Client.{request_headers}
use lens.Vue.Spec.Buttons.{request}
use lens.Vue.Startup.{info_pending, step-user_info}
use lens.Vue.Actions.{Event, create, delete_pool, response, step, run}
use lens.Vue.Token.{Carries, OnlyToken, run-AllCarry}
use lens.Vue.Tests.{client, user_response}

abbrev armed : Client
armed = record client { x_csrf_token = str "token" }

abbrev events : List Event
events = create ∷ response 0 true (some user_response) ∷ delete_pool 0 ∷ []

user_response-OnlyToken : OnlyToken "token" user_response
unfolding get
user_response-OnlyToken x e = ground (arith, e)

given : ¬ (◌≡◌ {A = String} "token" "")
given e = ground (arith, (eq_iff "token" "").1 e)

run-AllCarry_example :
    ((run armed events).x_csrf_token ≡ str "token")
    × All (Carries "token") (run armed events).network
run-AllCarry_example =
    run-AllCarry "token" armed events given refl refl (tt, (user_response-OnlyToken, (tt, tt)))

abbrev started : Client
started = run client (create ∷ [])

abbrev first_request : Request
first_request = record {
  method = "GET";
  path = "/lens3.sts" ++ "/user-info";
  body = none;
  headers = request_headers (str "");
}

abbrev user_info : Fields
user_info = field "uid" (str "u") (field "groups" (arr (items (str "g" ∷ []))) no_fields)

started-network : get_elem? started.network 0 ≡ some (info_pending "Get user-info" first_request)
unfolding lens.Vue.Tests.vue
started-network = refl

user_response-user_info : get user_response "user_info" ≡ some (obj user_info)
unfolding get
user_response-user_info = refl

user_info-groups : lookup "groups" user_info ≡ arr (items (str "g" ∷ []))
unfolding lookup
user_info-groups = refl

user_response-token : get user_response "x_csrf_token" ≡ some (str "token")
unfolding get
user_response-token = refl

step-user_info_example :
    let c = step started (response 0 true (some user_response)) in
    (c.x_csrf_token ≡ str "token")
    × (c.pool_data.user ≡ lookup "uid" user_info)
    × (c.pool_data.group ≡ str "g")
    × (c.pool_data.group_choices ≡ arr (items (str "g" ∷ [])))
    × (c.pool_data.edit_pool_visible ≡ false)
    × (c.network
        ≡ List.◌++◌ (erase_idx started.network 0) (
            request "List pools" "GET" "/pool" none Handler.set_pool_list
              (record started { x_csrf_token = str "token" })
            ∷ []))
step-user_info_example =
    step-user_info started 0 "Get user-info" first_request user_response user_info (str "g") []
      "token" started-network user_response-user_info user_info-groups user_response-token
