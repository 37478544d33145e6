-- ===== src/Ui/Tests/Tokens.antt =====
-- The theorem on tokens, applied to a page that has one.
use text.Mathlib.TextEquality.{eq_iff}
use lens.Prelude.{arith, String, true, some, [], ◌∷◌, ◌≡◌, refl, All, List}
use lens.Js.Value.{str, get}
use lens.Ui.State.{App}
use lens.Ui.Actions.{Event, show_pool_list, make_bucket, response, run}
use lens.Ui.Requests.Token.{Carries, OnlyToken}
use lens.Ui.Requests.Token.Run.{run-Carries}
use lens.Ui.Tests.{page, list_response}

abbrev armed : App
armed = record page { pool_data = record (page.pool_data) { x_csrf_token = str "t1" } }

abbrev events : List Event
events = show_pool_list ∷ make_bucket ∷ response 0 true (some list_response) ∷ []

list_response-OnlyToken : OnlyToken "t1" list_response
unfolding get lens.Ui.Tests.ui
list_response-OnlyToken x e = ground (arith, e)

not_empty : ¬ (◌≡◌ {A = String} "t1" "")
not_empty e = ground (arith, (eq_iff "t1" "").1 e)

run-Carries_example :
    ((run armed events).pool_data.x_csrf_token ≡ str "t1")
    × All (Carries "t1") (run armed events).network
run-Carries_example =
    run-Carries "t1" armed events (not_empty) refl refl (tt, (tt, (list_response-OnlyToken, tt)))
