-- ===== src/VueV1/Tests.antt =====
-- The Vue client of v1 on sample data.
use mathlib.Core.Option
use lens.Prelude.{◌≡◌, refl, List, [], ◌∷◌, true, some}
use lens.Js.Json.{quote}
use lens.Vue.State.{PoolData}
use lens.Vue.Code.{left}
use lens.Vue.Client.{set_pool_data}
use lens.Vue.Tree.{clicks}
use lens.Vue.Actions.{Event, Entry, create, make_secret, input, response}
use lens.Vue.Tests.{client}
use lens.Vue.Tests.Rendering.{plain}
use lens.Ui.Tests.{pool_response}
use lens.VueV1.Client.{secret_body}
use lens.VueV1.Whole.{IsWhole}
use lens.VueV1.Likeness.{run-whole}
use lens.VueV1.Buttons.{app-same_buttons}

-- A time that no one picked has milliseconds, and v1 sends them.
fraction_test :
    secret_body "readonly" 1686755715250
    ≡ "{\"key_policy\":\"readonly\",\"expiration_time\":1686755715.25}"
unfolding secret_body quote lens.V1.Api.seconds_text lens.Js.Number.decimal
fraction_test = refl

abbrev events : List Event
events =
    create
    ∷ response 0 true (some pool_response)
    ∷ input (Entry.key_expiration_time 1686787200000)
    ∷ make_secret "readonly"
    ∷ []

client-IsWhole : IsWhole client
client-IsWhole = record { whole = refl }

run-whole_example : lens.VueV1.Actions.run client events ≡ lens.Vue.Actions.run client events
run-whole_example = run-whole events client client-IsWhole (tt, (tt, (refl, (tt, tt))))

abbrev editor : PoolData
editor = (left (set_pool_data pool_response client)).pool_data

app-same_buttons_example :
    Option.map clicks (lens.VueV1.Frame.app_view plain 1686755715000 editor)
    ≡ Option.map clicks (lens.Vue.View.Frame.app_view plain 1686755715000 editor)
app-same_buttons_example = app-same_buttons plain 1686755715000 editor
