-- ===== src/Vue/Tests/Rendering.antt =====
-- The theorems on what the Vue client renders, applied to sample data.
use Prim.Native.String.{◌++◌}
use lens.Prelude.{ap, ℕ, Option, some, none, List, [], ◌∷◌, ◌≡◌, refl, true, false}
use lens.Js.Value.{Value, num, arr, obj, field, no_fields, to_text}
use lens.Js.Json.{stringify}
use lens.Vue.State.{Client, Handler}
use lens.Vue.Code.{left}
use lens.Vue.Actions.{edit, response, step, kick_edit_pool}
use lens.Ui.Spec.{select}
use lens.Vue.Spec.Buttons.{request}
use lens.Ui.Tests.{pool, list_response}
use lens.Vue.Tests.{client, pool_list, list_response-pool_list, pool-AreTimely}
use lens.Js.Value.{undefined, lookup, list_of}
use lens.Ui.Spec.Lists.{list_of-items}
use lens.Vue.State.{Pending}
use lens.Vue.Actions.{make_pool, delete_pool, close, copy_url, leave_menu}
use lens.Vue.Tree.{Tree, traverse, clicks, comment}
use lens.Vue.View.Parts.{Framework, range}
use lens.Vue.View.Frame.{app_view, alert_view}
use lens.Vue.View.Buttons.Shows.{Shows}
use lens.Vue.View.Buttons.Page.{editor_events, list_page-events, edit_page-events}
use lens.Vue.View.Alert.{failure_dialog}

-- What Vue's functions do, as far as the sample data needs it.
plain_values : (Value → Option Tree) → Value → Option (List Tree)
unfolding list_of
plain_values f (arr vs) = traverse f (list_of vs)
plain_values f _ = some []

plain_times : (ℕ → Option Tree) → Value → Option (List Tree)
plain_times f (num n) = traverse f (range 0 n)
plain_times f _ = some []

abbrev pub plain : Framework
unfolding to_text plain_values plain_times
plain = record {
  display = to_text;
  display_text = λ t. refl;
  render_list = λ A f xs. traverse f xs;
  render_list_is = λ A f xs. refl;
  render_values = plain_values;
  render_values_is = λ f vs. ap (traverse f) (list_of-items vs);
  render_times = plain_times;
  render_times_is = λ f n. refl;
}

list_page-events_example :
    Shows
      (app_view plain 0 pool_list.pool_data)
      (copy_url ∷ leave_menu ∷ make_pool ∷ edit 0 ∷ delete_pool 0 ∷ [])
list_page-events_example =
    list_page-events plain 0 (pool ∷ []) list_response client list_response-pool_list

edit_page-events_example :
    Shows
      (app_view plain 0 (left (kick_edit_pool 0 pool_list)).pool_data)
      (copy_url ∷ leave_menu ∷ make_pool ∷ edit 0 ∷ delete_pool 0 ∷ editor_events pool)
unfolding select
edit_page-events_example =
    edit_page-events plain 0 (pool ∷ []) list_response client 0 pool list_response-pool_list refl
      pool-AreTimely

abbrev sample_pending : Pending
sample_pending = request "Get user-info" "GET" "/user-info" none Handler.set_user_info_data client

abbrev waiting : Client
waiting = record client { network = sample_pending ∷ [] }

failure_dialog_example :
    let t = step waiting (response 0 false (some (obj no_fields))) in
    (t.pool_data.dialog_visible ≡ true)
    × (t.pool_data.dialog_text
        ≡ sample_pending.op_name
          ++ (" failed: "
              ++ stringify (obj (field "status" undefined (field "reason" undefined no_fields)))))
    × (clicks (alert_view t.pool_data) ≡ close ∷ [])
    × (alert_view (step t close).pool_data ≡ comment)
unfolding lookup
failure_dialog_example = failure_dialog waiting 0 sample_pending no_fields refl
