-- ===== src/Vue/View/Alert.antt =====
-- The dialog of the Vue client, from a response without success until it is closed.
use Prim.Native.String.{◌++◌}
use lens.Prelude.{ℕ, ◌≡◌, refl, false, true, [], ◌∷◌, some, get_elem?}
use lens.Js.Value.{Fields, obj, field, no_fields, lookup, get}
use lens.Js.Json.{stringify}
use lens.Vue.State.{Client, Pending}
use lens.Vue.Code.{◌>>=◌}
use lens.Vue.Actions.{step, handle, respond, receive, show_failure, response, close, close_dialog}
use lens.Vue.Tree.{clicks, trees, comment}
use lens.Vue.View.Frame.{alert_view}

-- When a request under way is answered without success and by an object, the dialog is displayed with the
-- name of the operation and the status and the reason of the object, and its one button closes it: then
-- nothing of it is rendered.
pub failure_dialog :
    (s : Client) (i : ℕ) (p : Pending) (fs : Fields)
    → get_elem? s.network i ≡ some p
    → let t = step s (response i false (some (obj fs))) in
      (t.pool_data.dialog_visible ≡ true)
      × (t.pool_data.dialog_text
          ≡ p.op_name
            ++ (" failed: "
                ++ stringify (
                    obj (
                      field "status"
                        (lookup "status" fs)
                        (field "reason" (lookup "reason" fs) no_fields)))))
      × (clicks (alert_view t.pool_data) ≡ close ∷ [])
      × (alert_view (step t close).pool_data ≡ comment)
unfolding step handle respond receive show_failure close_dialog alert_view clicks trees get ◌>>=◌
failure_dialog s i p fs e = rw e (refl, refl, refl, refl)
