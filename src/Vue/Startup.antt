-- ===== src/Vue/Startup.antt =====
-- The start of the Vue client: the list of pools is asked for with the token of the user's information.
use mathlib.Core.List
use lens.Prelude.{
  ℕ, true, false, String, ◌≡◌, refl, List, [], ◌∷◌, some, none, get_elem?, erase_idx,
}
use lens.Js.Value.{Value, Fields, str, arr, obj, items, get, index, lookup}
use lens.Ui.Spec.Lists.{list_of-items}
use lens.Vue.State.{Client, Request, Handler, Pending}
use lens.Vue.Code.{◌>>=◌}
use lens.Vue.Client.{api_list_pools, call, submit_request, set_user_info_data}
use lens.Vue.Actions.{process, receive, respond, handle, step, response}
use lens.Vue.Spec.Buttons.{request}

abbrev pub info_pending : String → Request → Pending
info_pending op r = record { op_name = op; request = r; handler = Handler.set_user_info_data }

-- When the request for the user's information is answered by data with a user, groups and a token, the
-- client keeps the token, the user and the groups with the first one chosen, closes the editor, and asks
-- for the list of pools, in a request with that token: it is put behind the other requests under way.
pub step-user_info :
    (s : Client) (i : ℕ) (op : String) (r : Request) (v : Value) (fs : Fields) (group : Value)
    (groups : List Value) (t : String)
    → get_elem? s.network i ≡ some (info_pending op r)
    → get v "user_info" ≡ some (obj fs)
    → lookup "groups" fs ≡ arr (items (group ∷ groups))
    → get v "x_csrf_token" ≡ some (str t)
    → let c = step s (response i true (some v)) in
      (c.x_csrf_token ≡ str t)
      × (c.pool_data.user ≡ lookup "uid" fs)
      × (c.pool_data.group ≡ group)
      × (c.pool_data.group_choices ≡ arr (items (group ∷ groups)))
      × (c.pool_data.edit_pool_visible ≡ false)
      × (c.network
          ≡ List.◌++◌ (erase_idx s.network i) (
              request "List pools" "GET" "/pool" none Handler.set_pool_list
                (record s { x_csrf_token = str t })
              ∷ []))
unfolding step handle respond receive process set_user_info_data api_list_pools call submit_request
    ◌>>=◌ get index
step-user_info s i op r v fs group groups t at info listed token =
    rw (at, info, token, listed, list_of-items) (refl, refl, refl, refl, refl, refl)
