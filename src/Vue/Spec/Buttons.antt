-- ===== src/Vue/Spec/Buttons.antt =====
-- The buttons of the Vue client after a response with the list of pools, and in the editor.
use Prim.Native.String.{◌++◌}
use mathlib.Core.List
use lens.Prelude.{ℕ, String, ◌≡◌, refl, List, [], ◌∷◌, map, some, Option, get_elem?}
use lens.Js.Value.{Value, str, get, to_text, items, arr}
use lens.Js.Json.{stringify}
use lens.Ui.Spec.{Desc, desc_value}
use lens.Ui.Spec.Buttons.{index-map}
use lens.Vue.State.{Pending, Handler, list_pools, Client}
use lens.Vue.Code.{◌>>=◌, ended, left}
use lens.Vue.Client.{
  request_headers, submit_request, call, no_args, set_pool_list, set_pool_data, edit_pool,
  api_delete_pool, api_delete_bucket, api_delete_secret,
}
use lens.Vue.Actions.{kick_edit_pool, kick_delete_pool, kick_delete_bucket, kick_delete_secret}
use lens.Vue.Spec.{edited, listed}
use lens.Vue.Spec.Shown.{AreTimely, set_pool_data_shown, set_pool_list_shown}

-- The request of an `api_*` method in a client.
abbrev pub request : String → String → String → Option String → Handler → Client → Pending
request op_name method rest body h s = record {
  op_name = op_name;
  request = record {
    method = method;
    path = s.base_path ++ rest;
    body = body;
    headers = request_headers s.x_csrf_token;
  };
  handler = h;
}

pub network-call :
    (op_name method rest : String) (body : Option String) (h : Handler) (s : Client)
    → (left (call op_name method rest body h s)).network
      ≡ List.◌++◌ s.network (request op_name method rest body h s ∷ [])
unfolding call submit_request ◌>>=◌
network-call op_name method rest body h s = refl

module _ (ds : List Desc) (response : Value) (s : Client)
    (sent : get response "pool_list" ≡ some (arr (items (map desc_value ds)))) where
  abbrev pool_list : Client
  pool_list = left (set_pool_list response s)

  -- After a response with pools, the Vue client keeps them and hides the editor, and then the button for
  -- editing the i-th pool, if its keys expire in the range of Date, shows that pool in the editor, while
  -- the one for deleting it sends a DELETE request for that pool.
  pub pool_buttons_lem :
      (i : ℕ) (d : Desc)
      → get_elem? ds i ≡ some d
      → AreTimely d.secrets
      → (set_pool_list response s ≡ ended tt (listed ds s))
        × (kick_edit_pool i pool_list ≡ ended tt (edited d pool_list))
        × ((left (kick_delete_pool i pool_list)).network
            ≡ List.◌++◌ s.network (
                request "Delete pool" "DELETE"
                  ("/pool/" ++ d.pool_name)
                  (some "{}")
                  list_pools
                  pool_list
                ∷ []))
  unfolding kick_edit_pool edit_pool kick_delete_pool api_delete_pool no_args stringify to_text
      ◌>>=◌ get
  pool_buttons_lem i d e h = rw (set_pool_list_shown ds response s sent) (
    refl,
    rw (index-map ds i e) (set_pool_data_shown d _ _ h refl),
    rw (index-map ds i e) (network-call _ _ _ _ _ (listed ds s)),
  )

module _ (d : Desc) (response : Value) (s : Client) (times : AreTimely d.secrets)
    (sent : get response "pool_desc" ≡ some (desc_value d)) where
  abbrev editor : Client
  editor = left (set_pool_data response s)

  -- When a response with the description of a pool, whose keys expire in the range of Date, is shown in
  -- the editor of the Vue client, deleting a bucket and deleting a key send DELETE requests for that
  -- bucket and for that key of that pool.
  pub editor_buttons_lem :
      (name key : String)
      → ((left (kick_delete_bucket (str name) editor)).network
          ≡ List.◌++◌ s.network (
              request "Delete bucket" "DELETE"
                ("/pool/" ++ (d.pool_name ++ ("/bucket/" ++ name)))
                (some "{}")
                Handler.set_pool_data
                editor
              ∷ []))
        × ((left (kick_delete_secret (str key) editor)).network
            ≡ List.◌++◌ s.network (
                request "Delete secret" "DELETE"
                  ("/pool/" ++ (d.pool_name ++ ("/secret/" ++ key)))
                  (some "{}")
                  Handler.set_pool_data
                  editor
                ∷ []))
  unfolding kick_delete_bucket kick_delete_secret api_delete_bucket api_delete_secret no_args
      stringify to_text ◌>>=◌
  editor_buttons_lem name key =
      rw (set_pool_data_shown d response s times sent)
        (network-call _ _ _ _ _ (edited d s), network-call _ _ _ _ _ (edited d s))
