-- ===== src/Ui/Requests/Answers.antt =====
-- Responses that report an error, and the test of the token.
use Prim.Native.String.{◌++◌}
use mathlib.Core.List
use lens.Prelude.{
  false, String, ◌≡◌, refl, ap, ◌∙◌, [], ◌∷◌, some, none, ℕ, erase_idx, get_elem?, Option,
}
use lens.Js.Value.{Value, str, undefined}
use lens.Ui.State.{App, Dom, PoolData, Pending, set_pool_list}
use lens.Ui.Code.{set_data, set_dom, ◌>>=◌, final}
use lens.Ui.Code.Keeps.{Keeps, code_rules}
use lens.Ui.Render.{render_response}
use lens.Ui.Data.{show_data, show_message}
use lens.Ui.Api.{api_list_pools, api_call, submit_request, request_headers}
use lens.Ui.Requests.{pending}
use lens.Ui.Actions.{kick_test_csrf, receive, answer, respond, step, handle, response}

-- The data without what a message changes: the four parts of the message, and the token.
abbrev quiet_data : PoolData → PoolData
quiet_data p = record p {
  response_status = undefined;
  response_reason = undefined;
  response_time = "";
  response_message = undefined;
  x_csrf_token = undefined;
}

-- The page without what a message changes.
abbrev pub apart_from_message : App → App
apart_from_message s = record s {
  pool_data = quiet_data s.pool_data;
  dom = record (s.dom) { server_response = [] };
}

-- The page is another one, up to messages.
record IsLike (t : App) (s : App) : Type 0 where
  pub same : apart_from_message s ≡ apart_from_message t

module _ {t : App} where
  data-IsLike :
      (f : PoolData → PoolData)
      → ((p : PoolData) → quiet_data (f p) ≡ quiet_data p)
      → Keeps (IsLike t) (set_data f)
  unfolding set_data
  data-IsLike f k = record {
    leaves = λ s h. record {
      same =
          ap
            (λ (p : PoolData). record s {
              pool_data = p;
              dom = record (s.dom) { server_response = [] };
            })
            (k s.pool_data)
          ∙ h.same;
    };
  }

  dom-IsLike :
      (f : Dom → Dom)
      → ((d : Dom) → record (f d) { server_response = [] } ≡ record d { server_response = [] })
      → Keeps (IsLike t) (set_dom f)
  unfolding set_dom
  dom-IsLike f k = record {
    leaves = λ s h. record {
      same =
          ap (λ (d : Dom). record s { pool_data = quiet_data s.pool_data; dom = d }) (k s.dom)
          ∙ h.same;
    };
  }

  message-IsLike : (v : Value) (msg : String) → Keeps (IsLike t) (show_message v msg)
  unfolding show_message show_data render_response
  message-IsLike v msg = search (code_rules, data-IsLike, dom-IsLike) depth 30

  answer-IsLike :
      (p : Option Pending) (json : Option Value) → Keeps (IsLike t) (answer p false json)
  unfolding receive
  answer-IsLike none json = search code_rules
  answer-IsLike (some p) none = search code_rules
  answer-IsLike (some p) (some v) = message-IsLike v _

-- A response without success, of any form and to any request under way, ends that request and changes
-- nothing of the page but the shown message and the token.
pub step-error :
    (s : App) (i : ℕ) (json : Option Value)
    → apart_from_message (step s (response i false json))
      ≡ apart_from_message (record s { network = erase_idx s.network i })
unfolding step handle respond ◌>>=◌
step-error s i json =
    ((answer-IsLike {t = record s { network = erase_idx s.network i }} (get_elem? s.network i)
        json).leaves
      _ (record { same = refl })).same

abbrev pub fake_token : Value
fake_token = str "af3d34829c5f8ee19f8de0f97849bf7fc8a7e268"

-- The test of the token sends one request, for the list of pools, with a token that is not the page's,
-- and the page has its own token again afterwards, whatever it was.
pub kick_test_csrf_lem :
    (s : App)
    → ((final (kick_test_csrf s)).pool_data.x_csrf_token ≡ s.pool_data.x_csrf_token)
      × ((final (kick_test_csrf s)).network
          ≡ List.◌++◌ s.network (
              pending "list pools"
                (record {
                  method = "GET";
                  path = s.base_path_ ++ "/pool";
                  body = none;
                  headers = request_headers fake_token;
                })
                set_pool_list
              ∷ []))
unfolding kick_test_csrf api_list_pools api_call submit_request show_message render_response ◌>>=◌
    lens.Js.Value.truthy
kick_test_csrf_lem s = (refl, refl)
