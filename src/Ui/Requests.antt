-- ===== src/Ui/Requests.antt =====
-- What the requests of the `api_*` functions are, and where they go.
pub mod Sent
pub mod Answers
pub mod Secrets
pub mod Ends
pub mod Settled
pub mod Token
pub mod Count
use Prim.Native.String.{◌++◌}
use mathlib.Core.List
use mathlib.Core.List.{append-nil}
use lens.Prelude.{String, ◌≡◌, refl, [], ◌∷◌, some, Option}
use lens.Js.Value.{Value, str, get, to_text, index, list_of, items, arr}
use lens.Ui.State.{App, Request, Pending, Handler, set_pool}
use lens.Ui.Code.{◌>>=◌, final}
use lens.Ui.Render.{render_response}
use lens.Ui.Data.{show_message}
use lens.Ui.Api.{submit_request, api_call, pool_call, request_headers}

-- The request of an `api_*` function in a page.
abbrev pub request : String → String → Option String → App → Request
request method rest body s = record {
  method = method;
  path = s.base_path_ ++ rest;
  body = body;
  headers = request_headers s.pool_data.x_csrf_token;
}

abbrev pub pending : String → Request → Handler → Pending
pending msg r h = record { msg = msg; request = r; handler = h }

-- Requests are put behind those under way.
pub network-api_call :
    (msg method rest : String) (body : Option String) (h : Handler) (s : App)
    → (final (api_call msg method rest body h s)).network
      ≡ List.◌++◌ s.network (pending msg (request method rest body s) h ∷ [])
unfolding api_call submit_request show_message render_response ◌>>=◌ lens.Js.Value.truthy
network-api_call msg method rest body h s = refl

pub network-pool_call :
    (msg method rest body : String) (s : App)
    → (final (pool_call msg method rest body s)).network
      ≡ List.◌++◌ s.network (
          pending msg
            (request method ("/pool/" ++ (to_text s.pool_data.pool_name ++ rest)) (some body) s)
            set_pool
          ∷ [])
unfolding pool_call ◌>>=◌
network-pool_call msg method rest body s = network-api_call msg method _ _ set_pool s
