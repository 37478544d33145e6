-- ===== src/Ui/Requests/Sent.antt =====
-- The form of the requests of lens3ui.js, through all events.
use Prim.Native.String.{◌++◌}
use lens.Prelude.{
  ap, ℕ, String, Bool, ◌≡◌, ◌⊎◌, inl, inr, refl, List, ◌∷◌, [], Option, none, some, All, All-append,
  All-erase_idx, get_elem?,
}
use lens.Js.Value.{Value}
use lens.Ui.State.{App, Dom, Pending, Handler, set_user_info, set_pool_list, set_pool, list_pools}
use lens.Ui.Node.{Click, edit_pool, delete_pool, delete_bucket, delete_secret, copy_text}
use lens.Ui.Code.{set_dom, set_clipboard, set_clock, ◌>>=◌}
use lens.Ui.Code.Keeps.{Keeps}
use lens.Ui.Quiet.{IsQuiet, page_rules}
use lens.Ui.Render.{
  render_pool_list, render_secret_expiration_default, render_response, display_pool_list,
  display_pool_edit, display_pool_make,
}
use lens.Ui.Data.{show_message, set_user_info_data, set_pool_list_data, set_pool_data}
use lens.Ui.Api.{
  submit_request, request_headers, api_call, api_get_user_info, api_list_pools, api_make_pool,
  api_delete_pool, run_edit_pool, api_make_bucket, api_delete_bucket, api_make_secret,
  api_delete_secret,
}
use lens.Ui.Actions.{
  Event, start_ui, kick_show_pool_make, kick_show_pool_list, kick_make_pool, kick_make_bucket,
  kick_make_secret, copy_to_clipboard, kick, kick_test_csrf, process, receive, answer, respond,
  enter, handle, step, run,
}

-- A body goes with the methods that change something, and only with them: `fetch` throws on a GET request
-- with a body.
abbrev pub Fits : String → Option String → Type 0
Fits method none = method ≡ "GET"
Fits method (some text) = (method ≡ "POST") ⊎ ((method ≡ "PUT") ⊎ (method ≡ "DELETE"))

-- The path is below the base path, the body fits the method, and the first header is the type of the body.
pub record IsRequest (base : String) (p : Pending) : Type 0 where
  pub rest : String
  pub path_is : p.request.path ≡ base ++ rest
  pub body_fits : Fits p.request.method p.request.body
  pub more : List (String × String)
  pub headers_are : p.request.headers ≡ ("Content-Type", "application/json") ∷ more

pub record AllSent (base : String) (s : App) : Type 0 where
  pub base_is : s.base_path_ ≡ base
  pub requests : All (IsRequest base) s.network

pub get-Fits : Fits "GET" none
get-Fits = refl

pub post-Fits : (t : String) → Fits "POST" (some t)
post-Fits t = inl refl

pub put-Fits : (t : String) → Fits "PUT" (some t)
put-Fits t = inr (inl refl)

pub delete-Fits : (t : String) → Fits "DELETE" (some t)
delete-Fits t = inr (inr refl)

module _ {base : String} where
  AllSent-IsQuiet : IsQuiet (AllSent base)
  AllSent-IsQuiet = record {
    on_data = λ f s h. record { base_is = h.base_is; requests = h.requests };
    on_dom = λ f k s h. record { base_is = h.base_is; requests = h.requests };
  }

  dom-AllSent : (f : Dom → Dom) → Keeps (AllSent base) (set_dom f)
  unfolding set_dom
  dom-AllSent f = record { leaves = λ s h. record { base_is = h.base_is; requests = h.requests } }

  clipboard-AllSent : (t : String) → Keeps (AllSent base) (set_clipboard t)
  unfolding set_clipboard
  clipboard-AllSent t = record {
    leaves = λ s h. record { base_is = h.base_is; requests = h.requests };
  }

  clock-AllSent : (n : ℕ) → Keeps (AllSent base) (set_clock n)
  unfolding set_clock
  clock-AllSent n = record { leaves = λ s h. record { base_is = h.base_is; requests = h.requests } }

  call-AllSent :
      (msg method rest : String) (body : Option String) (h : Handler)
      → Fits method body
      → Keeps (AllSent base) (api_call msg method rest body h)
  unfolding api_call submit_request show_message render_response ◌>>=◌ lens.Js.Value.truthy
      request_headers
  call-AllSent msg method rest body h fits = record {
    leaves = λ s k. record {
      base_is = k.base_is;
      requests = All-append (IsRequest base) s.network _ k.requests (
        record {
          rest = rest;
          path_is = ap (λ b. b ++ rest) k.base_is;
          body_fits = fits;
          more = _;
          headers_are = refl;
        },
        tt,
      );
    };
  }

ruleset sent_rules = (
  page_rules, AllSent-IsQuiet, dom-AllSent, clipboard-AllSent, clock-AllSent, call-AllSent,
  get-Fits, post-Fits, put-Fits, delete-Fits,
)

module _ {base : String} where
  process-AllSent : (h : Handler) (response : Value) → Keeps (AllSent base) (process h response)
  unfolding process set_user_info_data set_pool_list_data set_pool_data api_list_pools
      render_pool_list display_pool_list display_pool_edit
  process-AllSent set_user_info response = search sent_rules depth 20
  process-AllSent set_pool_list response = search sent_rules depth 20
  process-AllSent set_pool response = search sent_rules depth 20
  process-AllSent list_pools response = search sent_rules depth 20

  receive-AllSent :
      (p : Pending) (is_ok : Bool) (response : Value)
      → Keeps (AllSent base) (receive p is_ok response)
  unfolding receive
  receive-AllSent p is_ok response = search (sent_rules, process-AllSent) depth 12

  answer-AllSent :
      (p : Option Pending) (is_ok : Bool) (json : Option Value)
      → Keeps (AllSent base) (answer p is_ok json)
  answer-AllSent none is_ok json = search sent_rules
  answer-AllSent (some p) is_ok none = search sent_rules
  answer-AllSent (some p) is_ok (some response) = receive-AllSent p is_ok response

  -- The request that is answered is no longer under way; the others are.
  respond-AllSent :
      (i : ℕ) (is_ok : Bool) (json : Option Value) → Keeps (AllSent base) (respond i is_ok json)
  unfolding respond ◌>>=◌
  respond-AllSent i is_ok json = record {
    leaves = λ s h. (answer-AllSent (get_elem? s.network i) is_ok json).leaves _ (record {
      base_is = h.base_is;
      requests = All-erase_idx (IsRequest base) s.network i h.requests;
    });
  }

  kick-AllSent : (c : Click) → Keeps (AllSent base) (kick c)
  unfolding kick run_edit_pool api_delete_pool api_delete_bucket api_delete_secret copy_to_clipboard
      render_secret_expiration_default set_pool_data display_pool_list display_pool_edit
  kick-AllSent (edit_pool p) = search sent_rules depth 20
  kick-AllSent (delete_pool p) = search sent_rules depth 20
  kick-AllSent (delete_bucket name) = search sent_rules depth 20
  kick-AllSent (delete_secret key) = search sent_rules depth 20
  kick-AllSent (copy_text key) = search sent_rules depth 20

  handle-AllSent : (e : Event) → Keeps (AllSent base) (handle e)
  unfolding handle start_ui kick_show_pool_make kick_show_pool_list kick_make_pool kick_make_bucket
      kick_make_secret kick_test_csrf api_get_user_info api_list_pools api_make_pool api_make_bucket
      api_make_secret display_pool_make display_pool_list display_pool_edit
  handle-AllSent Event.load = search sent_rules depth 20
  handle-AllSent Event.show_pool_make = search sent_rules depth 20
  handle-AllSent Event.show_pool_list = search sent_rules depth 20
  handle-AllSent Event.make_pool = search sent_rules depth 20
  handle-AllSent Event.make_bucket = search sent_rules depth 20
  handle-AllSent Event.test_csrf = search sent_rules depth 20
  handle-AllSent (Event.make_secret policy) = search sent_rules depth 20
  handle-AllSent (Event.click c) = kick-AllSent c
  handle-AllSent (Event.input i v) = dom-AllSent (enter i v)
  handle-AllSent (Event.response i is_ok json) = respond-AllSent i is_ok json
  handle-AllSent (Event.wait n) = clock-AllSent n

  run-AllSent : (es : List Event) (s : App) → AllSent base s → AllSent base (run s es)
  unfolding step
  run-AllSent [] s h = h
  run-AllSent (e ∷ es) s h = run-AllSent es (step s e) ((handle-AllSent e).leaves s h)

-- From any page without requests under way, after any events, responses of any form among them, each
-- request under way goes to a path below the base path, has the type of its body as its first header,
-- and has a body just if its method is POST, PUT or DELETE and not GET.
pub run-IsRequest :
    (s : App) (es : List Event) → s.network ≡ [] → All (IsRequest s.base_path_) (run s es).network
run-IsRequest s es h = (run-AllSent es s (record { base_is = refl; requests = rw h tt })).requests
