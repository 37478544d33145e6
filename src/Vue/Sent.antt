-- ===== src/Vue/Sent.antt =====
-- The form of the requests of lens3c, through all events.
use Prim.Native.String.{◌++◌}
use lens.Prelude.{
  ap, ℕ, String, Bool, ◌≡◌, refl, List, ◌∷◌, [], Option, none, some, All, All-append, All-erase_idx,
  get_elem?,
}
use lens.Js.Value.{Value}
use lens.Ui.Requests.Sent.{Fits, get-Fits, post-Fits, put-Fits, delete-Fits}
use lens.Vue.State.{Client, Pending, Handler, list_pools}
use lens.Vue.Code.{put_data, update, ◌>>=◌}
use lens.Vue.Code.Keeps.{Keeps}
use lens.Vue.Quiet.{IsSteady, user-Keeps, client_rules}
use lens.Vue.Client.{
  request_headers, submit_request, call, api_get_user_info, api_list_pools, api_make_pool,
  api_delete_pool, api_make_bucket, api_delete_bucket, api_make_secret, api_delete_secret,
  edit_pool,
}
use lens.Vue.Actions.{
  Entry, enter, create_pool_make, kick_make_pool, kick_edit_pool, kick_delete_pool,
  kick_make_bucket, kick_delete_bucket, kick_make_secret, kick_delete_secret,
  kick_copy_to_clipboard, close_dialog, show_reason, kick_copy_url_to_clipboard, close_menu,
  process, receive, answer, respond, Event, handle, step, run,
}

-- The path is below the base path, the body fits the method, and the first header is the type of the body.
pub record IsRequest (base : String) (p : Pending) : Type 0 where
  pub rest : String
  pub path_is : p.request.path ≡ base ++ rest
  pub body_fits : Fits p.request.method p.request.body
  pub more : List (String × String)
  pub headers_are : p.request.headers ≡ ("Content-Type", "application/json") ∷ more

record AllSent (base : String) (s : Client) : Type 0 where
  pub base_is : s.base_path ≡ base
  pub requests : All (IsRequest base) s.network

module _ {base : String} where
  AllSent-IsSteady : IsSteady (AllSent base)
  AllSent-IsSteady = record {
    on_update = λ f k s h. rw (k s) (record { base_is = h.base_is; requests = h.requests });
  }

  token-AllSent : (t : Value) → Keeps (AllSent base) (update (λ s. record s { x_csrf_token = t }))
  unfolding update
  token-AllSent t = record { leaves = λ s h. record { base_is = h.base_is; requests = h.requests } }

  enter-AllSent : (e : Entry) → Keeps (AllSent base) (put_data (enter e))
  unfolding update
  enter-AllSent e = record { leaves = λ s h. record { base_is = h.base_is; requests = h.requests } }

  call-AllSent :
      (op_name method rest : String) (body : Option String) (h : Handler)
      → Fits method body
      → Keeps (AllSent base) (call op_name method rest body h)
  unfolding call submit_request ◌>>=◌ request_headers
  call-AllSent op_name method rest body h fits = record {
    leaves = λ s k. record {
      base_is = k.base_is;
      requests = All-append (IsRequest base) s.network _ k.requests (
        record {
          rest = rest;
          path_is = ap (λ b. b ++ rest) k.base_is;
          body_fits = fits;
          more = _;
          headers_are = refl;
        },
        tt,
      );
    };
  }

ruleset call_rules =
    (client_rules, AllSent-IsSteady, call-AllSent, get-Fits, post-Fits, put-Fits, delete-Fits)

module _ {base : String} where
  list-AllSent : Keeps (AllSent base) api_list_pools
  unfolding api_list_pools
  list-AllSent = search call_rules

  process-AllSent : (h : Handler) (v : Value) → Keeps (AllSent base) (process h v)
  unfolding process
  process-AllSent Handler.set_user_info_data v =
      user-Keeps AllSent-IsSteady token-AllSent list-AllSent v
  process-AllSent Handler.set_pool_list v = search call_rules
  process-AllSent Handler.set_pool_data v = search call_rules
  process-AllSent list_pools v = list-AllSent

  answer-AllSent :
      (p : Option Pending) (is_ok : Bool) (json : Option Value)
      → Keeps (AllSent base) (answer p is_ok json)
  unfolding receive
  answer-AllSent none is_ok json = search call_rules
  answer-AllSent (some p) is_ok none = search call_rules
  answer-AllSent (some p) Bool.true (some v) = process-AllSent p.handler v
  answer-AllSent (some p) Bool.false (some v) = search call_rules

  -- The request that is answered is no longer under way; the others are.
  respond-AllSent :
      (i : ℕ) (is_ok : Bool) (json : Option Value) → Keeps (AllSent base) (respond i is_ok json)
  unfolding respond ◌>>=◌
  respond-AllSent i is_ok json = record {
    leaves = λ s h. (answer-AllSent (get_elem? s.network i) is_ok json).leaves _ (record {
      base_is = h.base_is;
      requests = All-erase_idx (IsRequest base) s.network i h.requests;
    });
  }

  handle-AllSent : (e : Event) → Keeps (AllSent base) (handle e)
  unfolding handle create_pool_make api_get_user_info kick_make_pool api_make_pool kick_edit_pool
      edit_pool kick_delete_pool api_delete_pool kick_make_bucket api_make_bucket kick_delete_bucket
      api_delete_bucket kick_make_secret api_make_secret kick_delete_secret api_delete_secret
      kick_copy_to_clipboard close_dialog show_reason kick_copy_url_to_clipboard close_menu
  handle-AllSent Event.create = search call_rules depth 12
  handle-AllSent Event.make_pool = search call_rules depth 12
  handle-AllSent Event.make_bucket = search call_rules depth 12
  handle-AllSent Event.close = search call_rules depth 12
  handle-AllSent (Event.edit i) = search call_rules depth 12
  handle-AllSent (Event.delete_pool i) = search call_rules depth 12
  handle-AllSent (Event.make_secret rw) = search call_rules depth 12
  handle-AllSent (Event.delete_bucket name) = search call_rules depth 12
  handle-AllSent (Event.delete_secret key) = search call_rules depth 12
  handle-AllSent (Event.copy_text v) = search call_rules depth 12
  handle-AllSent Event.copy_url = search call_rules depth 12
  handle-AllSent Event.leave_menu = search call_rules depth 12
  handle-AllSent (Event.reason n v) = search call_rules depth 12
  handle-AllSent (Event.input i) = enter-AllSent i
  handle-AllSent (Event.response i is_ok json) = respond-AllSent i is_ok json

  run-AllSent : (es : List Event) (s : Client) → AllSent base s → AllSent base (run s es)
  unfolding step
  run-AllSent [] s h = h
  run-AllSent (e ∷ es) s h = run-AllSent es (step s e) ((handle-AllSent e).leaves s h)

-- From any Vue client without requests under way, after any events, responses of any form among them,
-- each request under way goes to a path below the base path, has the type of its body as its first
-- header, and has a body just if its method is POST, PUT or DELETE and not GET.
pub run-AreRequests :
    (s : Client) (es : List Event) → s.network ≡ [] → All (IsRequest s.base_path) (run s es).network
run-AreRequests s es h = (run-AllSent es s (record { base_is = refl; requests = rw h tt })).requests
