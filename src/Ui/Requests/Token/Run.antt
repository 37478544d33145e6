-- ===== src/Ui/Requests/Token/Run.antt =====
-- The token against cross-site request forgery, through all events.
use lens.Prelude.{
  ℕ, String, Bool, false, ◌≡◌, List, ◌∷◌, [], Option, none, some, All, All-erase_idx, get_elem?,
  ◌==◌, not-empty,
}
use lens.Js.Value.{Value, str}
use lens.Ui.State.{App, Pending, Handler, set_user_info, set_pool_list, set_pool, list_pools}
use lens.Ui.Node.{Click, edit_pool, delete_pool, delete_bucket, delete_secret, copy_text}
use lens.Ui.Code.{◌>>=◌}
use lens.Ui.Code.Keeps.{Keeps}
use lens.Ui.Quiet.{page_rules}
use lens.Ui.Render.{
  render_pool_list, render_secret_expiration_default, display_pool_list, display_pool_edit,
  display_pool_make,
}
use lens.Ui.Data.{set_user_info_data, set_pool_list_data, set_pool_data}
use lens.Ui.Api.{
  api_get_user_info, api_list_pools, api_make_pool, api_delete_pool, run_edit_pool, api_make_bucket,
  api_delete_bucket, api_make_secret, api_delete_secret,
}
use lens.Ui.Actions.{
  Event, start_ui, kick_show_pool_make, kick_show_pool_list, kick_make_pool, kick_make_bucket,
  kick_make_secret, copy_to_clipboard, kick, process, receive, answer, respond, enter, handle, step,
  run,
}
use lens.Ui.Requests.Token.{
  Armed, Carries, OnlyToken, Armed-IsStill, dom-Armed, clipboard-Armed, clock-Armed, message-Armed,
  call-Armed,
}

-- Data that arrives has no other token, and the button for a test of the token is not used.
abbrev pub IsAuthentic : String → Event → Type 0
IsAuthentic t (Event.response i is_ok (some v)) = OnlyToken t v
IsAuthentic t Event.test_csrf = ⊥
IsAuthentic t _ = Unit

ruleset token_rules =
    (page_rules, Armed-IsStill, dom-Armed, clipboard-Armed, clock-Armed, message-Armed, call-Armed)

module _ {t : String} (given : (t == "") ≡ false) where
  process-Armed : (h : Handler) (v : Value) → Keeps (Armed t) (process h v)
  unfolding process set_user_info_data set_pool_list_data set_pool_data api_list_pools
      render_pool_list display_pool_list display_pool_edit
  process-Armed set_user_info v = search token_rules depth 20
  process-Armed set_pool_list v = search token_rules depth 20
  process-Armed set_pool v = search token_rules depth 20
  process-Armed list_pools v = search token_rules depth 20

  receive-Armed :
      (p : Pending) (is_ok : Bool) (v : Value) → OnlyToken t v → Keeps (Armed t) (receive p is_ok v)
  unfolding receive
  receive-Armed p is_ok v only = search (token_rules, process-Armed) depth 12

  answer-Armed :
      (p : Option Pending) (i : ℕ) (is_ok : Bool) (json : Option Value)
      → IsAuthentic t (Event.response i is_ok json)
      → Keeps (Armed t) (answer p is_ok json)
  answer-Armed none i is_ok json only = search token_rules
  answer-Armed (some p) i is_ok none only = search token_rules
  answer-Armed (some p) i is_ok (some v) only = receive-Armed p is_ok v only

  respond-Armed :
      (i : ℕ) (is_ok : Bool) (json : Option Value)
      → IsAuthentic t (Event.response i is_ok json)
      → Keeps (Armed t) (respond i is_ok json)
  unfolding respond ◌>>=◌
  respond-Armed i is_ok json only = record {
    leaves = λ s h.
        (answer-Armed (get_elem? s.network i) i is_ok json only).leaves _
          (record { token = h.token; requests = All-erase_idx (Carries t) s.network i h.requests });
  }

  kick-Armed : (c : Click) → Keeps (Armed t) (kick c)
  unfolding kick run_edit_pool api_delete_pool api_delete_bucket api_delete_secret copy_to_clipboard
      render_secret_expiration_default set_pool_data display_pool_list display_pool_edit
  kick-Armed (edit_pool p) = search token_rules depth 20
  kick-Armed (delete_pool p) = search token_rules depth 20
  kick-Armed (delete_bucket name) = search token_rules depth 20
  kick-Armed (delete_secret key) = search token_rules depth 20
  kick-Armed (copy_text key) = search token_rules depth 20

  handle-Armed : (e : Event) → IsAuthentic t e → Keeps (Armed t) (handle e)
  unfolding handle start_ui kick_show_pool_make kick_show_pool_list kick_make_pool kick_make_bucket
      kick_make_secret api_get_user_info api_list_pools api_make_pool api_make_bucket
      api_make_secret display_pool_make display_pool_list display_pool_edit
  handle-Armed Event.load k = search token_rules depth 20
  handle-Armed Event.show_pool_make k = search token_rules depth 20
  handle-Armed Event.show_pool_list k = search token_rules depth 20
  handle-Armed Event.make_pool k = search token_rules depth 20
  handle-Armed Event.make_bucket k = search token_rules depth 20
  handle-Armed Event.test_csrf k = absurd k
  handle-Armed (Event.make_secret policy) k = search token_rules depth 20
  handle-Armed (Event.click c) k = kick-Armed c
  handle-Armed (Event.input i v) k = dom-Armed (enter i v)
  handle-Armed (Event.response i is_ok json) k = respond-Armed i is_ok json k
  handle-Armed (Event.wait n) k = clock-Armed n

  run-Armed : (es : List Event) (s : App) → All (IsAuthentic t) es → Armed t s → Armed t (run s es)
  unfolding step
  run-Armed [] s k h = h
  run-Armed (e ∷ es) s (k, ks) h = run-Armed es (step s e) ks ((handle-Armed e k).leaves s h)

-- When the page has a token and no request is under way, then after any events in which no other token
-- arrives and the button for a test of the token is not used, the page still has the token, and each
-- request under way carries it as its header `X-CSRF-Token`.
pub run-Carries :
    (t : String) (s : App) (es : List Event)
    → ¬ (t ≡ "")
    → s.pool_data.x_csrf_token ≡ str t
    → s.network ≡ []
    → All (IsAuthentic t) es
    → ((run s es).pool_data.x_csrf_token ≡ str t) × All (Carries t) (run s es).network
run-Carries t s es given token idle k =
    let h = run-Armed (not-empty given) es s k (record { token = token; requests = rw idle tt }) in
    (h.token, h.requests)
