-- ===== src/Ui/Requests/Token.antt =====
-- The token against cross-site request forgery: how it is kept and sent.
pub mod Run
use lens.Prelude.{
  ℕ, String, Bool, true, false, ◌≡◌, ◌⊎◌, inl, inr, refl, List, ◌∷◌, [], Option, none, some, All,
  All-append, All-erase_idx, get_elem?, if◌then◌else◌, ◌==◌, eq_iff, not,
}
use lens.Js.Value.{Value, null, str, get, truthy, loosely}
use lens.Ui.State.{App, Dom, Pending, Handler, set_user_info, set_pool_list, set_pool, list_pools}
use lens.Ui.Node.{Click, edit_pool, delete_pool, delete_bucket, delete_secret, copy_text}
use lens.Ui.Code.{
  M, type_error, or_throw, prop, ret, set_data, set_dom, set_clipboard, set_clock, fetch, read,
  ◌>>=◌,
}
use lens.Ui.Code.Keeps.{Keeps, code_rules}
use lens.Ui.Quiet.{IsStill, page_rules}
use lens.Ui.Render.{
  render_pool_list, render_secret_expiration_default, render_response, display_pool_list,
  display_pool_edit, display_pool_make,
}
use lens.Ui.Data.{show_data, show_message, set_user_info_data, set_pool_list_data, set_pool_data}
use lens.Ui.Api.{
  submit_request, request_headers, api_call, api_get_user_info, api_list_pools, api_make_pool,
  api_delete_pool, run_edit_pool, api_make_bucket, api_delete_bucket, api_make_secret,
  api_delete_secret,
}
use lens.Ui.Actions.{
  Event, start_ui, kick_show_pool_make, kick_show_pool_list, kick_make_pool, kick_make_bucket,
  kick_make_secret, copy_to_clipboard, kick, process, receive, answer, respond, enter, handle, step,
  run,
}

-- The request has the type of its body and the token in its headers, and nothing else.
abbrev pub Carries : String → Pending → Type 0
Carries t p = p.request.headers ≡ ("Content-Type", "application/json") ∷ ("X-CSRF-Token", t) ∷ []

pub record Armed (t : String) (s : App) : Type 0 where
  pub token : s.pool_data.x_csrf_token ≡ str t
  pub requests : All (Carries t) s.network

request_headers-str :
    (t : String)
    → (t == "") ≡ false
    → request_headers (str t) ≡ ("Content-Type", "application/json") ∷ ("X-CSRF-Token", t) ∷ []
unfolding request_headers loosely lens.Js.Value.to_text
request_headers-str t h = rw h refl

-- The data has no other token: what is behind its name is no token, or this one.
abbrev pub OnlyToken : String → Value → Type 0
OnlyToken t v = (x : Value) → get v "x_csrf_token" ≡ some x → (truthy x ≡ false) ⊎ (x ≡ str t)

module _ {P : App → Type 0} {A : Type 0} where
  -- What runs after a property is read is given the value of the property.
  prop-Keeps :
      (v : Value) (k : String) (rest : Value → M A)
      → ((x : Value) → get v k ≡ some x → Keeps P (rest x))
      → Keeps P (prop v k >>= rest)
  unfolding ◌>>=◌ or_throw lens.Ui.Code.throw
  prop-Keeps v k rest h = from_found (get v k) h
    where
      from_found :
          (o : Option Value)
          → ((x : Value) → o ≡ some x → Keeps P (rest x))
          → Keeps P (or_throw type_error o >>= rest)
      from_found none h = record { leaves = λ s p. p }
      from_found (some x) h = h x refl

module _ {t : String} where
  pub Armed-IsStill : IsStill (Armed t)
  Armed-IsStill = record {
    on_data = λ f k s h. record { token = rw (k s.pool_data) h.token; requests = h.requests };
    on_dom = λ f k s h. record { token = h.token; requests = h.requests };
  }

  pub dom-Armed : (f : Dom → Dom) → Keeps (Armed t) (set_dom f)
  unfolding set_dom
  dom-Armed f = record { leaves = λ s h. record { token = h.token; requests = h.requests } }

  pub clipboard-Armed : (v : String) → Keeps (Armed t) (set_clipboard v)
  unfolding set_clipboard
  clipboard-Armed v = record { leaves = λ s h. record { token = h.token; requests = h.requests } }

  pub clock-Armed : (n : ℕ) → Keeps (Armed t) (set_clock n)
  unfolding set_clock
  clock-Armed n = record { leaves = λ s h. record { token = h.token; requests = h.requests } }

  kept-Armed :
      (x : Value) → x ≡ str t → Keeps (Armed t) (set_data (λ p. record p { x_csrf_token = x }))
  unfolding set_data
  kept-Armed x e = record { leaves = λ s h. record { token = e; requests = h.requests } }

  token-Armed :
      (x : Value)
      → (truthy x ≡ false) ⊎ (x ≡ str t)
      → Keeps (Armed t) (if truthy x then set_data (λ p. record p { x_csrf_token = x }) else ret tt)
  token-Armed x (inl e) = rw e (search code_rules)
  token-Armed x (inr e) = search (code_rules, kept-Armed)

  -- A response without another token leaves the token of the page.
  data-Armed : (v : Value) → OnlyToken t v → Keeps (Armed t) (show_data v)
  unfolding show_data
  data-Armed v only = search (prop-Keeps, token-Armed, page_rules, Armed-IsStill) depth 30

  pub message-Armed :
      (v : Value) (msg : String) → OnlyToken t v → Keeps (Armed t) (show_message v msg)
  unfolding show_message render_response
  message-Armed v msg only = search (page_rules, Armed-IsStill, data-Armed) depth 30

  pub call-Armed :
      (msg method rest : String) (body : Option String) (h : Handler)
      → (t == "") ≡ false
      → Keeps (Armed t) (api_call msg method rest body h)
  unfolding api_call submit_request show_message render_response ◌>>=◌ lens.Js.Value.truthy
  call-Armed msg method rest body h e = record {
    leaves = λ s k. record {
      token = k.token;
      requests =
          All-append (Carries t) s.network _ k.requests (rw k.token (request_headers-str t e), tt);
    };
  }
