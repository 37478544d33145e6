-- ===== src/Vue/Token.antt =====
-- The token against cross-site request forgery in the Vue client, through all events.
use lens.Prelude.{
  ℕ, String, Bool, false, ◌≡◌, ◌⊎◌, inl, inr, refl, List, ◌∷◌, [], Option, none, some, All,
  All-append, All-erase_idx, get_elem?, ◌==◌, not-empty,
}
use lens.Js.Value.{Value, undefined, null, str, get, loosely}
use lens.Ui.Code.{type_error}
use lens.Vue.State.{Client, Pending, Handler, list_pools}
use lens.Vue.Code.{V, update, put_data, or_fail, prop, ◌>>=◌}
use lens.Vue.Code.Keeps.{Keeps, bind-Keeps}
use lens.Vue.Quiet.{IsSteady, client_rules}
use lens.Vue.Client.{
  request_headers, submit_request, call, api_get_user_info, api_list_pools, api_make_pool,
  api_delete_pool, api_make_bucket, api_delete_bucket, api_make_secret, api_delete_secret,
  keep_token, set_user_info_data, edit_pool,
}
use lens.Vue.Actions.{
  create_pool_make, kick_make_pool, kick_edit_pool, kick_delete_pool, kick_make_bucket,
  kick_delete_bucket, kick_make_secret, kick_delete_secret, kick_copy_to_clipboard, close_dialog,
  show_reason, kick_copy_url_to_clipboard, close_menu, process, receive, answer, respond, Entry,
  enter, Event, handle, step, run,
}

-- The request has the type of its body and the token in its headers, and nothing else.
abbrev pub Carries : String → Pending → Type 0
Carries t p = p.request.headers ≡ ("Content-Type", "application/json") ∷ ("X-CSRF-Token", t) ∷ []

record Armed (t : String) (s : Client) : Type 0 where
  pub token : s.x_csrf_token ≡ str t
  pub requests : All (Carries t) s.network

request_headers-str :
    (t : String)
    → (t == "") ≡ false
    → request_headers (str t) ≡ ("Content-Type", "application/json") ∷ ("X-CSRF-Token", t) ∷ []
unfolding request_headers loosely lens.Js.Value.to_text
request_headers-str t h = rw h refl

-- Nothing, or this token.
abbrev pub NothingOr : String → Value → Type 0
NothingOr t x = (x ≡ undefined) ⊎ ((x ≡ null) ⊎ (x ≡ str t))

-- The data has no other token.
abbrev pub OnlyToken : String → Value → Type 0
OnlyToken t v = (x : Value) → get v "x_csrf_token" ≡ some x → NothingOr t x

-- Data that arrives has no other token.
abbrev pub IsAuthentic : String → Event → Type 0
IsAuthentic t (Event.response i is_ok (some v)) = OnlyToken t v
IsAuthentic t _ = Unit

module _ {P : Client → Type 0} {A : Type 0} where
  -- What runs after a property is read is given the value of the property.
  prop-Keeps :
      (v : Value) (k : String) (rest : Value → V A)
      → ((x : Value) → get v k ≡ some x → Keeps P (rest x))
      → Keeps P (prop v k >>= rest)
  unfolding ◌>>=◌ or_fail
  prop-Keeps v k rest h = from_found (get v k) h
    where
      from_found :
          (o : Option Value)
          → ((x : Value) → o ≡ some x → Keeps P (rest x))
          → Keeps P (or_fail type_error o >>= rest)
      from_found none h = record { leaves = λ s p. p }
      from_found (some x) h = h x refl

module _ {t : String} where
  Armed-IsSteady : IsSteady (Armed t)
  Armed-IsSteady = record {
    on_update = λ f k s h. rw (k s) (record { token = h.token; requests = h.requests });
  }

  enter-Armed : (e : Entry) → Keeps (Armed t) (put_data (enter e))
  unfolding update
  enter-Armed e = record { leaves = λ s h. record { token = h.token; requests = h.requests } }

  token-Armed : (x : Value) → NothingOr t x → Keeps (Armed t) (keep_token x)
  unfolding update
  token-Armed x (inl e) = rw e (search client_rules)
  token-Armed x (inr (inl e)) = rw e (search client_rules)
  token-Armed x (inr (inr e)) =
      rw e (record { leaves = λ s h. record { token = refl; requests = h.requests } })

module _ {t : String} (given : (t == "") ≡ false) where
  call-Armed :
      (op method rest : String) (body : Option String) (h : Handler)
      → Keeps (Armed t) (call op method rest body h)
  unfolding call submit_request ◌>>=◌
  call-Armed op method rest body h = record {
    leaves = λ s k. record {
      token = k.token;
      requests =
          All-append (Carries t) s.network _ k.requests
            (rw k.token (request_headers-str t given), tt);
    };
  }

  list-Armed : Keeps (Armed t) api_list_pools
  unfolding api_list_pools
  list-Armed = call-Armed _ _ _ _ _

  user-Armed : (v : Value) → OnlyToken t v → Keeps (Armed t) (set_user_info_data v)
  unfolding set_user_info_data
  user-Armed v only = bind-Keeps _ _ (search client_rules) (λ d.
      bind-Keeps _ _ (search client_rules) (λ version. prop-Keeps v "x_csrf_token" _ (λ x e.
        bind-Keeps _ _ (token-Armed x (only x e))
          (λ u. search (client_rules, Armed-IsSteady, list-Armed) depth 50))))

  ruleset armed_rules = (client_rules, Armed-IsSteady, call-Armed)

  process-Armed : (h : Handler) (v : Value) → OnlyToken t v → Keeps (Armed t) (process h v)
  unfolding process
  process-Armed Handler.set_user_info_data v only = user-Armed v only
  process-Armed Handler.set_pool_list v only = search armed_rules
  process-Armed Handler.set_pool_data v only = search armed_rules
  process-Armed list_pools v only = list-Armed

  answer-Armed :
      (p : Option Pending) (i : ℕ) (is_ok : Bool) (json : Option Value)
      → IsAuthentic t (Event.response i is_ok json)
      → Keeps (Armed t) (answer p is_ok json)
  unfolding receive
  answer-Armed none i is_ok json only = search armed_rules
  answer-Armed (some p) i is_ok none only = search armed_rules
  answer-Armed (some p) i Bool.true (some v) only = process-Armed p.handler v only
  answer-Armed (some p) i Bool.false (some v) only = search armed_rules

  respond-Armed :
      (i : ℕ) (is_ok : Bool) (json : Option Value)
      → IsAuthentic t (Event.response i is_ok json)
      → Keeps (Armed t) (respond i is_ok json)
  unfolding respond ◌>>=◌
  respond-Armed i is_ok json only = record {
    leaves = λ s h.
        (answer-Armed (get_elem? s.network i) i is_ok json only).leaves _
          (record { token = h.token; requests = All-erase_idx (Carries t) s.network i h.requests });
  }

  handle-Armed : (e : Event) → IsAuthentic t e → Keeps (Armed t) (handle e)
  unfolding handle create_pool_make api_get_user_info kick_make_pool api_make_pool kick_edit_pool
      edit_pool kick_delete_pool api_delete_pool kick_make_bucket api_make_bucket kick_delete_bucket
      api_delete_bucket kick_make_secret api_make_secret kick_delete_secret api_delete_secret
      kick_copy_to_clipboard close_dialog show_reason kick_copy_url_to_clipboard close_menu
  handle-Armed Event.create k = search armed_rules depth 12
  handle-Armed Event.make_pool k = search armed_rules depth 12
  handle-Armed Event.make_bucket k = search armed_rules depth 12
  handle-Armed Event.close k = search armed_rules depth 12
  handle-Armed (Event.edit i) k = search armed_rules depth 12
  handle-Armed (Event.delete_pool i) k = search armed_rules depth 12
  handle-Armed (Event.make_secret policy) k = search armed_rules depth 12
  handle-Armed (Event.delete_bucket name) k = search armed_rules depth 12
  handle-Armed (Event.delete_secret key) k = search armed_rules depth 12
  handle-Armed (Event.copy_text v) k = search armed_rules depth 12
  handle-Armed Event.copy_url k = search armed_rules depth 12
  handle-Armed Event.leave_menu k = search armed_rules depth 12
  handle-Armed (Event.reason n v) k = search armed_rules depth 12
  handle-Armed (Event.input i) k = enter-Armed i
  handle-Armed (Event.response i is_ok json) k = respond-Armed i is_ok json k

  run-Armed :
      (es : List Event) (s : Client) → All (IsAuthentic t) es → Armed t s → Armed t (run s es)
  unfolding step
  run-Armed [] s k h = h
  run-Armed (e ∷ es) s (k, ks) h = run-Armed es (step s e) ks ((handle-Armed e k).leaves s h)

-- When the Vue client has a token and no request is under way, then after any events in which no other
-- token arrives, the client still has the token, and each request under way carries it as its header
-- `X-CSRF-Token`.
pub run-AllCarry :
    (t : String) (s : Client) (es : List Event)
    → ¬ (t ≡ "")
    → s.x_csrf_token ≡ str t
    → s.network ≡ []
    → All (IsAuthentic t) es
    → ((run s es).x_csrf_token ≡ str t) × All (Carries t) (run s es).network
run-AllCarry t s es given token idle k =
    let h = run-Armed (not-empty given) es s k (record { token = token; requests = rw idle tt }) in
    (h.token, h.requests)
