-- ===== src/Vue/Quiet.antt =====
-- About properties that depend only on the requests, the base path, the token and the time of the date
-- picker, and the code that changes none of these.
use lens.Prelude.{String, ◌≡◌, refl}
use lens.Js.Value.{Value, undefined, null, str, num, bool, obj, arr}
use lens.Vue.State.{Client}
use lens.Vue.Code.{update}
use lens.Vue.Code.Keeps.{Keeps, client_loop_rules}
use lens.Vue.Client.{
  api_list_pools, keep_token, set_user_info_data, set_pool_list, has_policy, key_shown,
  format_time_in_keys, copy_desc, set_pool_data,
}
use lens.Vue.Actions.{show_failure}

-- A client with those parts of another one.
abbrev pub kept_in : Client → Client → Client
kept_in s t = record t {
  network = s.network;
  base_path = s.base_path;
  x_csrf_token = s.x_csrf_token;
  pool_data = record (t.pool_data) { key_expiration_time = s.pool_data.key_expiration_time };
}

pub record IsSteady (P : Client → Type 0) : Type 0 where
  pub on_update :
      (f : Client → Client) → ((s : Client) → f s ≡ kept_in s (f s)) → (s : Client) → P s → P (f s)

module _ {P : Client → Type 0} where
  pub update-Steady :
      IsSteady P
      → (f : Client → Client) → ((s : Client) → f s ≡ kept_in s (f s))
      → Keeps P (update f)
  unfolding update
  update-Steady q f k = record { leaves = q.on_update f k }

pub ruleset steady_rules = (client_loop_rules, update-Steady, refl)

module _ {P : Client → Type 0} where
  pub desc-Steady : IsSteady P → (d : Value) → Keeps P (copy_desc d)
  unfolding copy_desc
  desc-Steady q d = search steady_rules depth 60

  pub data-Steady : IsSteady P → (v : Value) → Keeps P (set_pool_data v)
  unfolding set_pool_data has_policy format_time_in_keys key_shown
  data-Steady q v = search (steady_rules, desc-Steady) depth 60

  pub list-Steady : IsSteady P → (v : Value) → Keeps P (set_pool_list v)
  unfolding set_pool_list
  list-Steady q v = search steady_rules depth 12

  pub failure-Steady : IsSteady P → (op : String) (v : Value) → Keeps P (show_failure op v)
  unfolding show_failure
  failure-Steady q op v = search steady_rules depth 12

  -- The token changes where the data has one.
  pub keep_token-Keeps :
      ((t : Value) → Keeps P (update (λ s. record s { x_csrf_token = t })))
      → (v : Value) → Keeps P (keep_token v)
  keep_token-Keeps h undefined = search client_loop_rules
  keep_token-Keeps h null = search client_loop_rules
  keep_token-Keeps h (str t) = h (str t)
  keep_token-Keeps h (num n) = h (num n)
  keep_token-Keeps h (bool b) = h (bool b)
  keep_token-Keeps h (obj fs) = h (obj fs)
  keep_token-Keeps h (arr vs) = h (arr vs)

  pub user-Keeps :
      IsSteady P
      → ((t : Value) → Keeps P (update (λ s. record s { x_csrf_token = t })))
      → Keeps P api_list_pools
      → (v : Value) → Keeps P (set_user_info_data v)
  unfolding set_user_info_data
  user-Keeps q h k v = search (steady_rules, keep_token-Keeps) depth 60

pub ruleset client_rules = (steady_rules, desc-Steady, data-Steady, list-Steady, failure-Steady)
