-- ===== src/Ui/Quiet.antt =====
-- About properties that depend on little of `pool_data` and of the document, and the code that only fills
-- these.
use lens.Prelude.{
  subst, sym, Bool, true, false, String, ◌≡◌, refl, List, ◌∷◌, [], ◌&&◌, arith, Option, none, some,
  ℕ,
}
use lens.Js.Value.{Value}
use lens.Ui.State.{App, Dom, PoolData, set_pool}
use lens.Ui.Code.{set_data, set_dom}
use lens.Ui.Code.Keeps.{Keeps, code_rules, loop_rules}
use lens.Ui.Render.{
  render_user_info, render_bucket_list, render_secret_list, bucket_node, render_response,
  render_buckets_directory, render_secret_list_by_policy,
}
use lens.Ui.Data.{
  copy_user_info_for_edit, key_shown, has_text, format_time_in_keys, copy_pool_data_for_edit,
  names_with_policy, make_pool_entry_for_printing, show_data, show_message,
}
use lens.Ui.Api.{api_call, pool_call}

-- The displayed sections of the document.
pub record Sections : Type 0 where
  pub make : Bool
  pub list : Bool
  pub buckets : Bool
  pub secrets : Bool

abbrev pub sections : Dom → Sections
sections d = record {
  make = d.pool_make_section;
  list = d.pool_list_section;
  buckets = d.buckets_section;
  secrets = d.secrets_section;
}

-- The property depends on nothing of `pool_data` but the token, and on nothing of the document but its
-- displayed sections.
pub record IsStill (P : App → Type 0) : Type 0 where
  pub on_data :
      (f : PoolData → PoolData)
      → ((p : PoolData) → (f p).x_csrf_token ≡ p.x_csrf_token)
      → (s : App) → P s
      → P (record s { pool_data = f s.pool_data })
  pub on_dom :
      (f : Dom → Dom)
      → ((d : Dom) → sections (f d) ≡ sections d)
      → (s : App) → P s
      → P (record s { dom = f s.dom })

-- The property does not depend on `pool_data`, nor on the document but for its displayed sections.
pub record IsQuiet (P : App → Type 0) : Type 0 where
  pub on_data :
      (f : PoolData → PoolData) (s : App) → P s → P (record s { pool_data = f s.pool_data })
  pub on_dom :
      (f : Dom → Dom)
      → ((d : Dom) → sections (f d) ≡ sections d)
      → (s : App) → P s
      → P (record s { dom = f s.dom })

module _ {P : App → Type 0} where
  pub Quiet-IsStill : IsQuiet P → IsStill P
  Quiet-IsStill q = record { on_data = λ f k. q.on_data f; on_dom = q.on_dom }

  pub set_any-Quiet : IsQuiet P → (f : PoolData → PoolData) → Keeps P (set_data f)
  unfolding set_data
  set_any-Quiet q f = record { leaves = q.on_data f }

  pub set_data-Still :
      IsStill P
      → (f : PoolData → PoolData) → ((p : PoolData) → (f p).x_csrf_token ≡ p.x_csrf_token)
      → Keeps P (set_data f)
  unfolding set_data
  set_data-Still q f k = record { leaves = q.on_data f k }

  pub set_dom-Still :
      IsStill P → (f : Dom → Dom) → ((d : Dom) → sections (f d) ≡ sections d) → Keeps P (set_dom f)
  unfolding set_dom
  set_dom-Still q f k = record { leaves = q.on_dom f k }

pub ruleset still_rules = (loop_rules, set_data-Still, set_dom-Still, refl)

module _ {P : App → Type 0} where
  pub has_text-Still : IsStill P → (k t : String) (d : Value) → Keeps P (has_text k t d)
  unfolding has_text
  has_text-Still q k t d = search still_rules

  pub names-Still :
      IsStill P → (t : String) (bkts : List Value) → Keeps P (names_with_policy t bkts)
  unfolding names_with_policy
  names-Still q t bkts = search (still_rules, has_text-Still) depth 12

  pub bucket-Still : IsStill P → (b : Value) → Keeps P (bucket_node b)
  unfolding bucket_node
  bucket-Still q b = search still_rules depth 12

  pub key-Still : IsStill P → (k : Value) → Keeps P (key_shown k)
  unfolding key_shown
  key-Still q k = search still_rules depth 12

  pub entry-Still : IsStill P → (desc : Value) → Keeps P (make_pool_entry_for_printing desc)
  unfolding make_pool_entry_for_printing
  entry-Still q desc = search (still_rules, names-Still) depth 40

  pub copy_user-Still : IsStill P → (u : Value) → Keeps P (copy_user_info_for_edit u)
  unfolding copy_user_info_for_edit render_user_info
  copy_user-Still q u = search still_rules depth 20

  pub copy_pool-Still : IsStill P → (desc : Value) → Keeps P (copy_pool_data_for_edit desc)
  unfolding copy_pool_data_for_edit format_time_in_keys render_buckets_directory
  copy_pool-Still q desc = search (still_rules, has_text-Still, key-Still) depth 50

  pub buckets-Still : IsStill P → Keeps P render_bucket_list
  unfolding render_bucket_list
  buckets-Still q = search (still_rules, bucket-Still) depth 12

  pub secrets-Still : IsStill P → Keeps P render_secret_list
  unfolding render_secret_list render_secret_list_by_policy
  secrets-Still q = search still_rules depth 20

  pub message-Quiet :
      IsQuiet P → (response : Value) (s : String) → Keeps P (show_message response s)
  unfolding show_message show_data render_response
  message-Quiet q response s = search (still_rules, Quiet-IsStill, set_any-Quiet) depth 30

  -- The requests of the editor are requests.
  pub pool_call-Keeps :
      (msg method rest body : String)
      → ((path : String) → Keeps P (api_call msg method path (some body) set_pool))
      → Keeps P (pool_call msg method rest body)
  unfolding pool_call
  pool_call-Keeps msg method rest body h = search (code_rules, h)

pub ruleset page_rules = (
  still_rules, entry-Still, copy_user-Still, copy_pool-Still, buckets-Still, secrets-Still,
  Quiet-IsStill, set_any-Quiet, message-Quiet, pool_call-Keeps,
)
