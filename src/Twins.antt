-- ===== src/Twins.antt =====
-- The two user interfaces of v2 side by side: the page of ui2 (lens3ui.js) and the Vue client, and the
-- requests that they send for the same clicks.
pub mod Steps
pub mod Losses
pub mod Run
pub mod Shown
mod Tests
use mathlib.Core.List
use lens.Prelude.{String, Bool, ◌≡◌, List, Option, none, map, ℕ}
use lens.Js.Value.{Value, str}
use lens.Ui.State.{App}
use lens.Ui.State
use lens.Ui.Node
use lens.Ui.Actions
use lens.Vue.State.{Client}

-- The arguments of `fetch`: the path, the method, the body, and the headers.
abbrev pub Wire : Type 0
Wire = String × String × Option String × List (String × String)

abbrev pub page_wire : lens.Ui.State.Pending → Wire
page_wire p = (p.request.path, p.request.method, p.request.body, p.request.headers)

abbrev pub client_wire : lens.Vue.State.Pending → Wire
client_wire p = (p.request.path, p.request.method, p.request.body, p.request.headers)

-- The page and the client have the same base path, token, pools, pool in the editor, inputs for a new pool
-- and a new bucket, and clipboard, and have sent the same requests.
pub record AreTwins (s : App) (c : Client) : Type 0 where
  pub base : s.base_path_ ≡ c.base_path
  pub token : s.pool_data.x_csrf_token ≡ c.x_csrf_token
  pub pools : s.pool_data.pool_desc_list ≡ c.pool_data.pool_list
  pub name : s.pool_data.pool_name ≡ c.pool_data.pool_name
  pub directory : str s.dom.pool_directory ≡ c.pool_data.buckets_directory
  pub group : str s.dom.group_value ≡ c.pool_data.group
  pub clipboard : s.clipboard ≡ c.clipboard
  pub bucket : str s.dom.bucket_name ≡ c.pool_data.bucket_name
  pub policy : str s.dom.bucket_policy ≡ c.pool_data.bucket_policy
  pub sent : map page_wire s.network ≡ map client_wire c.network

-- A click or an entry in the page, and the one for the same in the client. A response that is none: the
-- request failed, or the body is no JSON.
pub data Same : lens.Ui.Actions.Event → lens.Vue.Actions.Event → Type 0 where
  loading : Same lens.Ui.Actions.load lens.Vue.Actions.create
  making : Same lens.Ui.Actions.show_pool_make lens.Vue.Actions.create
  deletion :
      (i : ℕ)
      → Same (lens.Ui.Actions.click (lens.Ui.Node.delete_pool i)) (lens.Vue.Actions.delete_pool i)
  new_pool : Same lens.Ui.Actions.make_pool lens.Vue.Actions.make_pool
  new_bucket : Same lens.Ui.Actions.make_bucket lens.Vue.Actions.make_bucket
  bucket_deletion :
      (v : Value)
      → Same
          (lens.Ui.Actions.click (lens.Ui.Node.delete_bucket v))
          (lens.Vue.Actions.delete_bucket v)
  key_deletion :
      (v : Value)
      → Same
          (lens.Ui.Actions.click (lens.Ui.Node.delete_secret v))
          (lens.Vue.Actions.delete_secret v)
  copying :
      (v : Value)
      → Same (lens.Ui.Actions.click (lens.Ui.Node.copy_text v)) (lens.Vue.Actions.copy_text v)
  pool_directory :
      (t : String)
      → Same
          (lens.Ui.Actions.input lens.Ui.Actions.pool_directory t)
          (lens.Vue.Actions.input (lens.Vue.Actions.buckets_directory t))
  pool_group :
      (t : String)
      → Same
          (lens.Ui.Actions.input lens.Ui.Actions.group_choices t)
          (lens.Vue.Actions.input (lens.Vue.Actions.group t))
  bucket_name :
      (t : String)
      → Same
          (lens.Ui.Actions.input lens.Ui.Actions.bucket_name t)
          (lens.Vue.Actions.input (lens.Vue.Actions.bucket_name t))
  bucket_policy :
      (t : String)
      → Same
          (lens.Ui.Actions.input lens.Ui.Actions.bucket_policy t)
          (lens.Vue.Actions.input (lens.Vue.Actions.bucket_policy t))
  loss :
      (i : ℕ) (is_ok is_ok' : Bool)
      → Same (lens.Ui.Actions.response i is_ok none) (lens.Vue.Actions.response i is_ok' none)
