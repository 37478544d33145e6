-- ===== src/Vue/State.antt =====
-- The state of the Vue client: the reactive `pool_data`, the token, and the requests under way.
use lens.Prelude.{ℕ, String, Bool, false, Option, List, []}
use lens.Js.Value.{Value, str, arr, no_items}

-- A key as the client shows it.
pub record Key : Type 0 where
  pub access_key : Value
  pub secret_key : Value
  pub expiration_time : Value

-- An element of `access_key_set`.
pub record KeySet : Type 0 where
  pub policy : String
  pub keys : List Key

-- The data of `pool_data_`, without its methods. `access_key_set` is `{}` at first, which lists nothing
-- like the empty list. `key_expiration_time` is the `getTime()` of the date.
pub record PoolData : Type 0 where
  pub buckets_directory : Value
  pub user : Value
  pub group : Value
  pub group_choices : Value
  pub lens3_version : Value
  pub s3_url : Value
  pub footer_banner : Value
  pub base_path : String
  pub pool_list : Value
  pub buckets : Value
  pub secrets : Value
  pub probe_key : Value
  pub expiration_time : Value
  pub online_status : Value
  pub user_enabled_status : Value
  pub minio_state : Value
  pub minio_reason : Value
  pub modification_time : Value
  pub access_key_set : List KeySet
  pub secrets_rw : List Key
  pub secrets_ro : List Key
  pub secrets_wo : List Key
  pub pool_name : Value
  pub bucket_name : Value
  pub bucket_policy : Value
  pub key_expiration_time : ℕ
  pub edit_pool_visible : Bool
  pub menu_visible : Bool
  pub dialog_text : String
  pub dialog_visible : Bool

-- The value of `pool_data_` when it is made at the time `now`.
abbrev pub initial_pool_data : ℕ → PoolData
initial_pool_data now = record {
  buckets_directory = str "";
  user = str "";
  group = str "";
  group_choices = arr no_items;
  lens3_version = str "";
  s3_url = str "";
  footer_banner = str "";
  base_path = "";
  pool_list = arr no_items;
  buckets = arr no_items;
  secrets = arr no_items;
  probe_key = str "";
  expiration_time = str "";
  online_status = str "";
  user_enabled_status = str "";
  minio_state = str "";
  minio_reason = str "";
  modification_time = str "";
  access_key_set = [];
  secrets_rw = [];
  secrets_ro = [];
  secrets_wo = [];
  pool_name = str "";
  bucket_name = str "";
  bucket_policy = str "";
  key_expiration_time = now;
  edit_pool_visible = false;
  menu_visible = false;
  dialog_text = "";
  dialog_visible = false;
}

-- The offset of the local time, in minutes: `getTimezoneOffset` is positive to the west.
pub data Zone : Type 0 where
  west east : ℕ → Zone

pub record Request : Type 0 where
  pub method : String
  pub path : String
  pub body : Option String
  pub headers : List (String × String)

-- The functions that are passed as `process_response`.
pub data Handler : Type 0 where
  set_user_info_data set_pool_list set_pool_data list_pools : Handler

-- A request that has no response yet.
pub record Pending : Type 0 where
  pub op_name : String
  pub request : Request
  pub handler : Handler

pub record Client : Type 0 where
  pub pool_data : PoolData
  pub x_csrf_token : Value
  pub network : List Pending
  pub clipboard : String
  pub zone : Zone
  pub base_path : String
