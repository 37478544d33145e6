-- ===== src/Ui/State.antt =====
-- The state of the page: `pool_data`, the document and the requests under way.
use lens.Prelude.{[], ℕ, String, Bool, Option, List}
use lens.Js.Value.{Value, undefined, str, arr, no_items}
use lens.Ui.Node.{Node}

-- An access key as the UI shows it.
pub record Key : Type 0 where
  pub access_key : Value
  pub secret_key : Value
  pub expiration_time : String

pub record PoolData : Type 0 where
  pub owner : Value
  pub group_choices : Value
  pub x_csrf_token : Value
  pub pool_name : Value
  pub buckets_directory : Value
  pub pool_desc_list : Value
  pub bucket_list : Value
  pub secrets_rw : List Key
  pub secrets_ro : List Key
  pub secrets_wo : List Key
  pub response_status : Value
  pub response_reason : Value
  pub response_time : String
  pub response_message : Value

-- The value of `pool_data` before anything runs; `response_message` is missing in it.
abbrev pub initial_pool_data : PoolData
initial_pool_data = record {
  owner = str "";
  group_choices = arr no_items;
  x_csrf_token = str "";
  pool_name = str "";
  buckets_directory = str "";
  pool_desc_list = arr no_items;
  bucket_list = arr no_items;
  secrets_rw = [];
  secrets_ro = [];
  secrets_wo = [];
  response_status = str "";
  response_reason = str "";
  response_time = "";
  response_message = undefined;
}

-- The elements of index.html with the ids that the code uses: of a section, whether it is displayed;
-- of an input, its value; of a place for a list, its children. `group_value` is the value of the
-- element `group_choices`.
pub record Dom : Type 0 where
  pub pool_make_section : Bool
  pub pool_list_section : Bool
  pub buckets_section : Bool
  pub secrets_section : Bool
  pub pool_directory : String
  pub pool_owner : String
  pub group_choices : Node
  pub group_value : String
  pub buckets_directory : String
  pub bucket_name : String
  pub bucket_policy : String
  pub secret_expiration : String
  pub list_of_pools : List Node
  pub list_of_buckets : List Node
  pub list_of_secrets_rw : List Node
  pub list_of_secrets_ro : List Node
  pub list_of_secrets_wo : List Node
  pub server_response : List Node

-- The arguments of a `fetch`.
pub record Request : Type 0 where
  pub method : String
  pub path : String
  pub body : Option String
  pub headers : List (String × String)

-- The functions that are passed to `submit_request` as `process_response`.
pub data Handler : Type 0 where
  set_user_info set_pool_list set_pool list_pools : Handler

-- A request that has no response yet.
pub record Pending : Type 0 where
  pub msg : String
  pub request : Request
  pub handler : Handler

-- `clock` is the time of `Date.now()`, in milliseconds from 1970.
pub record App : Type 0 where
  pub pool_data : PoolData
  pub dom : Dom
  pub network : List Pending
  pub clipboard : String
  pub clock : ℕ
  pub base_path_ : String
