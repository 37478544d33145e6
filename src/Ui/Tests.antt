-- ===== src/Ui/Tests.antt =====
-- Runs of lens3ui.js on sample data.
mod Witnesses
mod Endings
mod Tokens
use lens.Prelude.{some, arith, map, String, true, false, some, List, [], ◌∷◌, ◌≡◌, refl, length}
use lens.Js.Value.{
  Value, num, str, obj, arr, no_fields, field, items, get, index, iterate, elements, array, truthy,
  to_text, join, loosely, to_number,
}
use lens.Js.Json.{stringify}
use lens.Ui.State.{initial_pool_data, Dom, App}
use lens.Ui.Node.{edit_pool, leaf, element, children, clicks, list_clicks}
use lens.Js.Date.{time_value, iso_text, take_chars}
use lens.Js.Number.{decimal}
use lens.Ui.Times.{time_text, parse_time_z, format_time_z, date_input, dump_times}
use lens.Ui.Code.{◌>>=◌, each, filter_by}
use lens.Ui.Render.{
  display_pool_list, display_pool_edit, display_pool_make, dom_value, option_node, first_text,
  render_user_info, render_secret_expiration_default, row_node, pool_node, pool_nodes,
  render_pool_list, bucket_row, bucket_node, render_bucket_list, secret_node,
  render_secret_list_by_policy, render_secret_list, render_buckets_directory, render_response,
}
use lens.Ui.Data.{
  show_data, show_message, has_text, names_with_policy, make_pool_entry_for_printing,
  copy_user_info_for_edit, key_shown, format_time_in_keys, copy_pool_data_for_edit,
  set_user_info_data, set_pool_list_data, set_pool_data,
}
use lens.Ui.Api.{
  request_headers, submit_request, api_call, pool_call, no_args, api_get_user_info, api_list_pools,
  api_make_pool, api_delete_pool, run_edit_pool, api_make_bucket, api_delete_bucket, secret_args,
  api_make_secret, api_delete_secret,
}
use lens.Ui.Actions.{
  Event, load, show_pool_list, response, click, start_ui, kick_show_pool_make, kick_show_pool_list,
  kick_make_pool, kick_make_bucket, kick_make_secret, copy_to_clipboard, kick, kick_test_csrf,
  process, receive, respond, enter, handle, step, run,
}
use lens.Ui.Quiet.{sections}
use lens.Ui.Spec.{IsTimely, Bucket, Secret, Desc, desc_value}

date_tests :
    (parse_time_z "2023-06-14T15:15:15.000Z" ≡ "1686755715")
    × (format_time_z (str "1686755715") ≡ some "2023-06-14T15:15:15Z")
    × (parse_time_z "2024-02-29" ≡ "1709164800")
    × (parse_time_z "2023-02-29" ≡ "NaN")
    × (parse_time_z "1969-12-31" ≡ "-86400")
    × (format_time_z (num 253402300800) ≡ some "+010000-01-01T00:00Z")
    × (dump_times ≡ ("1686755715", some "2023-06-14T15:15:15Z"))
unfolding dump_times parse_time_z format_time_z time_value iso_text take_chars time_text loosely
    to_number decimal
date_tests = (refl, refl, refl, refl, refl, refl, refl)

abbrev empty_dom : Dom
empty_dom = record {
  pool_make_section = true;
  pool_list_section = true;
  buckets_section = true;
  secrets_section = true;
  pool_directory = "";
  pool_owner = "";
  group_choices = element "select" [] leaf;
  group_value = "";
  buckets_directory = "";
  bucket_name = "";
  bucket_policy = "none";
  secret_expiration = "";
  list_of_pools = [];
  list_of_buckets = [];
  list_of_secrets_rw = [];
  list_of_secrets_ro = [];
  list_of_secrets_wo = [];
  server_response = [];
}

abbrev pub page : App
page = record {
  pool_data = initial_pool_data;
  dom = empty_dom;
  network = [];
  clipboard = "";
  clock = 1686755715000;
  base_path_ = "/lens3.sts";
}

abbrev pub public_bucket : Bucket
public_bucket = record {
  pool = "p1";
  name = "b2";
  bkt_policy = "public";
  modification_time = 1686755715;
}

abbrev pub write_key : Secret
write_key = record {
  owner = "p1";
  access_key = "k1";
  secret_key = "s1";
  key_policy = "readwrite";
  expiration_time = 1709164800;
  modification_time = 1686755715;
}

abbrev pub read_key : Secret
read_key = record {
  owner = "p1";
  access_key = "k2";
  secret_key = "s2";
  key_policy = "readonly";
  expiration_time = 0;
  modification_time = 1686755715;
}

abbrev pub pool : Desc
pool = record {
  pool_name = "p1";
  buckets_directory = "/home/u/pool";
  owner_uid = "u";
  owner_gid = "g";
  buckets =
      record { pool = "p1"; name = "b1"; bkt_policy = "none"; modification_time = 1686755715 }
      ∷ public_bucket
      ∷ [];
  secrets = read_key ∷ write_key ∷ [];
  probe_key = "k0";
  expiration_time = 1709164800;
  online_status = true;
  user_enabled_status = true;
  minio_state = "ready";
  minio_reason = "-";
  modification_time = 1686755715;
}

abbrev pub pool_response : Value
pool_response = obj (
    field "status" (str "success")
      (field "time" (num 1686755715) (field "pool_desc" (desc_value pool) no_fields)))

abbrev pub list_response : Value
list_response = obj (field "pool_list" (arr (items (map desc_value (pool ∷ [])))) no_fields)

abbrev session : List Event
session = load ∷ show_pool_list ∷ response 1 true (some list_response) ∷ click (edit_pool 0) ∷ []

pub pool-IsTimely : IsTimely pool
pool-IsTimely = ((omega arith, (omega arith, tt)), omega arith, omega arith)

pub pool_response-pool_desc : get pool_response "pool_desc" ≡ some (desc_value pool)
unfolding get
pool_response-pool_desc = refl

-- All of the code, for tests by evaluation.
unfoldable pub ui : Unit {0}
unfolding step items get index iterate elements array truthy to_text join loosely to_number
    stringify parse_time_z format_time_z time_value iso_text take_chars time_text decimal date_input
    ◌>>=◌ each filter_by children clicks list_clicks display_pool_list display_pool_edit
    display_pool_make dom_value option_node first_text render_user_info
    render_secret_expiration_default row_node pool_node pool_nodes render_pool_list bucket_row
    bucket_node render_bucket_list secret_node render_secret_list_by_policy render_secret_list
    render_buckets_directory render_response show_data show_message has_text names_with_policy
    make_pool_entry_for_printing copy_user_info_for_edit key_shown format_time_in_keys
    copy_pool_data_for_edit set_user_info_data set_pool_list_data set_pool_data request_headers
    submit_request api_call pool_call no_args api_get_user_info api_list_pools api_make_pool
    api_delete_pool run_edit_pool api_make_bucket api_delete_bucket secret_args api_make_secret
    api_delete_secret start_ui kick_show_pool_make kick_show_pool_list kick_make_pool
    kick_make_bucket kick_make_secret copy_to_clipboard kick kick_test_csrf process receive respond
    enter handle
ui = tt

session_tests :
    (length (run page session).network ≡ 1)
    × (sections (run page session).dom
        ≡ record { make = false; list = false; buckets = true; secrets = true })
unfolding ui
session_tests = (refl, refl)
