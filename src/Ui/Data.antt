-- ===== src/Ui/Data.antt =====
-- What lens3ui.js does with the data of responses: `show_message`, the `set_*_data` functions and what
-- they call. The global variable `desc`, which nothing else reads, is a local one here.
use Prim.Native.String.{◌++◌}
use lens.Prelude.{String, Bool, true, false, List, [], ◌∷◌, if◌then◌else◌}
use lens.Js.Value.{Value, str, truthy, loosely, to_text, array, elements, join}
use lens.Ui.State.{Key}
use lens.Ui.Code.{
  M, type_error, range_error, ◌>>=◌, ◌>>◌, ret, or_throw, prop, set_data, each, filter_by,
}
use lens.Ui.Times.{format_time_z}
use lens.Ui.Render.{
  Row, row, display_pool_list, display_pool_edit, render_user_info, render_pool_list,
  render_bucket_list, render_secret_list, render_buckets_directory, render_response,
}

abbrev pub time_shown : Value → M String
time_shown d = or_throw range_error (format_time_z d)

-- `data["time"]` is shown if there is one.
abbrev response_time_of : Value → M String
response_time_of t = if truthy t then time_shown t else ret ""

-- The branch of `show_message` on a response.
unfoldable pub show_data : Value → M (Unit {0})
show_data response = do
  status ← prop response "status"
  set_data (λ p. record p { response_status = status })
  reason ← prop response "reason"
  set_data (λ p. record p { response_reason = reason })
  time ← prop response "time"
  shown ← response_time_of time
  set_data (λ p. record p { response_time = shown })
  token ← prop response "x_csrf_token"
  if truthy token then set_data (λ p. record p { x_csrf_token = token }) else ret tt

-- The branch of `show_message` on `null`.
abbrev clear_data : M (Unit {0})
clear_data =
    set_data
      (λ p. record p { response_status = str ""; response_reason = str ""; response_time = "0" })

unfoldable pub show_message : Value → String → M (Unit {0})
show_message response s = do
  set_data (λ p. record p { response_message = str s })
  if truthy response then show_data response else clear_data
  render_response

-- The tests of the filters, `d["bkt_policy"] == …` and `d["key_policy"] == …`.
unfoldable pub has_text : String → String → Value → M Bool
has_text k t d = prop d k >>= λ v. ret (loosely v t)

-- The names of the buckets with a policy, with spaces between.
unfoldable pub names_with_policy : String → List Value → M Value
names_with_policy policy bkts = do
  found ← filter_by (has_text "bkt_policy" policy) bkts
  names ← each (λ d. prop d "name") found
  ret (str (join " " names))

unfoldable pub make_pool_entry_for_printing : Value → M (List Row)
make_pool_entry_for_printing desc = do
  buckets ← prop desc "buckets"
  bkts ← or_throw type_error (array buckets)
  bkts_none ← names_with_policy "none" bkts
  bkts_upload ← names_with_policy "upload" bkts
  bkts_download ← names_with_policy "download" bkts
  bkts_public ← names_with_policy "public" bkts
  directory ← prop desc "buckets_directory"
  owner ← prop desc "owner_uid"
  group ← prop desc "owner_gid"
  pool ← prop desc "pool_name"
  state ← prop desc "minio_state"
  reason ← prop desc "minio_reason"
  expiration ← prop desc "expiration_time"
  expiration_date ← time_shown expiration
  enabled ← prop desc "user_enabled_status"
  online ← prop desc "online_status"
  creation ← prop desc "modification_time"
  creation_date ← time_shown creation
  ret (
      row "Buckets directory" directory
      ∷ row "Unix user" owner
      ∷ row "Unix group" group
      ∷ row "Private buckets" bkts_none
      ∷ row "Public buckets" bkts_public
      ∷ row "Public download buckets" bkts_download
      ∷ row "Public upload buckets" bkts_upload
      ∷ row "Pool-ID" pool
      ∷ row "Backend state" (str (to_text state ++ (" (reason: " ++ (to_text reason ++ ")"))))
      ∷ row "Expiration date" (str expiration_date)
      ∷ row "User enabled" enabled
      ∷ row "Pool online" online
      ∷ row "Creation date" (str creation_date)
      ∷ [])

unfoldable pub copy_user_info_for_edit : Value → M (Unit {0})
copy_user_info_for_edit u = do
  owner ← prop u "uid"
  set_data (λ p. record p { owner = owner })
  groups ← prop u "groups"
  set_data (λ p. record p { group_choices = groups })
  render_user_info

unfoldable pub key_shown : Value → M Key
key_shown k = do
  access_key ← prop k "access_key"
  secret_key ← prop k "secret_key"
  expiration ← prop k "expiration_time"
  shown ← time_shown expiration
  ret (record { access_key = access_key; secret_key = secret_key; expiration_time = shown })

unfoldable pub format_time_in_keys : List Value → M (List Key)
format_time_in_keys keys = each key_shown keys

unfoldable pub copy_pool_data_for_edit : Value → M (Unit {0})
copy_pool_data_for_edit desc = do
  name ← prop desc "pool_name"
  set_data (λ p. record p { pool_name = name })
  directory ← prop desc "buckets_directory"
  set_data (λ p. record p { buckets_directory = directory })
  owner ← prop desc "owner_uid"
  set_data (λ p. record p { owner = owner })
  groups ← prop desc "groups"
  set_data (λ p. record p { group_choices = groups })
  buckets ← prop desc "buckets"
  set_data (λ p. record p { bucket_list = buckets })
  secrets ← prop desc "secrets"
  keys ← or_throw type_error (array secrets)
  rw_keys ← filter_by (has_text "key_policy" "readwrite") keys
  ro_keys ← filter_by (has_text "key_policy" "readonly") keys
  wo_keys ← filter_by (has_text "key_policy" "writeonly") keys
  rw_shown ← format_time_in_keys rw_keys
  set_data (λ p. record p { secrets_rw = rw_shown })
  ro_shown ← format_time_in_keys ro_keys
  set_data (λ p. record p { secrets_ro = ro_shown })
  wo_shown ← format_time_in_keys wo_keys
  set_data (λ p. record p { secrets_wo = wo_shown })
  render_buckets_directory

-- The assertions of the console change nothing, but their arguments are evaluated.
unfoldable pub set_user_info_data : Value → M (Unit {0})
set_user_info_data response = do
  u ← prop response "user_info"
  version ← prop u "api_version"
  copy_user_info_for_edit u
  display_pool_list false
  display_pool_edit false

unfoldable pub set_pool_list_data : Value → M (Unit {0})
set_pool_list_data response = do
  pool_desc_list ← prop response "pool_list"
  set_data (λ p. record p { pool_desc_list = pool_desc_list })
  descs ← or_throw type_error (elements pool_desc_list)
  pool_li_items ← each make_pool_entry_for_printing descs
  render_pool_list pool_li_items
  display_pool_list true
  display_pool_edit false

unfoldable pub set_pool_data : Value → M (Unit {0})
set_pool_data response = do
  desc ← prop response "pool_desc"
  copy_pool_data_for_edit desc
  render_bucket_list
  render_secret_list
  display_pool_list false
  display_pool_edit true
