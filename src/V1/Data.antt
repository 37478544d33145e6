-- ===== src/V1/Data.antt =====
-- What v1's lens3ui.js does with the data of responses. The text of a function is that of v2 but for
-- the label of the state of a pool.
use Prim.Native.String.{◌++◌}
use lens.Prelude.{String, true, false, Option, List, [], ◌∷◌}
use lens.Js.Value.{Value, str, to_text, array, elements}
use lens.Ui.State.{PoolData, Key}
use lens.Ui.Code.{M, type_error, ◌>>=◌, ◌>>◌, ret, or_throw, prop, set_data, each}
use lens.Ui.Render.{Row, row}
use lens.Ui.Data.{names_with_policy, time_shown}
use lens.Ui.State
use lens.Ui.Data
use lens.Ui.Times
use lens.V1.Render.{display_pool_list, display_pool_edit, render_pool_list}

abbrev initial_pool_data : PoolData
initial_pool_data = State.initial_pool_data

abbrev format_time_z : Value → Option String
format_time_z = Times.format_time_z

abbrev format_time_in_keys : List Value → M (List Key)
format_time_in_keys = Data.format_time_in_keys

abbrev copy_user_info_for_edit : Value → M (Unit {0})
copy_user_info_for_edit = Data.copy_user_info_for_edit

abbrev copy_pool_data_for_edit : Value → M (Unit {0})
copy_pool_data_for_edit = Data.copy_pool_data_for_edit

abbrev pub show_message : Value → String → M (Unit {0})
show_message = Data.show_message

abbrev pub set_user_info_data : Value → M (Unit {0})
set_user_info_data = Data.set_user_info_data

abbrev pub set_pool_data : Value → M (Unit {0})
set_pool_data = Data.set_pool_data

unfoldable pub make_pool_entry_for_printing : Value → M (List Row)
make_pool_entry_for_printing desc = do
  buckets ← prop desc "buckets"
  bkts ← or_throw type_error (array buckets)
  bkts_none ← names_with_policy "none" bkts
  bkts_upload ← names_with_policy "upload" bkts
  bkts_download ← names_with_policy "download" bkts
  bkts_public ← names_with_policy "public" bkts
  directory ← prop desc "buckets_directory"
  owner ← prop desc "owner_uid"
  group ← prop desc "owner_gid"
  pool ← prop desc "pool_name"
  state ← prop desc "minio_state"
  reason ← prop desc "minio_reason"
  expiration ← prop desc "expiration_time"
  expiration_date ← time_shown expiration
  enabled ← prop desc "user_enabled_status"
  online ← prop desc "online_status"
  creation ← prop desc "modification_time"
  creation_date ← time_shown creation
  ret (
      row "Buckets directory" directory
      ∷ row "Unix user" owner
      ∷ row "Unix group" group
      ∷ row "Private buckets" bkts_none
      ∷ row "Public buckets" bkts_public
      ∷ row "Public download buckets" bkts_download
      ∷ row "Public upload buckets" bkts_upload
      ∷ row "Pool-ID" pool
      ∷ row "MinIO state" (str (to_text state ++ (" (reason: " ++ (to_text reason ++ ")"))))
      ∷ row "Expiration date" (str expiration_date)
      ∷ row "User enabled" enabled
      ∷ row "Pool online" online
      ∷ row "Creation date" (str creation_date)
      ∷ [])

unfoldable pub set_pool_list_data : Value → M (Unit {0})
set_pool_list_data response = do
  pool_desc_list ← prop response "pool_list"
  set_data (λ p. record p { pool_desc_list = pool_desc_list })
  descs ← or_throw type_error (elements pool_desc_list)
  pool_li_items ← each make_pool_entry_for_printing descs
  render_pool_list pool_li_items
  display_pool_list true
  display_pool_edit false
