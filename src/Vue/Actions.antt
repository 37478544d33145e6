-- ===== src/Vue/Actions.antt =====
-- The methods of the components, the arrival of responses, and what the user enters.
use Prim.Native.String.{◌++◌}
use lens.Prelude.{
  ℕ, String, Bool, true, false, Option, none, some, List, get_elem?, erase_idx, if◌then◌else◌,
}
use lens.Js.Value.{Value, str, bool, obj, no_fields, field, index, to_text}
use lens.Js.Assign.{set_at}
use lens.Js.Json.{stringify}
use lens.Ui.Code.{type_error}
use lens.Vue.State.{PoolData, Handler, list_pools, Pending, Client}
use lens.Vue.Code.{V, give, or_fail, look, update, put_data, ◌>>=◌, ◌>>◌, prop, left}
use lens.Vue.Client.{
  api_get_user_info, api_list_pools, api_make_pool, api_delete_pool, api_make_bucket,
  api_delete_bucket, api_make_secret, api_delete_secret, set_user_info_data, set_pool_list,
  set_pool_data, edit_pool,
}

-- PoolMake: its `data` function and its method.
unfoldable pub create_pool_make : V (Unit {0})
create_pool_make = api_get_user_info

unfoldable pub kick_make_pool : V (Unit {0})
kick_make_pool = api_make_pool

-- PoolList.
unfoldable pub kick_edit_pool : ℕ → V (Unit {0})
kick_edit_pool i = edit_pool i

unfoldable pub kick_delete_pool : ℕ → V (Unit {0})
kick_delete_pool i = do
  pools ← look (λ s. s.pool_data.pool_list)
  d ← or_fail type_error (index pools i)
  pool ← prop d "pool_name"
  api_delete_pool pool

-- PoolEdit.
unfoldable pub kick_make_bucket : V (Unit {0})
kick_make_bucket = do
  pool ← look (λ s. s.pool_data.pool_name)
  name ← look (λ s. s.pool_data.bucket_name)
  policy ← look (λ s. s.pool_data.bucket_policy)
  api_make_bucket pool name policy

unfoldable pub kick_delete_bucket : Value → V (Unit {0})
kick_delete_bucket name = do pool ← look (λ s. s.pool_data.pool_name); api_delete_bucket pool name

unfoldable pub kick_make_secret : String → V (Unit {0})
kick_make_secret rw = do pool ← look (λ s. s.pool_data.pool_name); api_make_secret pool rw

unfoldable pub kick_delete_secret : Value → V (Unit {0})
kick_delete_secret key = do pool ← look (λ s. s.pool_data.pool_name); api_delete_secret pool key

unfoldable pub kick_copy_to_clipboard : Value → V (Unit {0})
kick_copy_to_clipboard v = update (λ s. record s { clipboard = to_text v })

-- The dialog with the reason of a pool's state, in PoolList: it is opened and closed by a property of the
-- description of the pool.
unfoldable pub show_reason : ℕ → Bool → V (Unit {0})
show_reason n v = do
  pools ← look (λ s. s.pool_data.pool_list)
  pools' ← or_fail type_error (set_at n "dialog" (bool v) pools)
  put_data (λ p. record p { pool_list = pools' })

-- AlertPopup.
unfoldable pub close_dialog : V (Unit {0})
close_dialog = put_data (λ p. record p { dialog_visible = false })

-- AboutMenu.
unfoldable pub kick_copy_url_to_clipboard : V (Unit {0})
kick_copy_url_to_clipboard = do
  url ← look (λ s. s.pool_data.s3_url)
  update (λ s. record s { clipboard = to_text url })

unfoldable pub close_menu : V (Unit {0})
close_menu = put_data (λ p. record p { menu_visible = false })

-- The argument `process_response` of a request, called with the data of the response.
unfoldable pub process : Handler → Value → V (Unit {0})
process Handler.set_user_info_data data_ = set_user_info_data data_
process Handler.set_pool_list data_ = set_pool_list data_
process Handler.set_pool_data data_ = set_pool_data data_
process list_pools data_ = api_list_pools

-- The branch of a response without success. It ends by an exception, which nothing catches.
unfoldable pub show_failure : String → Value → V (Unit {0})
show_failure op_name data_ = do
  status ← prop data_ "status"
  reason ← prop data_ "reason"
  let slots = obj (field "status" status (field "reason" reason no_fields))
  put_data (λ p. record p {
    dialog_text = op_name ++ (" failed: " ++ stringify slots);
    dialog_visible = true;
  })

unfoldable pub receive : Pending → Bool → Value → V (Unit {0})
receive p is_ok data_ = if is_ok then process p.handler data_ else show_failure p.op_name data_

-- A response to the request at place `i`. Without data, the request failed or its body is no JSON.
abbrev pub answer : Option Pending → Bool → Option Value → V (Unit {0})
answer none is_ok json = give tt
answer (some p) is_ok none = give tt
answer (some p) is_ok (some data_) = receive p is_ok data_

unfoldable pub respond : ℕ → Bool → Option Value → V (Unit {0})
respond i is_ok json = do
  network ← look (λ s. s.network)
  update (λ s. record s { network = erase_idx network i })
  answer (get_elem? network i) is_ok json

-- What the components assign to `pool_data` when the user enters something (`onUpdate:modelValue`): texts,
-- the day of the date picker, the choice in the slider of pools, and whether the menu is open.
pub data Entry : Type 0 where
  buckets_directory user group bucket_name bucket_policy dialog_text : String → Entry
  key_expiration_time : ℕ → Entry
  pool_list : Value → Entry
  menu_visible : Bool → Entry

unfoldable pub enter : Entry → PoolData → PoolData
enter (Entry.buckets_directory v) p = record p { buckets_directory = str v }
enter (Entry.group v) p = record p { group = str v }
enter (Entry.bucket_name v) p = record p { bucket_name = str v }
enter (Entry.bucket_policy v) p = record p { bucket_policy = str v }
enter (Entry.user v) p = record p { user = str v }
enter (Entry.dialog_text v) p = record p { dialog_text = v }
enter (Entry.pool_list v) p = record p { pool_list = v }
enter (Entry.menu_visible v) p = record p { menu_visible = v }
enter (Entry.key_expiration_time ms) p = record p { key_expiration_time = ms }

pub data Event : Type 0 where
  create make_pool make_bucket close copy_url leave_menu : Event
  edit delete_pool : ℕ → Event
  make_secret : String → Event
  delete_bucket delete_secret copy_text : Value → Event
  reason : ℕ → Bool → Event
  input : Entry → Event
  response : ℕ → Bool → Option Value → Event

unfoldable pub handle : Event → V (Unit {0})
handle create = create_pool_make
handle make_pool = kick_make_pool
handle make_bucket = kick_make_bucket
handle close = close_dialog
handle (edit i) = kick_edit_pool i
handle (delete_pool i) = kick_delete_pool i
handle (make_secret rw) = kick_make_secret rw
handle (delete_bucket name) = kick_delete_bucket name
handle (delete_secret key) = kick_delete_secret key
handle (copy_text v) = kick_copy_to_clipboard v
handle copy_url = kick_copy_url_to_clipboard
handle leave_menu = close_menu
handle (reason n v) = show_reason n v
handle (input i) = put_data (enter i)
handle (response i is_ok json) = respond i is_ok json

-- An exception ends the handler of an event and not the client.
unfoldable pub step : Client → Event → Client
step s e = left (handle e s)

abbrev pub run : Client → List Event → Client
run s List.[] = s
run s (List.◌∷◌ e es) = run (step s e) es
