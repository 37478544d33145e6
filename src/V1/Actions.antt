-- ===== src/V1/Actions.antt =====
-- The event loop of v1's lens3ui.js.
use Prim.Native.String.{◌++◌}
use lens.Prelude.{ℕ, String, Bool, Option, none, some, get_elem?, erase_idx, if◌then◌else◌}
use lens.Js.Value.{Value}
use lens.Js.Json.{stringify}
use lens.Ui.Node.{Click}
use lens.Ui.State.{App, Handler, set_user_info, set_pool_list, set_pool, list_pools, Pending}
use lens.Ui.Code.{M, ret, ◌>>=◌, ◌>>◌, read, set_dom, final, set_clock, set_network}
use lens.Ui.Actions.{
  Event, load, show_pool_make, show_pool_list, make_pool, make_bucket, test_csrf, make_secret,
  click, input, response, wait, enter,
}
use lens.Ui.Actions
use lens.V1.Data.{show_message, set_user_info_data, set_pool_list_data, set_pool_data}
use lens.V1.Api.{api_list_pools, api_make_secret}

abbrev start_ui : M (Unit {0})
start_ui = Actions.start_ui

abbrev kick_show_pool_make : M (Unit {0})
kick_show_pool_make = Actions.kick_show_pool_make

abbrev kick_show_pool_list : M (Unit {0})
kick_show_pool_list = Actions.kick_show_pool_list

abbrev kick_make_pool : M (Unit {0})
kick_make_pool = Actions.kick_make_pool

abbrev kick_make_bucket : M (Unit {0})
kick_make_bucket = Actions.kick_make_bucket

abbrev kick_test_csrf : M (Unit {0})
kick_test_csrf = Actions.kick_test_csrf

abbrev kick : Click → M (Unit {0})
kick = Actions.kick

unfoldable pub kick_make_secret : String → M (Unit {0})
kick_make_secret policy = do
  expiry ← read (λ s. s.dom.secret_expiration)
  api_make_secret policy expiry

unfoldable pub process : Handler → Value → M (Unit {0})
process set_user_info data_ = set_user_info_data data_
process set_pool_list data_ = set_pool_list_data data_
process set_pool data_ = set_pool_data data_
process list_pools data_ = api_list_pools

unfoldable pub receive : Pending → Bool → Value → M (Unit {0})
receive p is_ok data_ =
    if is_ok
    then (do
      show_message data_ (p.msg ++ (" ... done: " ++ stringify data_))
      process p.handler data_)
    else show_message data_ (p.msg ++ (" ... error: " ++ stringify data_))

abbrev pub answer : Option Pending → Bool → Option Value → M (Unit {0})
answer none is_ok json = ret tt
answer (some p) is_ok none = ret tt
answer (some p) is_ok (some data_) = receive p is_ok data_

unfoldable pub respond : ℕ → Bool → Option Value → M (Unit {0})
respond i is_ok json = do
  network ← read (λ s. s.network)
  set_network (erase_idx network i)
  answer (get_elem? network i) is_ok json

unfoldable pub handle : Event → M (Unit {0})
handle load = start_ui
handle show_pool_make = kick_show_pool_make
handle show_pool_list = kick_show_pool_list
handle make_pool = kick_make_pool
handle make_bucket = kick_make_bucket
handle test_csrf = kick_test_csrf
handle (make_secret policy) = kick_make_secret policy
handle (click c) = kick c
handle (input i v) = set_dom (enter i v)
handle (response i is_ok json) = respond i is_ok json
handle (wait n) = set_clock n

unfoldable pub step : App → Event → App
step s e = final (handle e s)
