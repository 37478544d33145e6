-- ===== src/VueV1/Whole.antt =====
-- The time of the date picker, through all events.
use lens.Prelude.{List, String, ◌%◌, ◌≡◌, Bool, true, false, Option, some, none}
use lens.Js.Value.{Value}
use lens.Vue.State.{Client, Handler, list_pools, Pending}
use lens.Vue.Code.{update}
use lens.Vue.Code.Keeps.{Keeps}
use lens.Vue.Quiet.{IsSteady, user-Keeps, client_rules}
use lens.Vue.Client.{
  submit_request, call, api_get_user_info, api_list_pools, api_make_pool, api_delete_pool,
  api_make_bucket, api_delete_bucket, api_make_secret, api_delete_secret, edit_pool,
}
use lens.Vue.Actions.{
  create_pool_make, kick_make_pool, kick_edit_pool, kick_delete_pool, kick_make_bucket,
  kick_delete_bucket, kick_make_secret, kick_delete_secret, kick_copy_to_clipboard, close_dialog,
  show_reason, kick_copy_url_to_clipboard, close_menu, process, receive, answer, respond, Entry,
  enter, Event, handle,
}

-- The time of the date picker is in whole seconds.
pub record IsWhole (s : Client) : Type 0 where
  pub whole : s.pool_data.key_expiration_time % 1000 ≡ 0

-- The times that are picked are in whole seconds.
abbrev pub PicksWhole : Event → Type 0
PicksWhole (Event.input (Entry.key_expiration_time ms)) = ms % 1000 ≡ 0
PicksWhole _ = Unit

IsWhole-IsSteady : IsSteady IsWhole
IsWhole-IsSteady = record { on_update = λ f k s h. rw (k s) (record { whole = h.whole }) }

network-IsWhole :
    (f : Client → List Pending) → Keeps IsWhole (update (λ s. record s { network = f s }))
unfolding update
network-IsWhole f = record { leaves = λ s h. record { whole = h.whole } }

token-IsWhole : (t : Value) → Keeps IsWhole (update (λ s. record s { x_csrf_token = t }))
unfolding update
token-IsWhole t = record { leaves = λ s h. record { whole = h.whole } }

call-IsWhole :
    (op method rest : String) (body : Option String) (h : Handler)
    → Keeps IsWhole (call op method rest body h)
unfolding call submit_request
call-IsWhole op method rest body h =
    search (client_rules, IsWhole-IsSteady, network-IsWhole) depth 12

ruleset whole_rules = (client_rules, IsWhole-IsSteady, network-IsWhole, call-IsWhole)

list-IsWhole : Keeps IsWhole api_list_pools
unfolding api_list_pools
list-IsWhole = search whole_rules

process-IsWhole : (h : Handler) (v : Value) → Keeps IsWhole (process h v)
unfolding process
process-IsWhole Handler.set_user_info_data v =
    user-Keeps IsWhole-IsSteady token-IsWhole list-IsWhole v
process-IsWhole Handler.set_pool_list v = search whole_rules
process-IsWhole Handler.set_pool_data v = search whole_rules
process-IsWhole list_pools v = list-IsWhole

answer-IsWhole :
    (p : Option Pending) (is_ok : Bool) (json : Option Value) → Keeps IsWhole (answer p is_ok json)
unfolding receive
answer-IsWhole none is_ok json = search whole_rules
answer-IsWhole (some p) is_ok none = search whole_rules
answer-IsWhole (some p) true (some v) = process-IsWhole p.handler v
answer-IsWhole (some p) false (some v) = search whole_rules

enter-IsWhole :
    (e : Entry)
    → PicksWhole (Event.input e)
    → (s : Client) → IsWhole s
    → IsWhole (record s { pool_data = enter e s.pool_data })
unfolding enter
enter-IsWhole (Entry.buckets_directory v) k s h = record { whole = h.whole }
enter-IsWhole (Entry.group v) k s h = record { whole = h.whole }
enter-IsWhole (Entry.bucket_name v) k s h = record { whole = h.whole }
enter-IsWhole (Entry.bucket_policy v) k s h = record { whole = h.whole }
enter-IsWhole (Entry.user v) k s h = record { whole = h.whole }
enter-IsWhole (Entry.dialog_text v) k s h = record { whole = h.whole }
enter-IsWhole (Entry.pool_list v) k s h = record { whole = h.whole }
enter-IsWhole (Entry.menu_visible v) k s h = record { whole = h.whole }
enter-IsWhole (Entry.key_expiration_time ms) k s h = record { whole = k }

input-IsWhole : (e : Entry) → PicksWhole (Event.input e) → Keeps IsWhole (handle (Event.input e))
unfolding handle update
input-IsWhole e k = record { leaves = enter-IsWhole e k }

pub handle-IsWhole : (e : Event) → PicksWhole e → Keeps IsWhole (handle e)
unfolding handle create_pool_make api_get_user_info kick_make_pool api_make_pool kick_edit_pool
    edit_pool kick_delete_pool api_delete_pool kick_make_bucket api_make_bucket kick_delete_bucket
    api_delete_bucket kick_make_secret api_make_secret kick_delete_secret api_delete_secret
    kick_copy_to_clipboard close_dialog show_reason kick_copy_url_to_clipboard close_menu respond
handle-IsWhole Event.create k = search whole_rules depth 12
handle-IsWhole Event.make_pool k = search whole_rules depth 12
handle-IsWhole Event.make_bucket k = search whole_rules depth 12
handle-IsWhole Event.close k = search whole_rules depth 12
handle-IsWhole (Event.edit i) k = search whole_rules depth 12
handle-IsWhole (Event.delete_pool i) k = search whole_rules depth 12
handle-IsWhole (Event.make_secret rw_) k = search whole_rules depth 12
handle-IsWhole (Event.delete_bucket name) k = search whole_rules depth 12
handle-IsWhole (Event.delete_secret key) k = search whole_rules depth 12
handle-IsWhole (Event.copy_text v) k = search whole_rules depth 12
handle-IsWhole Event.copy_url k = search whole_rules depth 12
handle-IsWhole Event.leave_menu k = search whole_rules depth 12
handle-IsWhole (Event.reason n v) k = search whole_rules depth 12
handle-IsWhole (Event.input i) k = input-IsWhole i k
handle-IsWhole (Event.response i is_ok json) k = search (whole_rules, answer-IsWhole) depth 12
