-- ===== src/VueV1/Actions.antt =====
-- The methods of the components under v1/ui/src/components, and the event loop.
use lens.Prelude.{ℕ, String, Bool, Option, List, [], ◌∷◌}
use lens.Js.Value.{Value}
use lens.Vue.State.{Client, Handler, Pending}
use lens.Vue.Code.{V, look, left, ◌>>=◌}
use lens.Vue.Actions.{Event, make_secret}
use lens.VueV1.Client.{api_make_secret}

-- PoolMake.vue.
abbrev create_pool_make : V (Unit {0})
create_pool_make = lens.Vue.Actions.create_pool_make

abbrev kick_make_pool : V (Unit {0})
kick_make_pool = lens.Vue.Actions.kick_make_pool

-- PoolList.vue.
abbrev kick_edit_pool : ℕ → V (Unit {0})
kick_edit_pool = lens.Vue.Actions.kick_edit_pool

abbrev kick_delete_pool : ℕ → V (Unit {0})
kick_delete_pool = lens.Vue.Actions.kick_delete_pool

abbrev show_reason : ℕ → Bool → V (Unit {0})
show_reason = lens.Vue.Actions.show_reason

-- PoolEdit.vue.
abbrev kick_make_bucket : V (Unit {0})
kick_make_bucket = lens.Vue.Actions.kick_make_bucket

abbrev kick_delete_bucket : Value → V (Unit {0})
kick_delete_bucket = lens.Vue.Actions.kick_delete_bucket

unfoldable pub kick_make_secret : String → V (Unit {0})
kick_make_secret rw = do pool ← look (λ s. s.pool_data.pool_name); api_make_secret pool rw

abbrev kick_delete_secret : Value → V (Unit {0})
kick_delete_secret = lens.Vue.Actions.kick_delete_secret

abbrev kick_copy_to_clipboard : Value → V (Unit {0})
kick_copy_to_clipboard = lens.Vue.Actions.kick_copy_to_clipboard

-- Alert.vue.
abbrev close_dialog : V (Unit {0})
close_dialog = lens.Vue.Actions.close_dialog

-- About.vue.
abbrev kick_copy_url_to_clipboard : V (Unit {0})
kick_copy_url_to_clipboard = lens.Vue.Actions.kick_copy_url_to_clipboard

abbrev close_menu : V (Unit {0})
close_menu = lens.Vue.Actions.close_menu

-- The functions in lens3c.ts that are hung on a response.
abbrev process : Handler → Value → V (Unit {0})
process = lens.Vue.Actions.process

abbrev show_failure : String → Value → V (Unit {0})
show_failure = lens.Vue.Actions.show_failure

abbrev receive : Pending → Bool → Value → V (Unit {0})
receive = lens.Vue.Actions.receive

abbrev respond : ℕ → Bool → Option Value → V (Unit {0})
respond = lens.Vue.Actions.respond

unfoldable pub handle : Event → V (Unit {0})
handle (make_secret rw) = kick_make_secret rw
handle e = lens.Vue.Actions.handle e

unfoldable pub step : Client → Event → Client
step s e = left (handle e s)

abbrev pub run : Client → List Event → Client
run s [] = s
run s (e ∷ es) = run (step s e) es
