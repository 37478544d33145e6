-- ===== src/Ui/Views/Exclusive.antt =====
-- The pool list and the editor of lens3ui.js, through all events of the page.
use lens.Ui.Quiet.{Sections, sections, set_dom-Still, Quiet-IsStill}
use lens.Ui.Views.{On, sections_rules, On-IsQuiet, call-On}
use lens.Prelude.{Bool, false, String, ◌≡◌, refl, List, ◌∷◌, [], ◌&&◌, Option, none, some}
use lens.Js.Value.{Value}
use lens.Ui.State.{App, Dom, Pending, Handler, set_user_info, set_pool_list, set_pool, list_pools}
use lens.Ui.Node.{Click, edit_pool, delete_pool, delete_bucket, delete_secret, copy_text}
use lens.Ui.Code.{M, set_dom, ◌>>=◌, ◌>>◌}
use lens.Ui.Code.Keeps.{Keeps}
use lens.Ui.Render.{
  render_pool_list, render_secret_expiration_default, display_pool_list, display_pool_edit,
  display_pool_make,
}
use lens.Ui.Data.{set_user_info_data, set_pool_list_data, set_pool_data}
use lens.Ui.Api.{
  api_get_user_info, api_list_pools, api_make_pool, api_delete_pool, run_edit_pool, api_make_bucket,
  api_delete_bucket, api_make_secret, api_delete_secret,
}
use lens.Ui.Actions.{
  Event, start_ui, kick_show_pool_make, kick_show_pool_list, kick_make_pool, kick_make_bucket,
  kick_make_secret, copy_to_clipboard, kick, kick_test_csrf, process, receive, answer, respond,
  Input, enter, handle, step, run, load,
}

-- The pool list and the editor are not displayed together, and the two parts of the editor are.
pub record IsOneView (v : Sections) : Type 0 where
  pub apart : v.list && v.buckets ≡ false
  pub together : v.buckets ≡ v.secrets

make-IsOneView : (m : Bool) → Keeps (On IsOneView) (display_pool_make m)
unfolding display_pool_make set_dom
make-IsOneView m = record {
  leaves = λ s h. record { holds = record { apart = h.holds.apart; together = h.holds.together } };
}

switch-IsOneView :
    (l e : Bool)
    → l && e ≡ false
    → Keeps (On IsOneView) (display_pool_list l >> display_pool_edit e)
unfolding display_pool_list display_pool_edit ◌>>=◌
switch-IsOneView l e h = record {
  leaves = λ s k. record { holds = record { apart = h; together = refl } };
}

-- The same with code behind it.
switch-then-IsOneView :
    (l e : Bool) (m : M (Unit {0}))
    → l && e ≡ false
    → Keeps (On IsOneView) m
    → Keeps (On IsOneView) (display_pool_list l >> (display_pool_edit e >> m))
unfolding display_pool_list display_pool_edit ◌>>=◌
switch-then-IsOneView l e m h k = record {
  leaves = λ s _. k.leaves _ (record { holds = record { apart = h; together = refl } });
}

ruleset view_rules = (sections_rules, make-IsOneView, switch-IsOneView, switch-then-IsOneView)

process-IsOneView : (h : Handler) (response : Value) → Keeps (On IsOneView) (process h response)
unfolding process set_user_info_data set_pool_list_data set_pool_data api_list_pools
    render_pool_list
process-IsOneView set_user_info response = search view_rules depth 20
process-IsOneView set_pool_list response = search view_rules depth 20
process-IsOneView set_pool response = search view_rules depth 20
process-IsOneView list_pools response = search view_rules depth 20

receive-IsOneView :
    (p : Pending) (is_ok : Bool) (response : Value)
    → Keeps (On IsOneView) (receive p is_ok response)
unfolding receive
receive-IsOneView p is_ok response = search (view_rules, process-IsOneView) depth 12

answer-IsOneView :
    (p : Option Pending) (is_ok : Bool) (json : Option Value)
    → Keeps (On IsOneView) (answer p is_ok json)
answer-IsOneView none is_ok json = search view_rules
answer-IsOneView (some p) is_ok none = search view_rules
answer-IsOneView (some p) is_ok (some response) = receive-IsOneView p is_ok response

kick-IsOneView : (c : Click) → Keeps (On IsOneView) (kick c)
unfolding kick run_edit_pool api_delete_pool api_delete_bucket api_delete_secret copy_to_clipboard
    render_secret_expiration_default set_pool_data
kick-IsOneView (edit_pool p) = search view_rules depth 20
kick-IsOneView (delete_pool p) = search view_rules depth 20
kick-IsOneView (delete_bucket name) = search view_rules depth 20
kick-IsOneView (delete_secret key) = search view_rules depth 20
kick-IsOneView (copy_text key) = search view_rules depth 20

enter-sections : (i : Input) (v : String) (d : Dom) → sections (enter i v d) ≡ sections d
unfolding enter
enter-sections Input.pool_directory v d = refl
enter-sections Input.group_choices v d = refl
enter-sections Input.bucket_name v d = refl
enter-sections Input.bucket_policy v d = refl
enter-sections Input.secret_expiration v d = refl

handle-IsOneView : (e : Event) → Keeps (On IsOneView) (handle e)
unfolding handle start_ui kick_show_pool_make kick_show_pool_list kick_make_pool kick_make_bucket
    kick_make_secret kick_test_csrf api_get_user_info api_list_pools api_make_pool api_make_bucket
    api_make_secret respond
handle-IsOneView Event.load = search view_rules depth 20
handle-IsOneView Event.show_pool_make = search view_rules depth 20
handle-IsOneView Event.show_pool_list = search view_rules depth 20
handle-IsOneView Event.make_pool = search view_rules depth 20
handle-IsOneView Event.make_bucket = search view_rules depth 20
handle-IsOneView Event.test_csrf = search view_rules depth 20
handle-IsOneView (Event.make_secret policy) = search view_rules depth 20
handle-IsOneView (Event.click c) = kick-IsOneView c
handle-IsOneView (Event.input i v) =
    set_dom-Still (Quiet-IsStill On-IsQuiet) (enter i v) (enter-sections i v)
handle-IsOneView (Event.response i is_ok json) = search (view_rules, answer-IsOneView) depth 20
handle-IsOneView (Event.wait n) = search view_rules

-- Every event keeps the invariant, also where its handler throws.
pub step-IsOneView : (s : App) (e : Event) → On IsOneView s → On IsOneView (step s e)
unfolding step
step-IsOneView s e h = (handle-IsOneView e).leaves s h

run-IsOneView : (es : List Event) (s : App) → On IsOneView s → On IsOneView (run s es)
run-IsOneView [] s h = h
run-IsOneView (e ∷ es) s h = run-IsOneView es (step s e) (step-IsOneView s e h)

start-IsOneView : (s : App) → On IsOneView (step s load)
unfolding step handle start_ui display_pool_make display_pool_list display_pool_edit ◌>>=◌
    api_get_user_info
start-IsOneView s =
    (call-On _ _ _ _ _).leaves _ (record { holds = record { apart = refl; together = refl } })

-- From any page, once it is loaded, whatever the user does and in whatever order responses of any form
-- arrive, the pool list and the editor are not displayed together, and the sections of the editor are
-- displayed together.
pub run-load-IsOneView : (s : App) (es : List Event) → On IsOneView (run s (load ∷ es))
run-load-IsOneView s es = run-IsOneView es (step s load) (start-IsOneView s)
