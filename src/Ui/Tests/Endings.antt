-- ===== src/Ui/Tests/Endings.antt =====
-- The theorems on runs of responses, applied to a page from which a pool is deleted.
use lens.Prelude.{
  ◌+◌, true, some, [], ◌∷◌, ◌≡◌, ◌≤◌, ◌*◌, refl, length, List, map, Bool, Option, arith,
}
use lens.Js.Value.{Value, obj, no_fields}
use lens.Ui.State.{App}
use lens.Ui.Node.{delete_pool}
use lens.Ui.Code.{final}
use lens.Ui.Data.{set_pool_list_data}
use lens.Ui.Actions.{Event, click, response, show_pool_list, run, kick}
use lens.Ui.Requests.Count.Run.{all_may_send, run-count}
use lens.Ui.Requests.Ends.{Answer, AreDue, answer_all, answers-bounded}
use lens.Ui.Requests.Settled.{to_first, answers-settle}
use lens.Ui.Tests.{page, list_response}

abbrev deleting : App
deleting = final (kick (delete_pool 0) (final (set_pool_list_data list_response page)))

-- The pool is deleted, and then the list of pools arrives.
abbrev replies : List (Bool × Option Value)
replies = (true, some (obj no_fields)) ∷ (true, some list_response) ∷ []

abbrev answers : List Answer
answers = map to_first replies

answers-AreDue : AreDue deleting answers
unfolding lens.Ui.Tests.ui
answers-AreDue = ((_, refl), ((_, refl), tt))

deleting-length : length deleting.network ≡ 1
unfolding lens.Ui.Tests.ui
deleting-length = refl

answers-bounded_example : length answers ≤ 2 * length deleting.network
answers-bounded_example = answers-bounded deleting answers answers-AreDue

answers-settle_example : (answer_all deleting (map to_first replies)).network ≡ []
answers-settle_example = answers-settle deleting replies (omega (arith, deleting-length))

abbrev events : List Event
events = click (delete_pool 0) ∷ response 0 true (some (obj no_fields)) ∷ show_pool_list ∷ []

run-count_example : length (run page events).network ≤ length page.network + all_may_send events
run-count_example = run-count events page
