-- ===== src/Ui/Requests/Count/Run.antt =====
-- How many requests are under way, through all events.
use lens.Prelude.{
  ap, ◌⊎◌, inl, inr, ℕ, zero, suc, ◌+◌, ◌≤◌, ◌≡◌, refl, String, Bool, true, false, List, [], ◌∷◌,
  Option, some, none, get_elem?, erase_idx, length, arith,
}
use lens.Js.Value.{Value}
use lens.Ui.State.{App, Pending, Handler, set_user_info, set_pool_list, set_pool, list_pools}
use lens.Ui.Node.{Click, edit_pool, delete_pool, delete_bucket, delete_secret, copy_text}
use lens.Ui.Code.{ret, M, ◌>>=◌, final}
use lens.Ui.Code.Keeps.{Keeps}
use lens.Ui.Render.{
  render_pool_list, render_secret_expiration_default, display_pool_list, display_pool_edit,
  display_pool_make,
}
use lens.Ui.Data.{set_user_info_data, set_pool_list_data, set_pool_data}
use lens.Ui.Api.{
  api_get_user_info, api_list_pools, api_make_pool, run_edit_pool, api_make_bucket,
  api_delete_bucket, api_make_secret, api_delete_secret,
}
use lens.Ui.Actions.{
  Event, start_ui, kick_show_pool_make, kick_show_pool_list, kick_make_pool, kick_make_bucket,
  kick_make_secret, copy_to_clipboard, kick, kick_test_csrf, process, receive, answer, respond,
  enter, handle, step, run,
}
use lens.Ui.Requests.Count.{
  AtMost, dom-AtMost, clock-AtMost, SendsOne, none-SendsOne, rest-SendsOne, pool_call-SendsOne,
  list_pools-SendsOne, delete_pool-SendsOne, keep_rules, one_rules,
}

-- Responses, entries, the time, and the buttons for copying and for editing a pool send nothing anew.
abbrev pub may_send : Event → ℕ
may_send (Event.response i is_ok json) = 0
may_send (Event.input i v) = 0
may_send (Event.wait n) = 0
may_send (Event.click (copy_text v)) = 0
may_send (Event.click (edit_pool i)) = 0
may_send _ = 1

abbrev pub all_may_send : List Event → ℕ
all_may_send [] = 0
all_may_send (e ∷ es) = may_send e + all_may_send es

process-SendsOne : (h : Handler) (v : Value) → SendsOne (process h v)
unfolding process set_user_info_data set_pool_list_data set_pool_data render_pool_list
    display_pool_list display_pool_edit
process-SendsOne set_user_info v = none-SendsOne _ (λ n. search keep_rules depth 20)
process-SendsOne set_pool_list v = none-SendsOne _ (λ n. search keep_rules depth 20)
process-SendsOne set_pool v = none-SendsOne _ (λ n. search keep_rules depth 20)
process-SendsOne list_pools v = list_pools-SendsOne

receive-SendsOne : (p : Pending) (is_ok : Bool) (v : Value) → SendsOne (receive p is_ok v)
unfolding receive
receive-SendsOne p true v =
    rest-SendsOne _ _ (λ n. search keep_rules) (λ u. process-SendsOne p.handler v)
receive-SendsOne p false v = none-SendsOne _ (λ n. search keep_rules)

answer-SendsOne :
    (p : Pending) (is_ok : Bool) (json : Option Value) → SendsOne (answer (some p) is_ok json)
answer-SendsOne p is_ok none = none-SendsOne _ (λ n. search keep_rules)
answer-SendsOne p is_ok (some v) = receive-SendsOne p is_ok v

length-erase_idx :
    {A : Type 0} (xs : List A) (i : ℕ)
    → (length (erase_idx xs i) + 1 ≡ length xs) ⊎ ((get_elem? xs i ≡ none) × (erase_idx xs i ≡ xs))
length-erase_idx [] i = inr (refl, refl)
length-erase_idx (x ∷ xs) zero = inl (omega arith)
length-erase_idx (x ∷ xs) (suc i) = elim (length-erase_idx xs i) [
  | inl e ↦ inl (omega (arith, e))
  | inr (e, e') ↦ inr (e, ap (λ ys. x ∷ ys) e')
]

-- At the place of no request, nothing is answered.
answered :
    (s : App) (o : Option Pending) (is_ok : Bool) (json : Option Value) (n m : ℕ)
    → length s.network ≤ n
    → n ≤ m
    → (o ≡ none) ⊎ (n + 1 ≤ m)
    → length (final (answer o is_ok json s)).network ≤ m
unfolding ret
answered s none is_ok json n m h k l = omega (arith, h, k)
answered s (some p) is_ok json n m h k (inl e) = cc
answered s (some p) is_ok json n m h k (inr l) =
    omega (arith, ((answer-SendsOne p is_ok json).sends n s (record { count = h })).count, l)

respond-count :
    (i : ℕ) (is_ok : Bool) (json : Option Value) (s : App)
    → length (final (respond i is_ok json s)).network ≤ length s.network
unfolding respond ◌>>=◌
respond-count i is_ok json s =
    let t : App = record s { network = erase_idx s.network i } in
    elim (length-erase_idx s.network i) [
      | inl e ↦
          answered t (get_elem? s.network i) is_ok json (length t.network) (length s.network)
            (omega arith) (omega (arith, e)) (inr (omega (arith, e)))
      | inr (e, e') ↦
          answered t (get_elem? s.network i) is_ok json (length t.network) (length s.network)
            (omega arith) (rw e' (omega arith)) (inl e)
    ]

-- The code leaves at most `n` requests more.
record Sends (n : ℕ) (code : M (Unit {0})) : Type 0 where
  pub sends : (s : App) → length (final (code s)).network ≤ length s.network + n

one-Sends : (code : M (Unit {0})) → SendsOne code → Sends 1 code
one-Sends code h = record {
  sends = λ s. (h.sends (length s.network) s (record { count = omega arith })).count;
}

none-Sends : (code : M (Unit {0})) → ((n : ℕ) → Keeps (AtMost n) code) → Sends 0 code
none-Sends code h = record {
  sends =
      λ s. omega (arith, ((h (length s.network)).leaves s (record { count = omega arith })).count);
}

kick-Sends : (c : Click) → Sends (may_send (Event.click c)) (kick c)
unfolding kick run_edit_pool api_delete_bucket api_delete_secret copy_to_clipboard
    render_secret_expiration_default set_pool_data display_pool_list display_pool_edit
kick-Sends (edit_pool p) = none-Sends _ (λ n. search keep_rules depth 20)
kick-Sends (delete_pool p) = one-Sends _ (delete_pool-SendsOne p)
kick-Sends (delete_bucket name) = one-Sends _ (pool_call-SendsOne _ _ _ _)
kick-Sends (delete_secret key) = one-Sends _ (pool_call-SendsOne _ _ _ _)
kick-Sends (copy_text key) = none-Sends _ (λ n. search keep_rules)

start-SendsOne : SendsOne start_ui
unfolding start_ui display_pool_make display_pool_list display_pool_edit api_get_user_info
start-SendsOne = search one_rules depth 20

show_make-SendsOne : SendsOne kick_show_pool_make
unfolding kick_show_pool_make display_pool_make api_get_user_info
show_make-SendsOne = search one_rules depth 20

show_list-SendsOne : SendsOne kick_show_pool_list
unfolding kick_show_pool_list display_pool_make display_pool_list display_pool_edit api_list_pools
show_list-SendsOne = search one_rules depth 20

make_pool-SendsOne : SendsOne kick_make_pool
unfolding kick_make_pool display_pool_make api_make_pool
make_pool-SendsOne = search one_rules depth 20

make_bucket-SendsOne : SendsOne kick_make_bucket
unfolding kick_make_bucket api_make_bucket
make_bucket-SendsOne = search (pool_call-SendsOne, one_rules) depth 20

test_csrf-SendsOne : SendsOne kick_test_csrf
unfolding kick_test_csrf api_list_pools
test_csrf-SendsOne = search one_rules depth 20

make_secret-SendsOne : (policy : String) → SendsOne (kick_make_secret policy)
unfolding kick_make_secret api_make_secret
make_secret-SendsOne policy = search (pool_call-SendsOne, one_rules) depth 20

handle-Sends : (e : Event) → Sends (may_send e) (handle e)
unfolding handle
handle-Sends Event.load = one-Sends _ start-SendsOne
handle-Sends Event.show_pool_make = one-Sends _ show_make-SendsOne
handle-Sends Event.show_pool_list = one-Sends _ show_list-SendsOne
handle-Sends Event.make_pool = one-Sends _ make_pool-SendsOne
handle-Sends Event.make_bucket = one-Sends _ make_bucket-SendsOne
handle-Sends Event.test_csrf = one-Sends _ test_csrf-SendsOne
handle-Sends (Event.make_secret policy) = one-Sends _ (make_secret-SendsOne policy)
handle-Sends (Event.click c) = kick-Sends c
handle-Sends (Event.input i v) = none-Sends _ (λ n. dom-AtMost n (enter i v))
handle-Sends (Event.response i is_ok json) = record {
  sends = λ s. omega (arith, respond-count i is_ok json s);
}
handle-Sends (Event.wait n) = none-Sends _ (λ m. clock-AtMost m n)

-- After any events, the requests under way are at most those of the start and one for each event that may
-- send one: for no response, entry, lapse of time, copy, or button for editing a pool.
pub run-count :
    (es : List Event) (s : App) → length (run s es).network ≤ length s.network + all_may_send es
unfolding step
run-count [] s = omega arith
run-count (e ∷ es) s = omega (arith, run-count es (step s e), (handle-Sends e).sends s)
