-- ===== src/Ui/Requests/Count.antt =====
-- How many requests the functions of the page send.
pub mod Run
use mathlib.Core.List
use lens.Prelude.{
  ℕ, zero, suc, ◌+◌, ◌≤◌, ◌≡◌, refl, String, Bool, true, false, List, [], ◌∷◌, Option, some, none,
  get_elem?, erase_idx, length, arith,
}
use lens.Js.Value.{Value}
use lens.Ui.State.{App, Dom, Pending, Handler, set_user_info, set_pool_list, set_pool, list_pools}
use lens.Ui.Node.{Click, edit_pool, delete_pool, delete_bucket, delete_secret, copy_text}
use lens.Ui.Code.{M, Outcome, done, thrown, after, ◌>>=◌, final, set_dom, set_clipboard, set_clock}
use lens.Ui.Code.Keeps.{Keeps}
use lens.Ui.Quiet.{IsQuiet, page_rules}
use lens.Ui.Render.{
  render_pool_list, render_secret_expiration_default, display_pool_list, display_pool_edit,
  display_pool_make,
}
use lens.Ui.Data.{show_message, set_user_info_data, set_pool_list_data, set_pool_data}
use lens.Ui.Api.{
  api_call, pool_call, api_get_user_info, api_list_pools, api_make_pool, api_delete_pool,
  run_edit_pool, api_make_bucket, api_delete_bucket, api_make_secret, api_delete_secret,
}
use lens.Ui.Actions.{
  Event, start_ui, kick_show_pool_make, kick_show_pool_list, kick_make_pool, kick_make_bucket,
  kick_make_secret, copy_to_clipboard, kick, kick_test_csrf, process, receive, answer, respond,
  enter, handle, step, run,
}
use lens.Ui.Requests.{network-api_call}

-- At most `n` requests are under way.
pub record AtMost (n : ℕ) (s : App) : Type 0 where
  pub count : length s.network ≤ n

pub AtMost-IsQuiet : (n : ℕ) → IsQuiet (AtMost n)
AtMost-IsQuiet n = record {
  on_data = λ f s h. record { count = h.count };
  on_dom = λ f k s h. record { count = h.count };
}

pub dom-AtMost : (n : ℕ) (f : Dom → Dom) → Keeps (AtMost n) (set_dom f)
unfolding set_dom
dom-AtMost n f = record { leaves = λ s h. record { count = h.count } }

pub clipboard-AtMost : (n : ℕ) (t : String) → Keeps (AtMost n) (set_clipboard t)
unfolding set_clipboard
clipboard-AtMost n t = record { leaves = λ s h. record { count = h.count } }

pub clock-AtMost : (n m : ℕ) → Keeps (AtMost n) (set_clock m)
unfolding set_clock
clock-AtMost n m = record { leaves = λ s h. record { count = h.count } }

-- The code sends one request at most, whether it ends or throws.
pub record SendsOne {A : Type 0} (code : M A) : Type 0 where
  pub sends : (n : ℕ) (s : App) → AtMost n s → AtMost (n + 1) (final (code s))

module _ {A : Type 0} where
  pub none-SendsOne : (code : M A) → ((n : ℕ) → Keeps (AtMost n) code) → SendsOne code
  none-SendsOne code h = record {
    sends = λ n s k. record { count = omega (arith, ((h n).leaves s k).count) };
  }

module _ {A B : Type 0} where
  then-AtMost :
      (n : ℕ) (o : Outcome A) (rest : A → M B)
      → ((a : A) → Keeps (AtMost n) (rest a))
      → AtMost n (final o)
      → AtMost n (final (after o rest))
  then-AtMost n (done a s) rest h k = (h a).leaves s k
  then-AtMost n (thrown e s) rest h k = k

  then-SendsOne :
      (n : ℕ) (o : Outcome A) (rest : A → M B)
      → ((a : A) → SendsOne (rest a))
      → AtMost n (final o)
      → AtMost (n + 1) (final (after o rest))
  then-SendsOne n (done a s) rest h k = (h a).sends n s k
  then-SendsOne n (thrown e s) rest h k = record { count = omega (arith, k.count) }

  pub first-SendsOne :
      (code : M A) (rest : A → M B)
      → SendsOne code
      → ((n : ℕ) (a : A) → Keeps (AtMost n) (rest a))
      → SendsOne (code >>= rest)
  unfolding ◌>>=◌
  first-SendsOne code rest h k = record {
    sends = λ n s p. then-AtMost (n + 1) (code s) rest (k (n + 1)) (h.sends n s p);
  }

  pub rest-SendsOne :
      (code : M A) (rest : A → M B)
      → ((n : ℕ) → Keeps (AtMost n) code)
      → ((a : A) → SendsOne (rest a))
      → SendsOne (code >>= rest)
  unfolding ◌>>=◌
  rest-SendsOne code rest h k = record {
    sends = λ n s p. then-SendsOne n (code s) rest k ((h n).leaves s p);
  }

length-snoc : {A : Type 0} (xs : List A) (x : A) → length (List.◌++◌ xs (x ∷ [])) ≡ length xs + 1
length-snoc [] x = refl
length-snoc (y ∷ xs) x = omega (arith, length-snoc xs x)

pub call-SendsOne :
    (msg method rest : String) (body : Option String) (h : Handler)
    → SendsOne (api_call msg method rest body h)
call-SendsOne msg method rest body h = record {
  sends = λ n s k. record {
    count =
        rw (network-api_call msg method rest body h s)
          (omega (arith, length-snoc s.network _, k.count));
  };
}

pub ruleset keep_rules = (page_rules, AtMost-IsQuiet, dom-AtMost, clipboard-AtMost, clock-AtMost)

pub ruleset one_rules = (call-SendsOne, none-SendsOne, first-SendsOne, rest-SendsOne, keep_rules)

pub pool_call-SendsOne : (msg method rest body : String) → SendsOne (pool_call msg method rest body)
unfolding pool_call
pool_call-SendsOne msg method rest body = search one_rules depth 20

pub list_pools-SendsOne : SendsOne api_list_pools
unfolding api_list_pools
list_pools-SendsOne = call-SendsOne _ _ _ _ _

pub delete_pool-SendsOne : (i : ℕ) → SendsOne (api_delete_pool i)
unfolding api_delete_pool
delete_pool-SendsOne i = search one_rules depth 20
