-- ===== src/Ui/Requests/Ends.antt =====
-- How many responses may follow from the requests under way, without further clicks.
use mathlib.Core.List
use lens.Prelude.{
  ℕ, zero, suc, ◌+◌, ◌-◌, ◌*◌, ◌≤◌, ◌≡◌, Bool, true, false, List, [], ◌∷◌, Option, some, none,
  get_elem?, erase_idx, length, arith, String,
}
use lens.Js.Value.{Value}
use lens.Ui.State.{App, Dom, Pending, Handler, set_user_info, set_pool_list, set_pool, list_pools}
use lens.Ui.Code.{M, Outcome, done, thrown, after, ret, ◌>>=◌, final, set_dom}
use lens.Ui.Code.Keeps.{Keeps}
use lens.Ui.Quiet.{IsQuiet, page_rules}
use lens.Ui.Render.{render_pool_list, display_pool_list, display_pool_edit}
use lens.Ui.Data.{show_message, set_user_info_data, set_pool_list_data, set_pool_data}
use lens.Ui.Api.{api_list_pools}
use lens.Ui.Actions.{response, process, receive, answer, respond, handle, step}
use lens.Ui.Requests.{network-api_call}

-- The responses that follow from a request: its own, and for a deleted pool the one with the list of pools.
abbrev pub follow : Handler → ℕ
follow set_user_info = 1
follow set_pool_list = 1
follow set_pool = 1
follow list_pools = 2

abbrev pub all_follow : List Pending → ℕ
all_follow [] = 0
all_follow (p ∷ ps) = follow p.handler + all_follow ps

all_follow-append :
    (ps : List Pending) (p : Pending)
    → all_follow (List.◌++◌ ps (p ∷ [])) ≡ all_follow ps + follow p.handler
all_follow-append [] p = omega arith
all_follow-append (q ∷ ps) p = omega (arith, all_follow-append ps p)

all_follow-erase_idx :
    (ps : List Pending) (i : ℕ) {p : Pending}
    → get_elem? ps i ≡ some p
    → all_follow (erase_idx ps i) + follow p.handler ≡ all_follow ps
all_follow-erase_idx [] i e = cc
all_follow-erase_idx (q ∷ ps) zero e = ground (arith)
all_follow-erase_idx (q ∷ ps) (suc i) e = omega (arith, all_follow-erase_idx ps i e)

-- At most `n` responses follow from the requests under way.
record Follows (n : ℕ) (s : App) : Type 0 where
  pub at_most : all_follow s.network ≤ n

Follows-IsQuiet : (n : ℕ) → IsQuiet (Follows n)
Follows-IsQuiet n = record {
  on_data = λ f s h. record { at_most = h.at_most };
  on_dom = λ f k s h. record { at_most = h.at_most };
}

dom-Follows : (n : ℕ) (f : Dom → Dom) → Keeps (Follows n) (set_dom f)
unfolding set_dom
dom-Follows n f = record { leaves = λ s h. record { at_most = h.at_most } }

ruleset follow_rules = (page_rules, Follows-IsQuiet, dom-Follows)

message-Follows : (n : ℕ) (v : Value) (t : String) → Keeps (Follows n) (show_message v t)
message-Follows n v t = search follow_rules

user_info-Follows : (n : ℕ) (v : Value) → Keeps (Follows n) (set_user_info_data v)
unfolding set_user_info_data display_pool_list display_pool_edit
user_info-Follows n v = search follow_rules depth 20

list-Follows : (n : ℕ) (v : Value) → Keeps (Follows n) (set_pool_list_data v)
unfolding set_pool_list_data render_pool_list display_pool_list display_pool_edit
list-Follows n v = search follow_rules depth 20

pool-Follows : (n : ℕ) (v : Value) → Keeps (Follows n) (set_pool_data v)
unfolding set_pool_data display_pool_list display_pool_edit
pool-Follows n v = search follow_rules depth 20

-- The request for the list of pools is one that one response follows from.
list_pools-Follows : (n : ℕ) (s : App) → Follows n s → Follows (n + 1) (final (api_list_pools s))
unfolding api_list_pools
list_pools-Follows n s h = record {
  at_most =
      rw (network-api_call "list pools" "GET" "/pool" none set_pool_list s)
        (omega (arith, all_follow-append s.network _, h.at_most));
}

more-Follows : (n m : ℕ) (s : App) → Follows n s → n ≤ m → Follows m s
more-Follows n m s h k = record { at_most = omega (arith, h.at_most, k) }

pub follow-positive : (h : Handler) → 1 ≤ follow h
follow-positive set_user_info = omega arith
follow-positive set_pool_list = omega arith
follow-positive set_pool = omega arith
follow-positive list_pools = omega arith

-- Handling a request makes up for all that follows from it but one.
process-Follows :
    (h : Handler) (v : Value) (n m : ℕ) (s : App)
    → n + follow h ≤ m + 1
    → Follows n s
    → Follows m (final (process h v s))
unfolding process
process-Follows set_user_info v n m s e k =
    more-Follows n m _ ((user_info-Follows n v).leaves s k) (omega arith)
process-Follows set_pool_list v n m s e k =
    more-Follows n m _ ((list-Follows n v).leaves s k) (omega arith)
process-Follows set_pool v n m s e k =
    more-Follows n m _ ((pool-Follows n v).leaves s k) (omega arith)
process-Follows list_pools v n m s e k =
    more-Follows (n + 1) m _ (list_pools-Follows n s k) (omega arith)

then-Follows :
    (n m : ℕ) (o : Outcome (Unit {0})) (k : M (Unit {0}))
    → n ≤ m
    → ((s : App) → Follows n s → Follows m (final (k s)))
    → Follows n (final o)
    → Follows m (final (after o (λ u. k)))
then-Follows n m (done u s) k e h f = h s f
then-Follows n m (thrown x s) k e h f = more-Follows n m s f e

receive-Follows :
    (p : Pending) (is_ok : Bool) (v : Value) (n m : ℕ) (s : App)
    → n + follow p.handler ≤ m + 1
    → Follows n s
    → Follows m (final (receive p is_ok v s))
unfolding receive ◌>>=◌
receive-Follows p true v n m s e h =
    then-Follows n m (show_message v _ s) (process p.handler v)
      (omega (arith, follow-positive p.handler)) (λ t k. process-Follows p.handler v n m t e k)
      ((message-Follows n v _).leaves s h)
receive-Follows p false v n m s e h =
    more-Follows n m _ ((message-Follows n v _).leaves s h)
      (omega (arith, follow-positive p.handler))

answer-Follows :
    (p : Pending) (is_ok : Bool) (json : Option Value) (n m : ℕ) (s : App)
    → n + follow p.handler ≤ m + 1
    → Follows n s
    → Follows m (final (answer (some p) is_ok json s))
unfolding ret
answer-Follows p is_ok none n m s e h =
    more-Follows n m s h (omega (arith, follow-positive p.handler))
answer-Follows p is_ok (some v) n m s e h = receive-Follows p is_ok v n m s e h

-- Each response to a request under way is one less that may follow.
pub response-follows :
    (s : App) (i : ℕ) (is_ok : Bool) (json : Option Value) {p : Pending}
    → get_elem? s.network i ≡ some p
    → all_follow (step s (response i is_ok json)).network + 1 ≤ all_follow s.network
unfolding step handle respond ◌>>=◌
response-follows s i is_ok json {p} e = rw e (
    omega (
      arith,
      all_follow-erase_idx s.network i e,
      follow-positive p.handler,
      (answer-Follows p is_ok json (all_follow (erase_idx s.network i)) (all_follow s.network - 1)
          (record s { network = erase_idx s.network i })
          (omega (arith, all_follow-erase_idx s.network i e, follow-positive p.handler))
          (record { at_most = omega arith })).at_most,
    ))

-- A response: the place of its request among those under way, whether it is a success, and its data.
abbrev pub Answer : Type 0
Answer = ℕ × Bool × Option Value

abbrev pub answer_all : App → List Answer → App
answer_all s [] = s
answer_all s ((i, is_ok, json) ∷ more) = answer_all (step s (response i is_ok json)) more

-- Each response is one to a request that is under way when it arrives.
abbrev pub AreDue : App → List Answer → Type 0
AreDue s [] = Unit
AreDue s ((i, is_ok, json) ∷ more) =
    ((p : Pending) × (get_elem? s.network i ≡ some p))
    × AreDue (step s (response i is_ok json)) more

answers-follow :
    (rs : List Answer) (s : App)
    → AreDue s rs
    → length rs + all_follow (answer_all s rs).network ≤ all_follow s.network
answers-follow [] s h = omega arith
answers-follow ((i, is_ok, json) ∷ rs) s ((p, e), h) =
    omega (
      arith,
      answers-follow rs (step s (response i is_ok json)) h,
      response-follows s i is_ok json e,
    )

pub all_follow-le : (ps : List Pending) → all_follow ps ≤ 2 * length ps
all_follow-le [] = omega arith
all_follow-le (p ∷ ps) = omega (arith, all_follow-le ps, follow_le p.handler)
  where
    follow_le : (h : Handler) → follow h ≤ 2
    follow_le set_user_info = omega arith
    follow_le set_pool_list = omega arith
    follow_le set_pool = omega arith
    follow_le list_pools = omega arith

-- Without further events, at most two responses arrive for each request under way, whatever the responses
-- are and in whatever order they arrive: handling responses does not go on forever.
pub answers-bounded : (s : App) (rs : List Answer) → AreDue s rs → length rs ≤ 2 * length s.network
answers-bounded s rs h = omega (arith, answers-follow rs s h, all_follow-le s.network)
