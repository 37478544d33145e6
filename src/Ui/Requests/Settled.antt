-- ===== src/Ui/Requests/Settled.antt =====
-- That the page comes to rest when the requests under way are answered, without further clicks.
use lens.Prelude.{
  ℕ, suc, ◌*◌, ◌≤◌, ◌≡◌, Bool, List, [], ◌∷◌, Option, some, ◌⊎◌, inl, inr, refl, get_elem?, length,
  map, arith,
}
use lens.Js.Value.{Value}
use lens.Ui.State.{App, Pending}
use lens.Ui.Code.{ret, ◌>>=◌}
use lens.Ui.Actions.{response, respond, handle, step}
use lens.Ui.Requests.Ends.{
  Answer, all_follow, all_follow-le, answer_all, follow-positive, response-follows,
}

-- A response to the request that is under way the longest.
abbrev pub to_first : Bool × Option Value → Answer
to_first (is_ok, json) = (0, is_ok, json)

first_pending : (ps : List Pending) → (ps ≡ []) ⊎ ((p : Pending) × (get_elem? ps 0 ≡ some p))
first_pending [] = inl refl
first_pending (p ∷ ps) = inr (p, refl)

nothing_follows : (ps : List Pending) → all_follow ps ≤ 0 → ps ≡ []
nothing_follows [] h = refl
nothing_follows (p ∷ ps) h = ground (arith, h, follow-positive p.handler)

-- A response that no request waits for is none.
step-idle :
    (s : App) (is_ok : Bool) (json : Option Value)
    → s.network ≡ []
    → (step s (response 0 is_ok json)).network ≡ []
unfolding step handle respond ◌>>=◌ ret
step-idle s is_ok json e = rw e refl

first-follows :
    (s : App) (is_ok : Bool) (json : Option Value) (n : ℕ)
    → all_follow s.network ≤ suc n
    → all_follow (step s (response 0 is_ok json)).network ≤ n
first-follows s is_ok json n h = elim (first_pending s.network) [
  | inl e ↦ rw (step-idle s is_ok json e) (omega arith)
  | inr (p, e) ↦ omega (arith, response-follows s 0 is_ok json e, h)
]

first-settles :
    (rs : List (Bool × Option Value)) (s : App)
    → all_follow s.network ≤ length rs
    → (answer_all s (map to_first rs)).network ≡ []
first-settles [] s h = nothing_follows s.network h
first-settles ((is_ok, json) ∷ rs) s h =
    first-settles rs (step s (response 0 is_ok json)) (first-follows s is_ok json (length rs) h)

-- When the request that is under way the longest is answered again and again, at least twice as often as
-- there are requests, then no request is under way any more, whatever the answers are.
pub answers-settle :
    (s : App) (rs : List (Bool × Option Value))
    → 2 * length s.network ≤ length rs
    → (answer_all s (map to_first rs)).network ≡ []
answers-settle s rs h = first-settles rs s (omega (arith, all_follow-le s.network, h))
