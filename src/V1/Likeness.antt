-- ===== src/V1/Likeness.antt =====
-- Where the pages of v1 and v2 differ.
use lens.Prelude.{
  ℕ, ◌≡◌, refl, ap, String, Bool, true, false, List, [], ◌∷◌, map, Option, some, none,
  if◌then◌else◌, ◌==◌, get_elem?,
}
use lens.Js.Value.{Value, str, obj, field, no_fields}
use lens.Js.Date.{time_value}
use lens.V1
use lens.Ui.Data
use lens.Ui.Actions
use lens.Ui.Api
use lens.Ui.Api.{pool_call}
use lens.Js.Json.{stringify}
use lens.V1.Rounding.{IsWhole, parse-whole}
use lens.Ui.State.{App, Handler, set_user_info, set_pool_list, set_pool, list_pools, Pending}
use lens.Ui.Code.{M, Outcome, done, thrown, final, after, ◌>>=◌, ◌>>◌, ret, each}
use lens.Ui.Render.{Row, render_pool_list, display_pool_list, display_pool_edit}
use lens.Ui.Actions.{Event}

-- What code ends with, with another value.
module _ {A B : Type 0} where
  abbrev pub outcome : (A → B) → Outcome A → Outcome B
  outcome f (done a s) = done (f a) s
  outcome f (thrown e s) = thrown e s

-- Code that does the same up to the value.
record IsLike {A B : Type 0} (f : A → B) (m : M A) (m' : M B) : Type 0 where
  pub like : (s : App) → m' s ≡ outcome f (m s)

module _ {A B C : Type 0} where
  after-outcome :
      (f : B → C) (k : A → M B) (k' : A → M C) (o : Outcome A)
      → ((a : A) → IsLike f (k a) (k' a))
      → after o k' ≡ outcome f (after o k)
  after-outcome f k k' (done a s) h = (h a).like s
  after-outcome f k k' (thrown e s) h = refl

  bind-IsLike :
      (f : B → C) (m : M A) (k : A → M B) (k' : A → M C)
      → ((a : A) → IsLike f (k a) (k' a))
      → IsLike f (m >>= k) (m >>= k')
  unfolding ◌>>=◌
  bind-IsLike f m k k' h = record { like = λ s. after-outcome f k k' (m s) h }

module _ {A B : Type 0} where
  ret-IsLike : (f : A → B) (a : A) (b : B) → b ≡ f a → IsLike f (ret a) (ret b)
  unfolding ret
  ret-IsLike f a b e = record { like = λ s. ap (λ c. done c s) e }

-- v1 calls the backend by its name.
abbrev pub relabel : Row → Row
relabel r = if r.label == "Backend state" then record r { label = "MinIO state" } else r

entry-IsLike :
    (desc : Value)
    → IsLike
        (map relabel)
        (Data.make_pool_entry_for_printing desc)
        (V1.Data.make_pool_entry_for_printing desc)
unfolding Data.make_pool_entry_for_printing V1.Data.make_pool_entry_for_printing
entry-IsLike desc = search (bind-IsLike, ret-IsLike) depth 60

-- On a description of any form, v1 makes the lines of the pool list that v2 makes, but for the label of
-- the backend's state, or throws the same exception, and leaves the same page.
pub entry-first :
    (desc : Value) (s : App)
    → V1.Data.make_pool_entry_for_printing desc s
      ≡ outcome (map relabel) (Data.make_pool_entry_for_printing desc s)
entry-first desc s = (entry-IsLike desc).like s

module _ {A B C D : Type 0} where
  then-IsLike :
      (f : A → B) (g : C → D) (m : M A) (m' : M B) (k : A → M C) (k' : B → M D)
      → IsLike f m m'
      → ((a : A) → IsLike g (k a) (k' (f a)))
      → IsLike g (m >>= k) (m' >>= k')
  unfolding ◌>>=◌
  then-IsLike f g m m' k k' h l = record { like = λ s. rw (h.like s) (next (m s)) }
    where
      next : (o : Outcome A) → after (outcome f o) k' ≡ outcome g (after o k)
      next (done a t) = (l a).like t
      next (thrown e t) = refl

each-IsLike :
    (ds : List Value)
    → IsLike
        (map (map relabel))
        (each Data.make_pool_entry_for_printing ds)
        (each V1.Data.make_pool_entry_for_printing ds)
unfolding each
each-IsLike [] = ret-IsLike _ _ _ refl
each-IsLike (d ∷ ds) = then-IsLike (map relabel) _ _ _ _ _ (entry-IsLike d) (λ rows.
    then-IsLike (map (map relabel)) _ _ _ _ _ (each-IsLike ds) (λ more. ret-IsLike _ _ _ refl))

-- The page without the nodes of the pool list.
abbrev pub without_list : App → App
without_list s = record s { dom = record (s.dom) { list_of_pools = [] } }

-- Code that leaves the same page but for the nodes of the pool list.
record IsSame (m m' : M (Unit {0})) : Type 0 where
  pub same : (s : App) → without_list (final (m' s)) ≡ without_list (final (m s))

module _ {A B : Type 0} where
  then-IsSame :
      (f : A → B) (m : M A) (m' : M B) (k : A → M (Unit {0})) (k' : B → M (Unit {0}))
      → IsLike f m m'
      → ((a : A) → IsSame (k a) (k' (f a)))
      → IsSame (m >>= k) (m' >>= k')
  unfolding ◌>>=◌
  then-IsSame f m m' k k' h l = record { same = λ s. rw (h.like s) (next (m s)) }
    where
      next :
          (o : Outcome A)
          → without_list (final (after (outcome f o) k')) ≡ without_list (final (after o k))
      next (done a t) = (l a).same t
      next (thrown e t) = refl

module _ {A : Type 0} where
  bind-IsSame :
      (m : M A) (k k' : A → M (Unit {0}))
      → ((a : A) → IsSame (k a) (k' a))
      → IsSame (m >>= k) (m >>= k')
  bind-IsSame m k k' l = then-IsSame (λ a. a) m m k k' (record { like = λ s. still (m s) }) l
    where
      still : (o : Outcome A) → o ≡ outcome (λ a. a) o
      still (done a t) = refl
      still (thrown e t) = refl

self-IsSame : (m : M (Unit {0})) → IsSame m m
self-IsSame m = record { same = λ s. refl }

shown-IsSame :
    (rows : List (List Row))
    → IsSame (render_pool_list rows >> (display_pool_list true >> display_pool_edit false)) (
        render_pool_list (map (map relabel) rows)
        >> (display_pool_list true >> display_pool_edit false))
unfolding render_pool_list display_pool_list display_pool_edit ◌>>=◌
shown-IsSame rows = record { same = λ s. refl }

list-IsSame : (v : Value) → IsSame (Data.set_pool_list_data v) (V1.Data.set_pool_list_data v)
unfolding Data.set_pool_list_data V1.Data.set_pool_list_data
list-IsSame v = bind-IsSame _ _ _ (λ l. bind-IsSame _ _ _ (λ u.
    bind-IsSame _ _ _
      (λ ds. then-IsSame (map (map relabel)) _ _ _ _ (each-IsLike ds) (λ rows. shown-IsSame rows))))

process-IsSame : (h : Handler) (v : Value) → IsSame (Actions.process h v) (V1.Actions.process h v)
unfolding Actions.process V1.Actions.process
process-IsSame set_user_info v = self-IsSame _
process-IsSame set_pool_list v = list-IsSame v
process-IsSame set_pool v = self-IsSame _
process-IsSame list_pools v = self-IsSame _

receive-IsSame :
    (p : Pending) (is_ok : Bool) (v : Value)
    → IsSame (Actions.receive p is_ok v) (V1.Actions.receive p is_ok v)
unfolding Actions.receive V1.Actions.receive
receive-IsSame p true v = bind-IsSame _ _ _ (λ u. process-IsSame p.handler v)
receive-IsSame p false v = self-IsSame _

answer-IsSame :
    (p : Option Pending) (is_ok : Bool) (json : Option Value)
    → IsSame (Actions.answer p is_ok json) (V1.Actions.answer p is_ok json)
answer-IsSame none is_ok json = self-IsSame _
answer-IsSame (some p) is_ok none = self-IsSame _
answer-IsSame (some p) is_ok (some v) = receive-IsSame p is_ok v

respond-IsSame :
    (i : ℕ) (is_ok : Bool) (json : Option Value)
    → IsSame (Actions.respond i is_ok json) (V1.Actions.respond i is_ok json)
unfolding Actions.respond V1.Actions.respond
respond-IsSame i is_ok json =
    bind-IsSame _ _ _
      (λ network. bind-IsSame _ _ _ (λ u. answer-IsSame (get_elem? network i) is_ok json))

secret-first :
    (policy : String) (s : App)
    → IsWhole (time_value s.dom.secret_expiration)
    → without_list (final (V1.Actions.kick_make_secret policy s))
      ≡ without_list (final (Actions.kick_make_secret policy s))
unfolding V1.Actions.kick_make_secret Actions.kick_make_secret V1.Api.api_make_secret
    V1.Api.secret_args Api.api_make_secret Api.secret_args ◌>>=◌
secret-first policy s h =
    ap
      (λ t. without_list (
        final (
          pool_call "make secret" "POST" "/secret"
            (stringify
              (obj (field "key_policy" (str policy) (field "expiration_time" (str t) no_fields))))
            s)))
      (parse-whole s.dom.secret_expiration h)

-- When the date input shows a time in whole seconds from 1970 on, or none, every event leaves the same page
-- in v1 and in v2 but for the nodes of the pool list.
pub step-first :
    (e : Event) (s : App)
    → IsWhole (time_value s.dom.secret_expiration)
    → without_list (V1.Actions.step s e) ≡ without_list (Actions.step s e)
unfolding V1.Actions.step Actions.step Actions.handle V1.Actions.handle
step-first Event.load s h = refl
step-first Event.show_pool_make s h = refl
step-first Event.show_pool_list s h = refl
step-first Event.make_pool s h = refl
step-first Event.make_bucket s h = refl
step-first Event.test_csrf s h = refl
step-first (Event.make_secret policy) s h = secret-first policy s h
step-first (Event.click c) s h = refl
step-first (Event.input i v) s h = refl
step-first (Event.response i is_ok json) s h = (respond-IsSame i is_ok json).same s
step-first (Event.wait n) s h = refl
