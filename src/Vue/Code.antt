-- ===== src/Vue/Code.antt =====
-- Code that runs in the client: it changes the state, and may throw. An exception leaves the state as it
-- is where it is thrown.
pub mod Keeps
use mathlib.Core.List
use lens.Prelude.{String, Bool, Option, none, some, List, [], ◌∷◌, if◌then◌else◌}
use lens.Js.Value.{Value, get}
use lens.Ui.Code.{Error, type_error}
use lens.Vue.State.{PoolData, Pending, Client}

pub data Result (A : Type 0) : Type 0 where
  ended : A → Client → Result A
  failed : Error → Client → Result A

abbrev pub V : Type 0 → Type 0
V A = Client → Result A

-- The state when the code has ended or has thrown.
abbrev pub left : {A : Type 0} → Result A → Client
left (ended a s) = s
left (failed e s) = s

module _ {A : Type 0} where
  unfoldable pub give : A → V A
  give a s = ended a s

  unfoldable pub or_fail : Error → Option A → V A
  or_fail e none s = failed e s
  or_fail e (some a) s = ended a s

  unfoldable pub look : (Client → A) → V A
  look f s = ended (f s) s

unfoldable pub update : (Client → Client) → V (Unit {0})
update f s = ended tt (f s)

abbrev pub put_data : (PoolData → PoolData) → V (Unit {0})
put_data f = update (λ s. record s { pool_data = f s.pool_data })

-- `fetch` puts a request behind those that are under way.
abbrev pub send : Pending → V (Unit {0})
send p = update (λ s. record s { network = List.◌++◌ s.network (p ∷ []) })

module _ {A B : Type 0} where
  abbrev pub next : Result A → (A → V B) → Result B
  next (ended a s) f = f a s
  next (failed e s) f = failed e s

  -- To open this is to open all of the above.
  infixl 5 ◌>>=◌ ◌>>◌
  unfoldable pub ◌>>=◌ : V A → (A → V B) → V B
  unfolding give or_fail look update
  ◌>>=◌ m f s = next (m s) f

  abbrev pub ◌>>◌ : V A → V B → V B
  m >> k = m >>= λ _. k

-- `v[k]`
abbrev pub prop : Value → String → V Value
prop v k = or_fail type_error (get v k)

module _ {A B : Type 0} where
  -- `xs.map(f)`
  unfoldable pub each : (A → V B) → List A → V (List B)
  each f [] = give []
  each f (x ∷ xs) = do b ← f x; bs ← each f xs; give (b ∷ bs)

module _ {A : Type 0} where
  abbrev keep_if : Bool → A → List A → List A
  keep_if b x xs = if b then x ∷ xs else xs

  -- `xs.filter(p)`
  unfoldable pub filter_by : (A → V Bool) → List A → V (List A)
  filter_by p [] = give []
  filter_by p (x ∷ xs) = do b ← p x; ys ← filter_by p xs; give (keep_if b x ys)
