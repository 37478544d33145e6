-- ===== src/Ui/Code.antt =====
-- Code that runs in the page: it changes the state, and may throw. An exception leaves the state as it
-- is where it is thrown.
pub mod Keeps
use mathlib.Core.List
use lens.Prelude.{ℕ, String, Bool, true, false, Option, none, some, List, [], ◌∷◌, if◌then◌else◌}
use lens.Js.Value.{Value, get}
use lens.Ui.State.{PoolData, Dom, Pending, App}

pub data Error : Type 0 where
  type_error range_error : Error

pub data Outcome {ℓ} (A : Type ℓ) : Type ℓ where
  done : A → App → Outcome A
  thrown : Error → App → Outcome A

abbrev pub M {ℓ} : Type ℓ → Type ℓ
M A = App → Outcome A

-- The state when the code has ended or has thrown.
abbrev pub final {ℓ} : {A : Type ℓ} → Outcome A → App
final (done a s) = s
final (thrown e s) = s

module _ {A : Type 0} where
  unfoldable pub ret : A → M A
  ret a s = done a s

  unfoldable pub throw : Error → M A
  throw e s = thrown e s

  unfoldable pub or_throw : Error → Option A → M A
  or_throw e none s = thrown e s
  or_throw e (some a) s = done a s

  unfoldable pub read : (App → A) → M A
  read f s = done (f s) s

unfoldable pub set_data : (PoolData → PoolData) → M (Unit {0})
set_data f s = done tt (record s { pool_data = f s.pool_data })

unfoldable pub set_dom : (Dom → Dom) → M (Unit {0})
set_dom f s = done tt (record s { dom = f s.dom })

-- `fetch` puts a request behind those that are under way.
unfoldable pub fetch : Pending → M (Unit {0})
fetch p s = done tt (record s { network = List.◌++◌ s.network (p ∷ []) })

unfoldable pub set_clipboard : String → M (Unit {0})
set_clipboard t s = done tt (record s { clipboard = t })

unfoldable pub set_clock : ℕ → M (Unit {0})
set_clock n s = done tt (record s { clock = n })

unfoldable pub set_network : List Pending → M (Unit {0})
set_network ps s = done tt (record s { network = ps })

module _ {A B : Type 0} where
  abbrev pub after : Outcome A → (A → M B) → Outcome B
  after (done a s) f = f a s
  after (thrown e s) f = thrown e s

  -- To open this is to open all of the above.
  infixl 5 ◌>>=◌ ◌>>◌
  unfoldable pub ◌>>=◌ : M A → (A → M B) → M B
  unfolding ret throw or_throw read set_data set_dom fetch set_clipboard set_clock set_network
  ◌>>=◌ m f s = after (m s) f

  abbrev pub ◌>>◌ : M A → M B → M B
  m >> k = m >>= λ _. k

-- `v[k]`
abbrev pub prop : Value → String → M Value
prop v k = or_throw type_error (get v k)

module _ {A B : Type 0} where
  -- `xs.map(f)`, or a loop that makes one thing of each element.
  unfoldable pub each : (A → M B) → List A → M (List B)
  each f [] = ret []
  each f (x ∷ xs) = do b ← f x; bs ← each f xs; ret (b ∷ bs)

module _ {A : Type 0} where
  abbrev pub keep_if : Bool → A → List A → List A
  keep_if b x xs = if b then x ∷ xs else xs

  -- `xs.filter(p)`
  unfoldable pub filter_by : (A → M Bool) → List A → M (List A)
  filter_by p [] = ret []
  filter_by p (x ∷ xs) = do b ← p x; ys ← filter_by p xs; ret (keep_if b x ys)
