-- ===== src/Reg/Memory.antt =====
-- Tables in memory, as lists of entries: they meet what is assumed of the keyval-db, and serve the
-- tests.
use mathlib.Core.List.{Mem, mem-cons, mem-cons_self}
use lens.Prelude.{
  String, ◌≡◌, ◌≢◌, refl, sym, subst, Option, none, some, List, [], ◌∷◌, arith, ◌==◌, eq_iff,
  if◌then◌else◌, Bool-cases, inl, inr,
}
use lens.Reg.KeyVal.{KeyVal}

pub record Entry (V : Type 0) : Type 0 where
  pub name : String
  pub content : V

abbrev pub entry : {V : Type 0} → String → V → Entry V
entry name content = record { name = name; content = content }

module _ {V : Type 0} where
  unfoldable pub content_of : List (Entry V) → String → Option V
  content_of [] name = none
  content_of (e ∷ table) name =
      let later = content_of table name in if e.name == name then some e.content else later

  unfoldable pub without : List (Entry V) → String → List (Entry V)
  without [] name = []
  without (e ∷ table) name =
      let kept = without table name in if e.name == name then kept else e ∷ kept

  unfoldable pub names : String → List (Entry V) → List String
  names pattern [] = []
  names pattern (e ∷ table) =
      let more = names pattern table in
      if pattern == "*" then e.name ∷ more else if pattern == e.name then e.name ∷ more else more

  pub content_of-without :
      (table : List (Entry V)) (gone asked : String)
      → content_of (without table gone) asked
        ≡ (if gone == asked then none else content_of table asked)
  unfolding content_of without
  content_of-without [] gone asked = ground arith
  content_of-without (e ∷ table) gone asked = ground (
    arith,
    eq_iff e.name gone,
    eq_iff gone asked,
    eq_iff e.name asked,
    content_of-without table gone asked,
  )

  unfoldable pub put : String → V → List (Entry V) → List (Entry V)
  put name content table = entry name content ∷ without table name

  pub content_of-put :
      (name asked : String) (content : V) (table : List (Entry V))
      → content_of (put name content table) asked
        ≡ (if name == asked then some content else content_of table asked)
  unfolding content_of put
  content_of-put name asked content table = ground (arith, content_of-without table name asked)

  pub Mem-names :
      (asked : String) (table : List (Entry V))
      → content_of table asked ≢ none
      → Mem asked (names "*" table)
  unfolding content_of names
  Mem-names asked [] found = absurd (found refl)
  Mem-names asked (e ∷ table) found = elim (Bool-cases (e.name == asked)) [
    | inl same ↦
        subst (λ n. Mem asked (n ∷ names "*" table)) (sym ((eq_iff e.name asked).0 same))
          mem-cons_self
    | inr other ↦
        mem-cons.1 ∣ inr (Mem-names asked table (λ q. found (ground (arith, other, q)))) ∣₁
  ]

abbrev pub memory : KeyVal
memory = record {
  Map = λ V. List (Entry V);
  get = λ name table. content_of table name;
  set = put;
  del = λ name table. without table name;
  scan = names;
  get-set = content_of-put;
  get-del = λ name asked table. content_of-without table name asked;
  Mem-scan = Mem-names;
}
