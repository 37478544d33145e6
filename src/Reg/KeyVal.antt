-- ===== src/Reg/KeyVal.antt =====
-- The tables of the keyval-db (Valkey), as the registrar uses them through v2/lens3/table.go: a
-- table for each prefix of keys. The database is not part of the repository: it is a parameter,
-- with what its documentation says of GET, SET, DEL and SCAN.
use lens.Prelude.{String, ◌≡◌, ◌≢◌, Option, none, some, List, ◌==◌, if◌then◌else◌}
use mathlib.Core.List.{Mem}

pub record KeyVal : Type 1 where
  pub Map : Type 0 → Type 0
  pub get : {V : Type 0} → String → Map V → Option V
  pub set : {V : Type 0} → String → V → Map V → Map V
  pub del : {V : Type 0} → String → Map V → Map V
  -- the keys that a pattern matches
  pub scan : {V : Type 0} → String → Map V → List String
  pub get-set :
      {V : Type 0} (k j : String) (v : V) (m : Map V)
      → get j (set k v m) ≡ (if k == j then some v else get j m)
  pub get-del :
      {V : Type 0} (k j : String) (m : Map V) → get j (del k m) ≡ (if k == j then none else get j m)
  pub Mem-scan : {V : Type 0} (k : String) (m : Map V) → get k m ≢ none → Mem k (scan "*" m)
