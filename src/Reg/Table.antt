-- ===== src/Reg/Table.antt =====
-- The functions of v2/lens3/table.go on the tables: what is read, set, deleted and listed.
use lens.Prelude.{
  String, Bool, true, false, ◌||◌, Option, none, some, List, [], ◌∷◌, ◌==◌, if◌then◌else◌,
}
use lens.Reg.KeyVal.{KeyVal}
use lens.Reg.Flow.{Go, give, quit}
use lens.Reg.Records.{
  Db, UserRecord, UserClaimRecord, PoolRecord, BucketRecord, SecretRecord, MuxRecord,
  CsrfTokenRecord, ApproximateStateRecord,
}

abbrev pub is_some {ℓ} : {A : Type ℓ} → Option A → Bool
is_some none = false
is_some (some a) = true

-- One record before the others, when there is one.
abbrev pub put_first {ℓ} : {A : Type ℓ} → A → Option (List A) → Option (List A)
put_first a none = none
put_first a (some l) = some (a ∷ l)

module _ (K : KeyVal) where
  abbrev pub get_user : String → Db K → Option UserRecord
  get_user uid t = K.get uid t.users

  unfoldable pub set_user_raw : UserRecord → Go (Db K) Unit
  set_user_raw u t =
      if u.uid == "" then quit t else give tt (record t { users = K.set u.uid u t.users })

  unfoldable pub get_user_claim : String → Go (Db K) (Option UserClaimRecord)
  get_user_claim claim t = if claim == "" then quit t else give (K.get claim t.claims) t

  abbrev pub get_pool : String → Db K → Option PoolRecord
  get_pool pool t = K.get pool t.pools

  abbrev pub list_pools : String → Db K → List String
  list_pools pattern t = K.scan pattern t.pools

  -- The first directory that belongs to the pool, or "".
  unfoldable pub find_directory : String → List String → Db K → String
  find_directory pool [] t = ""
  find_directory pool (path ∷ paths) t =
      let rest = find_directory pool paths t in
      elim (K.get path t.directories) [
        | none ↦ rest
        | some dir ↦ if dir.pool == pool then path else rest
      ]

  abbrev pub find_bucket_directory_of_pool : String → Db K → String
  find_bucket_directory_of_pool pool t = find_directory pool (K.scan "*" t.directories) t

  abbrev pub delete_bucket_directory_checking : String → Db K → Db K
  delete_bucket_directory_checking path t = record t { directories = K.del path t.directories }

  abbrev pub get_approximate_state : String → Db K → Option ApproximateStateRecord
  get_approximate_state pool t = K.get pool t.states

  -- The records of the Multiplexers that are there.
  unfoldable pub list_mux : List String → Db K → List MuxRecord
  list_mux [] t = []
  list_mux (ep ∷ eps) t =
      let rest = list_mux eps t in elim (K.get ep t.muxs) [ none ↦ rest | some mux ↦ mux ∷ rest ]

  abbrev pub list_mux_eps : Db K → List MuxRecord
  list_mux_eps t = list_mux (K.scan "*" t.muxs) t

  abbrev pub get_bucket : String → Db K → Option BucketRecord
  get_bucket bucket t = K.get bucket t.buckets

  -- SETNX: a bucket that is there is left as it is. The second part is the pool that has it.
  abbrev pub set_ex_bucket : String → BucketRecord → Db K → (Option String) × Db K
  set_ex_bucket bucket d t = elim (get_bucket bucket t) [
    | none ↦ (none, record t { buckets = K.set bucket d t.buckets })
    | some holder ↦ (some holder.pool, t)
  ]

  -- DEL: whether there was an entry.
  abbrev pub delete_bucket_checking : String → Db K → Bool × Db K
  delete_bucket_checking bucket t =
      (is_some (get_bucket bucket t), record t { buckets = K.del bucket t.buckets })

  -- The loop of LIST_BUCKETS; nothing when its assertion on a key fails.
  unfoldable pub collect_buckets : String → List String → Db K → Option (List BucketRecord)
  collect_buckets pool [] t = some []
  collect_buckets pool (key ∷ keys) t =
      let rest = collect_buckets pool keys t in
      elim (get_bucket key t) [
        | none ↦ rest
        | some d ↦
            if d.bucket == key
            then (if (pool == "") || (d.pool == pool) then put_first d rest else rest)
            else none
      ]

  abbrev pub list_buckets : String → Db K → Option (List BucketRecord)
  list_buckets pool t = collect_buckets pool (K.scan "*" t.buckets) t

  abbrev pub get_secret : String → Db K → Option SecretRecord
  get_secret key t = K.get key t.secrets

  abbrev pub delete_secret_key_checking : String → Db K → Bool × Db K
  delete_secret_key_checking key t =
      (is_some (get_secret key t), record t { secrets = K.del key t.secrets })

  -- The loop of LIST_SECRETS_OF_POOL.
  unfoldable pub collect_secrets : String → List String → Db K → List SecretRecord
  collect_secrets pool [] t = []
  collect_secrets pool (key ∷ keys) t =
      let rest = collect_secrets pool keys t in
      elim (get_secret key t) [ none ↦ rest | some d ↦ if d.pool == pool then d ∷ rest else rest ]

  abbrev pub list_secrets_of_pool : String → Db K → List SecretRecord
  list_secrets_of_pool pool t = collect_secrets pool (K.scan "*" t.secrets) t

  abbrev pub get_csrf_token : String → Db K → Option CsrfTokenRecord
  get_csrf_token uid t = K.get uid t.csrf_tokens
