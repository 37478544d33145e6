-- ===== src/Reg/Pools.antt =====
-- The description of a pool gathered from the tables (v2/lens3/poolprop.go), the state of a pool
-- (v2/lens3/multiplexer.go), and the removal of a pool (v2/lens3/registrar.go).
use lens.Prelude.{
  ℕ, ◌*◌, String, Bool, true, false, not, ◌&&◌, Option, none, some, List, [], ◌∷◌, ltb, ◌==◌,
  if◌then◌else◌,
}
use lens.Reg.KeyVal.{KeyVal}
use lens.Reg.Flow.{Go, give, gets, crash, quit, modify, assert_fatal, ◌>>=◌, ◌>>◌}
use lens.Reg.Records.{
  Db, UserRecord, PoolRecord, PoolState, ready, disabled, suspended, inoperable, BucketRecord,
  SecretRecord, PoolProp,
}
use lens.Reg.Table.{
  get_user, get_pool, find_bucket_directory_of_pool, delete_bucket_directory_checking,
  get_approximate_state, delete_bucket_checking, list_buckets, delete_secret_key_checking,
  list_secrets_of_pool,
}
use lens.Reg.World.{World, second}

-- time.Now().Before(time.Unix(expiration, 0))
abbrev pub is_before : World → ℕ → Bool
is_before w expiration = ltb w.now (expiration * second)

module _ (K : KeyVal) (w : World) where
  unfoldable pub check_user_is_active : String → Db K → Bool
  check_user_is_active uid t = elim (get_user K uid t) [
    | none ↦ false
    | some ui ↦ ui.enabled && is_before w ui.expiration_time && w.account uid
  ]

  unfoldable pub check_pool_is_usable : PoolRecord → Db K → PoolState × String
  unfolding check_user_is_active
  check_pool_is_usable pooldata t =
      if pooldata.inoperable
      then (inoperable, pooldata.reason)
      else if not (check_user_is_active pooldata.owner_uid t)
      then (disabled, "user inactive")
      else if not pooldata.enabled
      then (disabled, "pool offline")
      else if not (is_before w pooldata.expiration_time)
      then (disabled, "pool expired")
      else (ready, "-")

  unfoldable pub check_pool_is_suspened : String → Go (Db K) (PoolState × String)
  check_pool_is_suspened pool t = elim (get_approximate_state K pool t) [
    | none ↦ give (ready, "-") t
    | some state ↦ elim state.state [
      | ready ↦ give (state.state, state.reason) t
      | suspended ↦ give (state.state, state.reason) t
      | _ ↦ quit t
    ]
  ]

  unfoldable pub combine_pool_state :
      PoolState × String → PoolState × String → Go (Db K) (PoolState × String)
  combine_pool_state (ready, reason) (suspended, other) = give (suspended, other)
  combine_pool_state (ready, reason) (_, other) = give (ready, reason)
  combine_pool_state (disabled, reason) _ = give (disabled, reason)
  combine_pool_state (inoperable, reason) _ = give (inoperable, reason)
  combine_pool_state (_, reason) _ = quit

  unfoldable pub delete_buckets : String → List BucketRecord → Go (Db K) Unit
  delete_buckets pool [] = give tt
  delete_buckets pool (b ∷ bs) = do
    assert_fatal (b.pool == pool)
    modify (λ t. (delete_bucket_checking K b.bucket t).1)
    delete_buckets pool bs

  unfoldable pub delete_secrets : String → List SecretRecord → Go (Db K) Unit
  delete_secrets pool [] = give tt
  delete_secrets pool (k ∷ ks) = do
    assert_fatal (k.pool == pool)
    modify (λ t. (delete_secret_key_checking K k.access_key t).1)
    delete_secrets pool ks

  unfoldable pub delete_directory : String → Go (Db K) Unit
  delete_directory path =
      if path == "" then give tt else modify (delete_bucket_directory_checking K path)

  -- Without the entries of the pool itself: its state, its timestamp, its record and its name.
  unfoldable pub delete_entries : String → Db K → Db K
  delete_entries pool t = record t {
    states = K.del pool t.states;
    pool_timestamps = K.del pool t.pool_timestamps;
    pools = K.del pool t.pools;
    pool_names = K.del pool t.pool_names;
  }

  unfoldable pub deregister_pool_by_prop : PoolProp → Go (Db K) Unit
  deregister_pool_by_prop d = do
    delete_directory d.pool_record.bucket_directory
    delete_buckets d.pool_record.pool d.buckets
    delete_secrets d.pool_record.pool d.secrets
    modify (delete_entries d.pool_record.pool)

  unfoldable pub all_buckets : String → Go (Db K) (List BucketRecord)
  all_buckets pool t = elim (list_buckets K pool t) [ none ↦ quit t | some bkts ↦ give bkts t ]

  -- The record of the owner; there is a test for its absence, but it is used all the same.
  unfoldable pub owner_record : String → Go (Db K) UserRecord
  owner_record uid t = elim (get_user K uid t) [ none ↦ crash t | some u ↦ give u t ]

  -- A description that is consistent with the directories is given; else the pool is removed.
  unfoldable pub settle : Bool → PoolProp → Go (Db K) (Option PoolProp)
  settle true d = give (some d)
  settle false d = do deregister_pool_by_prop d; give none

  unfoldable pub gather_from : String → PoolRecord → Go (Db K) (Option PoolProp)
  gather_from pool pooldata = do
    assert_fatal (pooldata.pool == pool)
    bd ← gets (find_bucket_directory_of_pool K pool)
    bkts ← all_buckets pool
    keys ← gets (list_secrets_of_pool K pool)
    u ← owner_record pooldata.owner_uid
    usable ← gets (check_pool_is_usable pooldata)
    suspension ← check_pool_is_suspened pool
    state ← combine_pool_state usable suspension
    settle (pooldata.bucket_directory == bd) (record {
      pool_record = pooldata;
      approximate_state_record = record {
        pool = pool;
        state = state.0;
        reason = state.1;
        timestamp = 0;
      };
      user_record = u;
      buckets = bkts;
      secrets = keys;
    })

  unfoldable pub gather_pool_prop : String → Go (Db K) (Option PoolProp)
  gather_pool_prop pool t = elim (get_pool K pool t) [
    | none ↦ give none t
    | some pooldata ↦ gather_from pool pooldata t
  ]

  unfoldable pub deregister_found : Option PoolProp → Go (Db K) Bool
  deregister_found none = give false
  deregister_found (some d) = do deregister_pool_by_prop d; give true

  unfoldable pub deregister_pool : String → Go (Db K) Bool
  deregister_pool pool = do found ← gather_pool_prop pool; deregister_found found
