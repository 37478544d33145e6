-- ===== src/Reg/Handlers.antt =====
-- The handlers of v2/lens3/registrar.go for the requests on the pools that are there, their
-- buckets and their access keys. Each returns the data of its response.
use lens.Prelude.{
  ℕ, zero, suc, ◌+◌, String, Bool, Option, none, some, List, [], ◌∷◌, ◌==◌, if◌then◌else◌,
}
use lens.Ui.Spec.{Desc}
use lens.Reg.KeyVal.{KeyVal}
use lens.Reg.Flow.{Go, give, gets, quit, refuse, modify, ◌>>=◌, ◌>>◌}
use lens.Reg.Records.{Db, BucketRecord, SecretRecord, UserRecord, PoolProp}
use lens.Reg.Table.{
  is_some, get_pool, list_pools, set_ex_bucket, delete_bucket_checking, get_secret,
  delete_secret_key_checking,
}
use lens.Reg.World.{World, HttpRequest, Probe, probed, proxy_exc, failed, days, unix}
use lens.Reg.Desc.{copy_pool_prop_to_ui}
use lens.Reg.Pools.{gather_pool_prop, deregister_pool}
use lens.Reg.Access.{check_user_access}
use lens.Reg.Checks.{
  check_empty_arguments, bucket_arguments, secret_arguments, check_make_bucket_request,
  check_make_secret_request, check_bucket_owner, check_secret_owner,
}

module _ (K : KeyVal) (w : World) where
  unfoldable pub return_found : Option PoolProp → Go (Db K) Desc
  return_found none = refuse 500 "Bad pool state"
  return_found (some d) = give (copy_pool_prop_to_ui d)

  unfoldable pub return_pool_prop : String → Go (Db K) Desc
  return_pool_prop pool = do found ← gather_pool_prop K w pool; return_found found

  -- A description for the user that owns the pool.
  abbrev put_own : UserRecord → Option PoolProp → List Desc → List Desc
  put_own u none ds = ds
  put_own u (some d) ds =
      if d.pool_record.owner_uid == u.uid then copy_pool_prop_to_ui d ∷ ds else ds

  unfoldable pub gather_pools : UserRecord → List String → Go (Db K) (List Desc)
  gather_pools u [] = give []
  gather_pools u (name ∷ names) = do
    found ← gather_pool_prop K w name
    rest ← gather_pools u names
    give (put_own u found rest)

  unfoldable pub pool_list : String → List Desc → Go (Db K) (List Desc)
  pool_list pool [] = if pool == "" then give (w.sort_pools []) else refuse 404 "No pool"
  pool_list pool (d ∷ []) = give (w.sort_pools (d ∷ []))
  pool_list pool (d ∷ e ∷ ds) =
      if pool == ""
      then give (w.sort_pools (d ∷ e ∷ ds))
      else refuse 500 "(internal) Bad keyval-db, inconsistent"

  unfoldable pub list_pool : HttpRequest → String → Go (Db K) (List Desc)
  list_pool r pool = do
    u ← check_user_access K w r pool
    check_empty_arguments K w r
    namelist ← gets (list_pools K (if pool == "" then "*" else pool))
    poollist ← gather_pools u namelist
    pool_list pool poollist

  unfoldable pub delete_pool : HttpRequest → String → Go (Db K) Unit
  delete_pool r pool = do
    check_user_access K w r pool
    check_empty_arguments K w r
    ok ← deregister_pool K w pool
    if ok then give tt else refuse 404 "No pool"

  unfoldable pub register_bucket : String → BucketRecord → Go (Db K) Unit
  register_bucket name bucket t =
      let (holder, t') = set_ex_bucket K name bucket t in
      elim holder [ none ↦ give tt t' | some _ ↦ refuse 409 "Bucket already taken" t' ]

  -- The pool and its probe-key are needed for asking a Multiplexer.
  unfoldable pub probe_access_mux : String → Go (Db K) Probe
  probe_access_mux pool t = elim (get_pool K pool t) [
    | none ↦ quit t
    | some pooldata ↦ elim (get_secret K pooldata.probe_key t) [
      | none ↦ quit t
      | some _ ↦ give (w.probe pool) t
    ]
  ]

  -- The bucket is taken back when it is not made in the backend.
  unfoldable pub confirm_bucket : String → Probe → Go (Db K) Unit
  confirm_bucket name probed = give tt
  confirm_bucket name (proxy_exc code message) = do
    modify (λ t. (delete_bucket_checking K name t).1)
    refuse code message
  confirm_bucket name failed = do
    modify (λ t. (delete_bucket_checking K name t).1)
    refuse 502 "Bucket creation failed"

  unfoldable pub make_bucket : HttpRequest → String → Go (Db K) Desc
  make_bucket r pool = do
    check_user_access K w r pool
    args ← bucket_arguments K w r
    policy ← check_make_bucket_request K w args
    register_bucket args.bucket (record {
      pool = pool;
      bucket = args.bucket;
      bucket_policy = policy;
      expiration_time = unix (w.now + days w.conf.bucket_expiration_days);
      timestamp = unix w.now;
    })
    answer ← probe_access_mux pool
    confirm_bucket args.bucket answer
    return_pool_prop pool

  -- An entry that is gone meanwhile is an error.
  unfoldable pub deleted : String → (Db K → Bool × Db K) → Go (Db K) Unit
  deleted message delete t =
      let (ok, t') = delete t in if ok then give tt t' else refuse 404 message t'

  unfoldable pub delete_bucket : HttpRequest → String → String → Go (Db K) Desc
  delete_bucket r pool bucket = do
    check_user_access K w r pool
    check_bucket_owner K w pool bucket
    check_empty_arguments K w r
    deleted "No bucket" (delete_bucket_checking K bucket)
    return_pool_prop pool

  -- A key that is not taken yet, of those drawn from the i-th on.
  unfoldable pub set_with_unique_secret_key : ℕ → ℕ → SecretRecord → Go (Db K) Unit
  set_with_unique_secret_key zero i secret t = quit t
  set_with_unique_secret_key (suc n) i secret t =
      let id = w.access_keys i in
      let again = set_with_unique_secret_key n (i + 1) secret t in
      if is_some (get_secret K id t)
      then again
      else give tt (record t { secrets = K.set id (record secret { access_key = id }) t.secrets })

  abbrev limit_of_id_generation_loop : ℕ
  limit_of_id_generation_loop = 30

  unfoldable pub make_secret : HttpRequest → String → Go (Db K) Desc
  make_secret r pool = do
    check_user_access K w r pool
    args ← secret_arguments K w r
    policy ← check_make_secret_request K w args
    set_with_unique_secret_key limit_of_id_generation_loop 0 (record {
      pool = pool;
      access_key = "";
      secret_key = w.secret_key;
      secret_policy = policy;
      expiration_time = args.expiration_time;
      timestamp = unix w.now;
    })
    return_pool_prop pool

  unfoldable pub delete_secret : HttpRequest → String → String → Go (Db K) Desc
  delete_secret r pool secret = do
    check_user_access K w r pool
    check_secret_owner K w pool secret
    check_empty_arguments K w r
    deleted "Bad secret" (delete_secret_key_checking K secret)
    return_pool_prop pool
