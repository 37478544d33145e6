-- ===== src/Reg/Isolation/Pieces.antt =====
-- The steps of the handlers behind the check of the user, and what they leave of other pools.
use lens.Prelude.{
  ℕ, zero, suc, ◌+◌, String, ◌≡◌, ◌≢◌, sym, ap, Option, none, some, arith, eq_iff, inl, inr,
  Option-cases, subst,
}
use lens.Reg.KeyVal.{KeyVal}
use lens.Reg.Flow.{returned, ◌>>=◌}
use lens.Reg.Records.{Db, BucketRecord, SecretRecord, PoolProp}
use lens.Reg.World.{
  World, HttpRequest, MakeBucketRequest, MakeSecretRequest, Probe, probed, proxy_exc, failed,
}
use lens.Reg.Table.{delete_bucket_checking, delete_secret_key_checking}
use lens.Reg.Pools.{gather_pool_prop}
use lens.Reg.Checks.{
  check_empty_arguments, bucket_arguments, secret_arguments, check_make_bucket_request,
  check_make_secret_request, check_bucket_owner, check_secret_owner,
}
use lens.Reg.Handlers.{
  return_found, return_pool_prop, register_bucket, probe_access_mux, confirm_bucket, deleted,
  set_with_unique_secret_key,
}
use lens.Reg.Isolation.{Leaves, Leaves-same, Leaves-bind}
use lens.Reg.Isolation.Entries.{
  del_bucket-Leaves, del_secret-Leaves, set_bucket-Leaves, set_secret-Leaves,
}
use lens.Reg.Isolation.Gathering.{gather_pool_prop-Leaves}

module _ (K : KeyVal) (w : World) (t : Db K) where
  pub empty_arguments-same : (r : HttpRequest) → (check_empty_arguments K w r t).1 ≡ t
  unfolding check_empty_arguments
  empty_arguments-same r = ground arith

  pub bucket_arguments-same : (r : HttpRequest) → (bucket_arguments K w r t).1 ≡ t
  unfolding bucket_arguments
  bucket_arguments-same r = ground arith

  pub secret_arguments-same : (r : HttpRequest) → (secret_arguments K w r t).1 ≡ t
  unfolding secret_arguments
  secret_arguments-same r = ground arith

  pub make_bucket_request-same : (a : MakeBucketRequest) → (check_make_bucket_request K w a t).1 ≡ t
  unfolding check_make_bucket_request
  make_bucket_request-same a = ground arith

  pub make_secret_request-same : (a : MakeSecretRequest) → (check_make_secret_request K w a t).1 ≡ t
  unfolding check_make_secret_request
  make_secret_request-same a = ground arith

  pub probe-same : (pool : String) → (probe_access_mux K w pool t).1 ≡ t
  unfolding probe_access_mux
  probe-same pool = ground arith

  pub bucket_owner-same : (pool bucket : String) → (check_bucket_owner K w pool bucket t).1 ≡ t
  unfolding check_bucket_owner
  bucket_owner-same pool bucket = ground arith

  pub secret_owner-same : (pool secret : String) → (check_secret_owner K w pool secret t).1 ≡ t
  unfolding check_secret_owner
  secret_owner-same pool secret = ground arith

  pub bucket_owner-found :
      (pool bucket : String) (c : BucketRecord)
      → (check_bucket_owner K w pool bucket t).0 ≡ returned tt
      → K.get bucket t.buckets ≡ some c
      → c.pool ≡ pool
  unfolding check_bucket_owner
  bucket_owner-found pool bucket c h e = ground (arith, h, e, eq_iff c.pool pool)

  pub secret_owner-found :
      (pool secret : String) (c : SecretRecord)
      → (check_secret_owner K w pool secret t).0 ≡ returned tt
      → K.get secret t.secrets ≡ some c
      → c.pool ≡ pool
  unfolding check_secret_owner
  secret_owner-found pool secret c h e = ground (arith, h, e, eq_iff c.pool pool)

  pub register_bucket-found :
      (name : String) (b c : BucketRecord)
      → (register_bucket K w name b t).0 ≡ returned tt
      → K.get name (register_bucket K w name b t).1.buckets ≡ some c
      → c ≡ b
  unfolding register_bucket
  register_bucket-found name b c h e = elim (Option-cases (K.get name t.buckets)) [
    | inl f ↦ ground (arith, e, f, K.get-set name name b t.buckets, eq_iff name name)
    | inr (d, f) ↦ ground (arith, h, f)
  ]

  pub register_bucket-mine :
      (name : String) (b : BucketRecord) (t' : Db K)
      → register_bucket K w name b t ≡ (returned tt, t')
      → (c : BucketRecord) → K.get name t'.buckets ≡ some c
      → c.pool ≡ b.pool
  register_bucket-mine name b t' e c h =
      ap (λ (d : BucketRecord). d.pool)
        (register_bucket-found name b c (ap (λ p. p.0) e)
          (subst (λ s. K.get name s.buckets ≡ some c) (sym (ap (λ p. p.1) e)) h))

  register-free :
      (name : String) (b : BucketRecord)
      → K.get name t.buckets ≡ none
      → (register_bucket K w name b t).1 ≡ record t { buckets = K.set name b t.buckets }
  unfolding register_bucket
  register-free name b e = ground (arith, e)

  register-taken :
      (name : String) (b c : BucketRecord)
      → K.get name t.buckets ≡ some c
      → (register_bucket K w name b t).1 ≡ t
  unfolding register_bucket
  register-taken name b c e = ground (arith, e)

module _ (K : KeyVal) (w : World) (other : String) where
  pub register_bucket-Leaves :
      (name : String) (b : BucketRecord) (t : Db K)
      → b.pool ≢ other
      → Leaves K other t (register_bucket K w name b t).1
  register_bucket-Leaves name b t apart = elim (Option-cases (K.get name t.buckets)) [
    | inl e ↦ rw (register-free K w t name b e) (set_bucket-Leaves K other t name b e apart)
    | inr (c, e) ↦ rw (register-taken K w t name b c e) (Leaves-same K other t)
  ]

  pub unique_key-Leaves :
      (n i : ℕ) (d : SecretRecord) (t : Db K)
      → d.pool ≢ other
      → Leaves K other t (set_with_unique_secret_key K w n i d t).1
  unfolding set_with_unique_secret_key
  unique_key-Leaves zero i d t apart = Leaves-same K other t
  unique_key-Leaves (suc n) i d t apart = elim (Option-cases (K.get (w.access_keys i) t.secrets)) [
    | inl e ↦ rw e (set_secret-Leaves K other t (record d { access_key = w.access_keys i }) e apart)
    | inr (c, e) ↦ rw e (unique_key-Leaves n (i + 1) d t apart)
  ]

module _ (K : KeyVal) (w : World) (other pool : String) (apart : other ≢ pool) where
  pub confirm_bucket-Leaves :
      (name : String) (answer : Probe) (t : Db K)
      → ((c : BucketRecord) → K.get name t.buckets ≡ some c → c.pool ≡ pool)
      → Leaves K other t (confirm_bucket K w name answer t).1
  unfolding confirm_bucket ◌>>=◌
  confirm_bucket-Leaves name probed t mine = Leaves-same K other t
  confirm_bucket-Leaves name (proxy_exc c m) t mine =
      del_bucket-Leaves K other pool apart t name mine
  confirm_bucket-Leaves name failed t mine = del_bucket-Leaves K other pool apart t name mine

  pub deleted_bucket-Leaves :
      (m name : String) (t : Db K)
      → ((c : BucketRecord) → K.get name t.buckets ≡ some c → c.pool ≡ pool)
      → Leaves K other t (deleted K w m (delete_bucket_checking K name) t).1
  unfolding deleted
  deleted_bucket-Leaves m name t mine = elim (Option-cases (K.get name t.buckets)) [
    | inl e ↦ rw e (del_bucket-Leaves K other pool apart t name mine)
    | inr (c, e) ↦ rw e (del_bucket-Leaves K other pool apart t name mine)
  ]

  pub deleted_secret-Leaves :
      (m name : String) (t : Db K)
      → ((c : SecretRecord) → K.get name t.secrets ≡ some c → c.pool ≡ pool)
      → Leaves K other t (deleted K w m (delete_secret_key_checking K name) t).1
  unfolding deleted
  deleted_secret-Leaves m name t mine = elim (Option-cases (K.get name t.secrets)) [
    | inl e ↦ rw e (del_secret-Leaves K other pool apart t name mine)
    | inr (c, e) ↦ rw e (del_secret-Leaves K other pool apart t name mine)
  ]

  return_found-same : (found : Option PoolProp) (t : Db K) → (return_found K w found t).1 ≡ t
  unfolding return_found
  return_found-same found t = ground arith

  pub return_pool_prop-Leaves :
      pool ≢ "" → (t : Db K) → Leaves K other t (return_pool_prop K w pool t).1
  unfolding return_pool_prop
  return_pool_prop-Leaves named t =
      Leaves-bind K other (gather_pool_prop K w pool) _ t
        (gather_pool_prop-Leaves K w other pool apart named t)
        (λ found t' _. rw (return_found-same found t') (Leaves-same K other t'))
