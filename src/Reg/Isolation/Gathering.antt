-- ===== src/Reg/Isolation/Gathering.antt =====
-- Gathering the description of a pool, with the removal of an inconsistent one, leaves the other
-- pools; so does the removal of a pool that is asked for.
use lens.Prelude.{
  String, Bool, true, false, ◌≡◌, ◌≢◌, sym, Option, none, some, List, [], ◌∷◌, arith, ◌==◌, eq_iff,
  All, Bool-cases, inl, inr, subst, not-empty, Option-cases,
}
use lens.Reg.KeyVal.{KeyVal}
use lens.Reg.Flow.{Outcome, returned, refused, crashed, quits, follow, give, Go, ◌>>=◌}
use lens.Reg.Records.{Db, BucketRecord, PoolProp, PoolRecord}
use lens.Reg.World.{World}
use lens.Reg.Table.{put_first, collect_buckets, list_buckets, collect_secrets}
use lens.Reg.Pools.{
  deregister_pool_by_prop, settle, gather_pool_prop, deregister_found, deregister_pool,
}
use lens.Reg.Gathered.{Fits, gather_pool_prop-rule}
use lens.Reg.Isolation.{IsKeyed, Leaves, Leaves-same, Leaves-bind, Leaves-keyed}
use lens.Reg.Isolation.Entries.{BucketOf, SecretOf}
use lens.Reg.Isolation.Removal.{deregister-Leaves}

module _ (K : KeyVal) (w : World) (pool : String) (named : pool ≢ "") (t : Db K) where
  AllOf : Option (List BucketRecord) → Type 0
  AllOf none = Unit
  AllOf (some bs) = All (BucketOf K pool t) bs

  AllOf-put_first :
      (b : BucketRecord) (o : Option (List BucketRecord))
      → BucketOf K pool t b
      → AllOf o
      → AllOf (put_first b o)
  unfolding AllOf
  AllOf-put_first b none p h = h
  AllOf-put_first b (some bs) p h = (p, h)

  BucketOf-found :
      (key : String) (d : BucketRecord)
      → K.get key t.buckets ≡ some d
      → (d.bucket == key) ≡ true
      → (d.pool == pool) ≡ true
      → BucketOf K pool t d
  unfolding BucketOf
  BucketOf-found key d e q p c f =
      ground (arith, e, f, eq_iff d.bucket key, q, eq_iff d.pool pool, p)

  collect_buckets-AllOf : (keys : List String) → AllOf (collect_buckets K pool keys t)
  unfolding collect_buckets AllOf
  collect_buckets-AllOf [] = tt
  collect_buckets-AllOf (key ∷ keys) = elim (Option-cases (K.get key t.buckets)) [
    | inl e ↦ rw (e, AllOf) (collect_buckets-AllOf keys)
    | inr (d, e) ↦ elim (Bool-cases (d.bucket == key)) [
      | inl q ↦ elim (Bool-cases (d.pool == pool)) [
        | inl p ↦
            rw (e, q, not-empty named, p, AllOf)
              (AllOf-put_first d _ (BucketOf-found key d e q p) (collect_buckets-AllOf keys))
        | inr p ↦ rw (e, q, not-empty named, p, AllOf) (collect_buckets-AllOf keys)
      ]
      | inr q ↦ rw (e, q, AllOf) tt
    ]
  ]

  collect_secrets-SecretOf :
      IsKeyed K t → (keys : List String) → All (SecretOf K pool t) (collect_secrets K pool keys t)
  unfolding collect_secrets IsKeyed SecretOf
  collect_secrets-SecretOf keyed [] = tt
  collect_secrets-SecretOf keyed (key ∷ keys) = elim (Option-cases (K.get key t.secrets)) [
    | inl e ↦ rw (e, All) (collect_secrets-SecretOf keyed keys)
    | inr (d, e) ↦ elim (Bool-cases (d.pool == pool)) [
      | inl p ↦
          rw (e, p, All)
            (
              (λ c f. ground (arith, e, f, keyed key d e, eq_iff d.pool pool, p)),
              collect_secrets-SecretOf keyed keys,
            )
      | inr p ↦ rw (e, p, All) (collect_secrets-SecretOf keyed keys)
    ]
  ]

  list_buckets-BucketOf :
      (bs : List BucketRecord) → list_buckets K pool t ≡ some bs → All (BucketOf K pool t) bs
  unfolding AllOf
  list_buckets-BucketOf bs e = subst (λ o. AllOf o) e (collect_buckets-AllOf (K.scan "*" t.buckets))

module _ (K : KeyVal) (w : World) (other pool : String) (apart : other ≢ pool)
    (named : pool ≢ "") where
  -- What is known of a description that is given, at the tables that are left.
  Describes : Outcome (Option PoolProp) × Db K → Type 0
  Describes (returned (some d), t) =
      (d.pool_record.pool ≡ pool)
      × All (BucketOf K pool t) d.buckets
      × All (SecretOf K pool t) d.secrets
  Describes _ = Unit

  Gathers : Db K → Outcome (Option PoolProp) × Db K → Type 0
  Gathers t r = Leaves K other t r.1 × (IsKeyed K r.1 → Describes r)

  Describes-none :
      (m : Go (Db K) Unit) (t : Db K) → Describes ((m >>= λ _. give {A = Option PoolProp} none) t)
  unfolding Describes ◌>>=◌
  Describes-none m t = after (m t).0 (m t).1
    where
      after :
          (o : Outcome Unit) (t' : Db K)
          → Describes (follow o (λ _. give {A = Option PoolProp} none) t')
      after (returned tt) t' = tt
      after (refused c s) t' = tt
      after crashed t' = tt
      after quits t' = tt

  Gathers-none : (t : Db K) → Gathers t (returned none, t)
  unfolding Gathers Describes
  Gathers-none t = (Leaves-same K other t, λ _. tt)

  settle-Gathers :
      (b : Bool) (d : PoolProp) (t : Db K)
      → d.pool_record.pool ≡ pool
      → All (BucketOf K pool t) d.buckets
      → (IsKeyed K t → All (SecretOf K pool t) d.secrets)
      → Gathers t (settle K w b d t)
  unfolding settle Gathers Describes
  settle-Gathers true d t e bs ks = (Leaves-same K other t, (λ keyed. (e, bs, ks keyed)))
  settle-Gathers false d t e bs ks = (
    Leaves-keyed K other t _ (λ keyed.
        Leaves-bind K other (deregister_pool_by_prop K w d) _ t
          (deregister-Leaves K w other pool apart t d e bs (ks keyed))
          (λ a t' _. Leaves-same K other t')),
    (λ keyed. Describes-none (deregister_pool_by_prop K w d) t),
  )

  Fits-Gathers :
      (t : Db K) (b : Bool) (r : PoolRecord) (d : PoolProp)
      → Fits K w t pool r d
      → Gathers t (settle K w b d t)
  Fits-Gathers t b r d fits =
      settle-Gathers b d t fits.at_pool
        (list_buckets-BucketOf K w pool named t d.buckets fits.at_buckets)
        (λ keyed.
          subst (λ l. All (SecretOf K pool t) l) (sym fits.at_secrets)
            (collect_secrets-SecretOf K w pool named t keyed _))

  gather_pool_prop-Gathers : (t : Db K) → Gathers t (gather_pool_prop K w pool t)
  unfolding Gathers Describes
  gather_pool_prop-Gathers t =
      gather_pool_prop-rule K w t pool (λ r. Gathers t r) (λ _ _. stopped) stopped stopped
        (λ _. Gathers-none t) (λ b r d _ fits. Fits-Gathers t b r d fits)
    where
      stopped : Leaves K other t t × (IsKeyed K t → Unit {0})
      stopped = (Leaves-same K other t, λ _. tt)

  pub gather_pool_prop-Leaves : (t : Db K) → Leaves K other t (gather_pool_prop K w pool t).1
  unfolding Gathers
  gather_pool_prop-Leaves t = (gather_pool_prop-Gathers t).0

  deregister_found-Leaves :
      (found : Option PoolProp) (t : Db K)
      → (IsKeyed K t → Describes (returned found, t))
      → Leaves K other t (deregister_found K w found t).1
  unfolding Describes deregister_found
  deregister_found-Leaves none t h = Leaves-same K other t
  deregister_found-Leaves (some d) t h = Leaves-keyed K other t _ (λ keyed.
      let (e, bs, ks) = h keyed in
      Leaves-bind K other (deregister_pool_by_prop K w d) _ t
        (deregister-Leaves K w other pool apart t d e bs ks) (λ _ t' _. Leaves-same K other t'))

  pub deregister_pool-Leaves : (t : Db K) → Leaves K other t (deregister_pool K w pool t).1
  unfolding deregister_pool Gathers
  deregister_pool-Leaves t =
      Leaves-bind K other (gather_pool_prop K w pool) _ t (gather_pool_prop-Leaves t) (λ found t' e.
        deregister_found-Leaves found t'
          (subst (λ r. IsKeyed K r.1 → Describes r) e (gather_pool_prop-Gathers t).1))
