-- ===== src/Reg/Isolation/Removal.antt =====
-- The removal of a pool: what is deleted is of that pool.
use lens.Prelude.{
  String, ◌≡◌, ◌≢◌, some, List, [], ◌∷◌, arith, ◌==◌, eq_iff, All, Bool-cases, inl, inr,
}
use lens.Reg.KeyVal.{KeyVal}
use lens.Reg.Flow.{Outcome, returned, refused, crashed, quits, Go, follow, ◌>>=◌}
use lens.Reg.Records.{Db, BucketRecord, SecretRecord, PoolProp}
use lens.Reg.World.{World}
use lens.Reg.Pools.{
  delete_buckets, delete_secrets, delete_directory, delete_entries, deregister_pool_by_prop,
}
use lens.Reg.Isolation.{IsKeyed, Leaves, Leaves-same, Leaves-step}
use lens.Reg.Isolation.Entries.{BucketOf, SecretOf, del-back, del_bucket-Leaves, del_secret-Leaves}

-- An invariant of code that is put together.
pub keeps-bind :
    {S A B : Type 0} (P : S → Type 0) (m : Go S A) (f : A → Go S B) (s : S)
    → P (m s).1
    → ((a : A) (s' : S) → P s' → P (f a s').1)
    → P ((m >>= f) s).1
unfolding ◌>>=◌
keeps-bind {S} {A} P m f s h k = go (m s).0 (m s).1 h
  where
    go : (o : Outcome A) (s' : S) → P s' → P (follow o f s').1
    go (returned a) s' h = k a s' h
    go (refused c t) s' h = h
    go crashed s' h = h
    go quits s' h = h

module _ (K : KeyVal) where
  -- There are no other buckets and keys than before.
  record Shrinks (t t' : Db K) : Type 0 where
    at_bucket :
        (name : String) (b : BucketRecord)
        → K.get name t'.buckets ≡ some b
        → K.get name t.buckets ≡ some b
    at_secret :
        (key : String) (d : SecretRecord)
        → K.get key t'.secrets ≡ some d
        → K.get key t.secrets ≡ some d

  module _ (w : World) (other pool : String) (apart : other ≢ pool) (t : Db K) where
    -- What was left and what is there, seen from the tables at the beginning.
    Pruned : Db K → Type 0
    Pruned t' = Leaves K other t t' × Shrinks t t'

    Pruned-refl : Pruned t
    unfolding Pruned
    Pruned-refl =
        (Leaves-same K other t, record { at_bucket = λ name b e. e; at_secret = λ key d e. e })

    Pruned-bucket :
        (b : BucketRecord) (t' : Db K)
        → BucketOf K pool t b
        → Pruned t'
        → Pruned (record t' { buckets = K.del b.bucket t'.buckets })
    unfolding Pruned BucketOf
    Pruned-bucket b t' mine (left, less) = (
      Leaves-step K other t t' _ left
          (del_bucket-Leaves K other pool apart t' b.bucket (λ c e. mine c (less.at_bucket _ c e))),
      record {
        at_bucket = λ name c e. less.at_bucket name c (del-back K b.bucket name t'.buckets c e);
        at_secret = less.at_secret;
      },
    )

    Pruned-secret :
        (d : SecretRecord) (t' : Db K)
        → SecretOf K pool t d
        → Pruned t'
        → Pruned (record t' { secrets = K.del d.access_key t'.secrets })
    unfolding Pruned SecretOf
    Pruned-secret d t' mine (left, less) = (
      Leaves-step K other t t' _ left (
          del_secret-Leaves K other pool apart t' d.access_key
            (λ c e. mine c (less.at_secret _ c e))),
      record {
        at_bucket = less.at_bucket;
        at_secret = λ key c e. less.at_secret key c (del-back K d.access_key key t'.secrets c e);
      },
    )

    Pruned-delete_buckets :
        (bs : List BucketRecord) (t' : Db K)
        → All (BucketOf K pool t) bs
        → Pruned t'
        → Pruned (delete_buckets K w pool bs t').1
    unfolding delete_buckets ◌>>=◌
    Pruned-delete_buckets [] t' all h = h
    Pruned-delete_buckets (b ∷ bs) t' (p, all) h = elim (Bool-cases (b.pool == pool)) [
      | inl e ↦ rw e (Pruned-delete_buckets bs _ all (Pruned-bucket b t' p h))
      | inr e ↦ rw e h
    ]

    Pruned-delete_secrets :
        (ks : List SecretRecord) (t' : Db K)
        → All (SecretOf K pool t) ks
        → Pruned t'
        → Pruned (delete_secrets K w pool ks t').1
    unfolding delete_secrets ◌>>=◌
    Pruned-delete_secrets [] t' all h = h
    Pruned-delete_secrets (d ∷ ks) t' (p, all) h = elim (Bool-cases (d.pool == pool)) [
      | inl e ↦ rw e (Pruned-delete_secrets ks _ all (Pruned-secret d t' p h))
      | inr e ↦ rw e h
    ]

    Pruned-delete_directory :
        (path : String) (t' : Db K) → Pruned t' → Pruned (delete_directory K w path t').1
    unfolding delete_directory Pruned Leaves IsKeyed
    Pruned-delete_directory path t' h = elim (Bool-cases (path == "")) [
      | inl e ↦ rw e h
      | inr e ↦ rw e (directories h)
    ]
      where
        directories : Pruned t' → Pruned (record t' { directories = K.del path t'.directories })
        directories (left, less) = (
          (λ keyed.
              let (keyed', spared) = left keyed in
              (
                keyed',
                record {
                  at_pool = spared.at_pool;
                  at_bucket = spared.at_bucket;
                  at_secret = spared.at_secret;
                  old_bucket = spared.old_bucket;
                  old_secret = spared.old_secret;
                },
              )),
          record { at_bucket = less.at_bucket; at_secret = less.at_secret },
        )

    Pruned-delete_entries : (t' : Db K) → Pruned t' → Pruned (delete_entries K w pool t')
    unfolding delete_entries Pruned Leaves IsKeyed
    Pruned-delete_entries t' (left, less) = (
      (λ keyed.
          let (keyed', spared) = left keyed in
          (
            keyed',
            record {
              at_pool =
                  ground (
                    arith,
                    K.get-del pool other t'.pools,
                    eq_iff pool other,
                    apart,
                    spared.at_pool,
                  );
              at_bucket = spared.at_bucket;
              at_secret = spared.at_secret;
              old_bucket = spared.old_bucket;
              old_secret = spared.old_secret;
            },
          )),
      record { at_bucket = less.at_bucket; at_secret = less.at_secret },
    )

    pub deregister-Leaves :
        (d : PoolProp)
        → d.pool_record.pool ≡ pool
        → All (BucketOf K pool t) d.buckets
        → All (SecretOf K pool t) d.secrets
        → Leaves K other t (deregister_pool_by_prop K w d t).1
    unfolding deregister_pool_by_prop Pruned
    deregister-Leaves d e bs ks =
        rw e
          (keeps-bind Pruned (delete_directory K w d.pool_record.bucket_directory) _ t
            (Pruned-delete_directory _ t Pruned-refl)
            (λ _ t1 h1.
              keeps-bind Pruned (delete_buckets K w pool d.buckets) _ t1
                (Pruned-delete_buckets d.buckets t1 bs h1)
                (λ _ t2 h2.
                  keeps-bind Pruned (delete_secrets K w pool d.secrets) _ t2
                    (Pruned-delete_secrets d.secrets t2 ks h2)
                    (λ _ t3 h3. Pruned-delete_entries t3 h3)))).0
