-- ===== src/Reg/Isolation/Entries.antt =====
-- One entry that is set or deleted in a table, and the others.
use lens.Prelude.{String, ◌≡◌, ◌≢◌, refl, sym, ap, ◌∙◌, none, some, arith, eq_iff}
use lens.Reg.KeyVal.{KeyVal}
use lens.Reg.Records.{Db, BucketRecord, SecretRecord}
use lens.Reg.Isolation.{IsKeyed, Leaves}

module _ (K : KeyVal) {V : Type 0} where
  pub del-other :
      (k j : String) (m : K.Map V) (v : V)
      → k ≢ j
      → K.get j m ≡ some v
      → K.get j (K.del k m) ≡ some v
  del-other k j m v apart e = ground (arith, K.get-del k j m, eq_iff k j, apart, e)

  pub del-back :
      (k j : String) (m : K.Map V) (v : V) → K.get j (K.del k m) ≡ some v → K.get j m ≡ some v
  del-back k j m v e = ground (arith, K.get-del k j m, e)

  pub set-other :
      (k j : String) (m : K.Map V) (u v : V)
      → K.get k m ≡ none
      → K.get j m ≡ some v
      → K.get j (K.set k u m) ≡ some v
  set-other k j m u v free e = ground (arith, K.get-set k j u m, eq_iff k j, free, e)

  pub set-back :
      (k j : String) (m : K.Map V) (u v : V)
      → u ≢ v
      → K.get j (K.set k u m) ≡ some v
      → K.get j m ≡ some v
  set-back k j m u v differ e = ground (arith, K.get-set k j u m, differ, e)

module _ (K : KeyVal) where
  -- The entry of the bucket, when there is one, is of the pool; the same for keys.
  unfoldable pub BucketOf : String → Db K → BucketRecord → Type 0
  BucketOf pool t b = (c : BucketRecord) → K.get b.bucket t.buckets ≡ some c → c.pool ≡ pool

  unfoldable pub SecretOf : String → Db K → SecretRecord → Type 0
  SecretOf pool t d = (c : SecretRecord) → K.get d.access_key t.secrets ≡ some c → c.pool ≡ pool

  module _ (other pool : String) (apart : other ≢ pool) (t : Db K) where
    pub del_bucket-Leaves :
        (name : String)
        → ((c : BucketRecord) → K.get name t.buckets ≡ some c → c.pool ≡ pool)
        → Leaves K other t (record t { buckets = K.del name t.buckets })
    unfolding Leaves IsKeyed
    del_bucket-Leaves name mine keyed = (
      keyed,
      record {
        at_pool = refl;
        at_bucket =
            λ j c e p. del-other K name j t.buckets c (λ q. apart (sym p ∙ mine c (rw q e))) e;
        at_secret = λ key d e p. e;
        old_bucket = λ j c e p. del-back K name j t.buckets c e;
        old_secret = λ key d e p. e;
      },
    )

    pub del_secret-Leaves :
        (name : String)
        → ((c : SecretRecord) → K.get name t.secrets ≡ some c → c.pool ≡ pool)
        → Leaves K other t (record t { secrets = K.del name t.secrets })
    unfolding Leaves IsKeyed
    del_secret-Leaves name mine keyed = (
      (λ key d e. keyed key d (del-back K name key t.secrets d e)),
      record {
        at_pool = refl;
        at_bucket = λ j c e p. e;
        at_secret =
            λ j c e p. del-other K name j t.secrets c (λ q. apart (sym p ∙ mine c (rw q e))) e;
        old_bucket = λ j c e p. e;
        old_secret = λ j c e p. del-back K name j t.secrets c e;
      },
    )

  module _ (other : String) (t : Db K) where
    pub set_bucket-Leaves :
        (name : String) (b : BucketRecord)
        → K.get name t.buckets ≡ none
        → b.pool ≢ other
        → Leaves K other t (record t { buckets = K.set name b t.buckets })
    unfolding Leaves IsKeyed
    set_bucket-Leaves name b free apart keyed = (
      keyed,
      record {
        at_pool = refl;
        at_bucket = λ j c e p. set-other K name j t.buckets b c free e;
        at_secret = λ key d e p. e;
        old_bucket = λ j c e p.
            set-back K name j t.buckets b c (λ q. apart (ap (λ (x : BucketRecord). x.pool) q ∙ p))
              e;
        old_secret = λ key d e p. e;
      },
    )

    pub set_secret-Leaves :
        (d : SecretRecord)
        → K.get d.access_key t.secrets ≡ none
        → d.pool ≢ other
        → Leaves K other t (record t { secrets = K.set d.access_key d t.secrets })
    unfolding Leaves IsKeyed
    set_secret-Leaves d free apart keyed = (
      (λ key c e.
          ground (
            arith,
            K.get-set d.access_key key d t.secrets,
            eq_iff d.access_key key,
            e,
            keyed key c,
          )),
      record {
        at_pool = refl;
        at_bucket = λ j c e p. e;
        at_secret = λ j c e p. set-other K d.access_key j t.secrets d c free e;
        old_bucket = λ j c e p. e;
        old_secret = λ j c e p.
            set-back K d.access_key j t.secrets d c
              (λ q. apart (ap (λ (x : SecretRecord). x.pool) q ∙ p)) e;
      },
    )
