-- ===== src/Reg/Isolation.antt =====
-- What a request leaves of the pools that it is not about: the relation on the tables, and how it
-- follows for code that is put together.
pub mod Entries
pub mod Removal
pub mod Gathering
pub mod Accounts
pub mod Rights
pub mod Pieces
pub mod Calls
use lens.Prelude.{
  ℕ, ap, String, Bool, true, false, ◌≡◌, refl, sym, ◌∙◌, Option, none, some, arith, ◌==◌, eq_iff,
  if◌then◌else◌,
}
use lens.Reg.KeyVal.{KeyVal}
use lens.Reg.Flow.{Outcome, returned, refused, crashed, quits, Go, follow, ◌>>=◌}
use lens.Reg.Flow.Inversion.{read_first}
use lens.Reg.Records.{Db, BucketRecord, SecretRecord}

module _ (K : KeyVal) where
  -- The constraint on the table of access keys.
  unfoldable pub IsKeyed : Db K → Type 0
  IsKeyed t = (key : String) (d : SecretRecord) → K.get key t.secrets ≡ some d → d.access_key ≡ key

  -- The record of a pool, its buckets and its access keys are as before: none is gone or changed,
  -- and none is new.
  pub record Spared (pool : String) (t t' : Db K) : Type 0 where
    pub at_pool : K.get pool t'.pools ≡ K.get pool t.pools
    pub at_bucket :
        (name : String) (b : BucketRecord)
        → K.get name t.buckets ≡ some b
        → b.pool ≡ pool
        → K.get name t'.buckets ≡ some b
    pub at_secret :
        (key : String) (d : SecretRecord)
        → K.get key t.secrets ≡ some d
        → d.pool ≡ pool
        → K.get key t'.secrets ≡ some d
    pub old_bucket :
        (name : String) (b : BucketRecord)
        → K.get name t'.buckets ≡ some b
        → b.pool ≡ pool
        → K.get name t.buckets ≡ some b
    pub old_secret :
        (key : String) (d : SecretRecord)
        → K.get key t'.secrets ≡ some d
        → d.pool ≡ pool
        → K.get key t.secrets ≡ some d

  module _ (pool : String) where
    unfoldable pub Leaves : Db K → Db K → Type 0
    Leaves t t' = IsKeyed t → IsKeyed t' × Spared pool t t'

    pub Spared-refl : (t : Db K) → Spared pool t t
    Spared-refl t = record {
      at_pool = refl;
      at_bucket = λ name b e p. e;
      at_secret = λ key d e p. e;
      old_bucket = λ name b e p. e;
      old_secret = λ key d e p. e;
    }

    pub Spared-trans : (t t' t'' : Db K) → Spared pool t t' → Spared pool t' t'' → Spared pool t t''
    Spared-trans t t' t'' h k = record {
      at_pool = k.at_pool ∙ h.at_pool;
      at_bucket = λ name b e p. k.at_bucket name b (h.at_bucket name b e p) p;
      at_secret = λ key d e p. k.at_secret key d (h.at_secret key d e p) p;
      old_bucket = λ name b e p. h.old_bucket name b (k.old_bucket name b e p) p;
      old_secret = λ key d e p. h.old_secret key d (k.old_secret key d e p) p;
    }

    pub Leaves-same : (t : Db K) → Leaves t t
    unfolding Leaves
    Leaves-same t keyed = (keyed, Spared-refl t)

    pub Leaves-step : (t t' t'' : Db K) → Leaves t t' → Leaves t' t'' → Leaves t t''
    unfolding Leaves
    Leaves-step t t' t'' h k keyed =
        let (keyed', left) = h keyed in
        let (keyed'', left') = k keyed' in (keyed'', Spared-trans t t' t'' left left')

    pub Leaves-keyed : (t t' : Db K) → (IsKeyed t → Leaves t t') → Leaves t t'
    unfolding Leaves
    Leaves-keyed t t' h keyed = h keyed keyed

    Leaves-follow :
        {A B : Type 0} (f : A → Go (Db K) B) (t t' : Db K) (r : Outcome A)
        → Leaves t t'
        → ((a : A) → r ≡ returned a → Leaves t' (f a t').1)
        → Leaves t (follow r f t').1
    Leaves-follow f t t' (returned a) h k = Leaves-step t t' (f a t').1 h (k a refl)
    Leaves-follow f t t' (refused c m) h k = h
    Leaves-follow f t t' crashed h k = h
    Leaves-follow f t t' quits h k = h

    pub Leaves-bind :
        {A B : Type 0} (m : Go (Db K) A) (f : A → Go (Db K) B) (t : Db K)
        → Leaves t (m t).1
        → ((a : A) (t' : Db K) → m t ≡ (returned a, t') → Leaves t' (f a t').1)
        → Leaves t ((m >>= f) t).1
    unfolding ◌>>=◌
    Leaves-bind m f t h k =
        Leaves-follow f t (m t).1 (m t).0 h (λ a e. k a (m t).1 (ap (λ o. (o, (m t).1)) e))

    pub Leaves-read :
        {A B : Type 0} (m : Go (Db K) A) (f : A → Go (Db K) B) (t : Db K)
        → (m t).1 ≡ t
        → ((a : A) → (m t).0 ≡ returned a → Leaves t (f a t).1)
        → Leaves t ((m >>= f) t).1
    Leaves-read m f t same k =
        read_first (λ r. Leaves t r.1) m f t same (λ _ _. Leaves-same t) (Leaves-same t)
          (Leaves-same t) k

    pub Leaves-if :
        {A : Type 0} (b : Bool) (m n : Go (Db K) A) (t : Db K)
        → Leaves t (m t).1
        → Leaves t (n t).1
        → Leaves t ((if b then m else n) t).1
    Leaves-if true m n t h k = h
    Leaves-if false m n t h k = k
