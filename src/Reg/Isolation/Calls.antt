-- ===== src/Reg/Isolation/Calls.antt =====
-- The requests on a pool: one of them, and a sequence of them from any users.
use lens.Prelude.{
  arith, String, ◌≡◌, ◌≢◌, refl, sym, ap, List, [], ◌∷◌, ◌==◌, eq_iff, Bool-cases, All, inl, inr,
  ◌⊎◌, subst,
}
use lens.Reg.KeyVal.{KeyVal}
use lens.Reg.Flow.{Outcome, returned, refused, crashed, quits, Go, ◌>>=◌}
use lens.Reg.Records.{Db, UserRecord}
use lens.Reg.World.{World, HttpRequest}
use lens.Reg.Access.{check_user_access}
use lens.Reg.Handlers.{make_bucket, delete_bucket, make_secret, delete_secret, delete_pool}
use lens.Reg.Isolation.{
  IsKeyed, Spared, Leaves, Leaves-same, Leaves-bind, Leaves-read, Leaves-if, Spared-refl,
  Spared-trans,
}
use lens.Reg.Isolation.Accounts.{access-Leaves}
use lens.Reg.Isolation.Gathering.{deregister_pool-Leaves}
use lens.Reg.Isolation.Rights.{HasAccess, access-HasAccess}
use lens.Reg.Isolation.Pieces.{
  empty_arguments-same, bucket_arguments-same, secret_arguments-same, make_bucket_request-same,
  make_secret_request-same, probe-same, bucket_owner-same, secret_owner-same, bucket_owner-found,
  secret_owner-found, register_bucket-Leaves, register_bucket-mine, unique_key-Leaves,
  confirm_bucket-Leaves, deleted_bucket-Leaves, deleted_secret-Leaves, return_pool_prop-Leaves,
}

pub data Call : Type 0 where
  makes_bucket makes_secret deletes_pool : String → Call
  deletes_bucket deletes_secret : String → String → Call

abbrev pub pool_of : Call → String
pool_of (makes_bucket pool) = pool
pool_of (makes_secret pool) = pool
pool_of (deletes_pool pool) = pool
pool_of (deletes_bucket pool bucket) = pool
pool_of (deletes_secret pool secret) = pool

module _ (K : KeyVal) where
  -- The tables after a request.
  pub tables_after : World → HttpRequest → Call → Db K → Db K
  tables_after w r (makes_bucket pool) t = (make_bucket K w r pool t).1
  tables_after w r (makes_secret pool) t = (make_secret K w r pool t).1
  tables_after w r (deletes_pool pool) t = (delete_pool K w r pool t).1
  tables_after w r (deletes_bucket pool bucket) t = (delete_bucket K w r pool bucket t).1
  tables_after w r (deletes_secret pool secret) t = (delete_secret K w r pool secret t).1

  -- Either it is left, or the user has access to it.
  Guarded : World → HttpRequest → String → String → Db K → Db K → Type 0
  Guarded w r pool other t t' =
      IsKeyed K t' × (Spared K other t t' ⊎ ((pool ≡ other) × HasAccess K w r other t))

  module _ (w : World) (r : HttpRequest) (pool other : String) (named : pool ≢ "") (t : Db K) where
    Barred : Outcome UserRecord → Type 0
    Barred o = (u : UserRecord) → o ≢ returned u

    Outcome-cases : (o : Outcome UserRecord) → ((u : UserRecord) × (o ≡ returned u)) ⊎ Barred o
    unfolding Barred
    Outcome-cases (returned u) = inl (u, refl)
    Outcome-cases (refused c m) = inr (λ u e. ground (arith, e))
    Outcome-cases crashed = inr (λ u e. ground (arith, e))
    Outcome-cases quits = inr (λ u e. ground (arith, e))

    module _ {A : Type 0} (f : UserRecord → Go (Db K) A) where
      guarded-Leaves :
          (p : String)
          → ((u : UserRecord) (t' : Db K)
              → check_user_access K w r pool t ≡ (returned u, t')
              → Leaves K p t' (f u t').1)
          → Leaves K p t ((check_user_access K w r pool >>= f) t).1
      guarded-Leaves p rest =
          Leaves-bind K p (check_user_access K w r pool) f t (access-Leaves K w p r pool t) rest

      guard :
          ((p : String) → p ≢ pool → (u : UserRecord) (t' : Db K) → Leaves K p t' (f u t').1)
          → IsKeyed K t
          → Guarded w r pool other t ((check_user_access K w r pool >>= f) t).1
      unfolding Guarded Leaves Barred
      guard rest keyed = (
        (guarded-Leaves "" (λ u t' _. rest "" (λ e. named (sym e)) u t') keyed).0,
        elim (Bool-cases (pool == other)) [
          | inl same ↦ elim (Outcome-cases (check_user_access K w r pool t).0) [
            | inl (u, e) ↦ inr (
              (eq_iff pool other).0 same,
              subst (λ p. HasAccess K w r p t) ((eq_iff pool other).0 same)
                  (access-HasAccess K w r pool t u named e),
            )
            | inr barred ↦
                inl (guarded-Leaves other (λ u t' e. absurd (barred u (ap (λ q. q.0) e))) keyed).1
          ]
          | inr e ↦
              inl
                (guarded-Leaves other
                  (λ u t' _. rest other (λ q. ground (arith, e, eq_iff pool other, q)) u t')
                  keyed).1
        ],
      )

module _ (K : KeyVal) (w : World) (r : HttpRequest) (other : String) (t : Db K) where
  -- What follows the check of the user is about the named pool only.
  call-Guarded :
      (c : Call)
      → pool_of c ≢ ""
      → IsKeyed K t
      → Guarded K w r (pool_of c) other t (tables_after K w r c t)
  unfolding tables_after make_bucket make_secret delete_pool delete_bucket delete_secret
  call-Guarded (makes_bucket pool) named = guard K w r pool other named t _ (λ p apart u t1.
      Leaves-read K p _ _ t1 (bucket_arguments-same K w t1 r) (λ args _.
        Leaves-read K p _ _ t1 (make_bucket_request-same K w t1 args) (λ policy _.
          Leaves-bind K p _ _ t1 (register_bucket-Leaves K w p _ _ t1 (λ e. apart (sym e)))
            (λ _ t2 e. Leaves-read K p _ _ t2 (probe-same K w t2 pool) (λ answer _.
              Leaves-bind K p _ _ t2
                (confirm_bucket-Leaves K w p pool apart args.bucket answer t2
                  (register_bucket-mine K w t1 _ _ t2 e))
                (λ _ t3 _. return_pool_prop-Leaves K w p pool apart named t3))))))
  call-Guarded (makes_secret pool) named = guard K w r pool other named t _ (λ p apart u t1.
      Leaves-read K p _ _ t1 (secret_arguments-same K w t1 r) (λ args _.
        Leaves-read K p _ _ t1 (make_secret_request-same K w t1 args) (λ policy _.
          Leaves-bind K p _ _ t1 (unique_key-Leaves K w p _ _ _ t1 (λ e. apart (sym e)))
            (λ _ t2 _. return_pool_prop-Leaves K w p pool apart named t2))))
  call-Guarded (deletes_pool pool) named = guard K w r pool other named t _ (λ p apart u t1.
      Leaves-read K p _ _ t1 (empty_arguments-same K w t1 r) (λ _ _.
        Leaves-bind K p _ _ t1 (deregister_pool-Leaves K w p pool apart named t1)
          (λ ok t2 _. Leaves-if K p ok _ _ t2 (Leaves-same K p t2) (Leaves-same K p t2))))
  call-Guarded (deletes_bucket pool bucket) named =
      guard K w r pool other named t _ (λ p apart u t1.
        Leaves-read K p _ _ t1 (bucket_owner-same K w t1 pool bucket) (λ _ mine.
          Leaves-read K p _ _ t1 (empty_arguments-same K w t1 r) (λ _ _.
            Leaves-bind K p _ _ t1
              (deleted_bucket-Leaves K w p pool apart _ bucket t1
                (λ c. bucket_owner-found K w t1 pool bucket c mine))
              (λ _ t2 _. return_pool_prop-Leaves K w p pool apart named t2))))
  call-Guarded (deletes_secret pool secret) named =
      guard K w r pool other named t _ (λ p apart u t1.
        Leaves-read K p _ _ t1 (secret_owner-same K w t1 pool secret) (λ _ mine.
          Leaves-read K p _ _ t1 (empty_arguments-same K w t1 r) (λ _ _.
            Leaves-bind K p _ _ t1
              (deleted_secret-Leaves K w p pool apart _ secret t1
                (λ c. secret_owner-found K w t1 pool secret c mine))
              (λ _ t2 _. return_pool_prop-Leaves K w p pool apart named t2))))

abbrev Request : Type 0
Request = World × HttpRequest × Call

module _ (K : KeyVal) where
  -- The requests of any users, one after the other.
  pub serve : List Request → Db K → Db K
  serve [] t = t
  serve ((w, r, c) ∷ more) t = serve more (tables_after K w r c t)

  -- One of the requests was made by the owner of the pool, with the tokens.
  pub Granted : String → List Request → Db K → Type 0
  Granted pool [] t = ⊥
  Granted pool ((w, r, c) ∷ more) t =
      ((pool_of c ≡ pool) × HasAccess K w r pool t) ⊎ Granted pool more (tables_after K w r c t)

  -- When the table of access keys is keyed by them, then after any requests on pools from any
  -- users, with names that are not empty, the record of each pool, its buckets and its access keys
  -- are as before, with none gone, changed or new, unless one of the requests was on that pool, from its owner, with the tokens of
  -- the owner, by a trusted proxy; and the table of access keys is keyed as before.
  pub serve-Spared :
      (pool : String) (requests : List Request) (t : Db K)
      → All (λ (q : Request). pool_of q.2 ≢ "") requests
      → IsKeyed K t
      → IsKeyed K (serve requests t)
        × (Spared K pool t (serve requests t) ⊎ Granted pool requests t)
  unfolding serve Granted Guarded
  serve-Spared pool [] t named keyed = (keyed, inl (Spared-refl K pool t))
  serve-Spared pool ((w, r, c) ∷ more) t (name, named) keyed =
      let (keyed', now) = call-Guarded K w r pool t c name keyed in
      let (keyed'', later) = serve-Spared pool more (tables_after K w r c t) named keyed' in
      (keyed'', joined now later)
    where
      joined :
          Spared K pool t (tables_after K w r c t) ⊎ ((pool_of c ≡ pool) × HasAccess K w r pool t)
          → Spared K pool (tables_after K w r c t) (serve more (tables_after K w r c t))
            ⊎ Granted pool more (tables_after K w r c t)
          → Spared K pool t (serve more (tables_after K w r c t))
            ⊎ (((pool_of c ≡ pool) × HasAccess K w r pool t)
                ⊎ Granted pool more (tables_after K w r c t))
      joined (inr access) later = inr (inl access)
      joined (inl left) (inr granted) = inr (inr granted)
      joined (inl left) (inl left') = inl (Spared-trans K pool t _ _ left left')
