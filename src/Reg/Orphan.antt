-- ===== src/Reg/Orphan.antt =====
-- A pool whose owner has no record: the list of pools of any user needs its description.
use lens.Prelude.{
  String, Bool, true, false, ◌≡◌, ◌≢◌, refl, sym, ap, ◌∙◌, none, some, List, [], ◌∷◌, All, arith,
  ◌==◌, eq_iff, Bool-cases, inl, inr, subst,
}
use mathlib.Core.List.{Mem, not-mem-nil, mem_of_ne_of_mem}
use lens.Ui.Spec.{Desc}
use lens.Reg.KeyVal.{KeyVal}
use lens.Reg.Flow.{Outcome, returned, Go, gets, ◌>>=◌}
use lens.Reg.Records.{Db, UserRecord, PoolRecord, BucketRecord, SecretRecord, PoolProp}
use lens.Reg.World.{World, HttpRequest}
use lens.Reg.Table.{get_user, get_pool, list_pools}
use lens.Reg.Pools.{
  delete_buckets, delete_secrets, delete_directory, delete_entries, deregister_pool_by_prop, settle,
  gather_pool_prop,
}
use lens.Reg.Access.{check_user_access}
use lens.Reg.Checks.{check_empty_arguments}
use lens.Reg.Handlers.{gather_pools, list_pool}
use lens.Reg.Isolation.{IsKeyed, Leaves}
use lens.Reg.Isolation.Gathering.{gather_pool_prop-Leaves}
use lens.Reg.Gathered.{gather_pool_prop-rule}
use lens.Reg.Isolation.Removal.{keeps-bind}
use lens.Reg.Isolation.Pieces.{empty_arguments-same}
use lens.Reg.Flow.Inversion.{bind_returned}

Fails : {S A : Type 0} → Outcome A × S → Type 0
Fails {S} {A} r = (a : A) → r.0 ≢ returned a

some-ne-none : {A : Type 0} {a : A} → some a ≢ none
some-ne-none e = ground (arith, e)

Fails-gets :
    {S A B : Type 0} (g : S → A) (f : A → Go S B) (s : S)
    → Fails (f (g s) s)
    → Fails ((gets g >>= f) s)
unfolding ◌>>=◌
Fails-gets g f s h = h

module _ {S A B : Type 0} (m : Go S A) (f : A → Go S B) (s : S) where
  Fails-first : Fails (m s) → Fails ((m >>= f) s)
  unfolding Fails
  Fails-first h b e = let (a, e1, _) = bind_returned m f s b e in h a e1

  Fails-rest : ((a : A) → Fails (f a (m s).1)) → Fails ((m >>= f) s)
  unfolding Fails
  Fails-rest h b e = let (a, _, e2) = bind_returned m f s b e in h a b e2

module _ (K : KeyVal) (w : World) where
  -- The records of the users stay as they are when a pool is removed or described.
  module _ (t : Db K) where
    SameUsers : Db K → Type 0
    SameUsers t' = t'.users ≡ t.users

    delete_buckets-SameUsers :
        (pool : String) (bs : List BucketRecord) (t' : Db K)
        → SameUsers t'
        → SameUsers (delete_buckets K w pool bs t').1
    unfolding delete_buckets ◌>>=◌ SameUsers
    delete_buckets-SameUsers pool [] t' h = h
    delete_buckets-SameUsers pool (b ∷ bs) t' h = elim (Bool-cases (b.pool == pool)) [
      | inl e ↦ rw e (delete_buckets-SameUsers pool bs _ h)
      | inr e ↦ rw e h
    ]

    delete_secrets-SameUsers :
        (pool : String) (ks : List SecretRecord) (t' : Db K)
        → SameUsers t'
        → SameUsers (delete_secrets K w pool ks t').1
    unfolding delete_secrets ◌>>=◌ SameUsers
    delete_secrets-SameUsers pool [] t' h = h
    delete_secrets-SameUsers pool (k ∷ ks) t' h = elim (Bool-cases (k.pool == pool)) [
      | inl e ↦ rw e (delete_secrets-SameUsers pool ks _ h)
      | inr e ↦ rw e h
    ]

    delete_directory-SameUsers :
        (path : String) (t' : Db K) → SameUsers t' → SameUsers (delete_directory K w path t').1
    unfolding delete_directory SameUsers
    delete_directory-SameUsers path t' h = elim (Bool-cases (path == "")) [
      | inl e ↦ rw e h
      | inr e ↦ rw e h
    ]

    deregister-SameUsers : (d : PoolProp) → SameUsers (deregister_pool_by_prop K w d t).1
    unfolding deregister_pool_by_prop SameUsers delete_entries
    deregister-SameUsers d =
        keeps-bind SameUsers (delete_directory K w d.pool_record.bucket_directory) _ t
          (delete_directory-SameUsers _ t refl)
          (λ _ t1 h1.
            keeps-bind SameUsers (delete_buckets K w d.pool_record.pool d.buckets) _ t1
              (delete_buckets-SameUsers d.pool_record.pool d.buckets t1 h1)
              (λ _ t2 h2.
                keeps-bind SameUsers (delete_secrets K w d.pool_record.pool d.secrets) _ t2
                  (delete_secrets-SameUsers d.pool_record.pool d.secrets t2 h2) (λ _ t3 h3. h3)))

    settle-SameUsers : (b : Bool) (d : PoolProp) → SameUsers (settle K w b d t).1
    unfolding settle SameUsers
    settle-SameUsers true d = refl
    settle-SameUsers false d =
        keeps-bind SameUsers (deregister_pool_by_prop K w d) _ t (deregister-SameUsers d)
          (λ _ t' h. h)

    gather-SameUsers : (pool : String) → SameUsers (gather_pool_prop K w pool t).1
    unfolding SameUsers
    gather-SameUsers pool =
        gather_pool_prop-rule K w t pool (λ r. SameUsers r.1) (λ _ _. refl) refl refl (λ _. refl)
          (λ b r d _ _. settle-SameUsers b d)

  -- The pool is there, and its owner is not.
  record IsOrphan (pool : String) (p : PoolRecord) (t : Db K) : Type 0 where
    is_pool : get_pool K pool t ≡ some p
    no_owner : get_user K p.owner_uid t ≡ none
    keyed : IsKeyed K t

  module _ (pool : String) (p : PoolRecord) where
    -- Another pool that is gathered leaves it so.
    gather-IsOrphan :
        (name : String) (t : Db K)
        → pool ≢ name
        → name ≢ ""
        → IsOrphan pool p t
        → IsOrphan pool p (gather_pool_prop K w name t).1
    unfolding Leaves SameUsers
    gather-IsOrphan name t apart named h =
        let (keyed, left) = gather_pool_prop-Leaves K w pool name apart named t h.keyed in
        record {
          is_pool = left.at_pool ∙ h.is_pool;
          no_owner =
              subst (λ m. K.get p.owner_uid m ≡ none) (sym (gather-SameUsers t name)) h.no_owner;
          keyed = keyed;
        }

    gather-Fails : (t : Db K) → IsOrphan pool p t → Fails (gather_pool_prop K w pool t)
    unfolding Fails
    gather-Fails t h =
        gather_pool_prop-rule K w t pool (λ r. Fails r) (λ c m a e. ground (arith, e))
          (λ a e. ground (arith, e)) (λ a e. ground (arith, e))
          (λ e. absurd (some-ne-none (sym h.is_pool ∙ e)))
          (λ b r d e fits. absurd (lost (some_some (sym e ∙ h.is_pool)) fits.at_user))
      where
        some_some : {A : Type 0} {a b : A} → some a ≡ some b → a ≡ b
        some_some e = ground (arith, e)

        lost : {r : PoolRecord} {u : UserRecord} → r ≡ p → get_user K r.owner_uid t ≢ some u
        lost e f =
            some-ne-none (sym f ∙ ap (λ (q : PoolRecord). get_user K q.owner_uid t) e ∙ h.no_owner)

    gather_pools-Fails :
        (u : UserRecord) (names : List String) (t : Db K)
        → All (λ n. n ≢ "") names
        → Mem pool names
        → IsOrphan pool p t
        → Fails (gather_pools K w u names t)
    unfolding gather_pools
    gather_pools-Fails u [] t named here h = absurd (not-mem-nil here)
    gather_pools-Fails u (name ∷ names) t (n, named) here h = elim (Bool-cases (pool == name)) [
      | inl same ↦ Fails-first _ _ t (
          subst (λ q. Fails (gather_pool_prop K w q t)) ((eq_iff pool name).0 same)
            (gather-Fails t h))
      | inr other ↦ Fails-rest _ _ t (λ found. Fails-first _ _ _ (
          gather_pools-Fails u names _ named (mem_of_ne_of_mem (differ other) here)
            (gather-IsOrphan name t (differ other) n h)))
    ]
      where
        differ : (pool == name) ≡ false → pool ≢ name
        differ e q = ground (arith, e, q, eq_iff pool name)

-- When, in the tables as the check of a user leaves them, the record of the owner of some pool is
-- missing, the keys of the table of access keys are those of the records, and no pool has an empty
-- name, then the request for the list of pools does not return a list, whoever makes it.
pub list_pool-orphan :
    (K : KeyVal) (w : World) (r : HttpRequest) (t t' : Db K) (pool : String) (p : PoolRecord)
    → (check_user_access K w r "" t).1 ≡ t'
    → get_pool K pool t' ≡ some p
    → get_user K p.owner_uid t' ≡ none
    → ((key : String) (d : SecretRecord) → K.get key t'.secrets ≡ some d → d.access_key ≡ key)
    → All (λ n. n ≢ "") (list_pools K "*" t')
    → (ds : List Desc) → (list_pool K w r "" t).0 ≢ returned ds
unfolding list_pool IsKeyed Fails
list_pool-orphan K w r t t' pool p checked is_pool gone keyed named =
    Fails-rest (check_user_access K w r "") _ t (λ u. rw checked (
      Fails-rest (check_empty_arguments K w r) _ t' (λ _. rw (empty_arguments-same K w t' r) (
        Fails-gets (list_pools K "*") _ t' (
          Fails-first (gather_pools K w u (list_pools K "*" t')) _ t' (
            gather_pools-Fails K w pool p u (list_pools K "*" t') t' named listed
              (record { is_pool = is_pool; no_owner = gone; keyed = keyed })))))))
  where
    listed : Mem pool (list_pools K "*" t')
    listed = K.Mem-scan pool t'.pools (λ e. some-ne-none (sym is_pool ∙ e))
