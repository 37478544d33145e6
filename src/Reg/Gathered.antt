-- ===== src/Reg/Gathered.antt =====
-- What gather_pool_prop gives, by the tables that it reads: a rule for all statements about it.
use lens.Prelude.{
  ℕ, String, Bool, ◌≡◌, refl, sym, subst, true, false, Option, none, some, List, arith, ◌==◌,
  eq_iff, inl, inr, Option-cases,
}
use lens.Reg.KeyVal.{KeyVal}
use lens.Reg.Flow.{Outcome, returned, refused, crashed, quits, Go, assert_fatal, ◌>>=◌}
use lens.Reg.Flow.Inversion.{read_first, bind_returned}
use lens.Reg.Records.{Db, UserRecord, BucketRecord, PoolRecord, PoolProp, PoolState}
use lens.Reg.World.{World}
use lens.Reg.Table.{get_user, get_pool, list_buckets, list_secrets_of_pool}
use lens.Reg.Pools.{
  deregister_pool_by_prop, all_buckets, owner_record, settle, gather_from, gather_pool_prop,
  check_pool_is_suspened, combine_pool_state,
}

module _ (K : KeyVal) (w : World) (t : Db K) where
  assert-same : (b : Bool) → (assert_fatal b t).1 ≡ t
  assert-same b = ground arith

  all_buckets-same : (pool : String) → (all_buckets K w pool t).1 ≡ t
  unfolding all_buckets
  all_buckets-same pool = ground arith

  owner_record-same : (uid : String) → (owner_record K w uid t).1 ≡ t
  unfolding owner_record
  owner_record-same uid = ground arith

  suspended-same : (pool : String) → (check_pool_is_suspened K w pool t).1 ≡ t
  unfolding check_pool_is_suspened
  suspended-same pool = ground arith

  combine-same : (a b : PoolState × String) → (combine_pool_state K w a b t).1 ≡ t
  unfolding combine_pool_state
  combine-same (a, r) (b, s) = ground arith

  listed :
      (pool : String) (bs : List BucketRecord)
      → (all_buckets K w pool t).0 ≡ returned bs
      → list_buckets K pool t ≡ some bs
  unfolding all_buckets
  listed pool bs h = ground (arith, h)

  found :
      (uid : String) (u : UserRecord)
      → (owner_record K w uid t).0 ≡ returned u
      → get_user K uid t ≡ some u
  unfolding owner_record
  found uid u h = ground (arith, h)

  module _ (pool : String) where
    -- A description that is put together from the tables.
    pub record Fits (r : PoolRecord) (d : PoolProp) : Type 0 where
      pub at_pool : d.pool_record.pool ≡ pool
      pub at_buckets : list_buckets K pool t ≡ some d.buckets
      pub at_secrets : d.secrets ≡ list_secrets_of_pool K pool t
      pub at_user : get_user K r.owner_uid t ≡ some d.user_record

    module _ (P : Outcome (Option PoolProp) × Db K → Type 0)
        (on_refused : (code : ℕ) (message : String) → P (refused code message, t))
        (on_crashed : P (crashed, t)) (on_quits : P (quits, t)) where
      gather_from-rule :
          (r : PoolRecord)
          → ((b : Bool) (d : PoolProp) → Fits r d → P (settle K w b d t))
          → P (gather_from K w pool r t)
      unfolding gather_from
      gather_from-rule r k = reads _ _ (assert-same _) (λ _ e. reads _ _ refl (λ bd _.
          reads _ _ (all_buckets-same pool) (λ bs f. reads _ _ refl (λ ks g.
            reads _ _ (owner_record-same _) (λ u h. reads _ _ refl (λ usable _.
              reads _ _ (suspended-same pool) (λ suspension _.
                reads _ _ (combine-same usable suspension) (λ state _. k _ _ (record {
                  at_pool = asserted e;
                  at_buckets = listed pool bs f;
                  at_secrets = sym (given g);
                  at_user = found _ u h;
                })))))))))
        where
          reads :
              {A : Type 0} (m : Go (Db K) A) (f : A → Go (Db K) (Option PoolProp))
              → (m t).1 ≡ t
              → ((a : A) → (m t).0 ≡ returned a → P (f a t))
              → P ((m >>= f) t)
          reads m f same k = read_first P m f t same on_refused on_crashed on_quits k

          asserted : (assert_fatal (r.pool == pool) t).0 ≡ returned tt → r.pool ≡ pool
          asserted h = ground (arith, eq_iff r.pool pool, h)

          given : {A : Type 0} {a b : A} → returned a ≡ returned b → a ≡ b
          given h = ground (arith, h)

      pub gather_pool_prop-rule :
          (get_pool K pool t ≡ none → P (returned none, t))
          → ((b : Bool) (r : PoolRecord) (d : PoolProp)
              → get_pool K pool t ≡ some r
              → Fits r d
              → P (settle K w b d t))
          → P (gather_pool_prop K w pool t)
      unfolding gather_pool_prop
      gather_pool_prop-rule on_none k = elim (Option-cases (get_pool K pool t)) [
        | inl e ↦ rw (e, gather_pool_prop) (on_none e)
        | inr (r, e) ↦ rw (e, gather_pool_prop) (gather_from-rule r (λ b d. k b r d e))
      ]

    Given : Outcome (Option PoolProp) × Db K → Type 0
    Given r =
        (d : PoolProp)
        → r.0 ≡ returned (some d)
        → (p : PoolRecord) × (get_pool K pool t ≡ some p) × Fits p d

    settle-Given :
        (b : Bool) (p : PoolRecord) (d : PoolProp)
        → get_pool K pool t ≡ some p
        → Fits p d
        → Given (settle K w b d t)
    unfolding settle Given
    settle-Given true p d is_pool fits e h = (p, is_pool, subst (λ a. Fits p a) (same h) fits)
      where
        same : returned (some d) ≡ returned (some e) → d ≡ e
        same g = ground (arith, g)
    settle-Given false p d is_pool fits e h =
        let (_, _, g) = bind_returned (deregister_pool_by_prop K w d) _ t (some e) h in
        ground (arith, g)

    -- A description that is given is put together from the tables.
    pub gather_pool_prop-Fits :
        (d : PoolProp)
        → (gather_pool_prop K w pool t).0 ≡ returned (some d)
        → (p : PoolRecord) × (get_pool K pool t ≡ some p) × Fits p d
    unfolding Given
    gather_pool_prop-Fits =
        gather_pool_prop-rule (λ r. Given r) (λ c m d e. ground (arith, e))
          (λ d e. ground (arith, e)) (λ d e. ground (arith, e)) (λ _ d e. ground (arith, e))
          (λ b r d is_pool fits. settle-Given b r d is_pool fits)
