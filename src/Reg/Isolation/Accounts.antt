-- ===== src/Reg/Isolation/Accounts.antt =====
-- The check of a user may write the record of that user, and leaves the pools.
use lens.Prelude.{
  ◌+◌, String, Bool, not, ◌≡◌, refl, sym, Option, arith, ◌==◌, Bool-cases, inl, inr, Option-cases,
  subst, ltb, ◌*◌,
}
use lens.Reg.KeyVal.{KeyVal}
use lens.Reg.Flow.{◌>>=◌}
use lens.Reg.Records.{Db, UserRecord}
use lens.Reg.Table.{set_user_raw, get_user_claim}
use lens.Reg.World.{World, HttpRequest, second, days}
use lens.Reg.Access.{
  convert_claim_to_uid, extend_user_expiration_time, checked_record, check_user_account,
  check_csrf_tokens, check_pool, check_running, check_proxy, accept_user, accept_tokens,
  check_user_access,
}
use lens.Reg.Isolation.{IsKeyed, Leaves, Leaves-same, Leaves-bind, Leaves-read, Leaves-if}

module _ (K : KeyVal) (w : World) (other : String) where
  users-Leaves :
      (u : UserRecord) (t : Db K) → Leaves K other t (record t { users = K.set u.uid u t.users })
  unfolding Leaves IsKeyed
  users-Leaves u t keyed = (
    keyed,
    record {
      at_pool = refl;
      at_bucket = λ j c e p. e;
      at_secret = λ j c e p. e;
      old_bucket = λ j c e p. e;
      old_secret = λ j c e p. e;
    },
  )

  set_user_raw-Leaves : (u : UserRecord) (t : Db K) → Leaves K other t (set_user_raw K u t).1
  unfolding set_user_raw
  set_user_raw-Leaves u t = elim (Bool-cases (u.uid == "")) [
    | inl e ↦ rw e (Leaves-same K other t)
    | inr e ↦ rw e (users-Leaves u t)
  ]

  extend-Leaves :
      (u : UserRecord) (t : Db K) → Leaves K other t (extend_user_expiration_time K w u t).1
  unfolding extend_user_expiration_time
  extend-Leaves u t =
      elim (Bool-cases
        (ltb (u.expiration_time * second) (w.now + days w.conf.user_expiration_days))) [
          | inl e ↦ rw e (
              Leaves-bind K other (set_user_raw K _) _ t (set_user_raw-Leaves _ t)
                (λ _ t' _. Leaves-same K other t'))
          | inr e ↦ rw e (Leaves-same K other t)
        ]

  checked_record-Leaves : (u : UserRecord) (t : Db K) → Leaves K other t (checked_record K w u t).1
  unfolding checked_record
  checked_record-Leaves u t = Leaves-if K other (not u.enabled) _ _ t (Leaves-same K other t) (
      Leaves-if K other (not u.ephemeral) _ _ t (Leaves-same K other t) (
        Leaves-bind K other (extend_user_expiration_time K w u) _ t (extend-Leaves u t)
          (λ _ t' _. Leaves-same K other t')))

  account-Leaves : (uid : String) (t : Db K) → Leaves K other t (check_user_account K w uid t).1
  unfolding check_user_account
  account-Leaves uid t = elim (Bool-cases (uid == "")) [
    | inl e ↦ rw e (Leaves-same K other t)
    | inr e ↦ elim (Option-cases (K.get uid t.users)) [
      | inl f ↦ rw (e, f) (Leaves-same K other t)
      | inr (u, f) ↦ elim (Bool-cases (w.account uid)) [
        | inl g ↦ rw (e, f, g) (checked_record-Leaves u t)
        | inr g ↦ rw (e, f, g) (Leaves-same K other t)
      ]
    ]
  ]

  pub running-same : (t : Db K) → (check_running K w t).1 ≡ t
  unfolding check_running
  running-same t = ground arith

  pub proxy-same : (r : HttpRequest) (t : Db K) → (check_proxy K w r t).1 ≡ t
  unfolding check_proxy
  proxy-same r t = ground arith

  pub claim-same : (name : String) (t : Db K) → (convert_claim_to_uid K w name t).1 ≡ t
  unfolding convert_claim_to_uid get_user_claim ◌>>=◌
  claim-same name t = ground arith

  pub accept_user-same : (o : Option UserRecord) (t : Db K) → (accept_user K w o t).1 ≡ t
  unfolding accept_user
  accept_user-same o t = ground arith

  pub accept_tokens-same : (b : Bool) (t : Db K) → (accept_tokens K w b t).1 ≡ t
  unfolding accept_tokens
  accept_tokens-same b t = ground arith

  pub csrf-same :
      (r : HttpRequest) (uid : String) (t : Db K) → (check_csrf_tokens K w r uid t).1 ≡ t
  unfolding check_csrf_tokens
  csrf-same r uid t = ground arith

  pub check_pool-same :
      (u : UserRecord) (pool : String) (t : Db K) → (check_pool K w u pool t).1 ≡ t
  unfolding check_pool
  check_pool-same u pool t = ground arith

  pub access-Leaves :
      (r : HttpRequest) (pool : String) (t : Db K)
      → Leaves K other t (check_user_access K w r pool t).1
  unfolding check_user_access
  access-Leaves r pool t = Leaves-read K other _ _ t (running-same t) (λ _ _.
      Leaves-read K other _ _ t (proxy-same r t) (λ _ _.
        Leaves-read K other _ _ t (claim-same r.x_remote_user t) (λ uid _.
          Leaves-bind K other (check_user_account K w uid) _ t (account-Leaves uid t) (λ o t' _.
            Leaves-read K other _ _ t' (accept_user-same o t') (λ u _.
              Leaves-read K other _ _ t' (csrf-same r uid t') (λ ok _.
                Leaves-read K other _ _ t' (accept_tokens-same ok t') (λ _ _.
                  subst (λ s. Leaves K other t' s) (sym (check_pool-same u pool t'))
                    (Leaves-same K other t'))))))))
