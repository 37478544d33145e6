-- ===== src/Reg/Isolation/Rights.antt =====
-- Whom check_user_access lets pass.
use lens.Prelude.{
  String, Bool, true, ◌≡◌, ◌≢◌, sym, ◌∙◌, Option, some, arith, eq_iff, inl, inr, subst,
  Option-cases, not-empty,
}
use lens.Reg.KeyVal.{KeyVal}
use lens.Reg.Flow.{returned, ◌>>=◌}
use lens.Reg.Flow.Inversion.{bind_returned, read_returned}
use lens.Reg.Records.{Db, UserRecord, PoolRecord, CsrfTokenRecord}
use lens.Reg.World.{World, HttpRequest}
use lens.Reg.Table.{set_user_raw, get_user, get_pool, get_csrf_token}
use lens.Reg.Access.{
  convert_claim_to_uid, extend_user_expiration_time, checked_record, check_user_account, matches,
  check_csrf_tokens, check_pool, check_proxy, accept_user, accept_tokens, check_user_access,
}
use lens.Reg.Isolation.Accounts.{
  running-same, proxy-same, claim-same, accept_user-same, accept_tokens-same, csrf-same,
}

module _ (K : KeyVal) (w : World) (r : HttpRequest) (pool : String) (t : Db K) where
  -- The request comes from a trusted proxy, for an enabled user with an account, with the tokens
  -- of that user, and the pool is the user's.
  pub record HasAccess : Type 0 where
    pub peer : w.trusted r.remote_addr ≡ true
    pub uid : String
    pub is_uid : (convert_claim_to_uid K w r.x_remote_user t).0 ≡ returned uid
    pub user : UserRecord
    pub is_user : get_user K uid t ≡ some user
    pub is_enabled : user.enabled ≡ true
    pub tokens : CsrfTokenRecord
    pub are_tokens : get_csrf_token K uid t ≡ some tokens
    pub are_sent : matches K w tokens r ≡ true
    pub owned : PoolRecord
    pub is_pool : get_pool K pool t ≡ some owned
    pub is_owner : owned.owner_uid ≡ user.uid

module _ (K : KeyVal) (w : World) where
  account-same :
      (uid : String) (t : Db K)
      → ((check_user_account K w uid t).1.pools ≡ t.pools)
        × ((check_user_account K w uid t).1.csrf_tokens ≡ t.csrf_tokens)
  unfolding check_user_account checked_record extend_user_expiration_time set_user_raw ◌>>=◌
  account-same uid t = (ground arith, ground arith)

  account-found :
      (uid : String) (t : Db K) (u : UserRecord)
      → (check_user_account K w uid t).0 ≡ returned (some u)
      → (v : UserRecord) × (get_user K uid t ≡ some v) × (v.enabled ≡ true) × (v.uid ≡ u.uid)
  unfolding check_user_account checked_record extend_user_expiration_time set_user_raw ◌>>=◌
  account-found uid t u e = elim (Option-cases (K.get uid t.users)) [
    | inl f ↦ ground (arith, e, f)
    | inr (v, f) ↦ (v, f, ground (arith, e, f), ground (arith, e, f))
  ]

  csrf-found :
      (r : HttpRequest) (uid : String) (t : Db K)
      → (check_csrf_tokens K w r uid t).0 ≡ returned true
      → (v : CsrfTokenRecord) × (get_csrf_token K uid t ≡ some v) × (matches K w v r ≡ true)
  unfolding check_csrf_tokens
  csrf-found r uid t e = elim (Option-cases (K.get uid t.csrf_tokens)) [
    | inl f ↦ ground (arith, e, f)
    | inr (v, f) ↦ (v, f, ground (arith, e, f))
  ]

  pool-found :
      (u : UserRecord) (pool : String) (t : Db K) (v : UserRecord)
      → pool ≢ ""
      → (check_pool K w u pool t).0 ≡ returned v
      → (p : PoolRecord) × (get_pool K pool t ≡ some p) × (p.owner_uid ≡ u.uid)
  unfolding check_pool
  pool-found u pool t v named e = elim (Option-cases (K.get pool t.pools)) [
    | inl f ↦ ground (arith, e, f, not-empty named)
    | inr (p, f) ↦ (p, f, ground (arith, e, f, not-empty named, eq_iff p.owner_uid u.uid))
  ]

  accept_user-some :
      (o : Option UserRecord) (t : Db K) (u : UserRecord)
      → (accept_user K w o t).0 ≡ returned u
      → o ≡ some u
  unfolding accept_user
  accept_user-some o t u e = ground (arith, e)

  accept_tokens-true :
      (b : Bool) (t : Db K) (u : Unit) → (accept_tokens K w b t).0 ≡ returned u → b ≡ true
  unfolding accept_tokens
  accept_tokens-true b t u e = ground (arith, e)

  proxy-trusted :
      (r : HttpRequest) (t : Db K) (u : Unit)
      → (check_proxy K w r t).0 ≡ returned u
      → w.trusted r.remote_addr ≡ true
  unfolding check_proxy
  proxy-trusted r t u e = ground (arith, e)

  checks-HasAccess :
      (r : HttpRequest) (pool : String) (t : Db K) (o : Option UserRecord) (v u : UserRecord)
      (ok : Bool) (uid : String)
      → pool ≢ ""
      → w.trusted r.remote_addr ≡ true
      → (convert_claim_to_uid K w r.x_remote_user t).0 ≡ returned uid
      → (check_user_account K w uid t).0 ≡ returned o
      → o ≡ some v
      → (check_csrf_tokens K w r uid (check_user_account K w uid t).1).0 ≡ returned ok
      → ok ≡ true
      → (check_pool K w v pool (check_user_account K w uid t).1).0 ≡ returned u
      → HasAccess K w r pool t
  checks-HasAccess r pool t o v u ok uid named peer claim h is_v c is_true own =
      let t' = (check_user_account K w uid t).1 in
      let (pools, csrf) = account-same uid t in
      let (x, is_x, on, same_uid) = account-found uid t v (rw⁻¹ is_v h) in
      let (tokens, have, match) = csrf-found r uid t' (rw⁻¹ is_true c) in
      let (p, is_p, mine) = pool-found v pool t' u named own in
      record {
        peer = peer;
        uid = uid;
        is_uid = claim;
        user = x;
        is_user = is_x;
        is_enabled = on;
        tokens = tokens;
        are_tokens = subst (λ m. K.get uid m ≡ some tokens) csrf have;
        are_sent = match;
        owned = p;
        is_pool = subst (λ m. K.get pool m ≡ some p) pools is_p;
        is_owner = mine ∙ sym same_uid;
      }

  pub access-HasAccess :
      (r : HttpRequest) (pool : String) (t : Db K) (u : UserRecord)
      → pool ≢ ""
      → (check_user_access K w r pool t).0 ≡ returned u
      → HasAccess K w r pool t
  unfolding check_user_access
  access-HasAccess r pool t u named h =
      let (_, _, h1) = read_returned _ _ t u (running-same K w "" t) h in
      let (_, p2, h2) = read_returned _ _ t u (proxy-same K w "" r t) h1 in
      let (uid, p0, h0) = read_returned _ _ t u (claim-same K w "" r.x_remote_user t) h2 in
      let t' = (check_user_account K w uid t).1 in
      let (o, p3, h3) = bind_returned _ _ t u h0 in
      let (v, p4, h4) = read_returned _ _ t' u (accept_user-same K w "" o t') h3 in
      let (ok, p5, h5) = read_returned _ _ t' u (csrf-same K w "" r uid t') h4 in
      let (_, p6, h6) = read_returned _ _ t' u (accept_tokens-same K w "" ok t') h5 in
      checks-HasAccess r pool t o v u ok uid named (proxy-trusted r t tt p2) p0 p3
        (accept_user-some o t' v p4) p5 (accept_tokens-true ok t' tt p6) h6
