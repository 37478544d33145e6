-- ===== src/Reg/Deleted.antt =====
-- An access key that is deleted, and the page of ui2 that gets the answer.
use mathlib.Core.List.{Perm}
use lens.Prelude.{
  String, ◌≡◌, refl, sym, ap, ◌∙◌, some, List, map, arith, eq_iff, inl, inr, Option-cases, subst,
}
use lens.Ui.State.{App}
use lens.Ui.Code.{final}
use lens.Ui.Data.{set_pool_data}
use lens.Ui.Spec.{Desc, IsTimely, shown_key}
use lens.Ui.Spec.Division.{shown_keys}
use lens.Reg.KeyVal.{KeyVal}
use lens.Reg.Flow.{returned, ◌>>=◌}
use lens.Reg.Flow.Inversion.{bind_returned, read_returned}
use lens.Reg.Records.{Db, SecretRecord}
use lens.Reg.World.{World, HttpRequest, unix}
use lens.Reg.Table.{set_user_raw, delete_secret_key_checking}
use lens.Reg.Desc.{secret_to_ui, pool_prop_response}
use lens.Reg.Access.{
  extend_user_expiration_time, checked_record, check_user_account, check_user_access,
}
use lens.Reg.Checks.{check_secret_owner}
use lens.Reg.Handlers.{deleted, return_pool_prop, delete_secret}
use lens.Reg.Isolation.{IsKeyed, Leaves}
use lens.Reg.Isolation.Entries.{del-back}
use lens.Reg.Isolation.Removal.{keeps-bind}
use lens.Reg.Isolation.Accounts.{
  access-Leaves, running-same, proxy-same, claim-same, accept_user-same, accept_tokens-same,
  csrf-same, check_pool-same,
}
use lens.Reg.Isolation.Pieces.{empty_arguments-same, secret_owner-same}
use lens.Reg.Answers.{answer-perm}
use lens.Reg.Answers.Keys.{Distinct, AreKeys}

module _ (K : KeyVal) (w : World) where
  secrets_of : Db K → K.Map SecretRecord
  secrets_of t = t.secrets

  account-secrets : (uid : String) (t : Db K) → (check_user_account K w uid t).1.secrets ≡ t.secrets
  unfolding check_user_account checked_record extend_user_expiration_time set_user_raw ◌>>=◌
  account-secrets uid t = ground arith

  module _ (r : HttpRequest) (pool : String) (t : Db K) where
    Kept : Db K → Type 0
    Kept s = s.secrets ≡ t.secrets

    Kept-same : {s s' : Db K} → Kept s → s' ≡ s → Kept s'
    unfolding Kept
    Kept-same h e = ap (λ (x : Db K). x.secrets) e ∙ h

    -- The check of the user leaves the access keys.
    access-Kept : Kept (check_user_access K w r pool t).1
    unfolding check_user_access Kept
    access-Kept = keeps-bind Kept _ _ t (Kept-same refl (running-same K w "" t)) (λ _ s1 h1.
        keeps-bind Kept _ _ s1 (Kept-same h1 (proxy-same K w "" r s1)) (λ _ s2 h2.
          keeps-bind Kept _ _ s2 (Kept-same h2 (claim-same K w "" r.x_remote_user s2)) (λ uid s3 h3.
            keeps-bind Kept _ _ s3 (account-secrets uid s3 ∙ h3) (λ o s4 h4.
              keeps-bind Kept _ _ s4 (Kept-same h4 (accept_user-same K w "" o s4)) (λ u s5 h5.
                keeps-bind Kept _ _ s5 (Kept-same h5 (csrf-same K w "" r uid s5)) (λ ok s6 h6.
                  keeps-bind Kept _ _ s6 (Kept-same h6 (accept_tokens-same K w "" ok s6))
                    (λ _ s7 h7. Kept-same h7 (check_pool-same K w "" u pool s7))))))))

    access-IsKeyed : IsKeyed K t → IsKeyed K (check_user_access K w r pool t).1
    unfolding Leaves
    access-IsKeyed keyed = (access-Leaves K w "" r pool t keyed).0

  module _ (t : Db K) where
    deleted-secrets :
        (message key : String)
        → (deleted K w message (delete_secret_key_checking K key) t).1
          ≡ record t { secrets = K.del key t.secrets }
    unfolding deleted
    deleted-secrets message key = elim (Option-cases (K.get key t.secrets)) [
      | inl e ↦ rw e refl
      | inr (c, e) ↦ rw e refl
    ]

    without-IsKeyed :
        (key : String) → IsKeyed K t → IsKeyed K (record t { secrets = K.del key t.secrets })
    unfolding IsKeyed
    without-IsKeyed key keyed j d e = keyed j d (del-back K key j t.secrets d e)

    owner-there :
        (pool key : String)
        → (check_secret_owner K w pool key t).0 ≡ returned tt
        → (c : SecretRecord) × (K.get key t.secrets ≡ some c) × (c.pool ≡ pool)
    unfolding check_secret_owner
    owner-there pool key h = elim (Option-cases (K.get key t.secrets)) [
      | inl e ↦ ground (arith, h, e)
      | inr (c, e) ↦ (c, e, ground (arith, h, e, eq_iff c.pool pool))
    ]

  module _ (r : HttpRequest) (pool key : String) (t : Db K) (d : Desc) where
    -- What a request that is answered with a description tells.
    answered :
        (delete_secret K w r pool key t).0 ≡ returned d
        → ((c : SecretRecord) × (K.get key t.secrets ≡ some c) × (c.pool ≡ pool))
          × ((s : Db K) × (s.secrets ≡ t.secrets)
              × (IsKeyed K t → IsKeyed K s)
              × ((return_pool_prop K w pool (record s { secrets = K.del key s.secrets })).0
                  ≡ returned d))
    unfolding delete_secret Kept
    answered h =
        let s = (check_user_access K w r pool t).1 in
        let same = access-Kept r pool t in
        let (u, _, h1) = bind_returned _ _ t d h in
        let (_, owner, h2) = read_returned _ _ s d (secret_owner-same K w s pool key) h1 in
        let (_, _, h3) = read_returned _ _ s d (empty_arguments-same K w s r) h2 in
        let (_, _, h4) = bind_returned _ _ s d h3 in
        (
          subst (λ m. (c : SecretRecord) × (K.get key m ≡ some c) × (c.pool ≡ pool)) same
              (owner-there s pool key owner),
          (
            s,
            same,
            access-IsKeyed r pool t,
            subst (λ x. (return_pool_prop K w pool x).0 ≡ returned d)
                (deleted-secrets s "Bad secret" key) h4,
          ),
        )

    -- When the table of access keys is keyed by them, a scan of the table without a key gives each
    -- of the others once, and the registrar answers a request for deleting that key with a
    -- description, with times, those of the keys too, in the range of Date, then the key was in the
    -- table and of the pool, and after set_pool_data of the response, whatever the page of ui2 was,
    -- the three lists of keys together are, up to order, the keys of the pool in the table without
    -- that key, apart from those for the service itself, all of them and each once.
    pub delete_secret-perm :
        (page : App)
        → IsKeyed K t
        → Distinct (K.scan "*" (K.del key t.secrets))
        → (delete_secret K w r pool key t).0 ≡ returned d
        → IsTimely d
        → ((c : SecretRecord) × (K.get key t.secrets ≡ some c) × (c.pool ≡ pool))
          × ((ds : List SecretRecord) × AreKeys K pool (K.del key t.secrets) ds
              × Perm
                  (shown_keys (final (set_pool_data (pool_prop_response (unix w.now) d) page)))
                  (map shown_key (map secret_to_ui ds)))
    delete_secret-perm page keyed once h times =
        let (owner, (s, same, keys, g)) = answered h in
        let gone = record s { secrets = K.del key s.secrets } in
        let (ds, are, perm) =
          answer-perm K w pool gone d page (without-IsKeyed s key (keys keyed))
            (subst (λ m. Distinct (K.scan "*" (K.del key m))) (sym same) once) g times in
        (owner, (ds, subst (λ m. AreKeys K pool (K.del key m) ds) same are, perm))
