-- ===== src/Reg/Answers.antt =====
-- A description that the registrar answers with, and what the page of ui2 makes of it.
pub mod Keys
use lens.Prelude.{
  String, ◌≡◌, ◌≢◌, refl, sym, ◌∙◌, ap, Option, none, some, List, [], ◌∷◌, map, All, arith, inl,
  inr, subst,
}
use mathlib.Core.List.{Perm}
use lens.Js.Value.{get}
use lens.Ui.State.{App}
use lens.Ui.Code.{final}
use lens.Ui.Data.{set_pool_data}
use lens.Ui.Spec.{Secret, Desc, IsTimely, shown_key}
use lens.Ui.Spec.Division.{IsKeyPolicy, shown_keys, secrets-perm}
use lens.Reg.KeyVal.{KeyVal}
use lens.Reg.Isolation.{IsKeyed}
use lens.Reg.Answers.Keys.{Distinct, own_keys, AreKeys, list_secrets-AreKeys}
use lens.Reg.Flow.{returned}
use lens.Reg.Records.{
  Db, SecretRecord, SecretPolicy, secret_rw, secret_ro, secret_wo, internal_access, PoolProp,
}
use lens.Reg.World.{World, unix}
use lens.Reg.Table.{list_secrets_of_pool}
use lens.Reg.Desc.{
  export_secret_policy_to_ui, secret_to_ui, keep_secret, copy_secret_data_to_ui,
  copy_pool_prop_to_ui, pool_prop_response,
}
use lens.Reg.Pools.{gather_pool_prop}
use lens.Reg.Handlers.{return_found, return_pool_prop}
use lens.Reg.Gathered.{gather_pool_prop-Fits}
use lens.Reg.Flow.Inversion.{bind_returned}

copy-own_keys : (m : List SecretRecord) → copy_secret_data_to_ui m ≡ map secret_to_ui (own_keys m)
unfolding copy_secret_data_to_ui
copy-own_keys [] = refl
copy-own_keys (d ∷ m) = ground (arith, copy-own_keys m)

AreKeyPolicies : List Secret → Type 0
AreKeyPolicies ks = All (λ (k : Secret). IsKeyPolicy k.key_policy) ks

keep-AreKeyPolicies :
    (p : SecretPolicy) (u : Secret) (ks : List Secret)
    → u.key_policy ≡ export_secret_policy_to_ui p
    → AreKeyPolicies ks
    → AreKeyPolicies (keep_secret p u ks)
unfolding AreKeyPolicies
keep-AreKeyPolicies secret_rw u ks e h = (inl e, h)
keep-AreKeyPolicies secret_ro u ks e h = (inr (inl e), h)
keep-AreKeyPolicies secret_wo u ks e h = (inr (inr e), h)
keep-AreKeyPolicies internal_access u ks e h = h

copy-AreKeyPolicies : (m : List SecretRecord) → AreKeyPolicies (copy_secret_data_to_ui m)
unfolding copy_secret_data_to_ui AreKeyPolicies
copy-AreKeyPolicies [] = tt
copy-AreKeyPolicies (d ∷ m) =
    keep-AreKeyPolicies d.secret_policy (secret_to_ui d) _ refl (copy-AreKeyPolicies m)

module _ (K : KeyVal) (w : World) (s : Db K) (d : Desc) where
  nothing : (return_found K w none s).0 ≢ returned d
  unfolding return_found
  nothing e = ground (arith, e)

  copied :
      (p : PoolProp) → (return_found K w (some p) s).0 ≡ returned d → copy_pool_prop_to_ui p ≡ d
  unfolding return_found
  copied p e = ground (arith, e)

module _ (K : KeyVal) (w : World) (pool : String) (t : Db K) where
  -- A description that is returned is made of one that was gathered.
  pub returned_found :
      (d : Desc)
      → (return_pool_prop K w pool t).0 ≡ returned d
      → (p : PoolProp) × ((gather_pool_prop K w pool t).0 ≡ returned (some p))
        × (copy_pool_prop_to_ui p ≡ d)
  unfolding return_pool_prop
  returned_found d h =
      let (found, e, f) = bind_returned (gather_pool_prop K w pool) _ t d h in
      given found (gather_pool_prop K w pool t).1 e f
    where
      given :
          (found : Option PoolProp) (s : Db K)
          → (gather_pool_prop K w pool t).0 ≡ returned found
          → (return_found K w found s).0 ≡ returned d
          → (p : PoolProp) × ((gather_pool_prop K w pool t).0 ≡ returned (some p))
            × (copy_pool_prop_to_ui p ≡ d)
      given none s e f = absurd (nothing K w s d f)
      given (some p) s e f = (p, e, copied K w s d p f)

  returned-keys :
      (d : Desc)
      → (return_pool_prop K w pool t).0 ≡ returned d
      → d.secrets ≡ copy_secret_data_to_ui (list_secrets_of_pool K pool t)
  unfolding copy_pool_prop_to_ui
  returned-keys d h =
      let (p, e, f) = returned_found d h in
      let (_, _, fits) = gather_pool_prop-Fits K w t pool p e in
      ap (λ (a : Desc). a.secrets) (sym f) ∙ ap (λ ks. copy_secret_data_to_ui ks) fits.at_secrets

  -- When the table of access keys is keyed by them and a scan of it gives each key once, and
  -- return_pool_prop answers with the description of a pool, with times, those of the keys too, in
  -- the range of Date, then after set_pool_data of the response, whatever the page of ui2 was, the
  -- three lists of keys together are, up to order, some keys: they are keys of the table and of the
  -- pool, and not for the service itself, all of these are among them, and each is there once.
  pub answer-perm :
      (d : Desc) (page : App)
      → IsKeyed K t
      → Distinct (K.scan "*" t.secrets)
      → (return_pool_prop K w pool t).0 ≡ returned d
      → IsTimely d
      → (ds : List SecretRecord) × AreKeys K pool t.secrets ds
        × Perm
            (shown_keys (final (set_pool_data (pool_prop_response (unix w.now) d) page)))
            (map shown_key (map secret_to_ui ds))
  unfolding AreKeyPolicies get
  answer-perm d page keyed once h times =
      let keys = returned-keys d h in
      let policies = subst (λ ks. AreKeyPolicies ks) (sym keys) (copy-AreKeyPolicies _) in
      (
        own_keys (list_secrets_of_pool K pool t),
        list_secrets-AreKeys K pool t keyed once,
        subst
            (λ ks.
              Perm (shown_keys (final (set_pool_data (pool_prop_response (unix w.now) d) page)))
                (map shown_key ks))
            (keys ∙ copy-own_keys _)
            (secrets-perm d (pool_prop_response (unix w.now) d) page times policies refl),
      )
