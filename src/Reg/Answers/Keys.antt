-- ===== src/Reg/Answers/Keys.antt =====
-- The access keys of a pool, as the table has them, and what LIST_SECRETS_OF_POOL lists of them.
use mathlib.Core.List.{Mem, mem-cons, mem-cons_self, not-mem-nil, mem_of_ne_of_mem}
use lens.Prelude.{
  String, Bool, true, false, ◌≡◌, ◌≢◌, sym, ◌∙◌, subst, none, some, List, [], ◌∷◌, map, All, arith,
  ◌==◌, eq_iff, Bool-cases, inl, inr, Option-cases, if◌then◌else◌,
}
use lens.Reg.KeyVal.{KeyVal}
use lens.Reg.Records.{
  Db, SecretRecord, SecretPolicy, secret_rw, secret_ro, secret_wo, internal_access,
}
use lens.Reg.Table.{collect_secrets, list_secrets_of_pool}
use lens.Reg.Isolation.{IsKeyed}

abbrev pub Distinct : List String → Type 0
Distinct [] = Unit
Distinct (k ∷ ks) = All (λ j. k ≢ j) ks × Distinct ks

abbrev is_internal : SecretPolicy → Bool
is_internal secret_rw = false
is_internal secret_ro = false
is_internal secret_wo = false
is_internal internal_access = true

-- The keys that are not for the service itself.
abbrev pub own_keys : List SecretRecord → List SecretRecord
own_keys [] = []
own_keys (d ∷ m) = let rest = own_keys m in if is_internal d.secret_policy then rest else d ∷ rest

internal : (p : SecretPolicy) → is_internal p ≡ true → p ≡ internal_access
internal p e = ground (arith, e)

not_internal : (p : SecretPolicy) → is_internal p ≡ false → p ≢ internal_access
not_internal p e h = ground (arith, e, h)

module _ (K : KeyVal) (pool : String) (table : K.Map SecretRecord) where
  -- A key of the table that is the pool's and not for the service itself.
  pub record IsOwn (d : SecretRecord) : Type 0 where
    pub in_table : K.get d.access_key table ≡ some d
    pub in_pool : d.pool ≡ pool
    pub for_users : d.secret_policy ≢ internal_access

  -- These are the keys of the pool: those of the table, all of them, and each once.
  pub record AreKeys (ds : List SecretRecord) : Type 0 where
    pub own : All IsOwn ds
    pub complete : (d : SecretRecord) → IsOwn d → Mem d ds
    pub once : Distinct (map (λ (d : SecretRecord). d.access_key) ds)

module _ (K : KeyVal) (pool : String) (t : Db K) where
  -- What is kept of a key of the scan, in front of the others.
  own_keys-step :
      (P : List SecretRecord → Type 0) (key : String) (keys : List String)
      → IsKeyed K t
      → P (own_keys (collect_secrets K pool keys t))
      → ((d : SecretRecord)
          → d.access_key ≡ key
          → IsOwn K pool t.secrets d
          → P (d ∷ own_keys (collect_secrets K pool keys t)))
      → P (own_keys (collect_secrets K pool (key ∷ keys) t))
  unfolding collect_secrets IsKeyed
  own_keys-step P key keys keyed rest more = elim (Option-cases (K.get key t.secrets)) [
    | inl e ↦ rw (e, own_keys) rest
    | inr (d, e) ↦ elim (Bool-cases (d.pool == pool)) [
      | inl p ↦ elim (Bool-cases (is_internal d.secret_policy)) [
        | inl q ↦ rw (e, p, q, own_keys) rest
        | inr q ↦
            rw (e, p, q, own_keys)
              (more d (keyed key d e) (record {
                in_table = subst (λ k. K.get k t.secrets ≡ some d) (sym (keyed key d e)) e;
                in_pool = (eq_iff d.pool pool).0 p;
                for_users = not_internal d.secret_policy q;
              }))
      ]
      | inr p ↦ rw (e, p, own_keys) rest
    ]
  ]

  collect-IsOwn :
      IsKeyed K t
      → (keys : List String)
      → All (IsOwn K pool t.secrets) (own_keys (collect_secrets K pool keys t))
  unfolding collect_secrets
  collect-IsOwn keyed [] = tt
  collect-IsOwn keyed (key ∷ keys) =
      let rest = collect-IsOwn keyed keys in
      own_keys-step (λ ds. All (IsOwn K pool t.secrets) ds) key keys keyed rest (λ d _ h. (h, rest))

  -- A key that the scan does not give again is apart from the others.
  collect-apart :
      IsKeyed K t
      → (k : String) (keys : List String) → All (λ j. k ≢ j) keys
      → All
          (λ j. k ≢ j)
          (map (λ (d : SecretRecord). d.access_key) (own_keys (collect_secrets K pool keys t)))
  unfolding collect_secrets
  collect-apart keyed k [] h = tt
  collect-apart keyed k (key ∷ keys) (p, h) =
      let rest = collect-apart keyed k keys h in
      own_keys-step (λ ds. All (λ j. k ≢ j) (map (λ (d : SecretRecord). d.access_key) ds)) key keys
        keyed rest (λ d e _. ((λ q. p (q ∙ e)), rest))

  collect-once :
      IsKeyed K t
      → (keys : List String) → Distinct keys
      → Distinct
          (map (λ (d : SecretRecord). d.access_key) (own_keys (collect_secrets K pool keys t)))
  unfolding collect_secrets
  collect-once keyed [] h = tt
  collect-once keyed (key ∷ keys) (p, h) =
      let rest = collect-once keyed keys h in
      own_keys-step (λ ds. Distinct (map (λ (d : SecretRecord). d.access_key) ds)) key keys keyed
        rest
        (λ d e _. (
          subst
              (λ k.
                All (λ j. k ≢ j)
                  (map (λ (c : SecretRecord). c.access_key)
                    (own_keys (collect_secrets K pool keys t))))
              (sym e) (collect-apart keyed key keys p),
          rest,
        ))

  module _ (d : SecretRecord) (owned : IsOwn K pool t.secrets d) where
    for_user : is_internal d.secret_policy ≡ false
    for_user = elim (Bool-cases (is_internal d.secret_policy)) [
      | inl e ↦ absurd (owned.for_users (internal d.secret_policy e))
      | inr e ↦ e
    ]

    collect-complete :
        IsKeyed K t
        → (keys : List String) → Mem d.access_key keys
        → Mem d (own_keys (collect_secrets K pool keys t))
    unfolding collect_secrets
    collect-complete keyed [] h = absurd (not-mem-nil h)
    collect-complete keyed (key ∷ keys) h = elim (Bool-cases (d.access_key == key)) [
      | inl same ↦
          rw
            (
              subst (λ k. K.get k t.secrets ≡ some d) ((eq_iff d.access_key key).0 same)
                  owned.in_table,
              (eq_iff d.pool pool).1 owned.in_pool,
              for_user,
              own_keys,
            )
            mem-cons_self
      | inr other ↦
          let rest =
            collect-complete keyed keys
              (mem_of_ne_of_mem (λ q. ground (arith, other, q, eq_iff d.access_key key)) h) in
          own_keys-step (λ ds. Mem d ds) key keys keyed rest (λ c _ _. mem-cons.1 ∣ inr rest ∣₁)
    ]

    is_scanned : Mem d.access_key (K.scan "*" t.secrets)
    is_scanned = K.Mem-scan d.access_key t.secrets there
      where
        there : K.get d.access_key t.secrets ≢ none
        there e = ground (arith, e, owned.in_table)

  pub list_secrets-AreKeys :
      IsKeyed K t
      → Distinct (K.scan "*" t.secrets)
      → AreKeys K pool t.secrets (own_keys (list_secrets_of_pool K pool t))
  list_secrets-AreKeys keyed once = record {
    own = collect-IsOwn keyed (K.scan "*" t.secrets);
    complete = λ d h. collect-complete d h keyed _ (is_scanned d h);
    once = collect-once keyed _ once;
  }
