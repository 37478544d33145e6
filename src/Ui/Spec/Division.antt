-- ===== src/Ui/Spec/Division.antt =====
-- The three lists of keys of lens3ui.js, together.
use mathlib.Core.List.{Perm, ◌++◌, perm_middle, map-append, append-nil}
use mathlib.Core.List.Perm
use lens.Prelude.{
  sym, ◌∙◌, ◌≡◌, ◌≢◌, ◌⊎◌, inl, inr, String, List, [], ◌∷◌, map, All, eq_iff, ◌==◌, Bool-cases,
  refl, arith, some,
}
use lens.Js.Value.{Value, get}
use lens.Ui.State.{App, Key}
use lens.Ui.Code.{final}
use lens.Ui.Data.{set_pool_data}
use lens.Ui.Spec.{Desc, Secret, desc_value, IsTimely, select, shown_key}
use lens.Ui.Spec.Shown.{set_pool_data_lem}

-- A policy occurs once in a list of policies.
abbrev Once : String → List String → Type 0
Once p [] = ⊥
Once p (t ∷ ts) = ((p ≡ t) × All (λ u. p ≢ u) ts) ⊎ ((p ≢ t) × Once p ts)

module _ {A : Type 0} (policy : A → String) where
  -- The elements with the first policy, with the second, and so on.
  gather : List String → List A → List A
  gather [] xs = []
  gather (t ∷ ts) xs = select policy t xs ++ gather ts xs

  select-same :
      (t : String) (x : A) (xs : List A)
      → policy x ≡ t
      → select policy t (x ∷ xs) ≡ x ∷ select policy t xs
  unfolding select
  select-same t x xs e = rw ((eq_iff (policy x) t).1 e)

  select-other :
      (t : String) (x : A) (xs : List A)
      → policy x ≢ t
      → select policy t (x ∷ xs) ≡ select policy t xs
  unfolding select
  select-other t x xs ne = elim (Bool-cases (policy x == t)) [
    | inl e ↦ absurd (ne ((eq_iff (policy x) t).0 e))
    | inr e ↦ rw e
  ]

  gather-other :
      (ts : List String) (x : A) (xs : List A)
      → All (λ t. policy x ≢ t) ts
      → gather ts (x ∷ xs) ≡ gather ts xs
  unfolding gather
  gather-other [] x xs h = refl
  gather-other (t ∷ ts) x xs (ne, h) = rw (select-other t x xs ne) (rw (gather-other ts x xs h))

  gather-cons :
      (ts : List String) (x : A) (xs : List A)
      → Once (policy x) ts
      → Perm (gather ts (x ∷ xs)) (x ∷ gather ts xs)
  unfolding gather
  gather-cons [] x xs once = elim once [ ]
  gather-cons (t ∷ ts) x xs (inl (e, rest)) =
      rw (select-same t x xs e) (rw (gather-other ts x xs rest) (Perm.refl _))
  gather-cons (t ∷ ts) x xs (inr (ne, once)) = rw (select-other t x xs ne) (
      Perm.trans (Perm.append (Perm.refl _) (gather-cons ts x xs once))
        (perm_middle (select policy t xs) (gather ts xs)))

  gather-nil : (ts : List String) → gather ts [] ≡ []
  unfolding gather select
  gather-nil [] = refl
  gather-nil (t ∷ ts) = gather-nil ts

  gather-perm :
      (ts : List String) (xs : List A) → All (λ x. Once (policy x) ts) xs → Perm (gather ts xs) xs
  gather-perm ts [] h = rw (gather-nil ts) (Perm.refl _)
  gather-perm ts (x ∷ xs) (once, h) =
      Perm.trans (gather-cons ts x xs once) (Perm.cons x (gather-perm ts xs h))

-- The policies of keys that the server uses.
abbrev pub IsKeyPolicy : String → Type 0
IsKeyPolicy p = (p ≡ "readwrite") ⊎ ((p ≡ "readonly") ⊎ (p ≡ "writeonly"))

abbrev key_policies : List String
key_policies = "readwrite" ∷ "readonly" ∷ "writeonly" ∷ []

rw-ne-ro : ◌≢◌ {A = String} "readwrite" "readonly"
rw-ne-ro = ground (arith, eq_iff "readwrite" "readonly")

rw-ne-wo : ◌≢◌ {A = String} "readwrite" "writeonly"
rw-ne-wo = ground (arith, eq_iff "readwrite" "writeonly")

ro-ne-wo : ◌≢◌ {A = String} "readonly" "writeonly"
ro-ne-wo = ground (arith, eq_iff "readonly" "writeonly")

IsKeyPolicy-Once : (p : String) → IsKeyPolicy p → Once p key_policies
IsKeyPolicy-Once p (inl e) = inl (e, (λ q. rw-ne-ro (sym e ∙ q), (λ q. rw-ne-wo (sym e ∙ q), tt)))
IsKeyPolicy-Once p (inr (inl e)) =
    inr (λ q. rw-ne-ro (sym q ∙ e), inl (e, (λ q. ro-ne-wo (sym e ∙ q), tt)))
IsKeyPolicy-Once p (inr (inr e)) =
    inr (λ q. rw-ne-wo (sym q ∙ e), inr (λ q. ro-ne-wo (sym q ∙ e), inl (e, tt)))

All-Once :
    (ks : List Secret)
    → All (λ (k : Secret). IsKeyPolicy k.key_policy) ks
    → All (λ (k : Secret). Once k.key_policy key_policies) ks
All-Once [] h = tt
All-Once (k ∷ ks) (p, h) = (IsKeyPolicy-Once k.key_policy p, All-Once ks h)

-- The keys that the page has, in the order of its sections.
abbrev pub shown_keys : App → List Key
shown_keys page =
    page.pool_data.secrets_rw ++ (page.pool_data.secrets_ro ++ page.pool_data.secrets_wo)

-- After `set_pool_data` on a description whose times, those of the keys too, are in the range of
-- Date, and whose keys have one of the three policies, the three lists of keys together are the
-- described keys, each once, up to order.
pub secrets-perm :
    (d : Desc) (response : Value) (s : App)
    → IsTimely d
    → All (λ (k : Secret). IsKeyPolicy k.key_policy) d.secrets
    → get response "pool_desc" ≡ some (desc_value d)
    → Perm (shown_keys (final (set_pool_data response s))) (map shown_key d.secrets)
unfolding gather
secrets-perm d response s times policies sent = rw (set_pool_data_lem d response s times sent) (
    rw (← map-append) (
      rw (← map-append) (
        rw append-nil at (
          Perm.map shown_key (
            gather-perm (λ (k : Secret). k.key_policy) key_policies d.secrets
              (All-Once d.secrets policies))))))
