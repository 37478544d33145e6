-- ===== src/Ui/Spec/Lists.antt =====
-- The loops over the lists of a description, on well-formed values: they end and compute what the
-- specification says.
use lens.Prelude.{
  eqb, le→leb, ℕ, ◌≤◌, String, ◌≡◌, refl, List, [], ◌∷◌, map, All, Bool-cases, some, inl, inr, ◌==◌,
  ap,
}
use lens.Js.Value.{str, join, Value, num, get, items, list_of, loosely, to_number}
use lens.Js.Date.{max_time}
use lens.Ui.State.{App}
use lens.Ui.Code.{prop, ◌>>=◌, done, each, filter_by}
use lens.Ui.Times.{format_time_z}
use lens.Ui.Render.{bucket_node, bucket_row}
use lens.Ui.Data.{names_with_policy, key_shown, has_text}
use lens.Ui.Spec.{Bucket, bucket_value, select, Secret, secret_value, shown_time, shown_key}

pub list_of-items : (vs : List Value) → list_of (items vs) ≡ vs
unfolding list_of items
list_of-items [] = refl
list_of-items (v ∷ vs) = ap (v ∷◌) (list_of-items vs)

pub format_time_z-num : (n : ℕ) → n ≤ max_time → format_time_z (num n) ≡ some (shown_time n)
unfolding format_time_z loosely to_number
format_time_z-num n h = elim (Bool-cases (eqb 0 n)) [
  | inl e ↦ rw e
  | inr e ↦ rw (e, le→leb n max_time h)
]

module _ (s : App) where
  key_shown_lem :
      (k : Secret)
      → k.expiration_time ≤ max_time
      → key_shown (secret_value k) s ≡ done (shown_key k) s
  unfolding key_shown get ◌>>=◌
  key_shown_lem k h = rw (format_time_z-num k.expiration_time h)

  pub each-key_shown :
      (ks : List Secret)
      → All (λ (k : Secret). k.expiration_time ≤ max_time) ks
      → each key_shown (map secret_value ks) s ≡ done (map shown_key ks) s
  unfolding each ◌>>=◌
  each-key_shown [] h = refl
  each-key_shown (k ∷ ks) (h, hs) = rw (key_shown_lem k h) (rw (each-key_shown ks hs))

  pub filter-secrets :
      (t : String) (ks : List Secret)
      → filter_by (has_text "key_policy" t) (map secret_value ks) s
        ≡ done (map secret_value (select (λ (k : Secret). k.key_policy) t ks)) s
  unfolding filter_by ◌>>=◌ has_text get loosely select
  filter-secrets t [] = refl
  filter-secrets t (k ∷ ks) = elim (Bool-cases (k.key_policy == t)) [
    | inl e ↦ rw (filter-secrets t ks) (rw e)
    | inr e ↦ rw (filter-secrets t ks) (rw e)
  ]

  filter-buckets :
      (t : String) (bs : List Bucket)
      → filter_by (has_text "bkt_policy" t) (map bucket_value bs) s
        ≡ done (map bucket_value (select (λ (b : Bucket). b.bkt_policy) t bs)) s
  unfolding filter_by ◌>>=◌ has_text get loosely select
  filter-buckets t [] = refl
  filter-buckets t (b ∷ bs) = elim (Bool-cases (b.bkt_policy == t)) [
    | inl e ↦ rw (filter-buckets t bs) (rw e)
    | inr e ↦ rw (filter-buckets t bs) (rw e)
  ]

  each-name :
      (bs : List Bucket)
      → each (λ d. prop d "name") (map bucket_value bs) s
        ≡ done (map (λ (b : Bucket). str b.name) bs) s
  unfolding each ◌>>=◌ get
  each-name [] = refl
  each-name (b ∷ bs) = rw (each-name bs)

  pub names_with_policy_lem :
      (t : String) (bs : List Bucket)
      → names_with_policy t (map bucket_value bs) s
        ≡ done
            (str (
              join " "
                (map (λ (b : Bucket). str b.name) (select (λ (b : Bucket). b.bkt_policy) t bs))))
            s
  unfolding names_with_policy ◌>>=◌
  names_with_policy_lem t bs =
      rw (filter-buckets t bs) (rw (each-name (select (λ (b : Bucket). b.bkt_policy) t bs)))

  pub each-bucket_node :
      (bs : List Bucket)
      → each bucket_node (map bucket_value bs) s
        ≡ done (map (λ (b : Bucket). bucket_row (str b.name) (str b.bkt_policy)) bs) s
  unfolding each ◌>>=◌ get bucket_node
  each-bucket_node [] = refl
  each-bucket_node (b ∷ bs) = rw (each-bucket_node bs)

pub All-select :
    (t : String) (ks : List Secret)
    → All (λ (k : Secret). k.expiration_time ≤ max_time) ks
    → All
        (λ (k : Secret). k.expiration_time ≤ max_time)
        (select (λ (k : Secret). k.key_policy) t ks)
unfolding select
All-select t [] h = tt
All-select t (k ∷ ks) (h, hs) = elim (Bool-cases (k.key_policy == t)) [
  | inl e ↦ rw e (h, All-select t ks hs)
  | inr e ↦ rw e (All-select t ks hs)
]
