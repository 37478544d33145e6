-- ===== src/Reg/Made/Listed.antt =====
-- A bucket of the table is in the list of its pool.
use mathlib.Core.List.{Mem, mem-cons, mem-cons_self, mem-map_of_mem, not-mem-nil, mem_of_ne_of_mem}
use lens.Prelude.{
  String, true, ◌≡◌, ◌≢◌, subst, Option, none, some, List, [], ◌∷◌, arith, ◌==◌, ◌||◌, eq_iff,
  Bool-cases, inl, inr, Option-cases,
}
use lens.Ui.Spec.{Desc}
use lens.Reg.KeyVal.{KeyVal}
use lens.Reg.Flow.{returned}
use lens.Reg.Records.{Db, BucketRecord}
use lens.Reg.World.{World}
use lens.Reg.Table.{put_first, collect_buckets, list_buckets}
use lens.Reg.Desc.{bucket_to_ui, copy_bucket_data_to_ui, copy_pool_prop_to_ui}
use lens.Reg.Handlers.{return_pool_prop}
use lens.Reg.Gathered.{gather_pool_prop-Fits}
use lens.Reg.Answers.{returned_found}

module _ (K : KeyVal) (w : World) (t : Db K) where
  module _ (pool : String) (b : BucketRecord) (here : K.get b.bucket t.buckets ≡ some b)
      (mine : b.pool ≡ pool) where
    Lists : Option (List BucketRecord) → Type 0
    Lists none = Unit
    Lists (some bs) = Mem b bs

    Lists-put_first :
        (d : BucketRecord) (o : Option (List BucketRecord)) → Lists o → Lists (put_first d o)
    unfolding Lists
    Lists-put_first d none h = tt
    Lists-put_first d (some bs) h = mem-cons.1 ∣ inr h ∣₁

    Lists-head : (o : Option (List BucketRecord)) → Lists (put_first b o)
    unfolding Lists
    Lists-head none = tt
    Lists-head (some bs) = mem-cons_self

    own-Lists :
        (key : String) (keys : List String)
        → (b.bucket == key) ≡ true
        → Lists (collect_buckets K pool (key ∷ keys) t)
    unfolding collect_buckets
    own-Lists key keys same =
        rw (found, collect_buckets)
          (rw same (elim (Bool-cases (pool == "")) [
            | inl p ↦ rw p (Lists-head _)
            | inr p ↦ rw (p, (eq_iff b.pool pool).1 mine) (Lists-head _)
          ]))
      where
        found : K.get key t.buckets ≡ some b
        found = subst (λ k. K.get k t.buckets ≡ some b) ((eq_iff b.bucket key).0 same) here

    other-Lists :
        (key : String) (keys : List String)
        → Lists (collect_buckets K pool keys t)
        → Lists (collect_buckets K pool (key ∷ keys) t)
    unfolding collect_buckets Lists
    other-Lists key keys h = elim (Option-cases (K.get key t.buckets)) [
      | inl e ↦ rw (e, Lists) h
      | inr (d, e) ↦ elim (Bool-cases (d.bucket == key)) [
        | inl q ↦ elim (Bool-cases ((pool == "") || (d.pool == pool))) [
          | inl p ↦ rw (e, q, p, Lists) (Lists-put_first d _ h)
          | inr p ↦ rw (e, q, p, Lists) h
        ]
        | inr q ↦ rw (e, q, Lists) tt
      ]
    ]

    -- The loop over the keys comes to it.
    collect-Lists : (keys : List String) → Mem b.bucket keys → Lists (collect_buckets K pool keys t)
    unfolding collect_buckets Lists
    collect-Lists [] h = absurd (not-mem-nil h)
    collect-Lists (key ∷ keys) h = elim (Bool-cases (b.bucket == key)) [
      | inl same ↦ own-Lists key keys same
      | inr other ↦ other-Lists key keys (
          collect-Lists keys
            (mem_of_ne_of_mem (λ q. ground (arith, other, q, eq_iff b.bucket key)) h))
    ]

    listed : (bs : List BucketRecord) → list_buckets K pool t ≡ some bs → Mem b bs
    unfolding Lists
    listed bs e =
        subst (λ o. Lists o) e
          (collect-Lists (K.scan "*" t.buckets) (K.Mem-scan b.bucket t.buckets there))
      where
        there : K.get b.bucket t.buckets ≢ none
        there f = ground (arith, f, here)

    -- An answer with the description has the bucket.
    pub answered :
        (d : Desc) → (return_pool_prop K w pool t).0 ≡ returned d → Mem (bucket_to_ui b) d.buckets
    unfolding copy_pool_prop_to_ui copy_bucket_data_to_ui
    answered d h =
        let (p, e, f) = returned_found K w pool t d h in
        let (_, _, fits) = gather_pool_prop-Fits K w t pool p e in
        subst (λ (a : Desc). Mem (bucket_to_ui b) a.buckets) f
          (mem-map_of_mem bucket_to_ui (listed p.buckets fits.at_buckets))
