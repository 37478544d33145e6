-- ===== src/Reg/Made.antt =====
-- A bucket that the registrar makes, and the page of ui2 that gets the answer.
mod Listed
use mathlib.Core.List.{Mem, mem-cons, mem-cons_self, mem-map_of_mem, not-mem-nil, mem_of_ne_of_mem}
use lens.Prelude.{
  ◌+◌, String, Bool, true, false, ◌≡◌, ◌≢◌, refl, sym, ap, ap₂, ◌∙◌, subst, Option, none, some,
  List, [], ◌∷◌, map, arith, ◌==◌, ◌||◌, eq_iff, if◌then◌else◌, Bool-cases, inl, inr, Option-cases,
}
use lens.Js.Value.{str, get}
use lens.Ui.State.{App}
use lens.Ui.Code.{final}
use lens.Ui.Node.{Node}
use lens.Ui.Render.{bucket_row}
use lens.Ui.Data.{set_pool_data}
use lens.Ui.Spec.{Bucket, Desc, IsTimely}
use lens.Ui.Spec.Shown.{set_pool_data_lem}
use lens.Reg.KeyVal.{KeyVal}
use lens.Reg.Flow.{returned, Go, ◌>>=◌, ◌>>◌}
use lens.Reg.Flow.Inversion.{bind_returned, read_returned}
use lens.Reg.Records.{Db, BucketRecord, BucketPolicy}
use lens.Reg.World.{
  World, HttpRequest, MakeBucketRequest, Probe, probed, proxy_exc, failed, days, unix,
}
use lens.Reg.Table.{put_first, collect_buckets, list_buckets}
use lens.Reg.Desc.{
  export_bucket_policy_to_ui, bucket_to_ui, copy_bucket_data_to_ui, copy_pool_prop_to_ui,
  pool_prop_response,
}
use lens.Reg.Access.{check_user_access}
use lens.Reg.Checks.{
  intern_bucket_policy_from_ui, decode_request_body, bucket_arguments, check_make_bucket_request,
}
use lens.Reg.Handlers.{
  register_bucket, probe_access_mux, confirm_bucket, return_pool_prop, make_bucket,
}
use lens.Reg.Gathered.{gather_pool_prop-Fits}
use lens.Reg.Answers.{returned_found}
use lens.Reg.Isolation.Pieces.{bucket_arguments-same, make_bucket_request-same, probe-same}
use Listed.{answered}

-- The text of a policy that was read is the one that is sent.
export-intern :
    (s : String) (p : BucketPolicy)
    → intern_bucket_policy_from_ui s ≡ some p
    → export_bucket_policy_to_ui p ≡ s
unfolding intern_bucket_policy_from_ui
export-intern s p e =
    ground (arith, e, eq_iff s "none", eq_iff s "upload", eq_iff s "download", eq_iff s "public")

module _ (K : KeyVal) (w : World) (t : Db K) where
  arguments_of :
      (r : HttpRequest) (args : MakeBucketRequest)
      → (bucket_arguments K w r t).0 ≡ returned args
      → decode_request_body K w (w.decode_bucket r.body) ≡ some args
  unfolding bucket_arguments
  arguments_of r args e = ground (arith, e)

  policy_of :
      (args : MakeBucketRequest) (p : BucketPolicy)
      → (check_make_bucket_request K w args t).0 ≡ returned p
      → intern_bucket_policy_from_ui args.bucket_policy ≡ some p
  unfolding check_make_bucket_request
  policy_of args p e = ground (arith, e)

  registered :
      (name : String) (b : BucketRecord)
      → (register_bucket K w name b t).0 ≡ returned tt
      → K.get name (register_bucket K w name b t).1.buckets ≡ some b
  unfolding register_bucket
  registered name b e = elim (Option-cases (K.get name t.buckets)) [
    | inl f ↦ ground (arith, f, K.get-set name name b t.buckets, eq_iff name name)
    | inr (c, f) ↦ ground (arith, e, f)
  ]

  confirmed :
      (name : String) (answer : Probe)
      → (confirm_bucket K w name answer t).0 ≡ returned tt
      → (confirm_bucket K w name answer t).1 ≡ t
  unfolding confirm_bucket
  confirmed name probed e = refl
  confirmed name (proxy_exc c m) e = let (_, _, g) = bind_returned _ _ t tt e in ground (arith, g)
  confirmed name failed e = let (_, _, g) = bind_returned _ _ t tt e in ground (arith, g)

module _ (K : KeyVal) (w : World) (pool : String) where
  -- The bucket is registered and asked for in the backend, and the pool is described.
  ask : BucketRecord → Go (Db K) Desc
  ask b = do
    register_bucket K w b.bucket b
    answer ← probe_access_mux K w pool
    confirm_bucket K w b.bucket answer
    return_pool_prop K w pool

  confirmed-bucket :
      (b : BucketRecord) (answer : Probe) (t : Db K) (d : Desc)
      → b.pool ≡ pool
      → K.get b.bucket t.buckets ≡ some b
      → ((confirm_bucket K w b.bucket answer >> return_pool_prop K w pool) t).0 ≡ returned d
      → Mem (bucket_to_ui b) d.buckets
  confirmed-bucket b answer t d mine here h =
      let (_, e, f) = bind_returned (confirm_bucket K w b.bucket answer) _ t d h in
      answered K w t pool b here mine d (
        subst (λ s. (return_pool_prop K w pool s).0 ≡ returned d)
          (confirmed K w t b.bucket answer e) f)

  ask-bucket :
      (b : BucketRecord) (t : Db K) (d : Desc)
      → b.pool ≡ pool
      → (ask b t).0 ≡ returned d
      → Mem (bucket_to_ui b) d.buckets
  unfolding ask
  ask-bucket b t d mine h =
      let (_, e, f) = bind_returned (register_bucket K w b.bucket b) _ t d h in
      let s = (register_bucket K w b.bucket b t).1 in
      let (answer, _, g) = read_returned _ _ s d (probe-same K w s pool) f in
      confirmed-bucket b answer s d mine (registered K w t b.bucket b e) g

module _ (K : KeyVal) (w : World) (r : HttpRequest) (pool : String) (t : Db K) where
  -- What a request asks for.
  record Asked (d : Desc) : Type 0 where
    args : MakeBucketRequest
    is_decoded : decode_request_body K w (w.decode_bucket r.body) ≡ some args
    policy : BucketPolicy
    is_policy : intern_bucket_policy_from_ui args.bucket_policy ≡ some policy
    record_of : BucketRecord
    is_bucket : record_of.bucket ≡ args.bucket
    has_policy : record_of.bucket_policy ≡ policy
    is_listed : Mem (bucket_to_ui record_of) d.buckets

  abbrev bucket_of : MakeBucketRequest → BucketPolicy → BucketRecord
  bucket_of args policy = record {
    pool = pool;
    bucket = args.bucket;
    bucket_policy = policy;
    expiration_time = unix (w.now + days w.conf.bucket_expiration_days);
    timestamp = unix w.now;
  }

  make_bucket-Asked : (d : Desc) → (make_bucket K w r pool t).0 ≡ returned d → Asked d
  unfolding make_bucket ask
  make_bucket-Asked d h =
      let t1 = (check_user_access K w r pool t).1 in
      let (u, _, h1) = bind_returned _ _ t d h in
      let (args, e2, h2) = read_returned _ _ t1 d (bucket_arguments-same K w t1 r) h1 in
      let (policy, e3, h3) = read_returned _ _ t1 d (make_bucket_request-same K w t1 args) h2 in
      record {
        args = args;
        is_decoded = arguments_of K w t1 r args e2;
        policy = policy;
        is_policy = policy_of K w t1 args policy e3;
        record_of = bucket_of args policy;
        is_bucket = refl;
        has_policy = refl;
        is_listed = ask-bucket K w pool (bucket_of args policy) t1 d refl h3;
      }

  -- When the registrar answers a request for a new bucket with a description, with times in the
  -- range of Date, then the body was decoded, and after set_pool_data of the response, whatever the
  -- page of ui2 was, the list of buckets has a row with the name and the policy that were asked for.
  pub make_bucket-bucket_row :
      (d : Desc) (page : App)
      → (make_bucket K w r pool t).0 ≡ returned d
      → IsTimely d
      → (args : MakeBucketRequest) × (decode_request_body K w (w.decode_bucket r.body) ≡ some args)
        × Mem
            (bucket_row (str args.bucket) (str args.bucket_policy))
            (final (set_pool_data (pool_prop_response (unix w.now) d) page)).dom.list_of_buckets
  unfolding get
  make_bucket-bucket_row d page h times =
      let asked = make_bucket-Asked d h in (asked.args, asked.is_decoded, row_of asked)
    where
      shown : Bucket → Node
      shown b = bucket_row (str b.name) (str b.bkt_policy)

      text_of :
          (asked : Asked d)
          → export_bucket_policy_to_ui asked.record_of.bucket_policy ≡ asked.args.bucket_policy
      text_of asked =
          ap (λ p. export_bucket_policy_to_ui p) asked.has_policy
          ∙ export-intern asked.args.bucket_policy asked.policy asked.is_policy

      row_of :
          (asked : Asked d)
          → Mem
              (bucket_row (str asked.args.bucket) (str asked.args.bucket_policy))
              (final (set_pool_data (pool_prop_response (unix w.now) d) page)).dom.list_of_buckets
      row_of asked = rw (set_pool_data_lem d (pool_prop_response (unix w.now) d) page times refl) (
          subst (λ n. Mem n (map shown d.buckets))
            (ap₂ (λ n p. bucket_row (str n) (str p)) asked.is_bucket (text_of asked))
            (mem-map_of_mem shown asked.is_listed))
