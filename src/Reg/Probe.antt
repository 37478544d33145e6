-- ===== src/Reg/Probe.antt =====
-- A new bucket in a pool whose key for probing is gone.
use lens.Prelude.{String, true, ◌≡◌, ◌+◌, none, some, arith, refl, ◌∙◌}
use lens.Reg.KeyVal.{KeyVal}
use lens.Reg.Flow.{Go, returned, quits, ◌>>=◌}
use lens.Reg.Records.{Db, UserRecord, PoolRecord, BucketRecord, BucketPolicy}
use lens.Reg.Naming.{check_bucket_naming}
use lens.Reg.World.{World, HttpRequest, MakeBucketRequest, days, unix}
use lens.Reg.Table.{get_pool, get_bucket, get_secret}
use lens.Reg.Access.{check_user_access}
use lens.Reg.Checks.{
  intern_bucket_policy_from_ui, decode_request_body, bucket_arguments, check_make_bucket_request,
}
use lens.Reg.Handlers.{register_bucket, probe_access_mux, make_bucket}

module _ {S A B : Type 0} (m : Go S A) (f : A → Go S B) (s : S) {s' : S} where
  bind-step : {a : A} → m s ≡ (returned a, s') → (m >>= f) s ≡ f a s'
  unfolding ◌>>=◌
  bind-step e = rw e refl

  bind-quits : m s ≡ (quits, s') → (m >>= f) s ≡ (quits, s')
  unfolding ◌>>=◌
  bind-quits e = rw e refl

module _ (K : KeyVal) (w : World) (r : HttpRequest) (pool : String) (t t' : Db K) where
  arguments-step :
      (args : MakeBucketRequest)
      → decode_request_body K w (w.decode_bucket r.body) ≡ some args
      → bucket_arguments K w r t' ≡ (returned args, t')
  unfolding bucket_arguments
  arguments-step args e = ground (arith, e)

  request-step :
      (args : MakeBucketRequest) (policy : BucketPolicy)
      → check_bucket_naming args.bucket ≡ true
      → intern_bucket_policy_from_ui args.bucket_policy ≡ some policy
      → check_make_bucket_request K w args t' ≡ (returned policy, t')
  unfolding check_make_bucket_request
  request-step args policy e f = ground (arith, e, f)

  register-step :
      (name : String) (b : BucketRecord)
      → get_bucket K name t' ≡ none
      → register_bucket K w name b t'
        ≡ (returned tt, record t' { buckets = K.set name b t'.buckets })
  unfolding register_bucket
  register-step name b e = ground (arith, e)

  probe-step :
      (p : PoolRecord) {bs : K.Map BucketRecord}
      → get_pool K pool t' ≡ some p
      → get_secret K p.probe_key t' ≡ none
      → probe_access_mux K w pool (record t' { buckets = bs }) ≡ (quits, record t' { buckets = bs })
  unfolding probe_access_mux
  probe-step p e f = ground (arith, e, f)

  -- When a user may use a pool whose key for probing is not in the table, then a request for a new
  -- bucket, with a good name that is free and a good policy, quits the service, and the bucket
  -- stays registered.
  pub make_bucket-no_probe :
      (u : UserRecord) (p : PoolRecord) (args : MakeBucketRequest) (policy : BucketPolicy)
      → check_user_access K w r pool t ≡ (returned u, t')
      → decode_request_body K w (w.decode_bucket r.body) ≡ some args
      → check_bucket_naming args.bucket ≡ true
      → intern_bucket_policy_from_ui args.bucket_policy ≡ some policy
      → get_bucket K args.bucket t' ≡ none
      → get_pool K pool t' ≡ some p
      → get_secret K p.probe_key t' ≡ none
      → make_bucket K w r pool t ≡ (
        quits,
        record t' {
          buckets =
              K.set args.bucket
                (record {
                  pool = pool;
                  bucket = args.bucket;
                  bucket_policy = policy;
                  expiration_time = unix (w.now + days w.conf.bucket_expiration_days);
                  timestamp = unix w.now;
                })
                t'.buckets;
        },
      )
  unfolding make_bucket
  make_bucket-no_probe u p args policy access decoded named known free is_pool gone =
      bind-step _ _ t access
      ∙ bind-step _ _ t' (arguments-step args decoded)
      ∙ bind-step _ _ t' (request-step args policy named known)
      ∙ bind-step _ _ t' (register-step args.bucket _ free)
      ∙ bind-quits _ _ _ (probe-step p is_pool gone)
