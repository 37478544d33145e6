-- ===== src/Reg/Checks.antt =====
-- The bodies of the requests and their checks, in v2/lens3/registrar.go and v2/lens3/utility.go.
use lens.Prelude.{
  ℕ, ◌+◌, ◌*◌, String, Bool, true, false, not, ◌&&◌, ◌||◌, Option, none, some, ltb, ◌==◌,
  if◌then◌else◌,
}
use lens.Reg.KeyVal.{KeyVal}
use lens.Reg.Flow.{Go, give, refuse}
use lens.Reg.Records.{
  Db, BucketPolicy, bucket_rw, bucket_ro, bucket_wo, bucket_none, SecretPolicy, secret_rw,
  secret_ro, secret_wo,
}
use lens.Reg.Naming.{check_bucket_naming, check_secret_naming}
use lens.Reg.Table.{get_bucket, get_secret}
use lens.Reg.World.{World, HttpRequest, MakeBucketRequest, MakeSecretRequest, second, days}

unfoldable pub intern_bucket_policy_from_ui : String → Option BucketPolicy
intern_bucket_policy_from_ui s =
    if s == "none"
    then some bucket_none
    else if s == "upload"
    then some bucket_wo
    else if s == "download"
    then some bucket_ro
    else if s == "public"
    then some bucket_rw
    else none

unfoldable pub intern_secret_policy_from_ui : String → Option SecretPolicy
intern_secret_policy_from_ui s =
    if s == "readwrite"
    then some secret_rw
    else if s == "readonly"
    then some secret_ro
    else if s == "writeonly"
    then some secret_wo
    else none

module _ (K : KeyVal) (w : World) where
  -- Of 512 bytes that are read at once; an object without fields may stand for no body.
  unfoldable pub check_stream_eof : String → Bool → Bool
  check_stream_eof s accept_json_empty =
      (s == "")
      || (accept_json_empty
          && ltb (w.byte_length s) 512
          && ((w.trim_space s == "") || (w.trim_space s == "{}")))

  unfoldable pub check_empty_arguments : HttpRequest → Go (Db K) Unit
  check_empty_arguments r =
      if check_stream_eof r.body true then give tt else refuse 400 "Arguments not empty"

  -- What was decoded, when nothing follows it. The test for fields that are not filled is made on
  -- the pointer to the record, which passes.
  unfoldable pub decode_request_body {ℓ} : {A : Type ℓ} → Option (A × String) → Option A
  decode_request_body none = none
  decode_request_body (some (args, rest)) = if check_stream_eof rest false then some args else none

  unfoldable pub check_make_bucket_request : MakeBucketRequest → Go (Db K) BucketPolicy
  check_make_bucket_request args =
      if not (check_bucket_naming args.bucket)
      then refuse 400 "Bad bucket"
      else elim (intern_bucket_policy_from_ui args.bucket_policy) [
        | none ↦ refuse 400 "Bad policy"
        | some policy ↦ give policy
      ]

  -- Between a day before and the longest expiration.
  unfoldable pub is_good_expiration : ℕ → Bool
  is_good_expiration e =
      ltb (w.day_before w.now) (e * second)
      && ltb (e * second) (w.now + days w.conf.secret_expiration_days)

  unfoldable pub check_make_secret_request : MakeSecretRequest → Go (Db K) SecretPolicy
  check_make_secret_request args = elim (intern_secret_policy_from_ui args.secret_policy) [
    | none ↦ refuse 400 "Bad policy"
    | some policy ↦
        if is_good_expiration args.expiration_time then give policy else refuse 400 "Bad expiration"
  ]

  unfoldable pub bucket_arguments : HttpRequest → Go (Db K) MakeBucketRequest
  bucket_arguments r = elim (decode_request_body (w.decode_bucket r.body)) [
    | none ↦ refuse 400 "Bad body encoding"
    | some args ↦ give args
  ]

  unfoldable pub secret_arguments : HttpRequest → Go (Db K) MakeSecretRequest
  secret_arguments r = elim (decode_request_body (w.decode_secret r.body)) [
    | none ↦ refuse 400 "Bad body encoding"
    | some args ↦ give args
  ]

  unfoldable pub check_bucket_owner : String → String → Go (Db K) Unit
  check_bucket_owner pool bucket t =
      if not (check_bucket_naming bucket)
      then refuse 400 "Bad bucket" t
      else elim (get_bucket K bucket t) [
        | none ↦ refuse 404 "No bucket" t
        | some b ↦ if b.pool == pool then give tt t else refuse 403 "Not bucket owner" t
      ]

  unfoldable pub check_secret_owner : String → String → Go (Db K) Unit
  check_secret_owner pool secret t =
      if not (check_secret_naming secret)
      then refuse 400 "Bad secret" t
      else elim (get_secret K secret t) [
        | none ↦ refuse 404 "No secret" t
        | some b ↦ if b.pool == pool then give tt t else refuse 403 "Not secret owner" t
      ]
