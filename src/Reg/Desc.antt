-- ===== src/Reg/Desc.antt =====
-- The records for the UI: copy_pool_prop_to_ui and what it calls, in v2/lens3/registrar.go, and the
-- responses as JSON values.
use lens.Prelude.{ℕ, String, List, [], ◌∷◌, map}
use lens.Js.Value.{Value, str, num, arr, items}
use lens.Ui.Spec.{Bucket, Secret, Desc, object, desc_value}
use lens.Reg.Records.{
  PoolState, initial, ready, disabled, suspended, inoperable, BucketPolicy, bucket_rw, bucket_ro,
  bucket_wo, bucket_none, BucketRecord, SecretPolicy, secret_rw, secret_ro, secret_wo,
  internal_access, SecretRecord, PoolProp,
}

abbrev pub export_bucket_policy_to_ui : BucketPolicy → String
export_bucket_policy_to_ui bucket_none = "none"
export_bucket_policy_to_ui bucket_wo = "upload"
export_bucket_policy_to_ui bucket_ro = "download"
export_bucket_policy_to_ui bucket_rw = "public"

-- A policy that the map has not gives the empty text.
abbrev pub export_secret_policy_to_ui : SecretPolicy → String
export_secret_policy_to_ui secret_rw = "readwrite"
export_secret_policy_to_ui secret_ro = "readonly"
export_secret_policy_to_ui secret_wo = "writeonly"
export_secret_policy_to_ui internal_access = ""

abbrev state_text : PoolState → String
state_text initial = "initial"
state_text ready = "ready"
state_text disabled = "disabled"
state_text suspended = "suspended"
state_text inoperable = "inoperable"

abbrev pub bucket_to_ui : BucketRecord → Bucket
bucket_to_ui d = record {
  pool = d.pool;
  name = d.bucket;
  bkt_policy = export_bucket_policy_to_ui d.bucket_policy;
  modification_time = d.timestamp;
}

unfoldable pub copy_bucket_data_to_ui : List BucketRecord → List Bucket
copy_bucket_data_to_ui m = map bucket_to_ui m

abbrev pub secret_to_ui : SecretRecord → Secret
secret_to_ui d = record {
  owner = d.pool;
  access_key = d.access_key;
  secret_key = d.secret_key;
  key_policy = export_secret_policy_to_ui d.secret_policy;
  expiration_time = d.expiration_time;
  modification_time = d.timestamp;
}

-- A key for the service itself is left out.
abbrev pub keep_secret {ℓ} : {A : Type ℓ} → SecretPolicy → A → List A → List A
keep_secret internal_access u secrets = secrets
keep_secret _ u secrets = u ∷ secrets

unfoldable pub copy_secret_data_to_ui : List SecretRecord → List Secret
copy_secret_data_to_ui [] = []
copy_secret_data_to_ui (d ∷ m) =
    keep_secret d.secret_policy (secret_to_ui d) (copy_secret_data_to_ui m)

unfoldable pub copy_pool_prop_to_ui : PoolProp → Desc
copy_pool_prop_to_ui d = record {
  pool_name = d.pool_record.pool;
  buckets_directory = d.pool_record.bucket_directory;
  owner_uid = d.pool_record.owner_uid;
  owner_gid = d.pool_record.owner_gid;
  buckets = copy_bucket_data_to_ui d.buckets;
  secrets = copy_secret_data_to_ui d.secrets;
  probe_key = d.pool_record.probe_key;
  expiration_time = d.pool_record.expiration_time;
  online_status = d.pool_record.enabled;
  user_enabled_status = d.user_record.enabled;
  minio_state = state_text d.approximate_state_record.state;
  minio_reason = d.approximate_state_record.reason;
  modification_time = d.pool_record.timestamp;
}

abbrev pub pool_prop_response : ℕ → Desc → Value
pool_prop_response time d =
    object (("status", str "success") ∷ ("time", num time) ∷ ("pool_desc", desc_value d) ∷ [])

abbrev pub pool_list_response : ℕ → List Desc → Value
pool_list_response time ds = object (
    ("status", str "success")
    ∷ ("time", num time)
    ∷ ("pool_list", arr (items (map desc_value ds)))
    ∷ [])
