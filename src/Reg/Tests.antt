-- ===== src/Reg/Tests.antt =====
-- A registrar with two users and their pools, and tests by evaluation.
pub mod Requests
use lens.Prelude.{
  ℕ, String, Bool, true, false, ◌≡◌, refl, Option, none, some, List, [], ◌∷◌, ◌==◌, if◌then◌else◌,
}
use lens.Reg.Flow.{returned, refused, crashed, quits, ◌>>=◌}
use lens.Reg.Records.{
  Db, UserRecord, PoolRecord, BucketRecord, SecretRecord, MuxRecord, CsrfTokenRecord,
  BucketDirectoryRecord, bucket_none, bucket_rw, secret_rw, internal_access,
}
use lens.Reg.World.{World, HttpRequest, claim_id, probed}
use lens.Reg.Memory.{memory, entry, content_of, without, put, names}
use lens.Reg.Handlers.{
  make_bucket, delete_bucket, make_secret, delete_secret, delete_pool, list_pool,
}

abbrev pub world : World
world = record {
  conf = record {
    claim_uid_map = claim_id;
    user_expiration_days = 100;
    bucket_expiration_days = 100;
    secret_expiration_days = 100;
  };
  now = 1686755715000000000;
  day_before = λ t. 1686669315000000000;
  account = λ uid. true;
  trusted = λ peer. peer == "10.0.0.1:80";
  split_at = λ s. none;
  trim_space = λ s. s;
  byte_length = λ s. 2;
  decode_bucket = λ body.
      if body == "none"
      then none
      else some (record { bucket = body; bucket_policy = "public" }, "");
  decode_secret =
      λ body. some (record { secret_policy = "readonly"; expiration_time = 1686800000 }, "");
  access_keys = λ i. "abcdefghij0123456789";
  secret_key = "s";
  probe = λ pool. probed;
  sort_pools = λ ds. ds;
}

abbrev pub ann_pool : String
ann_pool = "a000000000000000"

abbrev pub bob_pool : String
bob_pool = "b000000000000000"

abbrev pub ann_probe : String
ann_probe = "aaaaaaaaaaaaaaaaaaaa"

abbrev pub bob_probe : String
bob_probe = "bbbbbbbbbbbbbbbbbbbb"

abbrev pub user : String → UserRecord
user name = record {
  uid = name;
  claim = "";
  groups = "g" ∷ [];
  enabled = true;
  ephemeral = false;
  expiration_time = 1709164800;
  check_terms_and_conditions = false;
  timestamp = 1686755000;
}

abbrev pub pool_record : String → String → String → PoolRecord
pool_record pool uid probe = record {
  pool = pool;
  bucket_directory = pool;
  owner_uid = uid;
  owner_gid = "g";
  probe_key = probe;
  expiration_time = 1709164800;
  enabled = true;
  inoperable = false;
  reason = "-";
  timestamp = 1686755000;
}

abbrev directory : String → BucketDirectoryRecord
directory pool = record { pool = pool; directory = pool; timestamp = 1686755000 }

abbrev probe_secret : String → String → SecretRecord
probe_secret pool key = record {
  pool = pool;
  access_key = key;
  secret_key = "s";
  secret_policy = internal_access;
  expiration_time = 1709164800;
  timestamp = 1686755000;
}

abbrev pub ann_key : SecretRecord
ann_key = record (probe_secret ann_pool "kkkkkkkkkkkkkkkkkkkk") { secret_policy = secret_rw }

abbrev tokens : String → CsrfTokenRecord
tokens uid = record { csrf_token = ("c", uid); timestamp = 1686755000 }

abbrev pub tables : Db memory
tables = record {
  users = entry "ann" (user "ann") ∷ entry "bob" (user "bob") ∷ [];
  claims = [];
  pools =
      entry ann_pool (pool_record ann_pool "ann" ann_probe)
      ∷ entry bob_pool (pool_record bob_pool "bob" bob_probe)
      ∷ [];
  directories = entry ann_pool (directory ann_pool) ∷ entry bob_pool (directory bob_pool) ∷ [];
  pool_names = [];
  buckets =
      entry "bucket0" (record {
        pool = ann_pool;
        bucket = "bucket0";
        bucket_policy = bucket_none;
        expiration_time = 1709164800;
        timestamp = 1686755000;
      })
      ∷ [];
  secrets =
      entry ann_probe (probe_secret ann_pool ann_probe)
      ∷ entry "kkkkkkkkkkkkkkkkkkkk" ann_key
      ∷ entry bob_probe (probe_secret bob_pool bob_probe)
      ∷ [];
  muxs = entry "m" (record { mux_ep = "m"; start_time = 0; timestamp = 0 }) ∷ [];
  csrf_tokens = entry "ann" (tokens "ann") ∷ entry "bob" (tokens "bob") ∷ [];
  states = [];
  pool_timestamps = [];
}

-- A request of a user, with the tokens.
abbrev pub request : String → String → HttpRequest
request uid body = record {
  remote_addr = "10.0.0.1:80";
  x_remote_user = uid;
  x_csrf_token = uid;
  cookie = some "c";
  body = body;
}

-- All of the code, for tests by evaluation.
unfoldable pub registrar : Unit {0}
unfolding ◌>>=◌ content_of without put names lens.Reg.Table.find_directory lens.Reg.Table.list_mux
    lens.Reg.Table.collect_buckets lens.Reg.Table.collect_secrets lens.Reg.Table.set_user_raw
    lens.Reg.Table.get_user_claim lens.Reg.Naming.check_pool_naming
    lens.Reg.Naming.check_bucket_naming lens.Reg.Naming.check_secret_naming
    lens.Reg.Pools.check_user_is_active lens.Reg.Pools.check_pool_is_usable
    lens.Reg.Pools.check_pool_is_suspened lens.Reg.Pools.combine_pool_state
    lens.Reg.Pools.delete_buckets lens.Reg.Pools.delete_secrets lens.Reg.Pools.delete_directory
    lens.Reg.Pools.delete_entries lens.Reg.Pools.deregister_pool_by_prop lens.Reg.Pools.all_buckets
    lens.Reg.Pools.owner_record lens.Reg.Pools.settle lens.Reg.Pools.gather_from
    lens.Reg.Pools.gather_pool_prop lens.Reg.Pools.deregister_found lens.Reg.Pools.deregister_pool
    lens.Reg.Access.convert_claim_to_uid lens.Reg.Access.extend_user_expiration_time
    lens.Reg.Access.checked_record lens.Reg.Access.check_user_account lens.Reg.Access.matches
    lens.Reg.Access.check_csrf_tokens lens.Reg.Access.check_pool lens.Reg.Access.check_running
    lens.Reg.Access.check_proxy lens.Reg.Access.accept_user lens.Reg.Access.accept_tokens
    lens.Reg.Access.check_user_access lens.Reg.Checks.intern_bucket_policy_from_ui
    lens.Reg.Checks.intern_secret_policy_from_ui lens.Reg.Checks.check_stream_eof
    lens.Reg.Checks.check_empty_arguments lens.Reg.Checks.decode_request_body
    lens.Reg.Checks.check_make_bucket_request lens.Reg.Checks.is_good_expiration
    lens.Reg.Checks.check_make_secret_request lens.Reg.Checks.bucket_arguments
    lens.Reg.Checks.secret_arguments lens.Reg.Checks.check_bucket_owner
    lens.Reg.Checks.check_secret_owner lens.Reg.Handlers.return_found
    lens.Reg.Handlers.return_pool_prop lens.Reg.Handlers.gather_pools lens.Reg.Handlers.pool_list
    lens.Reg.Handlers.list_pool lens.Reg.Handlers.delete_pool lens.Reg.Handlers.register_bucket
    lens.Reg.Handlers.probe_access_mux lens.Reg.Handlers.confirm_bucket
    lens.Reg.Handlers.make_bucket lens.Reg.Handlers.deleted lens.Reg.Handlers.delete_bucket
    lens.Reg.Handlers.set_with_unique_secret_key lens.Reg.Handlers.make_secret
    lens.Reg.Handlers.delete_secret lens.Reg.Desc.copy_bucket_data_to_ui
    lens.Reg.Desc.copy_secret_data_to_ui lens.Reg.Desc.copy_pool_prop_to_ui
registrar = tt
