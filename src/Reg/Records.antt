-- ===== src/Reg/Records.antt =====
-- The records of the keyval-db (v2/lens3/table.go) and its tables, one for each prefix of keys
-- that the modelled requests use. Times are in seconds since 1970.
use lens.Prelude.{ℕ, String, Bool, List}
use lens.Reg.KeyVal.{KeyVal}

pub record UserRecord : Type 0 where
  pub uid : String
  pub claim : String
  pub groups : List String
  pub enabled : Bool
  pub ephemeral : Bool
  pub expiration_time : ℕ
  pub check_terms_and_conditions : Bool
  pub timestamp : ℕ

-- The pair of the cookie and the header.
pub record CsrfTokenRecord : Type 0 where
  pub csrf_token : String × String
  pub timestamp : ℕ

pub record UserClaimRecord : Type 0 where
  pub uid : String
  pub timestamp : ℕ

pub record PoolNameRecord : Type 0 where
  pub owner_uid : String
  pub timestamp : ℕ

pub record PoolRecord : Type 0 where
  pub pool : String
  pub bucket_directory : String
  pub owner_uid : String
  pub owner_gid : String
  pub probe_key : String
  pub expiration_time : ℕ
  pub enabled : Bool
  pub inoperable : Bool
  pub reason : String
  pub timestamp : ℕ

pub data PoolState : Type 0 where
  initial ready disabled suspended inoperable : PoolState

pub record ApproximateStateRecord : Type 0 where
  pub pool : String
  pub state : PoolState
  pub reason : String
  pub timestamp : ℕ

pub record BucketDirectoryRecord : Type 0 where
  pub pool : String
  pub directory : String
  pub timestamp : ℕ

pub data BucketPolicy : Type 0 where
  bucket_rw bucket_ro bucket_wo bucket_none : BucketPolicy

pub record BucketRecord : Type 0 where
  pub pool : String
  pub bucket : String
  pub bucket_policy : BucketPolicy
  pub expiration_time : ℕ
  pub timestamp : ℕ

pub data SecretPolicy : Type 0 where
  secret_rw secret_ro secret_wo internal_access : SecretPolicy

pub record SecretRecord : Type 0 where
  pub pool : String
  pub access_key : String
  pub secret_key : String
  pub secret_policy : SecretPolicy
  pub expiration_time : ℕ
  pub timestamp : ℕ

-- A running Multiplexer.
pub record MuxRecord : Type 0 where
  pub mux_ep : String
  pub start_time : ℕ
  pub timestamp : ℕ

pub record Db (K : KeyVal) : Type 0 where
  pub users : K.Map UserRecord
  pub claims : K.Map UserClaimRecord
  pub pools : K.Map PoolRecord
  pub directories : K.Map BucketDirectoryRecord
  pub pool_names : K.Map PoolNameRecord
  pub buckets : K.Map BucketRecord
  pub secrets : K.Map SecretRecord
  pub muxs : K.Map MuxRecord
  pub csrf_tokens : K.Map CsrfTokenRecord
  pub states : K.Map ApproximateStateRecord
  pub pool_timestamps : K.Map ℕ

-- A description of a pool, merged from the tables (v2/lens3/poolprop.go).
pub record PoolProp : Type 0 where
  pub pool_record : PoolRecord
  pub approximate_state_record : ApproximateStateRecord
  pub user_record : UserRecord
  pub buckets : List BucketRecord
  pub secrets : List SecretRecord
