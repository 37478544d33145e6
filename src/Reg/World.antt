-- ===== src/Reg/World.antt =====
-- What a request of v2/lens3/registrar.go meets besides the tables: the configuration, and what
-- the libraries answer (net/http, encoding/json, os/user, time, the random keys, and the
-- Multiplexer behind probe_access_mux).
use lens.Prelude.{ℕ, ◌/◌, ◌*◌, String, Bool, Option, List}
use lens.Ui.Spec.{Desc}

pub data ClaimUidMap : Type 0 where
  claim_id claim_email_name claim_map : ClaimUidMap

-- The numbers of days are positive: the source asserts it, and the assertions are left out.
pub record RegConf : Type 0 where
  pub claim_uid_map : ClaimUidMap
  pub user_expiration_days : ℕ
  pub bucket_expiration_days : ℕ
  pub secret_expiration_days : ℕ

pub record MakeBucketRequest : Type 0 where
  pub bucket : String
  pub bucket_policy : String

-- An expiration before 1970 is not modelled.
pub record MakeSecretRequest : Type 0 where
  pub secret_policy : String
  pub expiration_time : ℕ

-- How a probe-access of a Multiplexer ends: well, with an error response, or with another error.
pub data Probe : Type 0 where
  probed : Probe
  proxy_exc : ℕ → String → Probe
  failed : Probe

pub record World : Type 0 where
  pub conf : RegConf
  -- time.Now(), in nanoseconds, and AddDate(0, 0, -1) on it
  pub now : ℕ
  pub day_before : ℕ → ℕ
  -- whether user.Lookup finds a user
  pub account : String → Bool
  -- whether the peer is one of the trusted proxies
  pub trusted : String → Bool
  -- the two parts of a text around its only "@"
  pub split_at : String → Option (String × String)
  pub trim_space : String → String
  pub byte_length : String → ℕ
  -- json.Decoder with unknown fields disallowed: the record, and what is buffered after it
  pub decode_bucket : String → Option (MakeBucketRequest × String)
  pub decode_secret : String → Option (MakeSecretRequest × String)
  -- the access keys and the secret key that are drawn
  pub access_keys : ℕ → String
  pub secret_key : String
  pub probe : String → Probe
  -- slices.SortFunc by the directories
  pub sort_pools : List Desc → List Desc

-- The headers and the body that the handlers read; a missing header is "".
pub record HttpRequest : Type 0 where
  pub remote_addr : String
  pub x_remote_user : String
  pub x_csrf_token : String
  pub cookie : Option String
  pub body : String

abbrev pub second : ℕ
second = 1000000000

abbrev pub days : ℕ → ℕ
days n = n * 86400 * second

-- time.Time.Unix
abbrev pub unix : ℕ → ℕ
unix t = t / second
