-- ===== src/Ui/Spec.antt =====
-- What the server describes (the records pool_prop_ui, bucket_data_ui and secret_data_ui of
-- v2/lens3/registrar.go), as typed data, and its form as a value. The UI is specified by these.
pub mod Lists
pub mod Shown
pub mod Buttons
pub mod Division
use Prim.Native.String.{◌++◌}
use lens.Prelude.{
  true, false, ℕ, ◌≤◌, String, Bool, List, [], ◌∷◌, map, All, eqb, ◌==◌, if◌then◌else◌,
}
use lens.Js.Value.{
  Value, undefined, str, num, bool, obj, arr, Fields, no_fields, field, items, join,
}
use lens.Js.Date.{max_time}
use lens.Ui.State.{Key, App}
use lens.Ui.Node.{tree}
use lens.Ui.Render.{Row, row, bucket_row, secret_node, pool_nodes}
use lens.Ui.Times.{time_text}

pub record Bucket : Type 0 where
  pub pool : String
  pub name : String
  pub bkt_policy : String
  pub modification_time : ℕ

pub record Secret : Type 0 where
  pub owner : String
  pub access_key : String
  pub secret_key : String
  pub key_policy : String
  pub expiration_time : ℕ
  pub modification_time : ℕ

pub record Desc : Type 0 where
  pub pool_name : String
  pub buckets_directory : String
  pub owner_uid : String
  pub owner_gid : String
  pub buckets : List Bucket
  pub secrets : List Secret
  pub probe_key : String
  pub expiration_time : ℕ
  pub online_status : Bool
  pub user_enabled_status : Bool
  pub minio_state : String
  pub minio_reason : String
  pub modification_time : ℕ

abbrev pub object : List (String × Value) → Value
object kvs = obj (fields kvs)
  where
    fields : List (String × Value) → Fields
    fields [] = no_fields
    fields ((k, v) ∷ more) = field k v (fields more)

abbrev pub bucket_value : Bucket → Value
bucket_value b = object (
    ("pool", str b.pool)
    ∷ ("name", str b.name)
    ∷ ("bkt_policy", str b.bkt_policy)
    ∷ ("modification_time", num b.modification_time)
    ∷ [])

abbrev pub secret_value : Secret → Value
secret_value k = object (
    ("owner", str k.owner)
    ∷ ("access_key", str k.access_key)
    ∷ ("secret_key", str k.secret_key)
    ∷ ("key_policy", str k.key_policy)
    ∷ ("expiration_time", num k.expiration_time)
    ∷ ("modification_time", num k.modification_time)
    ∷ [])

abbrev pub desc_value : Desc → Value
desc_value d = object (
    ("pool_name", str d.pool_name)
    ∷ ("buckets_directory", str d.buckets_directory)
    ∷ ("owner_uid", str d.owner_uid)
    ∷ ("owner_gid", str d.owner_gid)
    ∷ ("buckets", arr (items (map bucket_value d.buckets)))
    ∷ ("secrets", arr (items (map secret_value d.secrets)))
    ∷ ("probe_key", str d.probe_key)
    ∷ ("expiration_time", num d.expiration_time)
    ∷ ("online_status", bool d.online_status)
    ∷ ("user_enabled_status", bool d.user_enabled_status)
    ∷ ("minio_state", str d.minio_state)
    ∷ ("minio_reason", str d.minio_reason)
    ∷ ("modification_time", num d.modification_time)
    ∷ [])

-- The times are within the range of `Date`.
abbrev pub IsTimely : Desc → Type 0
IsTimely d =
    All (λ (k : Secret). k.expiration_time ≤ max_time) d.secrets
    × (d.expiration_time ≤ max_time)
    × (d.modification_time ≤ max_time)

-- A time in the UI: 0 is shown as it is.
abbrev pub shown_time : ℕ → String
shown_time n = if eqb 0 n then "0" else time_text n

abbrev pub shown_key : Secret → Key
shown_key k = record {
  access_key = str k.access_key;
  secret_key = str k.secret_key;
  expiration_time = shown_time k.expiration_time;
}

-- The elements with a policy, in order.
unfoldable pub select {ℓ} : {A : Type ℓ} → (A → String) → String → List A → List A
select policy t [] = []
select policy t (x ∷ xs) = if policy x == t then x ∷ select policy t xs else select policy t xs

abbrev pub keys_with : String → Desc → List Secret
keys_with t d = select (λ (k : Secret). k.key_policy) t d.secrets

abbrev pub buckets_with : String → Desc → List Bucket
buckets_with t d = select (λ (b : Bucket). b.bkt_policy) t d.buckets

-- The names of the buckets with a policy, with spaces between.
abbrev pub names_of : String → Desc → Value
names_of t d = str (join " " (map (λ (b : Bucket). str b.name) (buckets_with t d)))

abbrev pub time_value : ℕ → Value
time_value n = str (shown_time n)

-- The lines of the pool list about a pool.
abbrev pub rows : Desc → List Row
rows d =
    row "Buckets directory" (str d.buckets_directory)
    ∷ row "Unix user" (str d.owner_uid)
    ∷ row "Unix group" (str d.owner_gid)
    ∷ row "Private buckets" (names_of "none" d)
    ∷ row "Public buckets" (names_of "public" d)
    ∷ row "Public download buckets" (names_of "download" d)
    ∷ row "Public upload buckets" (names_of "upload" d)
    ∷ row "Pool-ID" (str d.pool_name)
    ∷ row "Backend state" (str (d.minio_state ++ (" (reason: " ++ (d.minio_reason ++ ")"))))
    ∷ row "Expiration date" (time_value d.expiration_time)
    ∷ row "User enabled" (bool d.user_enabled_status)
    ∷ row "Pool online" (bool d.online_status)
    ∷ row "Creation date" (time_value d.modification_time)
    ∷ []

-- The page when a pool is edited.
abbrev pub edited : Desc → App → App
edited d s = record s {
  pool_data = record (s.pool_data) {
    pool_name = str d.pool_name;
    buckets_directory = str d.buckets_directory;
    owner = str d.owner_uid;
    group_choices = undefined;
    bucket_list = arr (items (map bucket_value d.buckets));
    secrets_rw = map shown_key (keys_with "readwrite" d);
    secrets_ro = map shown_key (keys_with "readonly" d);
    secrets_wo = map shown_key (keys_with "writeonly" d);
  };
  dom = record (s.dom) {
    buckets_directory = d.buckets_directory;
    list_of_buckets = map (λ (b : Bucket). bucket_row (str b.name) (str b.bkt_policy)) d.buckets;
    list_of_secrets_rw = map secret_node (map shown_key (keys_with "readwrite" d));
    list_of_secrets_ro = map secret_node (map shown_key (keys_with "readonly" d));
    list_of_secrets_wo = map secret_node (map shown_key (keys_with "writeonly" d));
    pool_list_section = false;
    buckets_section = true;
    secrets_section = true;
  };
}

-- The page when the pools are listed.
abbrev pub listed : List Desc → App → App
listed ds s = record s {
  pool_data = record (s.pool_data) { pool_desc_list = arr (items (map desc_value ds)) };
  dom = record (s.dom) {
    list_of_pools = tree "div" [] (pool_nodes 0 (map rows ds)) ∷ [];
    pool_list_section = true;
    buckets_section = false;
    secrets_section = false;
  };
}
