-- ===== src/Vue/Spec.antt =====
-- What the Vue client should become on the data that the server describes.
pub mod Shown
pub mod Buttons
use lens.Prelude.{ℕ, String, true, false, List, [], ◌∷◌, map, eqb, if◌then◌else◌}
use lens.Js.Value.{Value, str, num, bool, arr, items}
use lens.Vue.State.{Key, KeySet, Client}
use lens.Vue.Times.{date_text}
use lens.Ui.Spec.{Bucket, Secret, Desc, bucket_value, secret_value, desc_value, keys_with}

-- A time is shown as its day; the number 0 is shown as it is.
abbrev pub shown_day : ℕ → Value
shown_day n = if eqb n 0 then num 0 else date_text n

abbrev pub shown_key : Secret → Key
shown_key k = record {
  access_key = str k.access_key;
  secret_key = str k.secret_key;
  expiration_time = shown_day k.expiration_time;
}

-- The keys with a policy, as they are shown.
abbrev pub shown_with : String → Desc → List Key
shown_with t d = map shown_key (keys_with t d)

abbrev pub key_set : String → Desc → KeySet
key_set t d = record { policy = t; keys = shown_with t d }

-- The client when a pool is edited.
abbrev pub edited : Desc → Client → Client
edited d s = record s {
  pool_data = record (s.pool_data) {
    pool_name = str d.pool_name;
    buckets_directory = str d.buckets_directory;
    user = str d.owner_uid;
    group = str d.owner_gid;
    buckets = arr (items (map bucket_value d.buckets));
    secrets = arr (items (map secret_value d.secrets));
    probe_key = str d.probe_key;
    expiration_time = num d.expiration_time;
    online_status = bool d.online_status;
    user_enabled_status = bool d.user_enabled_status;
    minio_state = str d.minio_state;
    minio_reason = str d.minio_reason;
    modification_time = num d.modification_time;
    secrets_rw = shown_with "readwrite" d;
    secrets_ro = shown_with "readonly" d;
    secrets_wo = shown_with "writeonly" d;
    access_key_set = key_set "readwrite" d ∷ key_set "readonly" d ∷ key_set "writeonly" d ∷ [];
    bucket_name = str "";
    bucket_policy = str "none";
    edit_pool_visible = true;
  };
}

-- The client when the pools are listed.
abbrev pub listed : List Desc → Client → Client
listed ds s = record s {
  pool_data = record (s.pool_data) {
    pool_list = arr (items (map desc_value ds));
    edit_pool_visible = false;
  };
}
