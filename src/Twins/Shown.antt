-- ===== src/Twins/Shown.antt =====
-- What the two user interfaces keep of a pool that the server describes.
use lens.Js.Date.{take_chars, epoch}
use lens.Js.Date.Cut.{take_chars-iso_text}
use lens.Prelude.{
  ℕ, ◌+◌, eqb, arith, Bool-cases, inl, inr, String, ◌≡◌, refl, ap₂, List, [], ◌∷◌, map, some,
}
use lens.Ui.Times.{time_text}
use lens.Js.Value.{to_text, Value, str, get}
use lens.Ui.State.{App}
use lens.Ui.State
use lens.Ui.Code.{final}
use lens.Ui.Spec.{Secret, Desc, desc_value, IsTimely, keys_with}
use lens.Ui.Spec
use lens.Ui.Spec.Shown.{set_pool_data_lem}
use lens.Vue.State.{Client}
use lens.Vue.Code.{left}
use lens.Vue.Spec.Shown.{set_pool_data_shown}

-- The two parts of a key, and the day of its expiration: the page shows a time and the client a day.
abbrev pub page_key : lens.Ui.State.Key → Value × Value × String
page_key k = (k.access_key, k.secret_key, take_chars 10 k.expiration_time)

abbrev pub client_key : lens.Vue.State.Key → Value × Value × String
client_key k = (k.access_key, k.secret_key, to_text k.expiration_time)

eqb_comm : (a b : ℕ) → eqb a b ≡ eqb b a
eqb_comm a b = ground arith

same_day : (n : ℕ) → take_chars 10 (lens.Ui.Spec.shown_time n) ≡ to_text (lens.Vue.Spec.shown_day n)
unfolding take_chars to_text time_text lens.Vue.Times.date_text lens.Js.Number.decimal
same_day n = elim (Bool-cases (eqb n 0)) [
  | inl e ↦ rw (eqb_comm 0 n, e) refl
  | inr e ↦ rw (eqb_comm 0 n, e) (take_chars-iso_text (n + epoch))
]

same_keys :
    (ks : List Secret)
    → map page_key (map lens.Ui.Spec.shown_key ks) ≡ map client_key (map lens.Vue.Spec.shown_key ks)
same_keys [] = refl
same_keys (k ∷ ks) =
    ap₂ (λ day ps. (str k.access_key, str k.secret_key, day) ∷ ps) (same_day k.expiration_time)
      (same_keys ks)

-- When the page of ui2 and the Vue client get the same description of a pool, with times in the range of
-- Date, then both have the same name of the pool, the same directory and the same buckets, and under each
-- of the three policies the same keys in the same order, whatever they had before; and the text that the
-- client shows for the expiration of a key is the first ten characters of the one that the page shows.
pub same_editor :
    (d : Desc) (response : Value) (s : App) (c : Client)
    → IsTimely d
    → get response "pool_desc" ≡ some (desc_value d)
    → let p = (final (lens.Ui.Data.set_pool_data response s)).pool_data in
      let q = (left (lens.Vue.Client.set_pool_data response c)).pool_data in
      (p.pool_name ≡ q.pool_name)
      × (p.buckets_directory ≡ q.buckets_directory)
      × (p.bucket_list ≡ q.buckets)
      × (map page_key p.secrets_rw ≡ map client_key q.secrets_rw)
      × (map page_key p.secrets_ro ≡ map client_key q.secrets_ro)
      × (map page_key p.secrets_wo ≡ map client_key q.secrets_wo)
same_editor d response s c times sent = rw (set_pool_data_lem d response s times sent) (
    rw (set_pool_data_shown d response c times.0 sent) (
      refl,
      refl,
      refl,
      same_keys (keys_with "readwrite" d),
      same_keys (keys_with "readonly" d),
      same_keys (keys_with "writeonly" d),
    ))
