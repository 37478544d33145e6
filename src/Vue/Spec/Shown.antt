-- ===== src/Vue/Spec/Shown.antt =====
-- `set_pool_data` and `set_pool_list` of the Vue client on data as the server describes it.
use lens.Prelude.{
  eqb, le→leb, ℕ, ◌≤◌, String, ◌≡◌, refl, List, [], ◌∷◌, map, All, Bool-cases, some, inl, inr, ◌==◌,
}
use lens.Js.Value.{Value, num, get, array, elements, items, arr, loosely, to_number}
use lens.Js.Date.{max_time}
use lens.Ui.Spec.{Secret, Desc, secret_value, desc_value, select, keys_with}
use lens.Ui.Spec.Lists.{list_of-items, All-select}
use lens.Vue.State.{Client}
use lens.Vue.Code.{◌>>=◌, ended, each, filter_by}
use lens.Vue.Times.{format_time_z, equals_zero}
use lens.Vue.Client.{
  has_policy, key_shown, format_time_in_keys, copy_desc, set_pool_data, set_pool_list,
}
use lens.Vue.Spec.{shown_day, shown_key, edited, listed}

-- The times of the keys are within the range of `Date`.
abbrev pub AreTimely : List Secret → Type 0
AreTimely ks = All (λ (k : Secret). k.expiration_time ≤ max_time) ks

format_time_z-num : (n : ℕ) → n ≤ max_time → format_time_z (num n) ≡ some (shown_day n)
unfolding format_time_z equals_zero to_number
format_time_z-num n h = elim (Bool-cases (eqb n 0)) [
  | inl e ↦ rw e
  | inr e ↦ rw (e, le→leb n max_time h)
]

module _ (s : Client) where
  key_shown_lem :
      (k : Secret)
      → k.expiration_time ≤ max_time
      → key_shown (secret_value k) s ≡ ended (shown_key k) s
  unfolding key_shown get ◌>>=◌
  key_shown_lem k h = rw (format_time_z-num k.expiration_time h)

  each-key_shown :
      (ks : List Secret)
      → AreTimely ks
      → each key_shown (map secret_value ks) s ≡ ended (map shown_key ks) s
  unfolding each ◌>>=◌
  each-key_shown [] h = refl
  each-key_shown (k ∷ ks) (h, hs) = rw (key_shown_lem k h) (rw (each-key_shown ks hs))

  filter-secrets :
      (t : String) (ks : List Secret)
      → filter_by (has_policy t) (map secret_value ks) s
        ≡ ended (map secret_value (select (λ (k : Secret). k.key_policy) t ks)) s
  unfolding filter_by ◌>>=◌ has_policy get loosely select
  filter-secrets t [] = refl
  filter-secrets t (k ∷ ks) = elim (Bool-cases (k.key_policy == t)) [
    | inl e ↦ rw (filter-secrets t ks) (rw e)
    | inr e ↦ rw (filter-secrets t ks) (rw e)
  ]

-- `set_pool_data` of the Vue client on a response with the description of a pool whose keys expire in the
-- range of Date, whatever the client is: the code ends without an exception, and the client is the
-- specified one. The keys are divided by their policies, in order, with their expirations as days.
pub set_pool_data_shown :
    (d : Desc) (response : Value) (s : Client)
    → AreTimely d.secrets
    → get response "pool_desc" ≡ some (desc_value d)
    → set_pool_data response s ≡ ended tt (edited d s)
unfolding set_pool_data copy_desc format_time_in_keys ◌>>=◌ get array
set_pool_data_shown d response s ks sent = rw sent (
    rw list_of-items (
      rw filter-secrets (
        rw filter-secrets (
          rw filter-secrets (
            rw (each-key_shown _ (keys_with "readwrite" d) (All-select "readwrite" d.secrets ks)) (
              rw (each-key_shown _ (keys_with "readonly" d) (All-select "readonly" d.secrets ks)) (
                rw (
                  each-key_shown _ (keys_with "writeonly" d)
                    (All-select "writeonly" d.secrets ks)))))))))

pub set_pool_list_shown :
    (ds : List Desc) (response : Value) (s : Client)
    → get response "pool_list" ≡ some (arr (items (map desc_value ds)))
    → set_pool_list response s ≡ ended tt (listed ds s)
unfolding set_pool_list ◌>>=◌ get elements
set_pool_list_shown ds response s sent = rw sent
