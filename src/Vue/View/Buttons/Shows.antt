-- ===== src/Vue/View/Buttons/Shows.antt =====
-- The buttons of a tree that is rendered, and of a list of trees.
use mathlib.Core.List.{◌++◌, append-nil}
use lens.Prelude.{
  ℕ, false, suc, ◌+◌, ◌≡◌, refl, String, Bool-cases, inl, inr, List, [], ◌∷◌, map, Option, some,
  get_elem?, length, arith, if◌then◌else◌, ◌==◌, subst,
}
use lens.Js.Value.{Value, str, get, index, loosely}
use lens.Ui.Spec.{Bucket, Secret, Desc, bucket_value, desc_value}
use lens.Vue.State.{Key}
use lens.Vue.Actions.{Event, edit, delete_pool, reason, copy_text, delete_secret, delete_bucket}
use lens.Vue.Tree.{Tree, trees, clicks, trees_clicks, traverse}
use lens.Vue.View.Parts.{Framework, range}
use lens.Vue.View.Pools.{pool_view, reason_view}
use lens.Vue.View.Keys.{key_row, key_set_view}
use lens.Vue.View.Edit.{bucket_view}
use lens.Vue.Spec.{shown_key}

-- A tree is rendered, without an exception, with these buttons.
pub record Shows (o : Option Tree) (es : List Event) : Type 0 where
  pub tree : Tree
  pub rendered : o ≡ some tree
  pub events : clicks tree ≡ es

pub record ShowsAll (o : Option (List Tree)) (es : List Event) : Type 0 where
  pub shown : List Tree
  pub rendered : o ≡ some shown
  pub events : trees_clicks (trees shown) ≡ es

-- The events of each element, in order.
abbrev pub all_events {ℓ} : {A : Type ℓ} → (A → List Event) → List A → List Event
all_events f [] = []
all_events f (x ∷ xs) = f x ++ all_events f xs

pub traverse-nil {ℓ} : {A : Type ℓ} (f : A → Option Tree) → ShowsAll (traverse f []) []
unfolding traverse trees clicks
traverse-nil f = record { shown = []; rendered = refl; events = refl }

module _ {ℓ} {A : Type ℓ} (f : A → Option Tree) where
  pub traverse-cons :
      (x : A) (xs : List A) (es fs : List Event)
      → Shows (f x) es
      → ShowsAll (traverse f xs) fs
      → ShowsAll (traverse f (x ∷ xs)) (es ++ fs)
  unfolding traverse trees clicks
  traverse-cons x xs es fs h k = record {
    shown = h.tree ∷ k.shown;
    rendered = rw (h.rendered, k.rendered) refl;
    events = rw (h.events, k.events) refl;
  }

-- The buttons of the n-th pool: one to close the reason, where there is one, and those to edit and to
-- delete it.
abbrev pub pool_events : ℕ → Desc → List Event
pool_events n d =
    if d.minio_reason == "-"
    then edit n ∷ delete_pool n ∷ []
    else reason n false ∷ edit n ∷ delete_pool n ∷ []

abbrev pub list_events : ℕ → List Desc → List Event
list_events n [] = []
list_events n (d ∷ ds) = pool_events n d ++ list_events (n + 1) ds

module _ (F : Framework) where
  pool_view-events :
      (pools : Value) (n : ℕ) (d : Desc)
      → index pools n ≡ some (desc_value d)
      → Shows (pool_view F pools n) (pool_events n d)
  unfolding pool_view reason_view clicks trees get loosely
  pool_view-events pools n d e = elim (Bool-cases (d.minio_reason == "-")) [
    | inl h ↦ rw (e, h) (record { tree = _; rendered = refl; events = refl })
    | inr h ↦ rw (e, h) (record { tree = _; rendered = refl; events = refl })
  ]

  pub slides-events :
      (pools : Value) (p : ℕ) (ds : List Desc)
      → ((i : ℕ) (d : Desc) → get_elem? ds i ≡ some d → index pools (p + i) ≡ some (desc_value d))
      → ShowsAll (traverse (pool_view F pools) (range p (length ds))) (list_events p ds)
  slides-events pools p [] h = traverse-nil _
  slides-events pools p (d ∷ ds) h =
      traverse-cons _ p _ _ _
        (pool_view-events pools p d
          (subst (λ k. index pools k ≡ some (desc_value d)) (omega arith) (h 0 d refl)))
        (slides-events pools (p + 1) ds
          (λ i c e. subst (λ k. index pools k ≡ some (desc_value c)) (omega arith) (h (suc i) c e)))

-- The buttons of a key: for copying its two parts, and for deleting it.
abbrev pub key_events : Secret → List Event
key_events k =
    copy_text (str k.access_key)
    ∷ copy_text (str k.secret_key)
    ∷ delete_secret (str k.access_key)
    ∷ []

abbrev pub bucket_events : Bucket → List Event
bucket_events b = delete_bucket (str b.name) ∷ []

pub buckets-events :
    (bs : List Bucket)
    → ShowsAll (traverse bucket_view (map bucket_value bs)) (all_events bucket_events bs)
unfolding bucket_view clicks trees get
buckets-events [] = traverse-nil _
buckets-events (b ∷ bs) =
    traverse-cons _ _ _ _ _ (record { tree = _; rendered = refl; events = refl })
      (buckets-events bs)

keys-events :
    (ks : List Secret)
    → ShowsAll
        (traverse (λ (k : Key). some (key_row k)) (map shown_key ks))
        (all_events key_events ks)
unfolding key_row clicks trees
keys-events [] = traverse-nil _
keys-events (k ∷ ks) =
    traverse-cons _ _ _ _ _ (record { tree = _; rendered = refl; events = refl }) (keys-events ks)

module _ (F : Framework) where
  pub key_set-events :
      (policy : String) (ks : List Secret)
      → Shows
          (key_set_view F (record { policy = policy; keys = map shown_key ks }))
          (all_events key_events ks)
  unfolding key_set_view clicks trees
  key_set-events policy ks =
      let h = keys-events ks in
      rw (F.render_list_is Key (λ k. some (key_row k)) (map shown_key ks), h.rendered)
        (record { tree = _; rendered = refl; events = simp append-nil h.events })
