-- ===== src/Vue/View/Buttons/Page.antt =====
-- The buttons of the whole page of the Vue client, after responses with pools and in the editor.
use mathlib.Core.List
use mathlib.Core.List.{append-nil, append_assoc}
use lens.Prelude.{
  ℕ, suc, ◌≡◌, refl, Bool, false, eqb, arith, Bool-cases, inl, inr, List, [], ◌∷◌, map, some,
  get_elem?, length, if◌then◌else◌, ap,
}
use native.Mathlib.Nat.{zero-add}
use lens.Js.Value.{Value, num, get, arr, items, truthy}
use lens.Ui.Spec.{Desc, bucket_value, desc_value, keys_with}
use lens.Ui.Spec.Lists.{list_of-items}
use lens.Ui.Spec.Buttons.{index-map}
use lens.Vue.State.{PoolData, Client, KeySet}
use lens.Vue.Code.{left}
use lens.Vue.Client.{set_pool_list}
use lens.Vue.Actions.{
  Event, kick_edit_pool, make_pool, make_bucket, make_secret, close, copy_url, leave_menu,
}
use lens.Vue.Tree.{comment, trees, clicks}
use lens.Vue.View.Parts.{Framework, length_of}
use lens.Vue.View.Pools.{shown_pools, slider, pool_view}
use lens.Vue.View.Keys.{key_set_view}
use lens.Vue.View.Edit.{edit_view, editor_view, new_bucket_view, new_key_view, bucket_view}
use lens.Vue.View.Frame.{alert_view, setting_view, about_view, bar_view, footer_view, app_view}
use lens.Vue.Spec.{edited, listed, key_set}
use lens.Vue.Spec.Shown.{AreTimely, set_pool_list_shown}
use lens.Vue.Spec.Buttons.{pool_buttons_lem}
use lens.Vue.View.Buttons.Shows.{
  Shows, all_events, list_events, slides-events, key_events, bucket_events, buckets-events,
  key_set-events, traverse-nil, traverse-cons,
}

length-map : {A B : Type 0} (f : A → B) (xs : List A) → length (map f xs) ≡ length xs
length-map f [] = refl
length-map f (x ∷ xs) = ap suc (length-map f xs)

some_pools : (n : ℕ) → eqb (suc n) 0 ≡ false
some_pools n = ground arith

-- The buttons of the editor: for a new bucket, for deleting each bucket, for new keys of the three
-- policies, and for the keys of each policy.
abbrev pub editor_events : Desc → List Event
editor_events d =
    make_bucket
    ∷ List.◌++◌ (all_events bucket_events d.buckets) (
        make_secret "readwrite"
        ∷ make_secret "readonly"
        ∷ make_secret "writeonly"
        ∷ List.◌++◌ (all_events key_events (keys_with "readwrite" d)) (
            List.◌++◌ (all_events key_events (keys_with "readonly" d))
              (all_events key_events (keys_with "writeonly" d))))

-- The buttons of a dialog that may be displayed.
abbrev pub alert_events : Bool → List Event
alert_events visible = if visible then close ∷ [] else []

-- The buttons of the dialog.
pub alert-events : (p : PoolData) → clicks (alert_view p) ≡ alert_events p.dialog_visible
unfolding alert_view clicks trees
alert-events p = elim (Bool-cases p.dialog_visible) [ inl e ↦ rw e refl | inr e ↦ rw e refl ]

module _ (F : Framework) where
  slider-events :
      (ds : List Desc)
      → Shows (slider F (arr (items (map desc_value ds))) (num (length ds))) (list_events 0 ds)
  unfolding slider clicks trees
  slider-events ds =
      let pools : Value = arr (items (map desc_value ds)) in
      let h = slides-events F pools 0 ds (λ i d e. rw zero-add (index-map ds i e)) in
      rw (F.render_times_is (pool_view F pools) (length ds), h.rendered)
        (record { tree = _; rendered = refl; events = simp append-nil h.events })

  list-events :
      (ds : List Desc) → Shows (shown_pools F (arr (items (map desc_value ds)))) (list_events 0 ds)
  unfolding shown_pools length_of clicks truthy
  list-events [] = record { tree = comment; rendered = rw list_of-items refl; events = refl }
  list-events (d ∷ ds) =
      rw (list_of-items, length-map desc_value (d ∷ ds), some_pools (length ds))
        (slider-events (d ∷ ds))

  editor-events :
      (now : ℕ) (d : Desc) (s : Client)
      → Shows (edit_view F now (edited d s).pool_data) (editor_events d)
  unfolding edit_view editor_view clicks trees new_bucket_view new_key_view
  editor-events now d s =
      let sets = key_set "readwrite" d ∷ key_set "readonly" d ∷ key_set "writeonly" d ∷ [] in
      let h = buckets-events d.buckets in
      let k =
        traverse-cons (key_set_view F) _ _ _ _
          (key_set-events F "readwrite" (keys_with "readwrite" d))
          (traverse-cons (key_set_view F) _ _ _ _
            (key_set-events F "readonly" (keys_with "readonly" d))
            (traverse-cons (key_set_view F) _ _ _ _
              (key_set-events F "writeonly" (keys_with "writeonly" d))
              (traverse-nil (key_set_view F)))) in
      rw
        (
          F.render_values_is bucket_view (map bucket_value d.buckets),
          h.rendered,
          F.render_list_is KeySet (key_set_view F) sets,
          k.rendered,
        )
        (record {
          tree = _;
          rendered = refl;
          events = simp (append-nil, append_assoc, h.events, k.events) refl;
        })

  setting-events :
      (now : ℕ) (p : PoolData) (es fs : List Event)
      → Shows (shown_pools F p.pool_list) es
      → Shows (edit_view F now p) fs
      → Shows
          (setting_view F now p)
          (make_pool ∷ List.◌++◌ es (List.◌++◌ fs (alert_events p.dialog_visible)))
  unfolding setting_view clicks trees
  setting-events now p es fs h k =
      rw (h.rendered, k.rendered)
        (record {
          tree = _;
          rendered = refl;
          events = simp (append-nil, h.events, k.events, alert-events p) refl;
        })

  -- The menu About is in the page as well, with its two buttons in front of the others.
  app-events :
      (now : ℕ) (p : PoolData) (es : List Event)
      → Shows (setting_view F now p) es
      → Shows (app_view F now p) (copy_url ∷ leave_menu ∷ es)
  unfolding app_view bar_view about_view footer_view clicks trees
  app-events now p es h =
      rw h.rendered
        (record { tree = _; rendered = refl; events = simp (append-nil, h.events) refl })

  -- After a response with pools, the whole page of the Vue client is rendered without an exception,
  -- and the events of its handlers of clicks are exactly these, in this order: to copy the link and to
  -- close the menu About; for a new pool; for each pool, to close the dialog with the reason of its
  -- state if the reason is not `-`, to edit it and to delete it; and to close the dialog with an error,
  -- if it is displayed. (What opens a reason has no handler: it is the activator of the dialog.)
  pub list_page-events :
      (now : ℕ) (ds : List Desc) (response : Value) (s : Client)
      → get response "pool_list" ≡ some (arr (items (map desc_value ds)))
      → Shows (app_view F now (left (set_pool_list response s)).pool_data) (
          copy_url
          ∷ leave_menu
          ∷ make_pool
          ∷ List.◌++◌ (list_events 0 ds) (alert_events s.pool_data.dialog_visible))
  unfolding edit_view clicks
  list_page-events now ds response s sent = app-events now _ _ (
      rw (set_pool_list_shown ds response s sent) (
        setting-events now _ _ [] (list-events ds)
          (record { tree = comment; rendered = refl; events = refl })))

  -- When the i-th of these pools is edited, and its keys expire in the range of Date, the whole page is
  -- rendered without an exception with the same handlers of clicks and, behind those of the pools, the
  -- ones of the editor of that pool: for a new bucket, for deleting each bucket, for new keys of the
  -- three policies, and for copying the two parts of each key and deleting it, the keys in the order of
  -- their policies.
  pub edit_page-events :
      (now : ℕ) (ds : List Desc) (response : Value) (s : Client) (i : ℕ) (d : Desc)
      → get response "pool_list" ≡ some (arr (items (map desc_value ds)))
      → get_elem? ds i ≡ some d
      → AreTimely d.secrets
      → Shows
          (app_view F now (left (kick_edit_pool i (left (set_pool_list response s)))).pool_data)
          (copy_url
            ∷ leave_menu
            ∷ make_pool
            ∷ List.◌++◌
                (list_events 0 ds)
                (List.◌++◌ (editor_events d) (alert_events s.pool_data.dialog_visible)))
  edit_page-events now ds response s i d sent at times =
      let (listed_is, edited_is, more) = pool_buttons_lem ds response s sent i d at times in
      app-events now _ _ (
        rw (edited_is, listed_is)
          (setting-events now _ _ _ (list-events ds) (editor-events now d (listed ds s))))
