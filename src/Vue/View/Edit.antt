-- ===== src/Vue/View/Edit.antt =====
-- The render function of PoolEdit. The first day that the date picker offers is the one of yesterday, by
-- the time `now` in milliseconds.
use lens.Prelude.{ℕ, ◌-◌, ◌*◌, String, true, [], ◌∷◌, Option, some, if◌then◌else◌}
use lens.Js.Value.{Value, get}
use lens.Vue.State.{PoolData, KeySet}
use lens.Vue.Actions.{make_bucket, delete_bucket, make_secret}
use lens.Vue.Tree.{
  Tree, text, texts, value, number, flag, assigns, on_click, el, text_node, comment, ◌>>=◌,
}
use lens.Vue.View.Parts.{Framework, class, spacer, note, heading, tip}
use lens.Vue.View.Keys.{model_input, plain_button, key_set_view}

abbrev pub edit_note : String
edit_note =
    " Edit pool lists buckets and access keys. You can add/delete buckets. A bucket name should be unique in all pools including ones owned by others. "

abbrev keys_note : String
keys_note =
    " You can also add/delete access keys. An expiration date of an access key has a limit set by the site manager. "

unfoldable pub new_bucket_view : PoolData → Tree
new_bucket_view p = el "VRow" (("align", text "center") ∷ []) (
    spacer
    ∷ el "VCard" (class "w-75 pa-4 ma-4") (
        el "VCardTitle" [] (text_node "New bucket" ∷ [])
        ∷ el "VTextField"
            (("label", text "Bucket name")
              ∷ ("modelValue", value p.bucket_name)
              ∷ ("onUpdate:modelValue", assigns "bucket_name")
              ∷ [])
            []
        ∷ el "VSelect"
            (("label", text "Bucket policy for public access")
              ∷ ("variant", text "underlined")
              ∷ ("modelValue", value p.bucket_policy)
              ∷ ("onUpdate:modelValue", assigns "bucket_policy")
              ∷ ("required", text "")
              ∷ ("items", texts ("none" ∷ "public" ∷ "upload" ∷ "download" ∷ []))
              ∷ [])
            []
        ∷ tip "Create a bucket"
            (("icon", text "mdi-folder-plus") ∷ ("onClick", on_click make_bucket) ∷ [])
        ∷ [])
    ∷ spacer
    ∷ [])

unfoldable pub bucket_view : Value → Option Tree
bucket_view b = do
  name ← get b "name"
  policy ← get b "bkt_policy"
  some (
      el "tr" [] (
        el "td" [] (model_input "name" "30" name ∷ [])
        ∷ el "td" [] (model_input "bkt_policy" "30" policy ∷ [])
        ∷ el "td" [] (plain_button "Delete a bucket" "mdi-delete-forever" (delete_bucket name) ∷ [])
        ∷ []))

abbrev pub head_cell : String → Tree
head_cell t = el "th" (class "text-left") (text_node t ∷ [])

abbrev key_button : String → String → Tree
key_button policy label =
    el "VBtn"
      (("prepend-icon", text "mdi-key-plus") ∷ ("onClick", on_click (make_secret policy)) ∷ [])
      (text_node label ∷ [])

unfoldable pub new_key_view : ℕ → PoolData → Tree
new_key_view now p = el "VRow" (("align", text "center") ∷ []) (
    spacer
    ∷ el "VCard" (class "w-75 pa-4 ma-4") (
        el "VCardTitle" [] (text_node "New access key" ∷ [])
        ∷ key_button "readwrite" " Create readwrite key "
        ∷ text_node " \u{a0} "
        ∷ key_button "readonly" " Create readonly key "
        ∷ text_node " \u{a0} "
        ∷ key_button "writeonly" " Create writeonly key "
        ∷ spacer
        ∷ el "VRow" (("justify", text "center") ∷ []) (
            el "VDatePicker"
              (("title", text "Expiration (00:00:00 UTC)")
                ∷ ("header", text "")
                ∷ ("hide-actions", flag true)
                ∷ ("input-mode", text "keyboard")
                ∷ ("min", number (now - 24 * 3600 * 1000))
                ∷ ("modelValue", number p.key_expiration_time)
                ∷ ("onUpdate:modelValue", assigns "key_expiration_time")
                ∷ ("landscape", flag true)
                ∷ ("elevation", text "0")
                ∷ [])
              []
            ∷ [])
        ∷ [])
    ∷ spacer
    ∷ [])

abbrev pub divider : Tree
divider = el "VDivider" (("thickness", number 5) ∷ class "border-opacity-0") []

module _ (F : Framework) where
  open F use {display, render_list, render_values}

  unfoldable pub editor_view : ℕ → PoolData → Option Tree
  unfolding new_bucket_view bucket_view new_key_view key_set_view
  editor_view now p = do
    buckets ← render_values bucket_view p.buckets
    sets ← render_list KeySet (key_set_view F) p.access_key_set
    some (
        el "VContainer" (class "d-flex align-center text-center fill-height") (
          heading "Edit a Pool"
          ∷ el "div" (class "text-h6 text-center w-100")
              (text_node (display p.buckets_directory) ∷ [])
          ∷ note edit_note
          ∷ new_bucket_view p
          ∷ el "VTable" (("density", text "compact") ∷ class "w-100") (
              el "thead" [] (
                el "tr" [] (head_cell "Bucket" ∷ head_cell "Policy" ∷ head_cell "Delete" ∷ []) ∷ [])
              ∷ el "tbody" [] buckets
              ∷ [])
          ∷ note keys_note
          ∷ divider
          ∷ new_key_view now p
          ∷ sets))

  -- Nothing is rendered unless a pool is edited.
  unfoldable pub edit_view : ℕ → PoolData → Option Tree
  unfolding editor_view
  edit_view now p = if p.edit_pool_visible then editor_view now p else some comment
