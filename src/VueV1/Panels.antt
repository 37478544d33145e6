-- ===== src/VueV1/Panels.antt =====
-- The render functions of v1's PoolMake, PoolList and PoolEdit, from the templates under
-- v1/ui/src/components.
use Prim.Native.String.{◌++◌}
use lens.Prelude.{ℕ, String, [], ◌∷◌, Option, some, if◌then◌else◌}
use lens.Js.Value.{Value, get, index, truthy}
use lens.Vue.State.{PoolData, Key, KeySet}
use lens.Vue.Actions.{edit, delete_pool, make_pool}
use lens.Vue.Tree.{Tree, text, value, assigns, on_click, el, text_node, comment, ◌>>=◌}
use lens.Vue.View.Parts.{Framework, length_of, class, spacer, note, heading, tip}
use lens.Vue.View.Pools.{table_row, pools_note}
use lens.Vue.View.Edit.{head_cell, edit_note, divider}

abbrev make_note : String
make_note =
    " A pool is a directory where S3 buckets are created. Each pool is associated to a MinIO instance. A MinIO instance will run in the specified directory and accesses/modifies the contents. The first thing to do is to create a new pool. "

unfoldable pub make_view : PoolData → Tree
make_view p = el "VContainer" (class "align-center text-center fill-height") (
    heading "Manage Pools"
    ∷ note make_note
    ∷ el "VRow" (("align", text "center") ∷ []) (
        spacer
        ∷ el "VCard" (class "w-75 pa-4 ma-4") (
            el "VCardTitle" [] (text_node "New pool" ∷ [])
            ∷ el "VTextField"
                (("label", text "Buckets directory (absolute path)")
                  ∷ ("modelValue", value p.buckets_directory)
                  ∷ ("onUpdate:modelValue", assigns "buckets_directory")
                  ∷ [])
                []
            ∷ el "VTextField"
                (("label", text "User")
                  ∷ ("cols", text "auto")
                  ∷ ("modelValue", value p.user)
                  ∷ ("onUpdate:modelValue", assigns "user")
                  ∷ ("readonly", text "")
                  ∷ [])
                []
            ∷ el "VSelect"
                (("label", text "Group")
                  ∷ ("cols", text "auto")
                  ∷ ("variant", text "underlined")
                  ∷ ("modelValue", value p.group)
                  ∷ ("onUpdate:modelValue", assigns "group")
                  ∷ ("required", text "")
                  ∷ ("items", value p.group_choices)
                  ∷ [])
                []
            ∷ tip "Create a pool"
                (("icon", text "mdi-plus-circle") ∷ ("onClick", on_click make_pool) ∷ [])
            ∷ [])
        ∷ spacer
        ∷ [])
    ∷ [])

abbrev keys_note : String
keys_note =
    " You can also add/delete access keys. An expiration of an access key is limited by the date in the future set by a site manager. "

abbrev pub reason_view : ℕ → Value → Value → String → Tree
reason_view = lens.Vue.View.Pools.reason_view

abbrev pub new_bucket_view : PoolData → Tree
new_bucket_view = lens.Vue.View.Edit.new_bucket_view

abbrev pub bucket_view : Value → Option Tree
bucket_view = lens.Vue.View.Edit.bucket_view

abbrev pub new_key_view : ℕ → PoolData → Tree
new_key_view = lens.Vue.View.Edit.new_key_view

module _ (F : Framework) where
  open F use {display, render_list, render_values, render_times}

  unfoldable pub pool_view : Value → ℕ → Option Tree
  unfolding lens.Vue.View.Pools.reason_view
  pool_view pools n = do
    d ← index pools n
    directory ← get d "buckets_directory"
    uid ← get d "owner_uid"
    gid ← get d "owner_gid"
    state ← get d "minio_state"
    why ← get d "minio_reason"
    dialog ← get d "dialog"
    online ← get d "online_status"
    enabled ← get d "user_enabled_status"
    name ← get d "pool_name"
    some (
        el "VSlideGroupItem" [] (
          el "VCard" (("outlined", text "") ∷ class "ma-4") (
            el "VCardItem" [] (el "VCardTitle" [] (text_node (display directory) ∷ []) ∷ [])
            ∷ el "VTable" (("density", text "compact") ∷ class "text-left") (
                el "tbody" [] (
                  table_row "uid" (text_node (display uid) ∷ [])
                  ∷ table_row "gid" (text_node (display gid) ∷ [])
                  ∷ table_row "minio-state" (
                      text_node (display state ++ " ")
                      ∷ reason_view n why dialog (display why)
                      ∷ [])
                  ∷ table_row "online?" (text_node (display online) ∷ [])
                  ∷ table_row "enabled?" (text_node (display enabled) ∷ [])
                  ∷ table_row "internal-id" (text_node (display name) ∷ [])
                  ∷ [])
                ∷ [])
            ∷ el "VRow" (class "pa-3 ma-1 align-center") (
                tip "Edit this pool in a bottom pane" (
                  ("icon", text "mdi-pencil")
                  ∷ ("variant", text "plain")
                  ∷ ("onClick", on_click (edit n))
                  ∷ [])
                ∷ text_node " \u{a0} "
                ∷ tip "Delete this pool (not undoable)" (
                    ("icon", text "mdi-delete-forever")
                    ∷ ("variant", text "plain")
                    ∷ ("onClick", on_click (delete_pool n))
                    ∷ [])
                ∷ [])
            ∷ [])
          ∷ []))

  unfoldable pub slider : Value → Value → Option Tree
  unfolding pool_view
  slider pools n = do
    slides ← render_times (pool_view pools) n
    some (
        el "VContainer" (class "d-flex align-center text-center fill-height") (
          heading "List Pools"
          ∷ note pools_note
          ∷ el "VCol" (class "pa-1 ma-1") (
              el "VSlideGroup"
                (("modelValue", value pools)
                  ∷ ("onUpdate:modelValue", assigns "pool_list")
                  ∷ ("center-active", text "")
                  ∷ [])
                slides
              ∷ [])
          ∷ []))

  -- Nothing is rendered for an empty list.
  unfoldable pub shown_pools : Value → Option Tree
  unfolding slider
  shown_pools pools = do n ← length_of pools; if truthy n then slider pools n else some comment

  abbrev pub pools_view : PoolData → Option Tree
  pools_view p = shown_pools p.pool_list

  abbrev pub key_row : Key → Tree
  key_row = lens.Vue.View.Keys.key_row

  abbrev pub key_set_view : KeySet → Option Tree
  key_set_view = lens.Vue.View.Keys.key_set_view F

  unfoldable pub editor_view : ℕ → PoolData → Option Tree
  unfolding lens.Vue.View.Edit.new_bucket_view lens.Vue.View.Edit.bucket_view
      lens.Vue.View.Edit.new_key_view lens.Vue.View.Keys.key_set_view
  editor_view now p = do
    buckets ← render_values bucket_view p.buckets
    sets ← render_list KeySet key_set_view p.access_key_set
    some (
        el "VContainer" (class "d-flex align-center text-center fill-height") (
          heading "Edit a Pool"
          ∷ el "div" (class "text-h6 text-center w-100")
              (text_node (display p.buckets_directory) ∷ [])
          ∷ note edit_note
          ∷ new_bucket_view p
          ∷ el "VTable" (("density", text "compact") ∷ class "w-100") (
              el "thead" [] (
                el "tr" [] (head_cell "Bucket" ∷ head_cell "Policy" ∷ head_cell "Delete" ∷ []) ∷ [])
              ∷ el "tbody" [] buckets
              ∷ [])
          ∷ note keys_note
          ∷ divider
          ∷ new_key_view now p
          ∷ sets))

  -- Nothing is rendered unless a pool is edited.
  unfoldable pub edit_view : ℕ → PoolData → Option Tree
  unfolding editor_view
  edit_view now p = if p.edit_pool_visible then editor_view now p else some comment
