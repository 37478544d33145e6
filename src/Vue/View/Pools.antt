-- ===== src/Vue/View/Pools.antt =====
-- The render function of PoolList.
use Prim.Native.String.{◌++◌}
use lens.Prelude.{ℕ, String, false, not, List, [], ◌∷◌, Option, some, if◌then◌else◌}
use lens.Js.Value.{Value, get, index, truthy, loosely}
use lens.Vue.State.{PoolData}
use lens.Vue.Actions.{edit, delete_pool, reason}
use lens.Vue.Tree.{Tree, text, value, assigns, on_click, el, text_node, comment, ◌>>=◌}
use lens.Vue.View.Parts.{Framework, length_of, class, note, heading, tip}

abbrev pub pools_note : String
pools_note =
    " Pool list is a slider list of the pools. You can select a pool by clicking \"edit\" button (a pencil icon). Or, delete one by \"delete\" button (a trash can). "

-- A line of the table of a pool.
abbrev pub table_row : String → List Tree → Tree
table_row label shown = el "tr" [] (el "td" [] (text_node label ∷ []) ∷ el "td" [] shown ∷ [])

-- The button that opens the reason of the state, unless the reason is `-`.
unfoldable pub reason_view : ℕ → Value → Value → String → Tree
reason_view n why dialog shown =
    if not (loosely why "-")
    then el "VBtn" (("variant", text "plain") ∷ []) (
        text_node " Reason "
        ∷ el "VDialog"
            (("modelValue", value dialog)
              ∷ ("onUpdate:modelValue", assigns "dialog")
              ∷ ("activator", text "parent")
              ∷ ("width", text "auto")
              ∷ [])
            (el "VCard" [] (
                el "VCardText" [] (text_node shown ∷ [])
                ∷ el "VCardActions" [] (
                    el "VBtn"
                      (("onClick", on_click (reason n false))
                        ∷ ("variant", text "text")
                        ∷ ("block", text "")
                        ∷ [])
                      (text_node " Close " ∷ [])
                    ∷ [])
                ∷ [])
              ∷ [])
        ∷ [])
    else comment

module _ (F : Framework) where
  open F use {display, render_times}

  unfoldable pub pool_view : Value → ℕ → Option Tree
  unfolding reason_view
  pool_view pools n = do
    d ← index pools n
    directory ← get d "buckets_directory"
    uid ← get d "owner_uid"
    gid ← get d "owner_gid"
    state ← get d "minio_state"
    why ← get d "minio_reason"
    dialog ← get d "dialog"
    online ← get d "online_status"
    enabled ← get d "user_enabled_status"
    name ← get d "pool_name"
    some (
        el "VSlideGroupItem" [] (
          el "VCard" (("outlined", text "") ∷ class "ma-4") (
            el "VCardItem" [] (el "VCardTitle" [] (text_node (display directory) ∷ []) ∷ [])
            ∷ el "VTable" (("density", text "compact") ∷ class "text-left") (
                el "tbody" [] (
                  table_row "uid" (text_node (display uid) ∷ [])
                  ∷ table_row "gid" (text_node (display gid) ∷ [])
                  ∷ table_row "backend-state" (
                      text_node (display state ++ " ")
                      ∷ reason_view n why dialog (display why)
                      ∷ [])
                  ∷ table_row "online?" (text_node (display online) ∷ [])
                  ∷ table_row "enabled?" (text_node (display enabled) ∷ [])
                  ∷ table_row "internal-id" (text_node (display name) ∷ [])
                  ∷ [])
                ∷ [])
            ∷ el "VRow" (class "pa-3 ma-1 align-center") (
                tip "Edit this pool in a bottom pane" (
                  ("icon", text "mdi-pencil")
                  ∷ ("variant", text "plain")
                  ∷ ("onClick", on_click (edit n))
                  ∷ [])
                ∷ text_node " \u{a0} "
                ∷ tip "Delete this pool (not undoable)" (
                    ("icon", text "mdi-delete-forever")
                    ∷ ("variant", text "plain")
                    ∷ ("onClick", on_click (delete_pool n))
                    ∷ [])
                ∷ [])
            ∷ [])
          ∷ []))

  unfoldable pub slider : Value → Value → Option Tree
  unfolding pool_view
  slider pools n = do
    slides ← render_times (pool_view pools) n
    some (
        el "VContainer" (class "d-flex align-center text-center fill-height") (
          heading "List Pools"
          ∷ note pools_note
          ∷ el "VCol" (class "pa-1 ma-1") (
              el "VSlideGroup"
                (("modelValue", value pools)
                  ∷ ("onUpdate:modelValue", assigns "pool_list")
                  ∷ ("center-active", text "")
                  ∷ [])
                slides
              ∷ [])
          ∷ []))

  -- Nothing is rendered for an empty list.
  unfoldable pub shown_pools : Value → Option Tree
  unfolding slider
  shown_pools pools = do n ← length_of pools; if truthy n then slider pools n else some comment

  abbrev pub pools_view : PoolData → Option Tree
  pools_view p = shown_pools p.pool_list
