-- ===== src/Vue/View/Make.antt =====
-- The render function of PoolMake.
use lens.Prelude.{String, [], ◌∷◌}
use lens.Vue.State.{PoolData}
use lens.Vue.Actions.{make_pool}
use lens.Vue.Tree.{Tree, text, value, assigns, on_click, el, text_node}
use lens.Vue.View.Parts.{class, spacer, note, heading, tip}

abbrev make_note : String
make_note =
    " A pool is a directory where S3 buckets are created. Each pool is associated to a backend server instance. A server instance will run in the pool directory and shares files there. The first thing to do is to create a new pool. "

unfoldable pub make_view : PoolData → Tree
make_view p = el "VContainer" (class "align-center text-center fill-height") (
    heading "Manage Pools"
    ∷ note make_note
    ∷ el "VRow" (("align", text "center") ∷ []) (
        spacer
        ∷ el "VCard" (class "w-75 pa-4 ma-4") (
            el "VCardTitle" [] (text_node "New pool" ∷ [])
            ∷ el "VTextField"
                (("label", text "Buckets directory (absolute path)")
                  ∷ ("modelValue", value p.buckets_directory)
                  ∷ ("onUpdate:modelValue", assigns "buckets_directory")
                  ∷ [])
                []
            ∷ el "VTextField"
                (("label", text "User")
                  ∷ ("cols", text "auto")
                  ∷ ("modelValue", value p.user)
                  ∷ ("onUpdate:modelValue", assigns "user")
                  ∷ ("readonly", text "")
                  ∷ [])
                []
            ∷ el "VSelect"
                (("label", text "Group")
                  ∷ ("cols", text "auto")
                  ∷ ("variant", text "underlined")
                  ∷ ("modelValue", value p.group)
                  ∷ ("onUpdate:modelValue", assigns "group")
                  ∷ ("required", text "")
                  ∷ ("items", value p.group_choices)
                  ∷ [])
                []
            ∷ tip "Create a pool"
                (("icon", text "mdi-plus-circle") ∷ ("onClick", on_click make_pool) ∷ [])
            ∷ [])
        ∷ spacer
        ∷ [])
    ∷ [])
