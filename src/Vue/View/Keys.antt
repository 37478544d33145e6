-- ===== src/Vue/View/Keys.antt =====
-- The tables of access keys in the render function of PoolEdit.
use Prim.Native.String.{◌++◌}
use lens.Prelude.{String, [], ◌∷◌, Option, some}
use lens.Js.Value.{Value, str}
use lens.Vue.State.{Key, KeySet}
use lens.Vue.Actions.{Event, copy_text, delete_secret}
use lens.Vue.Tree.{Tree, text, value, assigns, on_click, el, text_node, ◌>>=◌}
use lens.Vue.View.Parts.{Framework, class, spacer, tip}

-- An input with `vModelText`, that cannot be changed.
abbrev pub model_input : String → String → Value → Tree
model_input place size v =
    el "input"
      (("onUpdate:modelValue", assigns place)
        ∷ ("size", text size)
        ∷ ("readonly", text "")
        ∷ ("vModelText", value v)
        ∷ [])
      []

abbrev pub plain_button : String → String → Event → Tree
plain_button hint icon e =
    tip hint (("icon", text icon) ∷ ("variant", text "plain") ∷ ("onClick", on_click e) ∷ [])

unfoldable pub key_row : Key → Tree
key_row k = el "tr" [] (
    el "td" [] (
      model_input "access_key" "22" k.access_key
      ∷ plain_button "Copy access key to clipboard" "mdi-clipboard-text" (copy_text k.access_key)
      ∷ [])
    ∷ el "td" [] (
        model_input "secret_key" "50" k.secret_key
        ∷ plain_button "Copy secret key to clipboard" "mdi-clipboard-text" (copy_text k.secret_key)
        ∷ [])
    ∷ el "td" [] (model_input "expiration_time" "10" k.expiration_time ∷ [])
    ∷ el "td" [] (
        plain_button "Delete this key (not undoable)" "mdi-delete-forever"
          (delete_secret k.access_key)
        ∷ [])
    ∷ [])

abbrev head_cell : String → Tree
head_cell t = el "th" (class "text-left") (text_node t ∷ [])

module _ (F : Framework) where
  open F use {display, render_list}

  unfoldable pub key_set_view : KeySet → Option Tree
  unfolding key_row
  key_set_view set = do
    rows ← render_list Key (λ k. some (key_row k)) set.keys
    some (
        el "div" (class "w-100") (
          spacer
          ∷ el "VTable" (("density", text "compact") ∷ []) (
              el "thead" [] (
                el "tr" [] (
                  head_cell ("Access key (" ++ (display (str set.policy) ++ ")"))
                  ∷ head_cell "Secret key"
                  ∷ head_cell "Expiration"
                  ∷ head_cell "Delete"
                  ∷ [])
                ∷ [])
              ∷ el "tbody" [] rows
              ∷ [])
          ∷ spacer
          ∷ []))
