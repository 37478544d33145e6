-- ===== src/Vue/View/Frame.antt =====
-- The render functions of AlertPopup, AboutMenu, the bar, the footer, Setting and App.
use Prim.Native.String.{◌++◌}
use lens.Prelude.{ℕ, String, false, [], ◌∷◌, Option, some, if◌then◌else◌}
use lens.Vue.State.{PoolData}
use lens.Vue.Actions.{close, copy_url, leave_menu}
use lens.Vue.Tree.{Tree, text, flag, assigns, on_click, el, text_node, comment, ◌>>=◌}
use lens.Vue.View.Parts.{Framework, class, spacer}
use lens.Vue.View.Make.{make_view}
use lens.Vue.View.Pools.{pools_view}
use lens.Vue.View.Edit.{edit_view}

unfoldable pub alert_view : PoolData → Tree
alert_view p =
    if p.dialog_visible
    then el "VDialog"
        (("modelValue", text p.dialog_text)
          ∷ ("onUpdate:modelValue", assigns "dialog_text")
          ∷ ("width", text "auto")
          ∷ [])
        (el "VCard" (("text", text p.dialog_text) ∷ []) (
            el "VCardActions" [] (
              el "VBtn" (("block", text "") ∷ ("onClick", on_click close) ∷ [])
                (text_node "Close" ∷ [])
              ∷ [])
            ∷ [])
          ∷ [])
    else comment

abbrev about_note : String
about_note =
    " Lens3 is an AWS-S3 service by running multiple server instances. It forwards S3 requests to a server instance with regard to the bucket registeration. "

module _ (F : Framework) where
  open F use {display}

  unfoldable pub about_view : PoolData → Tree
  about_view p =
      el "VCard"
        (("variant", text "outlined")
          ∷ ("class", text "text-body-1 pa-4")
          ∷ ("min-width", text "33%")
          ∷ [])
        (el "VCardTitle" [] (text_node "About Lens3" ∷ [])
          ∷ el "VCardText" (("density", text "comfortable") ∷ []) (
              el "p" [] (text_node about_note ∷ [])
              ∷ el "p" [] (
                  text_node " For the usage, see the Lens3 user-guide.md in: "
                  ∷ el "a"
                      ((
                        "href",
                        text "https://github.com/RIKEN-RCCS/lens3/blob/main/v2/doc/user-guide.md",
                      )
                        ∷ [])
                      (text_node "github.com" ∷ [])
                  ∷ [])
              ∷ el "p" [] (
                  text_node (" Lens3's S3 end-point is: " ++ (display p.s3_url ++ " "))
                  ∷ el "VBtn" (("variant", text "text") ∷ ("onClick", on_click copy_url) ∷ [])
                      (text_node " (copy link)" ∷ [])
                  ∷ [])
              ∷ el "p" [] (text_node " A simpler UI is available at \"ui2/index.html\". " ∷ [])
              ∷ el "p" [] (text_node (" Lens3 version: " ++ display p.lens3_version) ∷ [])
              ∷ [])
          ∷ el "VCardActions" [] (
              el "VBtn"
                (("onClick", on_click leave_menu)
                  ∷ ("block", text "")
                  ∷ ("variant", text "text")
                  ∷ [])
                (text_node " Close " ∷ [])
              ∷ [])
          ∷ [])

  -- The switch of the bar calls `change_theme`, which assigns the name of Vuetify's theme;
  -- `dark` is false at first.
  unfoldable pub bar_view : PoolData → Tree
  unfolding about_view
  bar_view p = el "VAppBar" (("flat", text "") ∷ []) (
      el "append" []
        (el "VBtn" (("icon", text "mdi-dots-vertical") ∷ ("disabled", text "") ∷ []) [] ∷ [])
      ∷ el "VMenu"
          (("modelValue", flag p.menu_visible)
            ∷ ("onUpdate:modelValue", assigns "menu_visible")
            ∷ ("close-on-content-click", flag false)
            ∷ ("location", text "bottom")
            ∷ [])
          (el "activator" [] (
              el "VAppBarNavIcon" [] (el "VIcon" (("icon", text "mdi-information") ∷ []) [] ∷ [])
              ∷ [])
            ∷ about_view p
            ∷ [])
      ∷ el "VAppBarTitle" [] (text_node " Lens3 " ∷ [])
      ∷ spacer
      ∷ el "VToolbarItems" [] (
          el "VSwitch"
            (("modelValue", flag false)
              ∷ ("onUpdate:modelValue", assigns "dark")
              ∷ ("flat", text "")
              ∷ ("prepend-icon", text "mdi-white-balance-sunny")
              ∷ ("append-icon", text "mdi-moon-waning-crescent")
              ∷ ("onChange", assigns "theme.global.name.value")
              ∷ [])
            []
          ∷ [])
      ∷ [])

  unfoldable pub footer_view : PoolData → Tree
  footer_view p = el "VFooter" (class "bg-grey-lighten-1") (
      spacer
      ∷ el "div" (class "text-center") (text_node (display p.footer_banner) ∷ [])
      ∷ spacer
      ∷ [])

  unfoldable pub setting_view : ℕ → PoolData → Option Tree
  unfolding make_view edit_view alert_view
  setting_view now p = do
    list ← pools_view F p
    editor ← edit_view F now p
    some (
        el "VResponsive" (class "d-flex align-center text-center fill-height")
          (make_view p ∷ list ∷ editor ∷ alert_view p ∷ []))

  unfoldable pub app_view : ℕ → PoolData → Option Tree
  unfolding bar_view footer_view setting_view
  app_view now p = do
    setting ← setting_view now p
    some (el "VApp" [] (bar_view p ∷ el "VMain" [] (setting ∷ []) ∷ footer_view p ∷ []))
