-- ===== src/Ui/Node.antt =====
-- The document's elements that lens3ui.js creates, with the handlers of their buttons.
use mathlib.Core.List.{◌++◌}
use lens.Prelude.{ℕ, String, Bool, List, [], ◌∷◌}
use lens.Js.Value.{Value}

-- The handlers that are set by `onclick`, with what they close over.
pub data Click : Type 0 where
  edit_pool delete_pool : ℕ → Click
  delete_bucket delete_secret copy_text : Value → Click

pub data Attr : Type 0 where
  text : String → Attr
  number : ℕ → Attr
  flag : Bool → Attr
  call : Click → Attr

mutual
  pub data Node : Type 0 where
    element : String → List (String × Attr) → Nodes → Node

  pub data Nodes : Type 0 where
    leaf : Nodes
    child : Node → Nodes → Nodes

unfoldable pub children : List Node → Nodes
children [] = leaf
children (n ∷ ns) = child n (children ns)

-- An element with its children, in the order of `appendChild`.
abbrev pub tree : String → List (String × Attr) → List Node → Node
unfolding children
tree tag attrs kids = element tag attrs (children kids)

abbrev pub attr_clicks : List (String × Attr) → List Click
attr_clicks [] = []
attr_clicks ((k, call c) ∷ more) = c ∷ attr_clicks more
attr_clicks ((k, text _) ∷ more) = attr_clicks more
attr_clicks ((k, number _) ∷ more) = attr_clicks more
attr_clicks ((k, flag _) ∷ more) = attr_clicks more

-- The handlers of an element and of what stands below it, in document order.
unfoldable mutual
  pub clicks : Node → List Click
  clicks (element tag attrs kids) = attr_clicks attrs ++ nodes_clicks kids

  pub nodes_clicks : Nodes → List Click
  nodes_clicks leaf = []
  nodes_clicks (child n ns) = clicks n ++ nodes_clicks ns

unfoldable pub list_clicks : List Node → List Click
unfolding clicks
list_clicks [] = []
list_clicks (n ∷ ns) = clicks n ++ list_clicks ns
