-- ===== src/VueV1/Buttons.antt =====
-- The buttons of the pages of the Vue clients of v1 and v2.
use mathlib.Core.Option
use lens.Prelude.{
  arith, ℕ, ◌≡◌, refl, ap, List, [], ◌∷◌, Option, some, none, length, if◌then◌else◌, Bool-cases,
  inl, inr,
}
use lens.Js.Value.{Value, undefined, null, bool, num, str, arr, obj, truthy, list_of, chars}
use lens.Vue.State.{PoolData}
use lens.Vue.Tree.{Tree, comment, trees, clicks, trees_clicks, traverse, ◌>>=◌}
use lens.Vue.View.Parts.{Framework, length_of, range}

-- Two trees are rendered with the same buttons, or both throw.
abbrev Same : Option Tree → Option Tree → Type 0
Same none none = Unit
Same none (some t) = ⊥
Same (some t) none = ⊥
Same (some t) (some t') = clicks t ≡ clicks t'

abbrev AllSame : Option (List Tree) → Option (List Tree) → Type 0
AllSame none none = Unit
AllSame none (some ts) = ⊥
AllSame (some ts) none = ⊥
AllSame (some ts) (some ts') = trees_clicks (trees ts) ≡ trees_clicks (trees ts')

record IsAlike (o o' : Option Tree) : Type 0 where
  pub same : Same o o'

record AreAlike (o o' : Option (List Tree)) : Type 0 where
  pub same : AllSame o o'

cons-AreAlike :
    (o o' : Option Tree) (r r' : Option (List Tree))
    → Same o o'
    → AllSame r r'
    → AllSame (o >>= λ t. r >>= λ ts. some (t ∷ ts)) (o' >>= λ t. r' >>= λ ts. some (t ∷ ts))
unfolding trees clicks
cons-AreAlike none none r r' h k = tt
cons-AreAlike none (some t') r r' h k = absurd h
cons-AreAlike (some t) none r r' h k = absurd h
cons-AreAlike (some t) (some t') none none h k = tt
cons-AreAlike (some t) (some t') none (some ts') h k = absurd k
cons-AreAlike (some t) (some t') (some ts) none h k = absurd k
cons-AreAlike (some t) (some t') (some ts) (some ts') h k = rw (h, k) refl

traverse-AreAlike :
    {A : Type 0} (f f' : A → Option Tree) (xs : List A)
    → ((a : A) → IsAlike (f a) (f' a))
    → AreAlike (traverse f xs) (traverse f' xs)
unfolding traverse trees clicks
traverse-AreAlike f f' [] h = record { same = refl }
traverse-AreAlike f f' (x ∷ xs) h = record {
  same = cons-AreAlike (f x) (f' x) _ _ (h x).same (traverse-AreAlike f f' xs h).same;
}

-- What is rendered with lists of trees around it.
list-IsAlike :
    (o o' : Option (List Tree)) (k k' : List Tree → Option Tree)
    → AllSame o o'
    → ((ts ts' : List Tree)
        → trees_clicks (trees ts) ≡ trees_clicks (trees ts')
        → Same (k ts) (k' ts'))
    → Same (o >>= k) (o' >>= k')
list-IsAlike none none k k' h l = tt
list-IsAlike none (some ts') k k' h l = absurd h
list-IsAlike (some ts) none k k' h l = absurd h
list-IsAlike (some ts) (some ts') k k' h l = l ts ts' h

tree-IsAlike :
    (o o' : Option Tree) (k k' : Tree → Option Tree)
    → Same o o'
    → ((t t' : Tree) → clicks t ≡ clicks t' → Same (k t) (k' t'))
    → Same (o >>= k) (o' >>= k')
tree-IsAlike none none k k' h l = tt
tree-IsAlike none (some t') k k' h l = absurd h
tree-IsAlike (some t) none k k' h l = absurd h
tree-IsAlike (some t) (some t') k k' h l = l t t' h

map-clicks : (o o' : Option Tree) → Same o o' → Option.map clicks o ≡ Option.map clicks o'
map-clicks none none h = refl
map-clicks none (some t') h = absurd h
map-clicks (some t) none h = absurd h
map-clicks (some t) (some t') h = ap some h

module _ (F : Framework) where
  pool-IsAlike :
      (pools : Value) (n : ℕ)
      → IsAlike (lens.VueV1.Panels.pool_view F pools n) (lens.Vue.View.Pools.pool_view F pools n)
  unfolding lens.VueV1.Panels.pool_view lens.Vue.View.Pools.pool_view clicks trees
  pool-IsAlike pools n = record { same = ground arith }

  slider-IsAlike :
      (pools : Value) (n : ℕ)
      → Same (lens.VueV1.Panels.slider F pools (num n)) (lens.Vue.View.Pools.slider F pools (num n))
  unfolding lens.VueV1.Panels.slider lens.Vue.View.Pools.slider clicks trees
  slider-IsAlike pools n = rw (F.render_times_is (lens.VueV1.Panels.pool_view F pools) n) (
      rw (F.render_times_is (lens.Vue.View.Pools.pool_view F pools) n) (
        list-IsAlike _ _ _ _ (traverse-AreAlike _ _ (range 0 n) (pool-IsAlike pools)).same
          (λ ts ts' e. rw e refl)))

  -- The list of pools, with as many slides as it has elements.
  counted-IsAlike :
      (pools : Value) (n : ℕ)
      → Same
          (if truthy (num n) then lens.VueV1.Panels.slider F pools (num n) else some comment)
          (if truthy (num n) then lens.Vue.View.Pools.slider F pools (num n) else some comment)
  counted-IsAlike pools n = elim (Bool-cases (truthy (num n))) [
    | inl e ↦ rw e (slider-IsAlike pools n)
    | inr e ↦ rw e refl
  ]

  shown-IsAlike :
      (pools : Value)
      → Same (lens.VueV1.Panels.shown_pools F pools) (lens.Vue.View.Pools.shown_pools F pools)
  unfolding lens.VueV1.Panels.shown_pools lens.Vue.View.Pools.shown_pools length_of truthy clicks
  shown-IsAlike undefined = tt
  shown-IsAlike null = tt
  shown-IsAlike (bool b) = refl
  shown-IsAlike (num n) = refl
  shown-IsAlike (str s) = counted-IsAlike (str s) (length (chars s))
  shown-IsAlike (arr vs) = counted-IsAlike (arr vs) (length (list_of vs))
  shown-IsAlike (obj fs) = refl

  edit-IsAlike :
      (now : ℕ) (p : PoolData)
      → Same (lens.VueV1.Panels.edit_view F now p) (lens.Vue.View.Edit.edit_view F now p)
  unfolding lens.VueV1.Panels.edit_view lens.Vue.View.Edit.edit_view lens.VueV1.Panels.editor_view
      lens.Vue.View.Edit.editor_view clicks trees
  edit-IsAlike now p = ground arith

  setting-IsAlike :
      (now : ℕ) (p : PoolData)
      → Same (lens.VueV1.Frame.setting_view F now p) (lens.Vue.View.Frame.setting_view F now p)
  unfolding lens.VueV1.Frame.setting_view lens.Vue.View.Frame.setting_view clicks trees
      lens.VueV1.Panels.make_view lens.Vue.View.Make.make_view
  setting-IsAlike now p = tree-IsAlike _ _ _ _ (shown-IsAlike p.pool_list) (λ list list' e.
      tree-IsAlike _ _ _ _ (edit-IsAlike now p) (λ editor editor' e'. rw (e, e') refl))

  app-IsAlike :
      (now : ℕ) (p : PoolData)
      → Same (lens.VueV1.Frame.app_view F now p) (lens.Vue.View.Frame.app_view F now p)
  unfolding lens.VueV1.Frame.app_view lens.Vue.View.Frame.app_view clicks trees
      lens.VueV1.Frame.bar_view lens.Vue.View.Frame.bar_view lens.VueV1.Frame.about_view
      lens.Vue.View.Frame.about_view
  app-IsAlike now p = tree-IsAlike _ _ _ _ (setting-IsAlike now p) (λ setting setting' e. rw e refl)

  -- Whatever the data of the client is, and whatever the texts and lists are that Vue makes of it, the page
  -- of v1 has the same buttons in the same order as the page of v2, or both throw when they are rendered.
  pub app-same_buttons :
      (now : ℕ) (p : PoolData)
      → Option.map clicks (lens.VueV1.Frame.app_view F now p)
        ≡ Option.map clicks (lens.Vue.View.Frame.app_view F now p)
  app-same_buttons now p = map-clicks _ _ (app-IsAlike now p)
