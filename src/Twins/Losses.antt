-- ===== src/Twins/Losses.antt =====
-- Responses that are lost, in both user interfaces.
use lens.Prelude.{
  ℕ, zero, suc, Bool, ◌≡◌, refl, ap, List, [], ◌∷◌, Option, some, none, map, erase_idx, get_elem?,
}
use lens.Ui.State.{App}
use lens.Ui.State
use lens.Ui.Code.{final}
use lens.Ui.Actions
use lens.Vue.State.{Client}
use lens.Vue.Code.{left}
use lens.Twins.{AreTwins}

map-erase_idx :
    {A B : Type 0} (f : A → B) (xs : List A) (i : ℕ)
    → map f (erase_idx xs i) ≡ erase_idx (map f xs) i
map-erase_idx f [] i = refl
map-erase_idx f (x ∷ xs) zero = refl
map-erase_idx f (x ∷ xs) (suc i) = ap (λ ys. f x ∷ ys) (map-erase_idx f xs i)

page_answer-none :
    (o : Option lens.Ui.State.Pending) (is_ok : Bool) (s : App)
    → final (lens.Ui.Actions.answer o is_ok none s) ≡ s
unfolding lens.Ui.Code.ret
page_answer-none none is_ok s = refl
page_answer-none (some p) is_ok s = refl

client_answer-none :
    (o : Option lens.Vue.State.Pending) (is_ok : Bool) (c : Client)
    → left (lens.Vue.Actions.answer o is_ok none c) ≡ c
unfolding lens.Vue.Code.give
client_answer-none none is_ok c = refl
client_answer-none (some p) is_ok c = refl

pub loss-AreTwins :
    (s : App) (c : Client) (i : ℕ) (is_ok is_ok' : Bool)
    → AreTwins s c
    → AreTwins
        (final (lens.Ui.Actions.respond i is_ok none s))
        (left (lens.Vue.Actions.respond i is_ok' none c))
unfolding lens.Ui.Actions.respond lens.Vue.Actions.respond lens.Vue.Code.◌>>=◌ lens.Ui.Code.◌>>=◌
loss-AreTwins s c i is_ok is_ok' k = rw (page_answer-none (get_elem? s.network i) is_ok _) (
    rw (client_answer-none (get_elem? c.network i) is_ok' _) (record {
      base = k.base;
      token = k.token;
      pools = k.pools;
      name = k.name;
      directory = k.directory;
      group = k.group;
      clipboard = k.clipboard;
      bucket = k.bucket;
      policy = k.policy;
      sent = rw (map-erase_idx, map-erase_idx, k.sent) refl;
    }))
