-- ===== src/Reg/Flow/Inversion.antt =====
-- The result of code that is put together, by the results of its parts.
use lens.Prelude.{ℕ, String, ◌≡◌, refl, subst, arith}
use lens.Reg.Flow.{Outcome, returned, refused, crashed, quits, Go, follow, ◌>>=◌}

-- Code that only reads goes first: the result is that of what follows, or none.
pub read_first :
    {S A B : Type 0} (P : Outcome B × S → Type 0) (m : Go S A) (f : A → Go S B) (s : S)
    → (m s).1 ≡ s
    → ((code : ℕ) (message : String) → P (refused code message, s))
    → P (crashed, s)
    → P (quits, s)
    → ((a : A) → (m s).0 ≡ returned a → P (f a s))
    → P ((m >>= f) s)
unfolding ◌>>=◌
read_first {S} {A} P m f s same h1 h2 h3 k = go (m s).0 (m s).1 same k
  where
    go :
        (r : Outcome A) (s' : S)
        → s' ≡ s
        → ((a : A) → r ≡ returned a → P (f a s))
        → P (follow r f s')
    go (returned a) s' e h = rw e (h a refl)
    go (refused c t) s' e h = rw e (h1 c t)
    go crashed s' e h = rw e h2
    go quits s' e h = rw e h3

-- What a result tells of the parts.
pub bind_returned :
    {S A B : Type 0} (m : Go S A) (f : A → Go S B) (s : S) (b : B)
    → ((m >>= f) s).0 ≡ returned b
    → (a : A) × ((m s).0 ≡ returned a) × ((f a (m s).1).0 ≡ returned b)
unfolding ◌>>=◌
bind_returned {S} {A} {B} m f s b e = go (m s).0 (m s).1 e
  where
    go :
        (o : Outcome A) (s' : S)
        → (follow o f s').0 ≡ returned b
        → (a : A) × (o ≡ returned a) × ((f a s').0 ≡ returned b)
    go (returned a) s' h = (a, refl, h)
    go (refused c t) s' h = ground (arith, h)
    go crashed s' h = ground (arith, h)
    go quits s' h = ground (arith, h)

pub read_returned :
    {S A B : Type 0} (m : Go S A) (f : A → Go S B) (s : S) (b : B)
    → (m s).1 ≡ s
    → ((m >>= f) s).0 ≡ returned b
    → (a : A) × ((m s).0 ≡ returned a) × ((f a s).0 ≡ returned b)
read_returned m f s b same e =
    let (a, p, q) = bind_returned m f s b e in (a, p, subst (λ t. (f a t).0 ≡ returned b) same q)
