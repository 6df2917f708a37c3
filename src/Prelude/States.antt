-- ===== src/Prelude/States.antt =====
-- Steps that may raise and leave a state in either case.
use mathlib.Core.Path.{◌≡◌, refl, ap}
use mathlib.Core.Logic.{◌≢◌}
use jenezis.Prelude.Results.{Result, ok, raise, Error}

-- A step that may raise, followed by the rest of the task.
infixl 5 ◌>=>◌
abbrev pub ◌>=>◌ : {S A B : Type 0} → Result A × S → (A → S → Result B × S) → Result B × S
(ok a, w) >=> f = f a w
(raise error, w) >=> f = (raise error, w)

-- A step that does not write.
abbrev pub pure : {S A : Type 0} → Result A → S → Result A × S
pure m w = (m, w)

raise-ne-ok : {B : Type 0} (error : Error) (b : B) → raise error ≢ ok b
raise-ne-ok error b h = cc

-- What holds of a state, and after every step from where it holds, holds of the state that is left,
-- whether the step before raised or returned.
pub after->=> :
    {S A B : Type 0} (P : S → Type 0) (m : Result A × S) (f : A → S → Result B × S)
    → P m.1
    → ((a : A) (s : S) → P s → P (f a s).1)
    → P (m >=> f).1
after->=> P (ok a, s) f h k = k a s h
after->=> P (raise error, s) f h k = h

-- Where two steps return, the first returned, and the second returned on its value and state.
pub >=>-eq-ok :
    {S A B : Type 0} (m : Result A × S) (f : A → S → Result B × S) {b : B} {s' : S}
    → (m >=> f) ≡ (ok b, s')
    → (a : A) × (s : S) × (m ≡ (ok a, s)) × (f a s ≡ (ok b, s'))
>=>-eq-ok (ok a, s) f h = (a, s, refl, h)
>=>-eq-ok (raise error, s) f {b} h = absurd (raise-ne-ok error b (ap (λ z. z.0) h))
