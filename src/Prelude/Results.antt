-- ===== src/Prelude/Results.antt =====
-- Functions that may throw and keep no state, for `do` blocks.
use mathlib.Core.List.{List, [], ◌∷◌}
use movie_reservation_servic.Prelude.Monad.{Result, ok, err}

infixl 5 ◌>>=◌
abbrev pub ◌>>=◌ : {A B : Type 0} → Result A → (A → Result B) → Result B
◌>>=◌ (ok a) f = f a
◌>>=◌ (err e) f = err e

abbrev pub return : {A : Type 0} → A → Result A
return = ok

-- `xs.map(f)`, where `f` may throw
unfoldable pub traverse : {A B : Type 0} → (A → Result B) → List A → Result (List B)
traverse f [] = ok []
traverse f (x ∷ xs) = do y ← f x; ys ← traverse f xs; return (y ∷ ys)
