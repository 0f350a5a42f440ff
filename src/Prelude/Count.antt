-- ===== src/Prelude/Count.antt =====
-- How often a number stands in a list, for resources that are known by numbers.
use Prim.Native.Nat.{ℕ, ◌+◌}
use mathlib.Core.Path.{◌≡◌}
use mathlib.Core.List.{List, [], ◌∷◌, ◌++◌}
use native.Mathlib.Omega.{arith}
use go_judge.Prelude.{ltb, ◌==◌, if◌then◌else◌}

abbrev pub count : ℕ → List ℕ → ℕ
count id [] = 0
count id (x ∷ xs) = (if x == id then 1 else 0) + count id xs

-- Whether a number was given out, when `next` is the next one.
abbrev pub made_below : ℕ → ℕ → ℕ
made_below id next = if ltb id next then 1 else 0

pub count-append : (id : ℕ) (xs ys : List ℕ) → count id (xs ++ ys) ≡ count id xs + count id ys
count-append id [] ys = omega arith
count-append id (x ∷ xs) ys = omega (arith, count-append id xs ys)
