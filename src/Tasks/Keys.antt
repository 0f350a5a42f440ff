-- ===== src/Tasks/Keys.antt =====
-- internal/hnieoj/tasks/registry.go: `Key` tells attempts apart.
use go_judge.Prelude.{◌≡◌, ◌≢◌, refl, [], ◌∷◌, ◌++◌, Bytes, arith}
use go_judge.Tasks.{key}

-- No byte is zero.
abbrev pub HasNoZero : Bytes → Type 0
HasNoZero [] = Unit
HasNoZero (c ∷ s) = (c ≢ 0) × HasNoZero s

split_at_zero :
    (a b : Bytes) (s t : Bytes)
    → HasNoZero a
    → HasNoZero b
    → a ++ (0 ∷ s) ≡ b ++ (0 ∷ t)
    → (a ≡ b) × (s ≡ t)
split_at_zero [] [] s t _ _ e = (refl, ground arith)
split_at_zero [] (y ∷ b) s t _ k e = absurd (ground arith)
split_at_zero (x ∷ a) [] s t h _ e = absurd (ground arith)
split_at_zero (x ∷ a) (y ∷ b) s t h k e = ground (arith, split_at_zero a b s t h.1 k.1)

-- Attempts whose identifiers hold no zero byte have the same key only if they have the same
-- identifiers.
key-injective :
    (s j a s' j' a' : Bytes)
    → HasNoZero s
    → HasNoZero s'
    → HasNoZero j
    → HasNoZero j'
    → key s j a ≡ key s' j' a'
    → (s ≡ s') × (j ≡ j') × (a ≡ a')
unfolding key
key-injective s j a s' j' a' hs hs' hj hj' e =
    let outer = split_at_zero s s' (j ++ (0 ∷ a)) (j' ++ (0 ∷ a')) hs hs' e in
    let inner = split_at_zero j j' a a' hj hj' outer.1 in (outer.0, inner.0, inner.1)
