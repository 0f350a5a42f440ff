-- ===== src/Testdata/Examples.antt =====
-- internal/hnieoj/testdata/cleanup.go at concrete inputs.
use mathlib.Core.List.Perm
use mathlib.Core.List.{reverse, reverse_perm}
use go_judge.Prelude.{ℕ, ◌≡◌, refl, Bytes, codes, false, List, [], ◌∷◌, arith}
use go_judge.Prelude.Int.{pos, ◌-ℤ◌}
use go_judge.Testdata.{CacheEntry, cleanup_cache, total_size}
use go_judge.Testdata.Cleaned.{IsClean, cleanup_cache-IsClean}

abbrev entry : Bytes → ℕ → ℕ → CacheEntry
entry path used size = record { path = path; last_used = pos used; size = size }

-- The first one is unused for too long; the other two are more than fits.
abbrev cached : List CacheEntry
cached = entry (codes "1") 5 10 ∷ (entry (codes "2") 90 30 ∷ (entry (codes "3") 80 20 ∷ []))

cleanup_cache-IsClean_example :
    IsClean
      (pos 100)
      (pos 40)
      (pos 50)
      cached
      (cleanup_cache (λ p. false) reverse (pos 100) (pos 40) (pos 50) cached)
unfolding cleanup_cache ◌-ℤ◌ total_size
cleanup_cache-IsClean_example =
    cleanup_cache-IsClean (λ p. false) (pos 100) (pos 40) (pos 50) cached reverse refl
      (
        Perm.symm (reverse_perm (entry (codes "2") 90 30 ∷ (entry (codes "3") 80 20 ∷ []))),
        omega arith,
      )
      refl

evicts_one :
    (cleanup_cache (λ p. false) reverse (pos 100) (pos 40) (pos 50) cached).left
    ≡ entry (codes "2") 90 30 ∷ []
unfolding cleanup_cache ◌-ℤ◌ total_size
evicts_one = refl
