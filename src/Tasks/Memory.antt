-- ===== src/Tasks/Memory.antt =====
-- internal/hnieoj/tasks/registry.go: the memory of finished attempts, `Has` and `Complete`.
use go_judge.Prelude.{
  ◌≡◌, refl, Bool, false, not, ◌&&◌, Option, none, some, [], ◌∷◌, Bytes, bytes_eq_iff,
  bytes_eq_refl, arith, if◌then◌else◌,
}
use go_judge.Prelude.Int.{ℤ, ◌-ℤ◌, ltb_ℤ}
use go_judge.Prelude.Dict.{
  Dict, lookup, insert, has, IsUnique, insert-IsUnique, lookup-insert, lookup-delete, lookup-has,
}
use go_judge.Tasks.{key, Registry, prune_finished, effective_ttl, has_attempt, complete}

abbrev kept_at : ℤ → ℤ → Option ℤ → Option ℤ
kept_at now ttl none = none
kept_at now ttl (some at) = if ltb_ℤ ttl (now -ℤ at) then none else some at

-- A finished attempt is kept until its time to live has run out.
lookup-prune_finished :
    (now ttl : ℤ) (k : Bytes) (m : Dict ℤ)
    → IsUnique m
    → lookup k (prune_finished now ttl m) ≡ kept_at now ttl (lookup k m)
unfolding prune_finished lookup
lookup-prune_finished now ttl k [] u = refl
lookup-prune_finished now ttl k ((i, at) ∷ m) u =
    ground (arith, bytes_eq_iff i k, lookup-has i m u.0, lookup-prune_finished now ttl k m u.1)

prune_finished-has :
    (now ttl : ℤ) (k : Bytes) (m : Dict ℤ)
    → has k m ≡ false
    → has k (prune_finished now ttl m) ≡ false
unfolding prune_finished has lookup
prune_finished-has now ttl k [] h = refl
prune_finished-has now ttl k ((i, at) ∷ m) h = ground (arith, prune_finished-has now ttl k m)

prune_finished-IsUnique :
    (now ttl : ℤ) (m : Dict ℤ) → IsUnique m → IsUnique (prune_finished now ttl m)
unfolding prune_finished
prune_finished-IsUnique now ttl [] u = tt
prune_finished-IsUnique now ttl ((i, at) ∷ m) u =
    ground (arith, prune_finished-IsUnique now ttl m u.1, prune_finished-has now ttl i m u.0)

-- Not more than the time to live lies between the two times.
abbrev pub is_fresh : ℤ → ℤ → Registry → Bool
is_fresh at now r = not (ltb_ℤ (effective_ttl r.done_ttl) (now -ℤ at))

-- An attempt that has ended is known to `Has`, so that it is not executed again, exactly as long as
-- its time to live lasts, which is counted from its end.
pub complete-has_attempt :
    (now now' later : ℤ) (s j a : Bytes) (r : Registry)
    → IsUnique r.finished
    → (has_attempt later s j a (complete now now' s j a r).0).1
      ≡ is_fresh now now' r && is_fresh now later r
unfolding complete has_attempt has
complete-has_attempt now now' later s j a r u =
    let k = key s j a in
    let m = insert k now r.finished in
    let ttl = effective_ttl r.done_ttl in
    let unique = insert-IsUnique k now r.finished u in
    ground (
      arith,
      bytes_eq_refl k,
      lookup-delete k k r.entries,
      lookup-insert k k now r.finished,
      lookup-prune_finished now' ttl k m unique,
      lookup-prune_finished later ttl k (prune_finished now' ttl m)
          (prune_finished-IsUnique now' ttl m unique),
    )
