-- ===== src/Tasks/InFlight.antt =====
-- internal/hnieoj/tasks/registry.go: the attempts in flight, `Start`, `UpdateLease`, `Resume`,
-- `Cancel` and `Complete`.
use go_judge.Prelude.{
  ℕ, ◌≡◌, ◌⊎◌, inl, inr, true, false, Option, none, some, [], ◌∷◌, Bytes, bytes_eq, bytes_eq_iff,
  arith, if◌then◌else◌, Option-cases,
}
use go_judge.Prelude.Int.{ℤ, is_zero}
use go_judge.Prelude.Dict.{
  Dict, lookup, insert, delete, has, IsUnique, insert-IsUnique, delete-IsUnique, lookup-insert,
  lookup-delete,
}
use go_judge.Tasks.{
  Attempt, key, key_of, tells_done, Entry, Registry, prune_done, start, resume, complete,
}

-- The attempts in flight, by their keys.
abbrev pub attempt_at : Bytes → Registry → Option Attempt
attempt_at k r = elim (lookup k r.entries) [ none ↦ none | some e ↦ some e.attempt ]

-- The attempt that `Start` keeps: with the time of its start, if it came without one.
abbrev pub stamped : ℤ → Attempt → Attempt
stamped now attempt =
    if is_zero attempt.started_at then record attempt { started_at = now } else attempt

-- `Start` refuses exactly the attempts that are in flight and then changes nothing; otherwise the
-- attempt is in flight from then on, and every other attempt is as it was.
pub start_lem :
    (now : ℤ) (attempt : Attempt) (cancel : Option ℕ) (r : Registry) (k : Bytes)
    → let (t, started) = start now attempt cancel r in
      ((has (key_of attempt) r.entries ≡ true) × (started ≡ false) × (t ≡ r))
      ⊎ ((has (key_of attempt) r.entries ≡ false)
          × (started ≡ true)
          × (attempt_at k t ≡ (
              if bytes_eq (key_of attempt) k then some (stamped now attempt) else attempt_at k r)))
unfolding start
start_lem now attempt cancel r k = ground (
  arith,
  lookup-insert (key_of attempt) k
      (record { attempt = stamped now attempt; cancel = cancel; on_lease = none }) r.entries,
)

abbrev pub renewed : ℤ → ℤ → Option Attempt → Option Attempt
renewed lease epoch none = none
renewed lease epoch (some a) = some (record a { lease_until = lease; epoch = epoch })

-- `Resume` answers whether the attempt is in flight. It renews the lease and the epoch of this
-- attempt, changes no other one, and starts none.
pub resume_lem :
    (s j a : Bytes) (lease epoch : ℤ) (r : Registry) (k : Bytes)
    → let (t, resumed, _) = resume s j a lease epoch r in
      (resumed ≡ has (key s j a) r.entries)
      × (attempt_at k t ≡ (
          if bytes_eq (key s j a) k then renewed lease epoch (attempt_at k r) else attempt_at k r))
unfolding resume has
resume_lem s j a lease epoch r k = elim (Option-cases (lookup (key s j a) r.entries)) [
  | inl out ↦ ground (arith, bytes_eq_iff (key s j a) k)
  | inr (e, found) ↦ ground (
    arith,
    bytes_eq_iff (key s j a) k,
    lookup-insert (key s j a) k
        (record e { attempt = record (e.attempt) { lease_until = lease; epoch = epoch } })
        r.entries,
  )
]

-- `Complete` takes this attempt out of flight and no other one, and tells the observer once.
complete_lem :
    (now now' : ℤ) (s j a : Bytes) (r : Registry) (k : Bytes)
    → let (t, calls) = complete now now' s j a r in
      (attempt_at k t ≡ (if bytes_eq (key s j a) k then none else attempt_at k r))
      × (calls ≡ elim r.done_observer [ none ↦ [] | some f ↦ tells_done f s j a ∷ [] ])
unfolding complete prune_done
complete_lem now now' s j a r k = ground (arith, lookup-delete (key s j a) k r.entries)

-- Every entry stands under the key of its attempt.
abbrev pub IsKeyed : Dict Entry → Type 0
IsKeyed [] = Unit
IsKeyed ((k, e) ∷ m) = (k ≡ key_of e.attempt) × IsKeyed m

insert-IsKeyed :
    (k : Bytes) (e : Entry) (m : Dict Entry)
    → k ≡ key_of e.attempt
    → IsKeyed m
    → IsKeyed (insert k e m)
unfolding insert
insert-IsKeyed k e [] h u = (h, tt)
insert-IsKeyed k e ((i, x) ∷ m) h u = ground (arith, bytes_eq_iff i k, insert-IsKeyed k e m h u.1)

delete-IsKeyed : (k : Bytes) (m : Dict Entry) → IsKeyed m → IsKeyed (delete k m)
unfolding delete
delete-IsKeyed k [] u = tt
delete-IsKeyed k ((i, x) ∷ m) u = ground (arith, delete-IsKeyed k m u.1)

lookup-IsKeyed :
    (k : Bytes) (m : Dict Entry) (e : Entry)
    → IsKeyed m
    → lookup k m ≡ some e
    → k ≡ key_of e.attempt
unfolding lookup
lookup-IsKeyed k [] e u h = cc
lookup-IsKeyed k ((i, x) ∷ m) e u h = ground (arith, bytes_eq_iff i k, lookup-IsKeyed k m e u.1)

pub record IsSound (r : Registry) : Type 0 where
  pub unique : IsUnique r.entries
  pub keyed : IsKeyed r.entries

pub start-IsSound :
    (now : ℤ) (attempt : Attempt) (cancel : Option ℕ) (r : Registry)
    → IsSound r
    → IsSound (start now attempt cancel r).0
unfolding start
start-IsSound now attempt cancel r s =
    let e : Entry = record { attempt = stamped now attempt; cancel = cancel; on_lease = none } in
    ground (
      arith,
      insert-IsUnique (key_of attempt) e r.entries s.unique,
      insert-IsKeyed (key_of attempt) e r.entries,
    )

pub resume-IsSound :
    (s j a : Bytes) (lease epoch : ℤ) (r : Registry)
    → IsSound r
    → IsSound (resume s j a lease epoch r).0
unfolding resume
resume-IsSound s j a lease epoch r v = elim (Option-cases (lookup (key s j a) r.entries)) [
  | inl out ↦ rw (out, resume) v
  | inr (e, found) ↦
      let e' = record e { attempt = record (e.attempt) { lease_until = lease; epoch = epoch } } in
      rw (found, resume)
        (record {
          unique = insert-IsUnique (key s j a) e' r.entries v.unique;
          keyed =
              insert-IsKeyed (key s j a) e' r.entries
                (lookup-IsKeyed (key s j a) r.entries e v.keyed found) v.keyed;
        })
]

pub complete-IsSound :
    (now now' : ℤ) (s j a : Bytes) (r : Registry)
    → IsSound r
    → IsSound (complete now now' s j a r).0
unfolding complete prune_done
complete-IsSound now now' s j a r v = record {
  unique = delete-IsUnique (key s j a) r.entries v.unique;
  keyed = delete-IsKeyed (key s j a) r.entries v.keyed;
}
