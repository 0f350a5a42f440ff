-- ===== src/Tasks.antt =====
-- internal/hnieoj/tasks/registry.go: the registry of the attempts that the node is executing.
-- A method takes the registry and returns the new one with its result; the calls of functions that
-- others registered (`cancel`, `onLease`, `doneObserver`) are listed in order as `Callback`s. The
-- clock's answers are arguments, times in nanoseconds but for the milliseconds of an attempt.
pub mod Keys
pub mod InFlight
pub mod Memory
mod Examples
use go_judge.Prelude.{
  ℕ, ◌+◌, ◌*◌, Bytes, bytes_lt, Bool, true, false, Option, none, some, List, [], ◌∷◌, ◌++◌, map,
  if◌then◌else◌, length,
}
use go_judge.Prelude.Int.{ℤ, pos, ◌-ℤ◌, ltb_ℤ, leb_ℤ, is_zero}
use go_judge.Prelude.Dict.{Dict, lookup, insert, delete, has}

pub record Attempt : Type 0 where
  pub submission_id : Bytes
  pub judge_task_id : Bytes
  pub attempt_id : Bytes
  pub lease_until : ℤ
  pub started_at : ℤ
  pub epoch : ℤ

-- `Key`: the three identifiers with a zero byte between them.
unfoldable pub key : Bytes → Bytes → Bytes → Bytes
key submission_id judge_task_id attempt_id =
    submission_id ++ (0 ∷ (judge_task_id ++ (0 ∷ attempt_id)))

abbrev pub key_of : Attempt → Bytes
key_of a = key a.submission_id a.judge_task_id a.attempt_id

-- A registered function is known by a number.
pub data Callback : Type 0 where
  cancels : ℕ → Callback
  tells_lease : ℕ → ℤ → Callback
  tells_done : ℕ → Bytes → Bytes → Bytes → Callback

pub record Entry : Type 0 where
  pub attempt : Attempt
  pub cancel : Option ℕ
  pub on_lease : Option ℕ

pub record Registry : Type 0 where
  pub entries : Dict Entry
  pub finished : Dict ℤ
  pub done_ttl : ℤ
  pub done_observer : Option ℕ

-- `DefaultDoneTTL`: 30 minutes.
abbrev pub default_done_ttl : ℤ
default_done_ttl = pos (30 * 60 * 1000000000)

unfoldable pub new_registry : Registry
new_registry = record {
  entries = [];
  finished = [];
  done_ttl = default_done_ttl;
  done_observer = none;
}

-- The loop of `pruneDoneLocked`.
unfoldable pub prune_finished : ℤ → ℤ → Dict ℤ → Dict ℤ
prune_finished now ttl [] = []
prune_finished now ttl ((k, at) ∷ m) =
    let rest = prune_finished now ttl m in if ltb_ℤ ttl (now -ℤ at) then rest else (k, at) ∷ rest

abbrev pub effective_ttl : ℤ → ℤ
effective_ttl ttl = if leb_ℤ ttl (pos 0) then default_done_ttl else ttl

-- `pruneDoneLocked`.
unfoldable pub prune_done : ℤ → Registry → Registry
unfolding prune_finished
prune_done now r = record r {
  done_ttl = effective_ttl r.done_ttl;
  finished = prune_finished now (effective_ttl r.done_ttl) r.finished;
}

-- `Has`.
unfoldable pub has_attempt : ℤ → Bytes → Bytes → Bytes → Registry → Registry × Bool
unfolding prune_done
has_attempt now s j a r =
    let r' = prune_done now r in
    (r', if has (key s j a) r'.entries then true else has (key s j a) r'.finished)

-- `Start`, where the clock answers `now` in milliseconds.
unfoldable pub start : ℤ → Attempt → Option ℕ → Registry → Registry × Bool
start now attempt cancel r =
    let attempt' =
      if is_zero attempt.started_at then record attempt { started_at = now } else attempt in
    if has (key_of attempt') r.entries then (r, false) else (
      record r {
        entries =
            insert (key_of attempt')
              (record { attempt = attempt'; cancel = cancel; on_lease = none }) r.entries;
      },
      true,
    )

abbrev told : Option ℕ → ℤ → List Callback
told none lease = []
told (some f) lease = tells_lease f lease ∷ []

-- `UpdateLease`.
unfoldable pub update_lease : Bytes → Bytes → Bytes → ℤ → Registry → Registry × Bool × List Callback
update_lease s j a lease r = elim (lookup (key s j a) r.entries) [
  | none ↦ (r, false, [])
  | some e ↦
      let attempt' = record (e.attempt) { lease_until = lease } in
      (
        record r { entries = insert (key s j a) (record e { attempt = attempt' }) r.entries },
        true,
        told e.on_lease lease,
      )
]

-- `Resume`.
unfoldable pub resume : Bytes → Bytes → Bytes → ℤ → ℤ → Registry → Registry × Bool × List Callback
resume s j a lease epoch r = elim (lookup (key s j a) r.entries) [
  | none ↦ (r, false, [])
  | some e ↦
      let attempt' = record (e.attempt) { lease_until = lease; epoch = epoch } in
      (
        record r { entries = insert (key s j a) (record e { attempt = attempt' }) r.entries },
        true,
        told e.on_lease lease,
      )
]

-- `SetLeaseObserver`.
unfoldable pub set_lease_observer : Bytes → Bytes → Bytes → Option ℕ → Registry → Registry × Bool
set_lease_observer s j a f r = elim (lookup (key s j a) r.entries) [
  | none ↦ (r, false)
  | some e ↦ (record r { entries = insert (key s j a) (record e { on_lease = f }) r.entries }, true)
]

-- `Epoch` and `Get`; `none` is the answer whose second part is `false`.
unfoldable pub epoch_of : Bytes → Bytes → Bytes → Registry → Option ℤ
epoch_of s j a r = elim (lookup (key s j a) r.entries) [
  | none ↦ none
  | some e ↦ some e.attempt.epoch
]

unfoldable pub get : Bytes → Bytes → Bytes → Registry → Option Attempt
get s j a r = elim (lookup (key s j a) r.entries) [ none ↦ none | some e ↦ some e.attempt ]

-- `SetDoneObserver`.
unfoldable pub set_done_observer : Option ℕ → Registry → Registry
set_done_observer f r = record r { done_observer = f }

abbrev pub cancelled : Option ℕ → List Callback
cancelled none = []
cancelled (some f) = cancels f ∷ []

-- `Cancel`: it changes nothing in the registry.
unfoldable pub cancel_attempt : Bytes → Bytes → Bytes → Registry → Bool × List Callback
cancel_attempt s j a r = elim (lookup (key s j a) r.entries) [
  | none ↦ (false, [])
  | some e ↦ (true, cancelled e.cancel)
]

-- `Complete`; the clock is read twice.
unfoldable pub complete : ℤ → ℤ → Bytes → Bytes → Bytes → Registry → Registry × List Callback
unfolding prune_done
complete now now' s j a r = (
  prune_done now' (record r {
    entries = delete (key s j a) r.entries;
    finished = insert (key s j a) now r.finished;
  }),
  elim r.done_observer [ none ↦ [] | some f ↦ tells_done f s j a ∷ [] ],
)

place : Attempt → List Attempt → List Attempt
place a [] = a ∷ []
place a (x ∷ xs) = if bytes_lt (key_of x) (key_of a) then x ∷ place a xs else a ∷ x ∷ xs

-- `Snapshot`: `sort.Slice` as an insertion sort by the same comparison.
unfoldable pub snapshot_of : Dict Entry → List Attempt
unfolding place
snapshot_of [] = []
snapshot_of ((k, e) ∷ m) = place e.attempt (snapshot_of m)

unfoldable pub snapshot : Registry → List Attempt
unfolding snapshot_of
snapshot r = snapshot_of r.entries

-- `Len`.
abbrev pub len : Registry → ℕ
len r = length r.entries

-- `CancelAll`: the registry is not changed.
unfoldable pub cancel_entries : Dict Entry → List Callback
cancel_entries [] = []
cancel_entries ((k, e) ∷ m) = cancelled e.cancel ++ cancel_entries m

unfoldable pub cancel_all : Registry → List Callback
unfolding cancel_entries
cancel_all r = cancel_entries r.entries
