-- ===== src/ResultQueue/Outcomes.antt =====
-- internal/hnieoj/resultqueue/queue.go: the results of `Enqueue` and `Reserve`, errors included.
use go_judge.Prelude.{
  ℕ, ◌+◌, ◌*◌, ◌-◌, ◌<◌, ◌≡◌, ◌≢◌, ◌⊎◌, inl, inr, ap, ◌∙◌, Bool, true, false, Option, none, some,
  Bytes, bytes_eq_iff, bytes_eq_refl, Option-cases, arith, length,
}
use go_judge.Prelude.Int.{ℤ}
use go_judge.Prelude.Dict.{lookup, has, has-delete, lookup-insert, has-lookup}
use go_judge.ResultQueue.{
  Record, Codec, Queue, Error, write_failed, admission_exceeds, full, stamp, commit, enqueue_locked,
  enqueue, reserve,
}
use go_judge.ResultQueue.Capacity.{IsSound}

abbrev pub event_of : Option Record → Option Bytes
event_of none = none
event_of (some r) = some r.event

-- The record stands in the queue with this event and holds no reservation.
abbrev pub IsStored : Record → Queue → Type 0
IsStored r t = (event_of (lookup r.id t.records) ≡ some r.event) × (has r.id t.reservations ≡ false)

commit-IsStored : (c : Codec) (r : Record) (raw : Bytes) (q : Queue) → IsStored r (commit c r raw q)
unfolding commit
commit-IsStored c r raw q = ground (
  arith,
  bytes_eq_refl r.id,
  lookup-insert r.id r.id r q.records,
  has-delete r.id r.id q.reservations,
)

enqueue_locked-IsStored :
    (c : Codec) (written : Bool) (r : Record) (raw : Bytes) (q : Queue)
    → IsSound q
    → (enqueue_locked c written r raw q).1 ≡ none
    → IsStored r (enqueue_locked c written r raw q).0
unfolding enqueue_locked
enqueue_locked-IsStored c written r raw q s done = elim (Option-cases (lookup r.id q.records)) [
  | inl fresh ↦ ground (arith, commit-IsStored c r raw q)
  | inr (x, found) ↦
      ground (arith, bytes_eq_iff x.event r.event, s.disjoint r.id, has-lookup r.id q.records found)
]

-- When `Enqueue` succeeds, a record with the given event stands in the queue under the identifier,
-- and the reservation of the identifier is used up.
pub enqueue-IsStored :
    (c : Codec) (now : ℤ) (written : Bool) (r : Record) (q : Queue)
    → IsSound q
    → (enqueue c now written r q).1 ≡ none
    → IsStored r (enqueue c now written r q).0
unfolding enqueue
enqueue-IsStored c now written r q s done =
    grind (arith, enqueue_locked-IsStored c written (stamp now r))

enqueue_locked-failed :
    (c : Codec) (written : Bool) (r : Record) (raw : Bytes) (q : Queue) (e : Error)
    → (enqueue_locked c written r raw q).1 ≡ some e
    → ((e ≡ write_failed) × ((enqueue_locked c written r raw q).0 ≡ record q { degraded = true }))
      ⊎ ((e ≢ write_failed) × ((enqueue_locked c written r raw q).0 ≡ q))
unfolding enqueue_locked
enqueue_locked-failed c written r raw q e h = ground arith

-- When `Enqueue` fails, the queue is as it was, but for a failed write, which marks it as degraded.
enqueue-failed :
    (c : Codec) (now : ℤ) (written : Bool) (r : Record) (q : Queue) (e : Error)
    → (enqueue c now written r q).1 ≡ some e
    → ((e ≡ write_failed) × ((enqueue c now written r q).0 ≡ record q { degraded = true }))
      ⊎ ((e ≢ write_failed) × ((enqueue c now written r q).0 ≡ q))
unfolding enqueue
enqueue-failed c now written r q e h = grind (arith, enqueue_locked-failed c written (stamp now r))

-- A record that is there is never replaced: another event under its identifier is refused.
enqueue-conflict :
    (c : Codec) (now : ℤ) (written : Bool) (r old : Record) (q : Queue)
    → lookup r.id q.records ≡ some old
    → old.event ≢ r.event
    → ((enqueue c now written r q).1 ≢ none) × ((enqueue c now written r q).0 ≡ q)
unfolding enqueue enqueue_locked
enqueue-conflict c now written r old q found other = ground (arith, bytes_eq_iff old.event r.event)

-- After a storage failure `Enqueue` and `Reserve` refuse everything and change nothing.
degraded-refuses :
    (c : Codec) (now : ℤ) (written : Bool) (r : Record) (id : Bytes) (q : Queue)
    → q.degraded ≡ true
    → ((enqueue c now written r q).1 ≢ none)
      × ((enqueue c now written r q).0 ≡ q)
      × ((reserve id q).1 ≢ none)
      × ((reserve id q).0 ≡ q)
unfolding enqueue enqueue_locked reserve
degraded-refuses c now written r id q d = ground arith

one_more : (v m : ℕ) → (v + 1 - 0) * m ≡ v * m + m
one_more v m =
    let same : v + 1 - 0 ≡ v + 1 = omega arith in ap (λ (t : ℕ). t * m) same ∙ omega arith

-- While `Full` holds, `Reserve` takes no new identifier, if records may have a size.
full-reserve :
    (id : Bytes) (q : Queue)
    → full q ≡ true
    → 0 < q.max_record
    → has id q.records ≡ false
    → has id q.reservations ≡ false
    → ((reserve id q).1 ≢ none) × ((reserve id q).0 ≡ q)
unfolding full reserve admission_exceeds
full-reserve id q f pos_size new free =
    ground (arith, one_more (length q.reservations) q.max_record)
