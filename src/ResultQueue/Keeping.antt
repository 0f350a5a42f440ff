-- ===== src/ResultQueue/Keeping.antt =====
-- internal/hnieoj/resultqueue/queue.go: which calls keep a record.
use go_judge.Prelude.{
  ◌+◌, ◌≡◌, Bytes, bytes_eq, bytes_eq_iff, Bool, false, Option, none, some, List, [], ◌∷◌, arith,
  Option-cases, inl, inr,
}
use go_judge.Prelude.Int.{ℤ}
use go_judge.Prelude.Dict.{lookup, lookup-insert, lookup-delete}
use go_judge.ResultQueue.{
  Record, Codec, Queue, stamp, commit, enqueue_locked, enqueue, reserve, release, mark_attempt,
  forget, ack,
}
use go_judge.ResultQueue.Calls.{Call, enqueues, reserves, releases, marks, acks, prunes, after, run}

abbrev pub event_of : Option Record → Option Bytes
event_of none = none
event_of (some r) = some r.event

-- A record with this event stands under the identifier.
abbrev pub Holds : Bytes → Bytes → Queue → Type 0
Holds id event q = event_of (lookup id q.records) ≡ some event

-- A call that neither acknowledges this identifier nor prunes the queue.
abbrev pub Protects : Bytes → Call → Type 0
Protects id (acks removed synced j) = bytes_eq j id ≡ false
Protects id (prunes removable synced now) = ⊥
Protects id (enqueues now written r) = Unit
Protects id (reserves j) = Unit
Protects id (releases j) = Unit
Protects id (marks j) = Unit

abbrev pub AllProtect : Bytes → List Call → Type 0
AllProtect id [] = Unit
AllProtect id (k ∷ ks) = Protects id k × AllProtect id ks

pub mark_attempt-Holds :
    (id event j : Bytes) (q : Queue) → Holds id event q → Holds id event (mark_attempt j q)
unfolding mark_attempt
mark_attempt-Holds id event j q h = elim (Option-cases (lookup j q.records)) [
  | inl e ↦ ground (arith, e, h)
  | inr (r, e) ↦ ground (
    arith,
    e,
    h,
    lookup-insert j id (record r { attempts = r.attempts + 1 }) q.records,
    bytes_eq_iff j id,
  )
]

enqueue_locked-Holds :
    (c : Codec) (written : Bool) (r : Record) (raw id event : Bytes) (q : Queue)
    → Holds id event q
    → Holds id event (enqueue_locked c written r raw q).0
unfolding enqueue_locked commit
enqueue_locked-Holds c written r raw id event q h =
    ground (arith, h, lookup-insert r.id id r q.records, bytes_eq_iff r.id id)

enqueue-Holds :
    (c : Codec) (now : ℤ) (written : Bool) (r : Record) (id event : Bytes) (q : Queue)
    → Holds id event q
    → Holds id event (enqueue c now written r q).0
unfolding enqueue
enqueue-Holds c now written r id event q h =
    grind (arith, enqueue_locked-Holds c written (stamp now r), h)

pub ack-Holds :
    (c : Codec) (removed synced : Bool) (j id event : Bytes) (q : Queue)
    → bytes_eq j id ≡ false
    → Holds id event q
    → Holds id event (ack c removed synced j q).0
unfolding ack forget
ack-Holds c removed synced j id event q other h =
    ground (arith, other, h, lookup-delete j id q.records)

after-Holds :
    (c : Codec) (k : Call) (id event : Bytes) (q : Queue)
    → Protects id k
    → Holds id event q
    → Holds id event (after c k q)
unfolding after reserve release
after-Holds c (enqueues now written r) id event q _ h = enqueue-Holds c now written r id event q h
after-Holds c (reserves j) id event q _ h = ground (arith, h)
after-Holds c (releases j) id event q _ h = h
after-Holds c (marks j) id event q _ h = mark_attempt-Holds id event j q h
after-Holds c (acks removed synced j) id event q other h =
    ack-Holds c removed synced j id event q other h
after-Holds c (prunes removable synced now) id event q other h = absurd other

-- A record stays, with its event, through calls that protect it.
pub run-Holds :
    (c : Codec) (ks : List Call) (id event : Bytes) (q : Queue)
    → AllProtect id ks
    → Holds id event q
    → Holds id event (run c ks q)
unfolding run
run-Holds c [] id event q p h = h
run-Holds c (k ∷ ks) id event q p h =
    run-Holds c ks id event (after c k q) p.1 (after-Holds c k id event q p.0 h)
