-- ===== src/ResultQueue/Calls.antt =====
-- internal/hnieoj/resultqueue/queue.go: sequences of calls of the queue's methods, in any order.
use go_judge.Prelude.{ℕ, ◌+◌, ◌≡◌, refl, Bool, true, false, List, [], ◌∷◌, Bytes, bytes_eq, arith}
use go_judge.Prelude.Int.{ℤ}
use go_judge.Prelude.Dict.{Dict, has, has-insert, has-delete}
use go_judge.ResultQueue.{
  Record, Codec, Queue, stamp, enqueue_locked, enqueue, reserve, release, mark_attempt, forget, ack,
  prune_loop, prune,
}
use go_judge.ResultQueue.Steps.{
  drop, enqueue-Step, reserve-Step, mark_attempt-Step, ack-Step, prune-Steps,
}
use go_judge.ResultQueue.Capacity.{IsSound, Steps-IsSound, Step-IsSound}

-- A call, with what the clock, the disk and the JSON package answer during it.
pub data Call : Type 0 where
  enqueues : ℤ → Bool → Record → Call
  reserves releases marks : Bytes → Call
  acks : Bool → Bool → Bytes → Call
  prunes : (Bytes → Bool) → Bool → ℤ → Call

unfoldable pub after : Codec → Call → Queue → Queue
after c (enqueues now written r) q = (enqueue c now written r q).0
after c (reserves id) q = (reserve id q).0
after c (releases id) q = release id q
after c (marks id) q = mark_attempt id q
after c (acks removed synced id) q = (ack c removed synced id q).0
after c (prunes removable synced now) q = (prune c removable synced now q).0

unfoldable pub run : Codec → List Call → Queue → Queue
unfolding after
run c [] q = q
run c (k ∷ ks) q = run c ks (after c k q)

after-IsSound : (c : Codec) (k : Call) (q : Queue) → IsSound q → IsSound (after c k q)
unfolding after
after-IsSound c (enqueues now written r) q s = Step-IsSound (enqueue-Step c now written r q) s
after-IsSound c (reserves id) q s = Step-IsSound (reserve-Step c id q) s
after-IsSound c (releases id) q s = Step-IsSound {c = c} (drop id) s
after-IsSound c (marks id) q s = Step-IsSound (mark_attempt-Step c id q) s
after-IsSound c (acks removed synced id) q s = Step-IsSound (ack-Step c removed synced id q) s
after-IsSound c (prunes removable synced now) q s =
    Steps-IsSound (prune-Steps c removable synced now q s.records_unique) s

pub run-IsSound : (c : Codec) (ks : List Call) (q : Queue) → IsSound q → IsSound (run c ks q)
unfolding run
run-IsSound c [] q s = s
run-IsSound c (k ∷ ks) q s = run-IsSound c ks (after c k q) (after-IsSound c k q s)

-- The call neither stores a record under the identifier nor gives its reservation back.
abbrev pub Spares : Bytes → Call → Type 0
Spares id (enqueues now written r) = bytes_eq r.id id ≡ false
Spares id (releases j) = bytes_eq j id ≡ false
Spares id (reserves j) = Unit
Spares id (marks j) = Unit
Spares id (acks removed synced j) = Unit
Spares id (prunes removable synced now) = Unit

abbrev pub AllSpare : Bytes → List Call → Type 0
AllSpare id [] = Unit
AllSpare id (k ∷ ks) = Spares id k × AllSpare id ks

prune_loop-reservations :
    (c : Codec) (removable : Bytes → Bool) (now : ℤ) (n : ℕ) (m : Dict Record) (q : Queue)
    → (prune_loop c removable now n m q).0.reservations ≡ q.reservations
unfolding prune_loop forget
prune_loop-reservations c removable now n [] q = refl
prune_loop-reservations c removable now n ((id, r) ∷ m) q = ground (
  arith,
  prune_loop-reservations c removable now n m q,
  prune_loop-reservations c removable now (n + 1) m (forget c id r q),
)

enqueue_locked-reserved :
    (c : Codec) (written : Bool) (r : Record) (raw id : Bytes) (q : Queue)
    → bytes_eq r.id id ≡ false
    → has id q.reservations ≡ true
    → has id (enqueue_locked c written r raw q).0.reservations ≡ true
unfolding enqueue_locked
enqueue_locked-reserved c written r raw id q other held =
    ground (arith, has-delete r.id id q.reservations)

after-reserved :
    (c : Codec) (k : Call) (id : Bytes) (q : Queue)
    → Spares id k
    → has id q.reservations ≡ true
    → has id (after c k q).reservations ≡ true
unfolding after enqueue reserve release mark_attempt ack prune
after-reserved c (enqueues now written r) id q other held =
    grind (arith, enqueue_locked-reserved c written (stamp now r))
after-reserved c (reserves j) id q _ held = ground (arith, has-insert j id tt q.reservations)
after-reserved c (releases j) id q other held = ground (arith, has-delete j id q.reservations)
after-reserved c (marks j) id q _ held = ground arith
after-reserved c (acks removed synced j) id q _ held = ground arith
after-reserved c (prunes removable synced now) id q _ held =
    ground (arith, prune_loop-reservations c removable now 0 q.records q)

-- A reservation lasts as long as no call is about its identifier.
pub run-reserved :
    (c : Codec) (ks : List Call) (id : Bytes) (q : Queue)
    → AllSpare id ks
    → has id q.reservations ≡ true
    → has id (run c ks q).reservations ≡ true
unfolding run
run-reserved c [] id q spare held = held
run-reserved c (k ∷ ks) id q spare held =
    run-reserved c ks id (after c k q) spare.1 (after-reserved c k id q spare.0 held)
