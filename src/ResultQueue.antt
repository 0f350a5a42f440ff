-- ===== src/ResultQueue.antt =====
-- internal/hnieoj/resultqueue/queue.go: the bounded, persistent queue of final results.
-- A method takes the queue and returns the new queue with its result. The field `disk` holds the
-- files of the directory `q.dir`; what the disk, the clock and the JSON package answer are arguments.
pub mod Load
pub mod Steps
pub mod Capacity
pub mod Calls
pub mod Guarantee
pub mod Keeping
pub mod Outcomes
pub mod Opening
mod Examples
use go_judge.Prelude.{
  ℕ, ◌+◌, ◌-◌, ◌*◌, ◌/◌, Bytes, bytes_eq, bytes_lt, is_empty, Bool, true, false, not, ◌||◌, Option,
  none, some, List, [], ◌∷◌, ltb, leb, if◌then◌else◌, length,
}
use go_judge.Prelude.Int.{ℤ, pos, negsuc, pos_part, neg_part, ◌-ℤ◌, ltb_ℤ, eq_ℤ, is_zero}
use go_judge.Prelude.Dict.{Dict, lookup, insert, delete, has}

-- `maxRecordFileOverhead`.
abbrev pub max_record_file_overhead : ℕ
max_record_file_overhead = 65536

pub record Record : Type 0 where
  pub id : Bytes
  pub submission_id : Bytes
  pub judge_task_id : Bytes
  pub attempt_id : Bytes
  pub event : Bytes
  pub enqueued_at : ℤ
  pub attempts : ℕ

-- What `encoding/json`, `crypto/sha256` and `encoding/hex` do for this package.
pub record Codec : Type 0 where
  pub marshal : Record → Option Bytes
  pub unmarshal : Bytes → Option Record
  pub file_name : Bytes → Bytes

pub record Queue : Type 0 where
  pub max_records : ℕ
  pub max_bytes : ℕ
  pub max_record : ℕ
  pub ttl : ℤ  -- nanoseconds
  pub records : Dict Record
  pub reservations : Dict (Unit {0})
  pub bytes : ℕ
  pub degraded : Bool
  pub disk : Dict Bytes

pub data Error : Type 0 where
  id_required too_large marshal_failed is_degraded conflicting_content full_queue : Error
  write_failed remove_failed sync_failed : Error

-- `int64(len(rec.Event))`.
abbrev pub event_size : Record → ℕ
event_size r = length r.event

-- `reserved < 0` is clamped to 0, as the truncated `-` does. The sum of records is compared with
-- what a negative `extra_reservations` takes away moved to the other side.
unfoldable pub admission_exceeds : Queue → ℕ → ℤ → ℕ → Bool
admission_exceeds q extra_records extra_reservations extra_bytes =
    let held = length q.reservations + pos_part extra_reservations in
    let taken = neg_part extra_reservations in
    let reserved = held - taken in
    if q.degraded
    then true
    else (ltb (q.max_records + taken) (length q.records + held + extra_records)
        || ltb q.max_bytes (q.bytes + reserved * q.max_record + extra_bytes))

-- `fullLocked`, which `Full` calls under the lock.
unfoldable pub full : Queue → Bool
full q =
    let reserved = length q.reservations in
    q.degraded
    || (leb q.max_records (length q.records + reserved)
        || leb q.max_bytes (q.bytes + reserved * q.max_record))

abbrev stamp : ℤ → Record → Record
stamp now r = if is_zero r.enqueued_at then record r { enqueued_at = now } else r

-- The state after a successful `writeRawLocked`.
unfoldable pub commit : Codec → Record → Bytes → Queue → Queue
commit c r raw q = record q {
  disk = insert (c.file_name r.id) raw q.disk;
  reservations = delete r.id q.reservations;
  records = insert r.id r q.records;
  bytes = q.bytes + event_size r;
}

-- `Enqueue` from the lock on: `written` says whether `securefile.WriteFileAtomic` succeeds.
unfoldable pub enqueue_locked : Codec → Bool → Record → Bytes → Queue → Queue × Option Error
unfolding commit
enqueue_locked c written r raw q =
    if q.degraded then (q, some is_degraded) else elim (lookup r.id q.records) [
      | some existing ↦
          if bytes_eq existing.event r.event then (q, none) else (q, some conflicting_content)
      | none ↦
          if admission_exceeds q 1 (if has r.id q.reservations then negsuc 0 else pos 0)
            (event_size r)
          then (q, some full_queue)
          else if written
          then (commit c r raw q, none)
          else (record q { degraded = true }, some write_failed)
    ]

-- `Enqueue`.
unfoldable pub enqueue : Codec → ℤ → Bool → Record → Queue → Queue × Option Error
unfolding enqueue_locked
enqueue c now written r q =
    if is_empty r.id
    then (q, some id_required)
    else if ltb q.max_record (event_size r)
    then (q, some too_large)
    else elim (c.marshal (stamp now r)) [
      | none ↦ (q, some marshal_failed)
      | some raw ↦
          if ltb (q.max_record + max_record_file_overhead) (length raw)
          then (q, some too_large)
          else enqueue_locked c written (stamp now r) raw q
    ]

-- `Reserve`.
unfoldable pub reserve : Bytes → Queue → Queue × Option Error
reserve id q =
    if is_empty id
    then (q, some id_required)
    else if q.degraded
    then (q, some is_degraded)
    else if has id q.records
    then (q, none)
    else if has id q.reservations
    then (q, none)
    else if admission_exceeds q 0 (pos 1) 0
    then (q, some full_queue)
    else (record q { reservations = insert id tt q.reservations }, none)

-- `Release`.
unfoldable pub release : Bytes → Queue → Queue
release id q = record q { reservations = delete id q.reservations }

-- `MarkAttempt`. The count is kept in memory only.
unfoldable pub mark_attempt : Bytes → Queue → Queue
mark_attempt id q = elim (lookup id q.records) [
  | none ↦ q
  | some r ↦ record q { records = insert id (record r { attempts = r.attempts + 1 }) q.records }
]

-- One record forgotten. `q.bytes` is clamped to 0, as the truncated `-` does.
unfoldable pub forget : Codec → Bytes → Record → Queue → Queue
forget c id r q = record q {
  disk = delete (c.file_name id) q.disk;
  records = delete id q.records;
  bytes = q.bytes - event_size r;
}

-- `Ack`: `removed` says whether `os.Remove` ends without an error other than `ErrNotExist`, and
-- `synced` whether `SyncDir` succeeds.
unfoldable pub ack : Codec → Bool → Bool → Bytes → Queue → Queue × Option Error
unfolding forget
ack c removed synced id q = elim (lookup id q.records) [
  | none ↦ (q, none)
  | some r ↦
      if removed
      then (forget c id r q, if synced then none else some sync_failed)
      else (q, some remove_failed)
]

-- `now.UnixMilli()-rec.EnqueuedAt <= q.ttl.Milliseconds()`, negated; the time to live is positive.
abbrev pub is_stale : ℤ → ℤ → Record → Bool
is_stale now ttl r = ltb_ℤ (pos (pos_part ttl / 1000000)) (now -ℤ r.enqueued_at)

-- The loop of `Prune` over the entries of the map, with the number removed before it.
unfoldable pub prune_loop : Codec → (Bytes → Bool) → ℤ → ℕ → Dict Record → Queue → Queue × ℕ × Bool
unfolding forget
prune_loop c removable now n [] q = (q, n, true)
prune_loop c removable now n ((id, r) ∷ rest) q =
    let next = prune_loop c removable now (n + 1) rest (forget c id r q) in
    let skip = prune_loop c removable now n rest q in
    if not (is_stale now q.ttl r) then skip else if removable id then next else (q, n, false)

-- `Prune`: `removable` says for which records `os.Remove` succeeds.
unfoldable pub prune : Codec → (Bytes → Bool) → Bool → ℤ → Queue → Queue × ℕ × Option Error
unfolding prune_loop
prune c removable synced now q =
    if leb (pos_part q.ttl) 0
    then (q, 0, none)
    else let (q', removed, completed) = prune_loop c removable now 0 q.records q in
      if not completed
      then (q', removed, some remove_failed)
      else if ltb 0 removed
      then (q', removed, if synced then none else some sync_failed)
      else (q', removed, none)

-- The order of `Peek`: by the time of entry, then by identifier.
abbrev pub comes_before : Record → Record → Bool
comes_before a b =
    if eq_ℤ a.enqueued_at b.enqueued_at
    then bytes_lt a.id b.id
    else ltb_ℤ a.enqueued_at b.enqueued_at

place : Record → List Record → List Record
place r [] = r ∷ []
place r (x ∷ xs) = if comes_before x r then x ∷ place r xs else r ∷ x ∷ xs

-- `Peek`: `sort.Slice` as an insertion sort by the same comparison.
unfoldable pub peek_sort : Dict Record → List Record
unfolding place
peek_sort [] = []
peek_sort ((id, r) ∷ m) = place r (peek_sort m)

unfoldable pub peek : Queue → List Record
unfolding peek_sort
peek q = peek_sort q.records
