-- ===== src/ResultQueue/Guarantee.antt =====
-- internal/hnieoj/resultqueue/queue.go: what `Reserve` promises to `Enqueue`, and the error paths.
use go_judge.Prelude.{
  ℕ, ◌+◌, ◌*◌, ◌-◌, ◌≤◌, ◌≡◌, ap, true, false, List, none, some, Bytes, bytes_eq_refl, is_empty,
  arith, length,
}
use go_judge.Prelude.Int.{ℤ, negsuc}
use go_judge.Prelude.Dict.{has, has-insert, length-delete, lookup-has}
use go_judge.ResultQueue.{
  Record, Codec, Queue, event_size, max_record_file_overhead, admission_exceeds, stamp, commit,
  enqueue_locked, enqueue, reserve,
}
use go_judge.ResultQueue.Capacity.{IsSound, reserve-IsSound}
use go_judge.ResultQueue.Calls.{Call, run, run-IsSound, AllSpare, run-reserved}

-- A held reservation passes the check of `Enqueue`.
admission-held :
    (r : Record) (q : Queue)
    → IsSound q
    → q.degraded ≡ false
    → event_size r ≤ q.max_record
    → has r.id q.reservations ≡ true
    → admission_exceeds q 1 (negsuc 0) (event_size r) ≡ false
unfolding admission_exceeds
admission-held r q s good small held =
    let shorter = length-delete r.id q.reservations s.reservations_unique held in
    ground (
      arith,
      s.records_fit,
      s.bytes_fit,
      ap (λ (t : ℕ). (t - 1) * q.max_record) shorter,
      ap (λ (t : ℕ). t * q.max_record) shorter,
    )

enqueue_locked-held :
    (c : Codec) (r : Record) (raw : Bytes) (q : Queue)
    → IsSound q
    → q.degraded ≡ false
    → event_size r ≤ q.max_record
    → has r.id q.reservations ≡ true
    → enqueue_locked c true r raw q ≡ (commit c r raw q, none)
unfolding enqueue_locked
enqueue_locked-held c r raw q s good small held =
    ground
      (arith, s.disjoint r.id held, lookup-has r.id q.records, admission-held r q s good small held)

pub enqueue-held :
    (c : Codec) (now : ℤ) (r : Record) (raw : Bytes) (q : Queue)
    → IsSound q
    → q.degraded ≡ false
    → has r.id q.reservations ≡ true
    → is_empty r.id ≡ false
    → event_size r ≤ q.max_record
    → c.marshal (stamp now r) ≡ some raw
    → length raw ≤ q.max_record + max_record_file_overhead
    → enqueue c now true r q ≡ (commit c (stamp now r) raw q, none)
unfolding enqueue
enqueue-held c now r raw q s good held named small m fits =
    ground (arith, enqueue_locked-held c (stamp now r) raw q s good)

reserve-has :
    (id : Bytes) (q : Queue)
    → has id q.records ≡ false
    → (reserve id q).1 ≡ none
    → has id (reserve id q).0.reservations ≡ true
unfolding reserve
reserve-has id q new done = ground (arith, has-insert id id tt q.reservations, bytes_eq_refl id)

-- Once `Reserve` has succeeded for an attempt without a result, then after any other calls, as long
-- as none of them stores under this identifier or releases it, the queue is not degraded, the record
-- is encoded and keeps the size limits, and its file is written, `Enqueue` stores the attempt's
-- record.
pub reserve-run-enqueue :
    (c : Codec) (ks : List Call) (now : ℤ) (r : Record) (raw : Bytes) (q : Queue)
    → IsSound q
    → has r.id q.records ≡ false
    → is_empty r.id ≡ false
    → (reserve r.id q).1 ≡ none
    → AllSpare r.id ks
    → let t = run c ks (reserve r.id q).0 in
      t.degraded ≡ false
      → event_size r ≤ t.max_record
      → c.marshal (stamp now r) ≡ some raw
      → length raw ≤ t.max_record + max_record_file_overhead
      → enqueue c now true r t ≡ (commit c (stamp now r) raw t, none)
reserve-run-enqueue c ks now r raw q s new named done spare good small m fits =
    enqueue-held c now r raw (run c ks (reserve r.id q).0)
      (run-IsSound c ks (reserve r.id q).0 (reserve-IsSound r.id q s)) good
      (run-reserved c ks r.id (reserve r.id q).0 spare (reserve-has r.id q new done)) named small m
      fits
