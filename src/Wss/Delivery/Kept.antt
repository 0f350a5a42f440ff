-- ===== src/Wss/Delivery/Kept.antt =====
-- internal/hnieoj/wss/run.go: a result stays until the server has acknowledged it.
use go_judge.Prelude.{
  ◌≡◌, ◌⊎◌, Bytes, arith, true, false, bytes_eq_iff, bytes_eq, List, [], ◌∷◌, Bool-cases, inl, inr,
}
use go_judge.ResultQueue.{Record, Codec, Queue, mark_attempt, peek}
use go_judge.ResultQueue.Calls.{run}
use go_judge.ResultQueue.Keeping.{Holds, AllProtect, mark_attempt-Holds, ack-Holds, run-Holds}
use go_judge.Wss.Delivery.{
  Reply, no_reply, other_type, malformed, acknowledges, Exchange, confirms, deliver_record,
  deliver_records, deliver_results,
}

-- The reply states the three identifiers of the record.
abbrev pub IsFor : Record → Reply → Type 0
IsFor r reply = reply ≡ acknowledges r.submission_id r.judge_task_id r.attempt_id

confirms-IsFor : (r : Record) (reply : Reply) → confirms r reply ≡ true → IsFor r reply
unfolding confirms
confirms-IsFor r no_reply h = ground (arith, h)
confirms-IsFor r other_type h = ground (arith, h)
confirms-IsFor r malformed h = ground (arith, h)
confirms-IsFor r (acknowledges s j a) h = ground (
  arith,
  h,
  bytes_eq_iff s r.submission_id,
  bytes_eq_iff j r.judge_task_id,
  bytes_eq_iff a r.attempt_id,
)

-- Meanwhile no one acknowledges the record or prunes the queue, and the reply is for it only if it is another
-- one.
pub record IsUnconfirmed (id : Bytes) (r : Record) (x : Exchange) : Type 0 where
  pub protected : AllProtect id x.meanwhile
  pub unconfirmed : (bytes_eq r.id id ≡ false) ⊎ (¬ IsFor r x.reply)

deliver_record-Holds :
    (c : Codec) (r : Record) (x : Exchange) (id event : Bytes) (q : Queue)
    → IsUnconfirmed id r x
    → Holds id event q
    → Holds id event (deliver_record c r x q)
unfolding deliver_record
deliver_record-Holds c r x id event q u h =
    let waited =
      run-Holds c x.meanwhile id event (mark_attempt r.id q) u.protected
        (mark_attempt-Holds id event r.id q h) in
    elim (Bool-cases (confirms r x.reply)) [
      | inr no_ack ↦ rw no_ack waited
      | inl acked ↦ elim u.unconfirmed [
        | inr no_ack ↦ absurd (no_ack (confirms-IsFor r x.reply acked))
        | inl other ↦ rw acked (
            ack-Holds c x.removed x.synced r.id id event (run c x.meanwhile (mark_attempt r.id q))
              other waited)
      ]
    ]

deliver_records-Holds :
    (c : Codec) (answers : Record → Exchange) (rs : List Record) (id event : Bytes) (q : Queue)
    → ((r : Record) → IsUnconfirmed id r (answers r))
    → Holds id event q
    → Holds id event (deliver_records c answers rs q)
unfolding deliver_records
deliver_records-Holds c answers [] id event q u h = h
deliver_records-Holds c answers (r ∷ rs) id event q u h =
    let next =
      deliver_records-Holds c answers rs id event (deliver_record c r (answers r) q) u
        (deliver_record-Holds c r (answers r) id event q (u r) h) in
    elim (Bool-cases (answers r).is_over) [ inl o ↦ simp o h | inr o ↦ simp o next ]

-- A result stays in the queue, with its event, through a round of deliveries, unless the reply to its
-- own delivery states the three identifiers of the record, or meanwhile another caller acknowledges
-- it or prunes the queue.
pub deliver_results-Holds :
    (c : Codec) (answers : Record → Exchange) (id event : Bytes) (q : Queue)
    → ((r : Record) → IsUnconfirmed id r (answers r))
    → Holds id event q
    → Holds id event (deliver_results c answers q)
unfolding deliver_results
deliver_results-Holds c answers id event q u h =
    deliver_records-Holds c answers (peek q) id event q u h
