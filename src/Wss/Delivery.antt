-- ===== src/Wss/Delivery.antt =====
-- internal/hnieoj/wss/run.go: `deliverResults`, over the result queue.
pub mod Kept
mod Examples
use go_judge.Prelude.{Bytes, bytes_eq, Bool, true, false, ◌&&◌, List, [], ◌∷◌, if◌then◌else◌}
use go_judge.ResultQueue.{Record, Codec, Queue, mark_attempt, ack, peek}
use go_judge.ResultQueue.Calls.{Call, run}

-- What `request` returns: an error, an envelope of another type, one that is malformed, or the
-- identifiers of a `TaskResultAckPayload`.
pub data Reply : Type 0 where
  no_reply other_type malformed : Reply
  acknowledges : Bytes → Bytes → Bytes → Reply

-- The sending of one record: whether the context is over before, the calls of the queue by others
-- until the reply, the reply, and what the disk answers to `Ack`.
pub record Exchange : Type 0 where
  pub is_over : Bool
  pub meanwhile : List Call
  pub reply : Reply
  pub removed : Bool
  pub synced : Bool

-- The comparison of the identifiers.
unfoldable pub confirms : Record → Reply → Bool
confirms r no_reply = false
confirms r other_type = false
confirms r malformed = false
confirms r (acknowledges submission_id judge_task_id attempt_id) =
    bytes_eq submission_id r.submission_id
    && (bytes_eq judge_task_id r.judge_task_id && bytes_eq attempt_id r.attempt_id)

-- The body of the loop.
unfoldable pub deliver_record : Codec → Record → Exchange → Queue → Queue
deliver_record c r x q =
    let waited = run c x.meanwhile (mark_attempt r.id q) in
    if confirms r x.reply then (ack c x.removed x.synced r.id waited).0 else waited

unfoldable pub deliver_records : Codec → (Record → Exchange) → List Record → Queue → Queue
deliver_records c answers [] q = q
deliver_records c answers (r ∷ rest) q =
    let next = deliver_records c answers rest (deliver_record c r (answers r) q) in
    if (answers r).is_over then q else next

-- `deliverResults` with a queue.
unfoldable pub deliver_results : Codec → (Record → Exchange) → Queue → Queue
deliver_results c answers q = deliver_records c answers (peek q) q
