-- ===== src/Wss/Recovery.antt =====
-- internal/hnieoj/wss/run.go: `resume`, which settles the attempts with the server after a
-- reconnection: some go on with the lease that the server states, the others are cancelled.
pub mod Leases
pub mod Callbacks
pub mod Parts
pub mod Omitted
mod Examples
use go_judge.Prelude.{
  ℕ, Bytes, is_empty, Bool, true, false, not, ◌||◌, ◌&&◌, Option, none, some, List, [], ◌∷◌, ◌++◌,
  ◌==◌, if◌then◌else◌,
}
use go_judge.Prelude.Int.{ℤ, pos, leb_ℤ}
use go_judge.Prelude.Dict.{Dict, insert, has}
use go_judge.Tasks.{Attempt, Callback, Registry, key, snapshot, cancel_attempt, resume}
use go_judge.ResultQueue.{Record, Queue, peek}

pub record ResumeAttempt : Type 0 where
  pub submission_id : Bytes
  pub judge_task_id : Bytes
  pub attempt_id : Bytes

pub record ResumedTask : Type 0 where
  pub submission_id : Bytes
  pub judge_task_id : Bytes
  pub attempt_id : Bytes
  pub lease_until : ℤ
  pub renew_after_millis : ℤ
  pub completed : Bool

pub record RejectedTask : Type 0 where
  pub submission_id : Bytes
  pub judge_task_id : Bytes
  pub attempt_id : Bytes
  pub reason : Bytes

pub record ResumeResult : Type 0 where
  pub resumed : List ResumedTask
  pub rejected : List RejectedTask

-- One of the three identifiers is missing.
abbrev pub lacks_id : Bytes → Bytes → Bytes → Bool
lacks_id s j a = is_empty s || (is_empty j || is_empty a)

-- `appendAttempt`, with `inFlight` and `attempts`.
unfoldable pub append_attempt :
    Bytes
    → Bytes
    → Bytes
    → Dict (Unit {0}) × List ResumeAttempt
    → Dict (Unit {0}) × List ResumeAttempt
append_attempt s j a (in_flight, attempts) =
    if lacks_id s j a
    then (in_flight, attempts)
    else if has (key s j a) in_flight
    then (in_flight, attempts)
    else (
      insert (key s j a) tt in_flight,
      attempts ++ record { submission_id = s; judge_task_id = j; attempt_id = a } ∷ [],
    )

unfoldable pub append_in_flight :
    List Attempt → Dict (Unit {0}) × List ResumeAttempt → Dict (Unit {0}) × List ResumeAttempt
append_in_flight [] so_far = so_far
append_in_flight (x ∷ rest) so_far =
    append_in_flight rest (append_attempt x.submission_id x.judge_task_id x.attempt_id so_far)

unfoldable pub append_results :
    List Record → Dict (Unit {0}) × List ResumeAttempt → Dict (Unit {0}) × List ResumeAttempt
append_results [] so_far = so_far
append_results (x ∷ rest) so_far =
    append_results rest (append_attempt x.submission_id x.judge_task_id x.attempt_id so_far)

-- What `resume` asks the server about.
unfoldable pub resume_list : Registry → Option Queue → Dict (Unit {0}) × List ResumeAttempt
resume_list r none = append_in_flight (snapshot r) ([], [])
resume_list r (some q) = append_results (peek q) (append_in_flight (snapshot r) ([], []))

-- The map `resumed`.
unfoldable pub resumed_map : List ResumedTask → Dict ResumedTask → Dict ResumedTask
resumed_map [] m = m
resumed_map (x ∷ rest) m =
    if lacks_id x.submission_id x.judge_task_id x.attempt_id
    then resumed_map rest m
    else resumed_map rest (insert (key x.submission_id x.judge_task_id x.attempt_id) x m)

-- The map `rejected`.
unfoldable pub rejected_map : List RejectedTask → Dict (Unit {0}) → Dict (Unit {0})
rejected_map [] m = m
rejected_map (x ∷ rest) m =
    rejected_map rest (insert (key x.submission_id x.judge_task_id x.attempt_id) tt m)

-- The calls of `Cancel` for the rejected tasks.
unfoldable pub cancel_rejected : List RejectedTask → Registry → List Callback
cancel_rejected [] r = []
cancel_rejected (x ∷ rest) r =
    (cancel_attempt x.submission_id x.judge_task_id x.attempt_id r).1 ++ cancel_rejected rest r

-- The attempt goes on: it is not rejected, not completed, and its lease lies in the future.
abbrev pub goes_on : ℤ → Dict (Unit {0}) → Bytes → ResumedTask → Bool
goes_on now rejected k x =
    not (has k rejected)
    && (not x.completed && not (leb_ℤ x.lease_until (pos 0) || leb_ℤ x.lease_until now))

-- The loop over the map `resumed`.
unfoldable pub settle_resumed :
    ℤ
    → ℤ
    → Dict (Unit {0})
    → Dict (Unit {0})
    → Dict ResumedTask
    → Registry
    → Registry × List Callback
settle_resumed now epoch in_flight rejected [] r = (r, [])
settle_resumed now epoch in_flight rejected ((k, x) ∷ rest) r =
    let s = x.submission_id in
    let j = x.judge_task_id in
    let a = x.attempt_id in
    let renewal = resume s j a x.lease_until epoch r in
    let go = settle_resumed now epoch in_flight rejected rest (renewal.0) in
    let stay = settle_resumed now epoch in_flight rejected rest r in
    if not (has k in_flight)
    then stay
    else if goes_on now rejected k x
    then (go.0, renewal.2 ++ go.1)
    else (stay.0, (cancel_attempt s j a r).1 ++ stay.1)

-- The bytes before the first zero byte and those after it.
unfoldable pub cut_zero : Bytes → Option (Bytes × Bytes)
cut_zero [] = none
cut_zero (b ∷ rest) =
    let next = cut_zero rest in
    if b == 0 then some ([], rest) else elim next [ none ↦ none | some p ↦ some (b ∷ p.0, p.1) ]

-- `strings.SplitN(key, "\x00", 3)`, where `none` is an answer with less than three parts.
unfoldable pub split_key : Bytes → Option (Bytes × Bytes × Bytes)
split_key k = elim (cut_zero k) [
  | none ↦ none
  | some p ↦ elim (cut_zero p.1) [ none ↦ none | some q ↦ some (p.0, q.0, q.1) ]
]

-- The loop over `inFlight`, which cancels what the server has left out.
unfoldable pub cancel_omitted :
    Dict (Unit {0}) → Dict ResumedTask → Dict (Unit {0}) → Registry → List Callback
cancel_omitted [] resumed rejected r = []
cancel_omitted ((k, _) ∷ rest) resumed rejected r =
    let next = cancel_omitted rest resumed rejected r in
    if has k resumed || has k rejected
    then next
    else elim (split_key k) [ none ↦ next | some p ↦ (cancel_attempt p.0 p.1 p.2 r).1 ++ next ]

-- `resume` from the answer of the server on, where `asked` is the registry when the request was made.
unfoldable pub settle :
    ℤ → ℤ → Registry → Option Queue → ResumeResult → Registry → Registry × List Callback
settle now epoch asked queue result r =
    let in_flight = (resume_list asked queue).0 in
    let resumed = resumed_map result.resumed [] in
    let rejected = rejected_map result.rejected [] in
    let settled = settle_resumed now epoch in_flight rejected resumed r in
    (
      settled.0,
      cancel_rejected result.rejected r
          ++ (settled.1 ++ cancel_omitted in_flight resumed rejected settled.0),
    )
