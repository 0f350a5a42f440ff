-- ===== src/Wss.antt =====
-- internal/hnieoj/wss/client.go: the judge channel's answer to an assignment, over the registry of
-- attempts and the result queue. A handler takes the client and returns the new one with what it
-- sends and closes. What the session and the clock answer during the call is a `Turn`.
mod Examples
pub mod Admission
pub mod Channel
pub mod Drain
pub mod Recovery
pub mod Delivery
pub mod Session
use go_judge.Prelude.{
  ℕ, ◌+◌, Bytes, bytes_eq, codes, is_empty, Bool, true, false, not, ◌&&◌, ◌||◌, Option, none, some,
  List, [], ◌∷◌, ◌++◌, ◌==◌, if◌then◌else◌, length,
}
use go_judge.Prelude.Int.{ℤ, pos, ◌+ℤ◌, leb_ℤ, ltb_ℤ, ◌-ℤ◌}
use go_judge.Prelude.Ascii.{trim_space, to_lower, to_upper}
use go_judge.Model.{Task}
use go_judge.Tasks.{
  Attempt, Callback, cancels, tells_lease, tells_done, key, Registry, len, has_attempt, start,
  complete, cancel_attempt,
}
use go_judge.ResultQueue.{Queue, Error, reserve, release, full}

-- `TaskAssignPayload`.
pub record TaskAssign : Type 0 where
  pub task : Task
  pub attempt_id : Bytes
  pub lease_until : ℤ
  pub renew_after_millis : ℤ

-- An assignment on its way to the processor, with its context.
pub record Assignment : Type 0 where
  pub task : Task
  pub attempt_id : Bytes
  pub lease_until : ℤ
  pub renew_after_millis : ℤ
  pub ctx : ℕ

-- The fields of `Client` that these handlers read, with those of its credential and its options.
pub record Client : Type 0 where
  pub registry : Registry
  pub queue : Option Queue
  pub assign_ch : List Assignment
  pub local_draining : Bool
  pub remote_draining : Bool
  pub epoch : ℤ
  pub max_concurrency : ℤ
  pub approved_modes : List Bytes
  pub local_concurrency : ℤ
  pub local_modes : List Bytes

-- What the session, the clock and the random numbers answer during one call; `cancel` is the new
-- context, and `leaves` the choice of `select` when the session is closed and the channel has room.
pub record Turn : Type 0 where
  pub is_ready : Bool
  pub closed : Bool
  pub leaves : Bool
  pub looked_at : ℤ
  pub started_at : ℤ
  pub ended_at : ℤ
  pub pruned_at : ℤ
  pub cancel : ℕ
  pub random_id : Bytes

pub data Output : Type 0 where
  acks : Bytes → Bytes → Bytes → Bytes → Output
  rejects : Bytes → Bytes → Output
  closes : Output
  cancels_ctx : ℕ → Output

-- `Draining`.
abbrev pub draining : Client → Bool
draining c = c.local_draining || c.remote_draining

-- `approvedSlots`.
unfoldable pub approved_slots : Client → ℤ
approved_slots c =
    let approved =
      if leb_ℤ c.max_concurrency (pos 0) || ltb_ℤ c.local_concurrency c.max_concurrency
      then c.local_concurrency
      else c.max_concurrency in
    if leb_ℤ approved (pos 0) then pos 1 else approved

-- `strings.EqualFold(strings.TrimSpace(candidate), mode)` for one of the candidates, where the mode
-- is in lower case.
unfoldable pub any_mode : Bytes → List Bytes → Bool
any_mode mode [] = false
any_mode mode (candidate ∷ rest) =
    bytes_eq (to_lower (trim_space candidate)) mode || any_mode mode rest

-- `modeAllowed`.
unfoldable pub mode_allowed : Client → Bytes → Bool
mode_allowed c mode =
    let m = to_lower (trim_space mode) in
    let allowed = if length c.approved_modes == 0 then c.local_modes else c.approved_modes in
    if is_empty m then true else if length allowed == 0 then true else any_mode m allowed

-- `availableSlots`.
unfoldable pub available_slots : Client → ℤ
available_slots c =
    let slots = approved_slots c -ℤ pos (len c.registry) in
    let held = if ltb_ℤ slots (pos 0) then pos 0 else slots in
    elim c.queue [ none ↦ held | some q ↦ if full q then pos 0 else held ]

-- `ackTask`.
abbrev pub ack_task : Turn → Bytes → Bytes → Bytes → Bytes → Output
ack_task t request_id s j a = acks (if is_empty request_id then t.random_id else request_id) s j a

-- `rejectAssign`.
abbrev pub reject_assign : Bytes → Bytes → List Output
reject_assign request_id reason =
    if is_empty (trim_space request_id) then [] else rejects request_id reason ∷ []

-- `reserveResultCapacity`, which answers whether the capacity was reserved.
unfoldable pub reserve_result_capacity : Bytes → Option Queue → Option Queue × Bool
reserve_result_capacity k none = (none, true)
reserve_result_capacity k (some q) =
    let (q', e) = reserve k q in (some q', elim e [ none ↦ true | some _ ↦ false ])

-- `releaseResultCapacity`.
unfoldable pub release_result_capacity : Bytes → Option Queue → Option Queue
release_result_capacity k none = none
release_result_capacity k (some q) = some (release k q)

-- The observer that `New` sets, for the callbacks of `Complete`.
unfoldable pub observe : List Callback → Option Queue → Option Queue
unfolding release_result_capacity
observe [] q = q
observe (cancels f ∷ calls) q = observe calls q
observe (tells_lease f lease ∷ calls) q = observe calls q
observe (tells_done f s j a ∷ calls) q = observe calls (release_result_capacity (key s j a) q)

-- `c.registry.Complete`, with its callback.
unfoldable pub complete_attempt : Turn → Bytes → Bytes → Bytes → Client → Client
complete_attempt t s j a c =
    let (r, calls) = complete t.ended_at t.pruned_at s j a c.registry in
    record c { registry = r; queue = observe calls c.queue }

-- The assignment that `handleAssign` passes on.
abbrev pub new_assignment : TaskAssign → ℕ → Assignment
new_assignment p ctx = record {
  task = record (p.task) { attempt_id = p.attempt_id };
  attempt_id = p.attempt_id;
  lease_until = p.lease_until;
  renew_after_millis = p.renew_after_millis;
  ctx = ctx;
}

-- The `select` at the end of `handleAssign`.
unfoldable pub offer : Turn → Bytes → TaskAssign → Client → Client × List Output
offer t request_id p c =
    let s = p.task.submission_id in
    let j = p.task.judge_task_id in
    let a = p.attempt_id in
    let room = ltb_ℤ (pos (length c.assign_ch)) (c.local_concurrency +ℤ pos 2) in
    if room && not (t.closed && t.leaves)
    then (
      record c { assign_ch = c.assign_ch ++ new_assignment p t.cancel ∷ [] },
      ack_task t request_id s j a ∷ [],
    )
    else if t.closed
    then (complete_attempt t s j a c, cancels_ctx t.cancel ∷ [])
    else (complete_attempt t s j a c, cancels_ctx t.cancel ∷ (closes ∷ []))

-- The attempt that `handleAssign` registers.
abbrev pub new_attempt : TaskAssign → ℤ → Attempt
new_attempt p epoch = record {
  submission_id = p.task.submission_id;
  judge_task_id = p.task.judge_task_id;
  attempt_id = p.attempt_id;
  lease_until = p.lease_until;
  started_at = pos 0;
  epoch = epoch;
}

-- `handleAssign` from the reservation of the result's capacity on.
unfoldable pub begin : Turn → Bytes → TaskAssign → Client → Client × List Output
begin t request_id p c =
    let s = p.task.submission_id in
    let j = p.task.judge_task_id in
    let a = p.attempt_id in
    let (queue, reserved) = reserve_result_capacity (key s j a) c.queue in
    let (r, started) = start t.started_at (new_attempt p c.epoch) (some t.cancel) c.registry in
    if not reserved
    then (
      record c { queue = queue },
      reject_assign request_id (codes "result capacity unavailable"),
    )
    else if not started
    then (
      record c { registry = r; queue = release_result_capacity (key s j a) queue },
      cancels_ctx t.cancel ∷ (ack_task t request_id s j a ∷ []),
    )
    else offer t request_id p (record c { registry = r; queue = queue })

-- `handleAssign` for an attempt that `Has` does not know.
unfoldable pub admit : Turn → Bytes → TaskAssign → Client → Client × List Output
admit t request_id p c =
    if draining c
    then (c, [])
    else if not (mode_allowed c p.task.judge_mode)
    then (c, closes ∷ [])
    else if leb_ℤ (approved_slots c) (pos (len c.registry))
    then (c, closes ∷ [])
    else begin t request_id p c

-- `handleAssign`, where `none` is a frame that does not parse.
unfoldable pub handle_assign : Turn → Bytes → Option TaskAssign → Client → Client × List Output
handle_assign t request_id none c = (c, [])
handle_assign t request_id (some p) c =
    let s = p.task.submission_id in
    let j = p.task.judge_task_id in
    let a = p.attempt_id in
    let (r, known) = has_attempt t.looked_at s j a c.registry in
    if is_empty s || (is_empty j || (is_empty a || leb_ℤ p.lease_until (pos 0)))
    then (c, [])
    else if not t.is_ready
    then (c, [])
    else if known
    then (record c { registry = r }, ack_task t request_id s j a ∷ [])
    else admit t request_id p (record c { registry = r })

-- `handleNodeState`, for the status of a frame that parses; it answers whether the credential is
-- revoked.
unfoldable pub handle_node_state : Bytes → Bool → Client → Client × Bool
handle_node_state status is_draining c =
    let state = to_upper (trim_space status) in
    if bytes_eq state (codes "DISABLED")
      || (bytes_eq state (codes "REVOKED") || bytes_eq state (codes "EXPIRED"))
    then (c, true)
    else if bytes_eq state (codes "DRAINING")
    then (record c { remote_draining = true }, false)
    else if bytes_eq state (codes "ACTIVE")
    then (record c { remote_draining = is_draining }, false)
    else (c, false)
