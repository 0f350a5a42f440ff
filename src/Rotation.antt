-- ===== src/Rotation.antt =====
-- internal/hnieoj/rotation/rotation.go: one rotation of the key, from its preparation to its end.
pub mod Server
mod Exchange
mod Valid
mod Settled
mod Ending
mod Safe
mod Rounds
mod Timing
mod Examples
unfoldable pub use Exchange.*
use go_judge.Rotation.Exchange.{
  Request, Reply, World, Manager, Outcome, pending_of, write_with, send, and_then,
}
use go_judge.Prelude.{
  ℕ, ◌+◌, Bytes, codes, bytes_eq, is_empty, Bool, true, false, not, ◌&&◌, ◌||◌, Option, none, some,
  List, [], ◌∷◌, ◌++◌, if◌then◌else◌,
}
use go_judge.Prelude.Int.{ℤ, pos, leb_ℤ}
use go_judge.Prelude.Ascii.{to_upper}
use go_judge.Prelude.Result.{Result, ok, err}
use go_judge.Protocol.{rotate_prepare_fields, rotate_confirm_fields}
use go_judge.Identity.{
  PendingRotation, FileState, Store, StoreError, Write, Draw, begin_rotation,
  record_rotation_prepared, mark_rotation_confirmed, activate_rotated_key, discard_pending_rotation,
  expire_grace,
}
use go_judge.Identity.Signing.{Crypto, sign_pending}
use go_judge.Rotation.Server.{
  Answer, Envelope, RotationError, decode_data, validate_rotation_response, status_active,
  status_expired,
}

module _ (m : Manager) where
  abbrev pub count_rotated : World → Outcome
  count_rotated w = (record w { rotated = w.rotated + 1 }, none)

  unfoldable pub activate : World → Outcome
  unfolding write_with
  activate w = and_then (write_with (λ k. activate_rotated_key k m.stamp) w) count_rotated

  unfoldable pub discard : World → Outcome
  unfolding write_with
  discard w = write_with (λ k. discard_pending_rotation k m.stamp) w

  -- An ACTIVE answer.
  unfoldable pub confirmed_until : ℤ → World → Outcome
  unfolding write_with activate
  confirmed_until grace_until w =
      if leb_ℤ grace_until (pos 0)
      then (w, some RotationError.missing_grace)
      else and_then (write_with (λ k. mark_rotation_confirmed k grace_until m.stamp) w) activate

  -- What `confirmOnce` does with an answer that is valid.
  unfoldable pub confirm_answered : Answer → World → Outcome
  unfolding discard confirmed_until
  confirm_answered r w =
      if bytes_eq (to_upper r.status) status_expired
      then discard w
      else if not (bytes_eq (to_upper r.status) status_active)
      then (w, some RotationError.not_active)
      else confirmed_until r.grace_until w

  -- What `query` does with one; `unsettled` is the `default` of its `switch`.
  unfoldable pub query_answered : (World → Outcome) → Answer → World → Outcome
  unfolding discard confirmed_until
  query_answered unsettled r w =
      if bytes_eq (to_upper r.status) status_active
      then confirmed_until r.grace_until w
      else if bytes_eq (to_upper r.status) status_expired
      then discard w
      else unsettled w

  abbrev pub if_valid : Option RotationError → (World → Outcome) → World → Outcome
  if_valid none next w = next w
  if_valid (some e) next w = (w, some e)

  -- `decodeData` and `validateRotationResponse`.
  unfoldable pub answered :
      PendingRotation → Result RotationError Answer → (Answer → World → Outcome) → World → Outcome
  unfolding validate_rotation_response
  answered p (err e) next w = (w, some e)
  answered p (ok r) next w = if_valid (validate_rotation_response p r) (next r) w

  -- The reply to a confirmation; `lost` is what follows a request that failed.
  unfoldable pub confirm_reply : PendingRotation → (World → Outcome) → World × Reply → Outcome
  unfolding answered confirm_answered decode_data
  confirm_reply p lost (w, Reply.failed) = lost w
  confirm_reply p lost (w, Reply.body e) = answered p (decode_data e) confirm_answered w

  unfoldable pub confirm_signed :
      PendingRotation → (World → Outcome) → Result StoreError Bytes → World → Outcome
  unfolding confirm_reply send
  confirm_signed p lost (err e) w = (w, some (RotationError.of_store e))
  confirm_signed p lost (ok signature) w =
      confirm_reply p lost (send (Request.confirmation p.rotation_id signature) w)

  unfoldable pub confirm_from : Option PendingRotation → (World → Outcome) → World → Outcome
  unfolding confirm_signed
  confirm_from none lost w = (w, none)
  confirm_from (some p) lost w =
      confirm_signed p lost
        (sign_pending m.crypto (pending_of w) (
          rotate_confirm_fields m.audience w.store.state.node_id p.rotation_id p.new_key_id
            p.confirm_nonce))
        w

  unfoldable pub query_reply : PendingRotation → (World → Outcome) → World × Reply → Outcome
  unfolding answered query_answered decode_data
  query_reply p unsettled (w, Reply.failed) = (w, some RotationError.request_failed)
  query_reply p unsettled (w, Reply.body e) =
      answered p (decode_data e) (query_answered unsettled) w

  unfoldable pub query_from : Option PendingRotation → (World → Outcome) → World → Outcome
  unfolding query_reply send
  query_from none unsettled w = (w, none)
  query_from (some p) unsettled w =
      query_reply p unsettled (send (Request.question p.rotation_id) w)

  -- `query(ctx, true)`: an unsettled rotation ends the round.
  unfoldable pub query_again : World → Outcome
  unfolding query_from
  query_again w = query_from (pending_of w) (λ v. (v, none)) w

  -- `confirmOnce(ctx, true)`: a lost reply ends the round.
  unfoldable pub confirm_again : World → Outcome
  unfolding confirm_from
  confirm_again w = confirm_from (pending_of w) (λ v. (v, some RotationError.request_failed)) w

  -- `confirmOnce(ctx, false)`.
  unfoldable pub confirm_once : World → Outcome
  unfolding confirm_from query_again
  confirm_once w = confirm_from (pending_of w) query_again w

  -- `query(ctx, false)`.
  unfoldable pub query : World → Outcome
  unfolding query_from confirm_again
  query w = query_from (pending_of w) confirm_again w

  abbrev pub lacks_field : Answer → Bool
  lacks_field r = is_empty r.rotation_id || (is_empty r.key_id || is_empty r.confirm_nonce)

  unfoldable pub prepare_answered : Result RotationError Answer → World → Outcome
  unfolding write_with confirm_once
  prepare_answered (err e) w = (w, some e)
  prepare_answered (ok r) w =
      if lacks_field r
      then (w, some RotationError.missing_field)
      else and_then
          (write_with
            (λ k.
              record_rotation_prepared k r.rotation_id r.key_id r.confirm_nonce r.expires_at
                m.stamp)
            w)
          confirm_once

  unfoldable pub prepare_reply : World × Reply → Outcome
  unfolding prepare_answered decode_data
  prepare_reply (w, Reply.failed) = (w, some RotationError.request_failed)
  prepare_reply (w, Reply.body e) = prepare_answered (decode_data e) w

  unfoldable pub prepare_signed : Bytes → Bytes → Result StoreError Bytes → World → Outcome
  unfolding prepare_reply send
  prepare_signed rotation_id public (err e) w = (w, some (RotationError.of_store e))
  prepare_signed rotation_id public (ok proof) w =
      prepare_reply (send (Request.preparation rotation_id public proof) w)

  unfoldable pub prepare : Bytes → Bytes → World → Outcome
  unfolding prepare_signed
  prepare rotation_id public w =
      prepare_signed rotation_id public
        (sign_pending m.crypto (pending_of w)
          (rotate_prepare_fields m.audience w.store.state.node_id rotation_id public))
        w

  unfoldable pub recover_from : Option PendingRotation → World → Outcome
  unfolding activate prepare confirm_once
  recover_from none w = (w, none)
  recover_from (some p) w =
      if p.confirmed
      then activate w
      else if is_empty p.new_key_id
      then prepare p.rotation_id p.new_public_key w
      else confirm_once w

  -- `Recover`.
  unfoldable pub recover : World → Outcome
  unfolding recover_from
  recover w = recover_from (pending_of w) w

  -- The rotation that `BeginRotation` has returned.
  unfoldable pub prepare_begun : Option PendingRotation → World → Outcome
  unfolding prepare
  prepare_begun none w = (w, none)
  prepare_begun (some p) w = prepare p.rotation_id p.new_public_key w

  unfoldable pub rotate_from : Option PendingRotation → Draw → World → Outcome
  unfolding recover_from write_with prepare_begun
  rotate_from (some p) draw w = recover_from (some p) w
  rotate_from none draw w =
      and_then (write_with (λ k. begin_rotation k draw [] m.stamp) w)
        (λ v. prepare_begun (pending_of v) v)

  -- `RotateOnce`.
  unfoldable pub rotate_once : Draw → World → Outcome
  unfolding rotate_from
  rotate_once draw w = rotate_from (pending_of w) draw w

  -- `cleanupExpired`; an error is only logged.
  unfoldable pub cleanup_expired : ℤ → World → World
  unfolding write_with
  cleanup_expired now w = (write_with (λ k. expire_grace k now m.stamp) w).0
