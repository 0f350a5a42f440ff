-- ===== src/Rotation/Server.antt =====
-- internal/hnieoj/rotation/rotation.go: the answers of the server, and what they are checked for.
use go_judge.Prelude.{
  Bytes, codes, bytes_eq, is_empty, Bool, not, ◌&&◌, ◌||◌, Option, none, some, if◌then◌else◌,
}
use go_judge.Prelude.Int.{ℤ, pos, ltb_ℤ, eq_ℤ}
use go_judge.Prelude.Ascii.{trim_space, to_upper}
use go_judge.Prelude.Result.{Result, ok, err}
use go_judge.Identity.{PendingRotation, StoreError}

-- A `PrepareResponse` and a `QueryResponse`: the first one has no status, public key and deadline.
pub record Answer : Type 0 where
  pub rotation_id : Bytes
  pub key_id : Bytes
  pub status : Bytes
  pub new_public_key : Bytes
  pub confirm_nonce : Bytes
  pub expires_at : ℤ
  pub grace_until : ℤ

pub data RotationError : Type 0 where
  of_store : StoreError → RotationError
  request_failed malformed denied result_code empty_data missing_field unknown_status
        missing_rotation_id wrong_rotation_id wrong_key_id wrong_public_key wrong_nonce wrong_expiry
        no_key_id not_our_key_id not_our_public_key not_active missing_grace :
      RotationError

-- The field `data`: absent or null, not of the wanted form, or an answer.
pub data Payload : Type 0 where
  absent unfit : Payload
  answer : Answer → Payload

pub record Envelope : Type 0 where
  pub code : ℤ
  pub payload : Payload

abbrev pub payload_of : Payload → Result RotationError Answer
payload_of Payload.absent = err RotationError.empty_data
payload_of Payload.unfit = err RotationError.malformed
payload_of (Payload.answer r) = ok r

-- `decodeData`, of what `json.Unmarshal` gives for the body.
unfoldable pub decode_data : Option Envelope → Result RotationError Answer
decode_data none = err RotationError.malformed
decode_data (some e) =
    if eq_ℤ e.code (pos 200)
    then payload_of (e.payload)
    else if eq_ℤ e.code (pos 401) || eq_ℤ e.code (pos 403)
    then err RotationError.denied
    else err RotationError.result_code

abbrev pub status_active : Bytes
status_active = codes "ACTIVE"

abbrev pub status_expired : Bytes
status_expired = codes "EXPIRED"

-- `status` of `validateRotationResponse`.
abbrev pub status_of : Answer → Bytes
status_of r = to_upper (trim_space r.status)

abbrev pub known_status : Bytes → Bool
known_status s =
    bytes_eq s status_active || (bytes_eq s (codes "PENDING") || bytes_eq s status_expired)

-- Both are given, and they differ.
abbrev pub conflicts : Bytes → Bytes → Bool
conflicts given ours = not (is_empty given) && (not (is_empty ours) && not (bytes_eq given ours))

abbrev pub conflicts_ℤ : ℤ → ℤ → Bool
conflicts_ℤ given ours = ltb_ℤ (pos 0) given && (ltb_ℤ (pos 0) ours && not (eq_ℤ given ours))

-- The checks of an ACTIVE answer.
unfoldable pub validate_active : PendingRotation → Answer → Option RotationError
validate_active p r =
    if is_empty (trim_space p.new_key_id)
    then some RotationError.no_key_id
    else if not (bytes_eq r.key_id p.new_key_id)
    then some RotationError.not_our_key_id
    else if is_empty r.new_public_key || not (bytes_eq r.new_public_key p.new_public_key)
    then some RotationError.not_our_public_key
    else none

-- `validateRotationResponse`, for a pending rotation that is there.
unfoldable pub validate_rotation_response : PendingRotation → Answer → Option RotationError
unfolding validate_active
validate_rotation_response p r =
    if not (known_status (status_of r))
    then some RotationError.unknown_status
    else if is_empty (trim_space r.rotation_id)
    then some RotationError.missing_rotation_id
    else if not (bytes_eq r.rotation_id p.rotation_id)
    then some RotationError.wrong_rotation_id
    else if conflicts r.key_id p.new_key_id
    then some RotationError.wrong_key_id
    else if not (is_empty r.new_public_key) && not (bytes_eq r.new_public_key p.new_public_key)
    then some RotationError.wrong_public_key
    else if conflicts r.confirm_nonce p.confirm_nonce
    then some RotationError.wrong_nonce
    else if conflicts_ℤ r.expires_at p.expires_at
    then some RotationError.wrong_expiry
    else if bytes_eq (status_of r) status_active
    then validate_active p r
    else none
