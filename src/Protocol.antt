-- ===== src/Protocol.antt =====
-- internal/hnieoj/protocol/protocol.go: the bytes that a signature covers, the fields of each
-- purpose, the types of messages and the check of an incoming envelope.
mod Canonical
mod Inbound
mod Examples
use go_judge.Prelude.{
  ℕ, ◌+◌, ◌/◌, ◌%◌, ◌^◌, Bytes, codes, bytes_eq, is_empty, Bool, true, false, not, ◌||◌, Option,
  none, some, List, [], ◌∷◌, ◌++◌, if◌then◌else◌, length,
}
use go_judge.Prelude.Int.{ℤ, pos, ◌+ℤ◌, ◌-ℤ◌, leb_ℤ, ltb_ℤ, eq_ℤ, wrap64}
use go_judge.Prelude.Ascii.{trim_space, to_upper}

-- `binary.BigEndian.PutUint32`.
unfoldable pub put_uint32 : ℕ → Bytes
put_uint32 n = n / 2 ^ 24 % 256 ∷ n / 2 ^ 16 % 256 ∷ n / 2 ^ 8 % 256 ∷ n % 256 ∷ []

-- `Canonical`; `uint32(len(field))` wraps.
unfoldable pub canonical : List Bytes → Bytes
canonical [] = []
canonical (field ∷ rest) = put_uint32 (length field % 2 ^ 32) ++ (field ++ canonical rest)

abbrev pub domain_enroll : Bytes
domain_enroll = codes "HNIEOJ-ENROLL-V1"

abbrev pub domain_auth : Bytes
domain_auth = codes "HNIEOJ-AUTH-V1"

abbrev pub domain_http : Bytes
domain_http = codes "HNIEOJ-HTTP-V1"

abbrev pub domain_rotate_prepare : Bytes
domain_rotate_prepare = codes "HNIEOJ-ROTATE-PREPARE-V1"

abbrev pub domain_rotate_confirm : Bytes
domain_rotate_confirm = codes "HNIEOJ-ROTATE-CONFIRM-V1"

unfoldable pub enroll_fields : Bytes → Bytes → Bytes → Bytes → Bytes → Bytes → Bytes → List Bytes
enroll_fields audience challenge_id nonce enrollment_id node_name public_key bootstrap_digest =
    domain_enroll ∷ audience ∷ challenge_id ∷ nonce ∷ enrollment_id ∷ node_name ∷ public_key
    ∷ bootstrap_digest ∷ []

unfoldable pub auth_fields : Bytes → Bytes → Bytes → Bytes → Bytes → List Bytes
auth_fields audience challenge_id nonce node_id key_id =
    domain_auth ∷ audience ∷ challenge_id ∷ nonce ∷ node_id ∷ key_id ∷ []

unfoldable pub http_fields :
    Bytes → Bytes → Bytes → Bytes → Bytes → Bytes → Bytes → Bytes → List Bytes
http_fields audience node_id key_id verb path_with_query body_sha256 timestamp nonce =
    domain_http
    ∷ audience
    ∷ node_id
    ∷ key_id
    ∷ to_upper verb
    ∷ path_with_query
    ∷ body_sha256
    ∷ timestamp
    ∷ nonce
    ∷ []

unfoldable pub rotate_prepare_fields : Bytes → Bytes → Bytes → Bytes → List Bytes
rotate_prepare_fields audience node_id rotation_id new_public_key =
    domain_rotate_prepare ∷ audience ∷ node_id ∷ rotation_id ∷ new_public_key ∷ []

unfoldable pub rotate_confirm_fields : Bytes → Bytes → Bytes → Bytes → Bytes → List Bytes
rotate_confirm_fields audience node_id rotation_id key_id confirm_nonce =
    domain_rotate_confirm ∷ audience ∷ node_id ∷ rotation_id ∷ key_id ∷ confirm_nonce ∷ []

-- What a signature is made for, with the arguments of the function that lists its fields.
pub data Purpose : Type 0 where
  enroll : Bytes → Bytes → Bytes → Bytes → Bytes → Bytes → Bytes → Purpose
  auth : Bytes → Bytes → Bytes → Bytes → Bytes → Purpose
  http : Bytes → Bytes → Bytes → Bytes → Bytes → Bytes → Bytes → Bytes → Purpose
  rotate_prepare : Bytes → Bytes → Bytes → Bytes → Purpose
  rotate_confirm : Bytes → Bytes → Bytes → Bytes → Bytes → Purpose

unfoldable pub fields_of : Purpose → List Bytes
unfolding enroll_fields auth_fields http_fields rotate_prepare_fields rotate_confirm_fields
fields_of (enroll a c n e m p b) = enroll_fields a c n e m p b
fields_of (auth a c n i k) = auth_fields a c n i k
fields_of (http a i k v p b t n) = http_fields a i k v p b t n
fields_of (rotate_prepare a i r p) = rotate_prepare_fields a i r p
fields_of (rotate_confirm a i r k n) = rotate_confirm_fields a i r k n

-- The constants `Type...` that `KnownType` lists.
abbrev pub known_types : List Bytes
known_types =
    codes "AUTH_CHALLENGE"
    ∷ codes "AUTH_RESPONSE"
    ∷ codes "AUTH_OK"
    ∷ codes "AUTH_REFRESH"
    ∷ codes "RESUME_TASKS"
    ∷ codes "RESUME_RESULT"
    ∷ codes "READY"
    ∷ codes "TASK_ASSIGN"
    ∷ codes "TASK_ACK"
    ∷ codes "TASK_RUNNING"
    ∷ codes "TASK_EVENT_ACK"
    ∷ codes "TASK_RESULT"
    ∷ codes "TASK_RESULT_ACK"
    ∷ codes "LEASE_RENEW"
    ∷ codes "LEASE_RENEWED"
    ∷ codes "TASK_CANCEL"
    ∷ codes "HEARTBEAT"
    ∷ codes "HEARTBEAT_ACK"
    ∷ codes "NODE_DRAIN"
    ∷ codes "NODE_STATE"
    ∷ codes "PING"
    ∷ codes "PONG"
    ∷ codes "ERROR"
    ∷ []

unfoldable pub one_of : Bytes → List Bytes → Bool
one_of s [] = false
one_of s (x ∷ xs) = bytes_eq s x || one_of s xs

unfoldable pub known_type : Bytes → Bool
unfolding one_of
known_type message_type = one_of message_type known_types

-- An envelope, without its payload.
pub record Envelope : Type 0 where
  pub version : ℤ
  pub message_type : Bytes
  pub request_id : Bytes
  pub timestamp : ℤ

pub data InboundError : Type 0 where
  nil_envelope unsupported_version unknown_type missing_request_id missing_timestamp skewed :
      InboundError

-- `TimestampSkew.Milliseconds()`.
abbrev pub default_skew : ℤ
default_skew = pos 30000

abbrev pub skew_or_default : ℤ → ℤ
skew_or_default skew = if leb_ℤ skew (pos 0) then default_skew else skew

-- `if delta < 0 { delta = -delta }` of `int64`.
unfoldable pub distance : ℤ → ℤ
distance delta = if ltb_ℤ delta (pos 0) then wrap64 (pos 0 -ℤ delta) else delta

unfoldable pub validate_inbound : Option Envelope → ℤ → ℤ → ℤ → Option InboundError
validate_inbound none now_millis offset skew = some nil_envelope
validate_inbound (some env) now_millis offset skew =
    let server_now = wrap64 (now_millis +ℤ offset) in
    let delta = distance (wrap64 (server_now -ℤ env.timestamp)) in
    if not (eq_ℤ env.version (pos 1))
    then some unsupported_version
    else if not (known_type env.message_type)
    then some unknown_type
    else if is_empty (trim_space env.request_id)
    then some missing_request_id
    else if leb_ℤ env.timestamp (pos 0)
    then some missing_timestamp
    else if ltb_ℤ (skew_or_default skew) delta
    then some skewed
    else none
