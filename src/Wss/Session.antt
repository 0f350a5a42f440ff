-- ===== src/Wss/Session.antt =====
-- internal/hnieoj/wss/run.go and internal/hnieoj/auth/auth.go: the authentication of a session and its
-- renewal, with what the server, the identity store and the clock answer.
pub mod Challenge
pub mod Granted
pub mod Candidates
mod Examples
use go_judge.Prelude.{
  ℕ, ◌+◌, ◌*◌, ◌/◌, ◌^◌, Bytes, bytes_eq, is_empty, Bool, true, false, not, ◌&&◌, ◌||◌, Option,
  none, some, List, [], ◌∷◌, ◌++◌, ltb, leb, if◌then◌else◌,
}
use go_judge.Prelude.Int.{ℤ, pos, pos_part, leb_ℤ, ltb_ℤ, eq_ℤ}

-- The kinds of errors that `auth.IsDenied` and `auth.IsPermanent` tell apart.
pub data SessionError : Type 0 where
  denied permanent temporary : SessionError

-- `Credential`, but for the lists and intervals that are only handed on.
pub record Credential : Type 0 where
  pub node_id : Bytes
  pub key_id : Bytes
  pub access_token : Bytes
  pub access_expiry : ℤ
  pub session_epoch : ℤ
  pub authorization_until : ℤ
  pub max_concurrency : ℤ
  pub supported_judge_modes : List Bytes
  pub revoked : Bool

-- `Expired` at a time in milliseconds.
abbrev pub expired : ℤ → Credential → Bool
expired now c = ltb_ℤ (pos 0) c.access_expiry && leb_ℤ c.access_expiry now

-- `AuthOKPayload`.
pub record AuthOk : Type 0 where
  pub node_id : Bytes
  pub key_id : Bytes
  pub access_token : Bytes
  pub access_expires_at : ℤ
  pub session_epoch : ℤ
  pub authorization_until : ℤ
  pub max_concurrency : ℤ
  pub supported_judge_modes : List Bytes

-- What the identity store holds, with `JWTExpiryMillis`.
pub record Identity : Type 0 where
  pub node_id : Bytes
  pub has_signing_key : Bytes → Bool
  pub current_key_id : Bytes
  pub pending_key_id : Option Bytes
  pub jwt_expiry_millis : Bytes → ℤ

-- The epoch of the session and its credential.
pub record Grant : Type 0 where
  pub epoch : ℤ
  pub cred : Credential

abbrev pub credential_of : AuthOk → ℤ → ℤ → Credential
credential_of p expiry epoch = record {
  node_id = p.node_id;
  key_id = p.key_id;
  access_token = p.access_token;
  access_expiry = expiry;
  session_epoch = epoch;
  authorization_until = p.authorization_until;
  max_concurrency = p.max_concurrency;
  supported_judge_modes = p.supported_judge_modes;
  revoked = false;
}

abbrev pub expiry_of : Identity → AuthOk → ℤ
expiry_of i p =
    if leb_ℤ p.access_expires_at (pos 0)
    then i.jwt_expiry_millis p.access_token
    else p.access_expires_at

-- `applyAuthOK`, where `none` is an error; then nothing changes.
unfoldable pub apply_auth_ok : Identity → Bool → AuthOk → Grant → Option Grant
apply_auth_ok i refresh p g =
    if is_empty p.node_id || (is_empty p.key_id || is_empty p.access_token)
    then none
    else if not (is_empty i.node_id) && not (bytes_eq p.node_id i.node_id)
    then none
    else if not (i.has_signing_key p.key_id)
    then none
    else if leb_ℤ (expiry_of i p) (pos 0)
    then none
    else if leb_ℤ p.session_epoch (pos 0)
    then none
    else if not refresh
    then some
        (record { epoch = p.session_epoch; cred = credential_of p (expiry_of i p) p.session_epoch })
    else if not (eq_ℤ g.epoch (pos 0)) && not (eq_ℤ p.session_epoch g.epoch)
    then none
    else some (record { epoch = g.epoch; cred = credential_of p (expiry_of i p) g.epoch })

-- `authCandidates`: key identifiers, and whether the key is the pending one.
abbrev pub current_candidates : Bytes → List (Bytes × Bool)
current_candidates current = if is_empty current then [] else (current, false) ∷ []

abbrev pub pending_candidates : Bytes → Option Bytes → List (Bytes × Bool)
pending_candidates current none = []
pending_candidates current (some id) =
    if is_empty id || bytes_eq id current then [] else (id, true) ∷ []

abbrev pub or_empty_candidate : List (Bytes × Bool) → List (Bytes × Bool)
or_empty_candidate [] = ([], false) ∷ []
or_empty_candidate (x ∷ xs) = x ∷ xs

unfoldable pub auth_candidates : Identity → List (Bytes × Bool)
auth_candidates i =
    or_empty_candidate
      (current_candidates i.current_key_id ++ pending_candidates i.current_key_id i.pending_key_id)

-- How `sessionWithCandidate` ends: whether it authenticated, and its error.
pub record Ending : Type 0 where
  pub authenticated : Bool
  pub error : Option SessionError

-- `auth.IsDenied(err) || auth.IsPermanent(err)`.
abbrev pub is_rejection : Option SessionError → Bool
is_rejection none = false
is_rejection (some denied) = true
is_rejection (some permanent) = true
is_rejection (some temporary) = false

abbrev pub is_nil : Option SessionError → Bool
is_nil none = true
is_nil (some e) = false

-- The loop of `session`, with the candidates tried; `cancelled` is whether the context is over after
-- a rejection, and the error of a context counts as temporary.
unfoldable pub try_candidates :
    (Bytes × Bool → Ending)
    → Bool
    → List (Bytes × Bool)
    → Option SessionError
    → List (Bytes × Bool) × Ending
try_candidates ends cancelled [] last = ([], record { authenticated = false; error = last })
try_candidates ends cancelled (x ∷ xs) last =
    let next = try_candidates ends cancelled xs (ends x).error in
    let over : Ending = record { authenticated = false; error = some temporary } in
    if is_nil (ends x).error || (ends x).authenticated
    then (x ∷ [], ends x)
    else if not (is_rejection (ends x).error)
    then (x ∷ [], record { authenticated = false; error = (ends x).error })
    else elim xs [
      | [] ↦ (x ∷ next.0, next.1)
      | y ∷ ys ↦ if cancelled then (x ∷ [], over) else (x ∷ next.0, next.1)
    ]

-- `session`.
unfoldable pub session : Identity → (Bytes × Bool → Ending) → Bool → List (Bytes × Bool) × Ending
session i ends cancelled = try_candidates ends cancelled (auth_candidates i) none

-- `refreshDelay` in nanoseconds, for the time that remains. The difference of two times is at most
-- 2 ^ 63 - 1, and its double wraps.
abbrev pub nanos_per_second : ℕ
nanos_per_second = 1000000000

unfoldable pub refresh_delay : ℤ → ℤ → ℕ
refresh_delay expiry_millis remaining =
    if leb_ℤ expiry_millis (pos 0)
    then 300 * nanos_per_second
    else if leb_ℤ remaining (pos 0)
    then nanos_per_second
    else let delay = if ltb (pos_part remaining) (2 ^ 62) then pos_part remaining * 2 / 3 else 0 in
      if ltb delay nanos_per_second then nanos_per_second else delay
