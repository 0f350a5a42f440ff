-- ===== src/Wss/Session/Challenge.antt =====
-- internal/hnieoj/wss/run.go: `respondWithKey`, the answer to a challenge.
use go_judge.Prelude.{
  Bytes, bytes_eq, is_empty, Bool, not, ◌&&◌, ◌||◌, Option, none, some, if◌then◌else◌,
}
use go_judge.Prelude.Int.{ℤ, pos, leb_ℤ, ltb_ℤ}
use go_judge.Wss.Session.{AuthOk, Identity, Grant, apply_auth_ok}

-- `ChallengePayload`.
pub record Challenge : Type 0 where
  pub challenge_id : Bytes
  pub nonce : Bytes
  pub audience : Bytes
  pub expires_at : ℤ

-- What is signed.
pub record AuthFields : Type 0 where
  pub audience : Bytes
  pub challenge_id : Bytes
  pub nonce : Bytes
  pub node_id : Bytes
  pub key_id : Bytes

-- What comes back: nothing before the end of the session, an error of the server, an envelope of
-- another type, one that is malformed, or an authorization.
pub data AuthReply : Type 0 where
  no_answer server_error unexpected malformed_ok : AuthReply
  authorizes : AuthOk → AuthReply

-- The audience of the options, the time of the server, whether a key can sign, which the flag says to
-- be the pending one, and whether the answer can be sent.
pub record Setting : Type 0 where
  pub audience : Bytes
  pub now : ℤ
  pub signs : Bool → AuthFields → Bool
  pub sends : Bool

unfoldable pub take_reply : Identity → Bool → AuthReply → Grant → Option Grant
take_reply i refresh (authorizes p) g = apply_auth_ok i refresh p g
take_reply i refresh no_answer g = none
take_reply i refresh server_error g = none
take_reply i refresh unexpected g = none
take_reply i refresh malformed_ok g = none

abbrev pub signing_key : Identity → Bytes → Bytes
signing_key i key_id = if is_empty key_id then i.current_key_id else key_id

abbrev pub fields_for : Identity → Challenge → Bytes → AuthFields
fields_for i ch key_id = record {
  audience = ch.audience;
  challenge_id = ch.challenge_id;
  nonce = ch.nonce;
  node_id = i.node_id;
  key_id = signing_key i key_id;
}

-- `respondWithKey`, with what is signed and what is granted.
unfoldable pub respond_with_key :
    Setting
    → Identity
    → Bool
    → Bytes
    → Bool
    → AuthReply
    → Challenge
    → Grant
    → Option AuthFields × Option Grant
respond_with_key o i refresh key_id pending reply ch g =
    if is_empty ch.challenge_id || (is_empty ch.nonce || is_empty ch.audience)
    then (none, none)
    else if not (is_empty o.audience) && not (bytes_eq ch.audience o.audience)
    then (none, none)
    else if ltb_ℤ (pos 0) ch.expires_at && leb_ℤ ch.expires_at o.now
    then (none, none)
    else if is_empty i.node_id
    then (none, none)
    else if is_empty (signing_key i key_id)
    then (none, none)
    else if not (o.signs pending (fields_for i ch key_id))
    then (none, none)
    else (some (fields_for i ch key_id), if o.sends then take_reply i refresh reply g else none)
