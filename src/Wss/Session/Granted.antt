-- ===== src/Wss/Session/Granted.antt =====
-- internal/hnieoj/wss/run.go: when an authorization is taken over, and when it is renewed.
use go_judge.Prelude.{
  refl, Bytes, ℕ, ◌*◌, ◌^◌, ◌≤◌, ◌<◌, ◌≡◌, ◌⊎◌, bytes_eq, is_empty, Bool, true, false, some,
  if◌then◌else◌, arith,
}
use go_judge.Prelude.Int.{ℤ, pos, leb_ℤ, ltb_ℤ, eq_ℤ}
use go_judge.Wss.Session.Challenge.{
  Challenge, AuthFields, AuthReply, no_answer, server_error, unexpected, malformed_ok, authorizes,
  Setting, take_reply, fields_for, respond_with_key,
}
use go_judge.Wss.Session.{
  AuthOk, Identity, Grant, credential_of, expiry_of, apply_auth_ok, refresh_delay, nanos_per_second,
}

-- What holds of an authorization that is taken over.
pub record IsGranted (i : Identity) (refresh : Bool) (p : AuthOk) (g g' : Grant) : Type 0 where
  pub same_node : (is_empty i.node_id ≡ true) ⊎ (bytes_eq p.node_id i.node_id ≡ true)
  pub has_key : i.has_signing_key p.key_id ≡ true
  pub token : is_empty p.access_token ≡ false
  pub expires : ltb_ℤ (pos 0) g'.cred.access_expiry ≡ true
  pub credential : g'.cred ≡ credential_of p (expiry_of i p) g'.epoch
  pub epoch : g'.epoch ≡ (if refresh then g.epoch else p.session_epoch)
  pub same_epoch :
      (refresh ≡ false) ⊎ ((eq_ℤ g.epoch (pos 0) ≡ true) ⊎ (eq_ℤ p.session_epoch g.epoch ≡ true))

apply_auth_ok-IsGranted :
    (i : Identity) (refresh : Bool) (p : AuthOk) (g g' : Grant)
    → apply_auth_ok i refresh p g ≡ some g'
    → IsGranted i refresh p g g'
unfolding apply_auth_ok
apply_auth_ok-IsGranted i refresh p g g' h = record {
  same_node = ground (arith, h);
  has_key = ground (arith, h);
  token = ground (arith, h);
  expires = ground (arith, h);
  credential = ground (arith, h);
  epoch = ground (arith, h);
  same_epoch = ground (arith, h);
}

-- What holds of fields that are signed.
pub record IsProper (o : Setting) (i : Identity) (ch : Challenge) (f : AuthFields) : Type 0 where
  pub of_challenge :
      (f.audience ≡ ch.audience) × (f.challenge_id ≡ ch.challenge_id) × (f.nonce ≡ ch.nonce)
  pub audience : (is_empty o.audience ≡ true) ⊎ (bytes_eq ch.audience o.audience ≡ true)
  pub timely : (leb_ℤ ch.expires_at (pos 0) ≡ true) ⊎ (ltb_ℤ o.now ch.expires_at ≡ true)
  pub node : (f.node_id ≡ i.node_id) × (is_empty f.node_id ≡ false)
  pub key : is_empty f.key_id ≡ false

respond_with_key-IsProper :
    (o : Setting) (i : Identity) (refresh : Bool) (key_id : Bytes) (pending : Bool)
    (reply : AuthReply) (ch : Challenge) (g : Grant) (f : AuthFields)
    → (respond_with_key o i refresh key_id pending reply ch g).0 ≡ some f
    → IsProper o i ch f
unfolding respond_with_key
respond_with_key-IsProper o i refresh key_id pending reply ch g f h = record {
  of_challenge = ground (arith, h);
  audience = ground (arith, h);
  timely = ground (arith, h);
  node = ground (arith, h);
  key = ground (arith, h);
}

take_reply-authorizes :
    (i : Identity) (refresh : Bool) (reply : AuthReply) (g g' : Grant)
    → take_reply i refresh reply g ≡ some g'
    → (p : AuthOk) × (reply ≡ authorizes p) × IsGranted i refresh p g g'
unfolding take_reply
take_reply-authorizes i refresh (authorizes p) g g' h =
    (p, refl, apply_auth_ok-IsGranted i refresh p g g' h)
take_reply-authorizes i refresh no_answer g g' h = absurd (ground (arith, h))
take_reply-authorizes i refresh server_error g g' h = absurd (ground (arith, h))
take_reply-authorizes i refresh unexpected g g' h = absurd (ground (arith, h))
take_reply-authorizes i refresh malformed_ok g g' h = absurd (ground (arith, h))

respond_with_key-taken :
    (o : Setting) (i : Identity) (refresh : Bool) (key_id : Bytes) (pending : Bool)
    (reply : AuthReply) (ch : Challenge) (g g' : Grant)
    → (respond_with_key o i refresh key_id pending reply ch g).1 ≡ some g'
    → ((respond_with_key o i refresh key_id pending reply ch g).0 ≡ some (fields_for i ch key_id))
      × (take_reply i refresh reply g ≡ some g')
unfolding respond_with_key
respond_with_key-taken o i refresh key_id pending reply ch g g' h =
    (ground (arith, h), ground (arith, h))

-- An answer to a challenge leads to an authorization only if the answer was signed: for the audience
-- and the nonce of the challenge, whose audience is the one configured, if there is one, before the
-- challenge ends, if it has an end, and for the node enrolled. The authorization then is one that the
-- server sent, for this node and for a key whose private half is there, with a token and an end, and,
-- in a renewal, with the epoch of the session, unless that was 0; the credential is that of the
-- server, with its epoch, or in a renewal with the epoch of the session, which stays.
pub respond_with_key-IsGranted :
    (o : Setting) (i : Identity) (refresh : Bool) (key_id : Bytes) (pending : Bool)
    (reply : AuthReply) (ch : Challenge) (g g' : Grant)
    → (respond_with_key o i refresh key_id pending reply ch g).1 ≡ some g'
    → ((f : AuthFields) × ((respond_with_key o i refresh key_id pending reply ch g).0 ≡ some f)
        × IsProper o i ch f)
      × ((p : AuthOk) × (reply ≡ authorizes p) × IsGranted i refresh p g g')
respond_with_key-IsGranted o i refresh key_id pending reply ch g g' h =
    let (signed, taken) = respond_with_key-taken o i refresh key_id pending reply ch g g' h in
    (
      (
        fields_for i ch key_id,
        signed,
        respond_with_key-IsProper o i refresh key_id pending reply ch g (fields_for i ch key_id)
            signed,
      ),
      take_reply-authorizes i refresh reply g g' taken,
    )

-- If an authorization that ends has two seconds left or more, and less than 146 years, its renewal
-- begins after a second at least and before it ends.
pub refresh_delay_bounds :
    (expiry_millis : ℤ) (remaining : ℕ)
    → ltb_ℤ (pos 0) expiry_millis ≡ true
    → 2 * nanos_per_second ≤ remaining
    → remaining < 2 ^ 62
    → (nanos_per_second ≤ refresh_delay expiry_millis (pos remaining))
      × (refresh_delay expiry_millis (pos remaining) < remaining)
unfolding refresh_delay
refresh_delay_bounds e r h low high = ground (arith, h, low, high)
