-- ===== src/Identity/Signing.antt =====
-- internal/hnieoj/identity/identity.go and internal/hnieoj/protocol/protocol.go: which key signs.
-- The codec of keys and the signature scheme are parameters.
use go_judge.Prelude.{
  ℕ, Bytes, bytes_eq, is_empty, Bool, true, false, not, ◌&&◌, ◌||◌, Option, none, some, List, [],
  ◌∷◌, length, ◌==◌, if◌then◌else◌,
}
use go_judge.Prelude.Int.{ℤ}
use go_judge.Prelude.Ascii.{trim_space}
use go_judge.Prelude.Result.{Result, ok, err}
use go_judge.Protocol.{canonical}
use go_judge.Identity.{StoreError, PendingRotation, FileState}
use go_judge.Identity.Keys.{KeyRecord, is_active, is_grace, is_late, has_id, current_key}

-- `base64.StdEncoding`, the public key of a seed, and a signature by a seed.
pub record Crypto : Type 0 where
  pub decode64 : Bytes → Option Bytes
  pub encode64 : Bytes → Bytes
  pub public_key : Bytes → Bytes
  pub sign : Bytes → Bytes → Bytes

-- A decoded text of the right length.
abbrev pub sized : ℕ → Option Bytes → Option Bytes
sized n none = none
sized n (some raw) = if length raw == n then some raw else none

module _ (c : Crypto) where
  -- `decodeSeed`.
  unfoldable pub decode_seed : Bytes → Option Bytes
  decode_seed encoded = sized 32 (c.decode64 (trim_space encoded))

  -- `DecodePublicKey`.
  unfoldable pub decode_public_key : Bytes → Option Bytes
  decode_public_key value = sized 32 (c.decode64 (trim_space value))

  -- `protocol.Sign`.
  unfoldable pub sign_fields : Bytes → List Bytes → Bytes
  sign_fields seed fields = c.encode64 (c.sign seed (canonical fields))

  -- The `switch` of `PrivateKeyByID`.
  abbrev pub is_signable : ℤ → KeyRecord → Bool
  is_signable now k = is_active k.status || (is_grace k.status && not (is_late now k.grace_until))

  unfoldable pub private_key_by_id : ℤ → Bytes → List KeyRecord → Option Bytes
  unfolding decode_seed
  private_key_by_id now key_id [] = none
  private_key_by_id now key_id (k ∷ keys) =
      let rest = private_key_by_id now key_id keys in
      if not (has_id key_id k)
      then rest
      else if is_signable now k
      then decode_seed k.private_key
      else none

  -- The loop of `HasSigningKey`, which goes on after a key that is neither active nor in grace.
  unfoldable pub has_key : ℤ → Bytes → List KeyRecord → Bool
  has_key now key_id [] = false
  has_key now key_id (k ∷ keys) =
      let rest = has_key now key_id keys in
      if not (has_id key_id k)
      then rest
      else if is_active k.status
      then true
      else if is_grace k.status
      then not (is_late now k.grace_until)
      else rest

  abbrev pub is_pending_key : Bytes → Option PendingRotation → Bool
  is_pending_key key_id none = false
  is_pending_key key_id (some p) = bytes_eq p.new_key_id key_id

  unfoldable pub has_signing_key : ℤ → Bytes → FileState → Bool
  unfolding has_key
  has_signing_key now key_id st =
      if is_pending_key key_id (st.pending_rotation) then true else has_key now key_id st.keys

  abbrev pub signed_with : StoreError → Option Bytes → List Bytes → Result StoreError Bytes
  signed_with e none fields = err e
  signed_with e (some seed) fields = ok (sign_fields seed fields)

  unfoldable pub sign_pending : Option PendingRotation → List Bytes → Result StoreError Bytes
  unfolding decode_seed sign_fields
  sign_pending none fields = err StoreError.no_pending
  sign_pending (some p) fields = signed_with StoreError.bad_seed (decode_seed p.new_key) fields

  -- `SignWith`.
  unfoldable pub sign_with : ℤ → Bytes → FileState → List Bytes → Result StoreError Bytes
  unfolding private_key_by_id sign_fields
  sign_with now key_id st fields =
      signed_with StoreError.not_available (private_key_by_id now key_id st.keys) fields

  abbrev pub is_pending_credential : Bytes → Option PendingRotation → Bool
  is_pending_credential key_id none = false
  is_pending_credential key_id (some p) =
      not (is_empty p.new_key_id) && bytes_eq p.new_key_id key_id

  -- The end of `SignWithCredential`.
  unfoldable pub or_pending :
      Option Bytes → Bytes → Option PendingRotation → List Bytes → Result StoreError Bytes
  unfolding sign_pending sign_fields
  or_pending (some seed) key_id pending fields = ok (sign_fields seed fields)
  or_pending none key_id pending fields =
      if is_pending_credential key_id pending
      then sign_pending pending fields
      else err StoreError.not_available

  unfoldable pub sign_with_credential : ℤ → Bytes → FileState → List Bytes → Result StoreError Bytes
  unfolding or_pending private_key_by_id
  sign_with_credential now key_id st fields =
      or_pending (private_key_by_id now key_id st.keys) key_id (st.pending_rotation) fields

  -- `CurrentPrivateKey`.
  abbrev pub seed_of : Option KeyRecord → Result StoreError Bytes
  seed_of none = err StoreError.no_active_key
  seed_of (some k) = elim (decode_seed k.private_key) [
    | none ↦ err StoreError.bad_seed
    | some seed ↦ ok seed
  ]

  unfoldable pub current_private_key : FileState → Result StoreError Bytes
  unfolding decode_seed current_key
  current_private_key st = seed_of (current_key st.current_key_id st.keys)
