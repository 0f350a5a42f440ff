-- ===== src/Identity/Signed.antt =====
-- internal/hnieoj/identity/identity.go: with which keys a node signs for a credential.
use go_judge.Prelude.{
  ◌≡◌, ◌⊎◌, inl, inr, refl, Bytes, bytes_eq, bytes_eq_iff, is_empty, not, true, false, Option, none,
  some, List, [], ◌∷◌, arith, Option-cases, Bool-cases, ◌&&◌,
}
use go_judge.Prelude.Int.{ℤ}
use go_judge.Prelude.Result.{ok}
use go_judge.Identity.{PendingRotation, FileState}
use go_judge.Identity.Keys.{KeyRecord, find, has_id}
use go_judge.Identity.Signing.{
  Crypto, decode_seed, is_signable, private_key_by_id, sign_fields, sign_pending, or_pending,
  sign_with_credential, has_key, has_signing_key, is_pending_key,
}

module _ (c : Crypto) where
  -- The first key with the identifier, which is active or in a grace that is not over.
  pub record IsOwnKey (now : ℤ) (key_id seed : Bytes) (keys : List KeyRecord) : Type 0 where
    pub key : KeyRecord
    pub found : find (has_id key_id) keys ≡ some key
    pub signable : is_signable c now key ≡ true
    pub decoded : decode_seed c key.private_key ≡ some seed

  -- The new key of the pending rotation, which the server has given this identifier.
  pub record IsPendingKey (key_id seed : Bytes) (pending : Option PendingRotation) : Type 0 where
    pub rotation : PendingRotation
    pub there : pending ≡ some rotation
    pub named : is_empty rotation.new_key_id ≡ false
    pub same_id : rotation.new_key_id ≡ key_id
    pub decoded : decode_seed c rotation.new_key ≡ some seed

  private_key_by_id-IsOwnKey :
      (now : ℤ) (key_id seed : Bytes) (keys : List KeyRecord)
      → private_key_by_id c now key_id keys ≡ some seed
      → IsOwnKey now key_id seed keys × (has_key c now key_id keys ≡ true)
  unfolding private_key_by_id has_key find
  private_key_by_id-IsOwnKey now key_id seed [] e = absurd (cc)
  private_key_by_id-IsOwnKey now key_id seed (k ∷ keys) e = elim (Bool-cases (has_id key_id k)) [
    | inl hit ↦ elim (Bool-cases (is_signable c now k)) [
      | inl signs ↦ (
        record { key = k; found = rw hit refl; signable = signs; decoded = ground arith },
        ground arith,
      )
      | inr never ↦ absurd (ground arith)
    ]
    | inr miss ↦
        let (own, has) = private_key_by_id-IsOwnKey now key_id seed keys (ground arith) in
        (
          record {
            key = own.key;
            found = rw miss (own.found);
            signable = own.signable;
            decoded = own.decoded;
          },
          rw miss has,
        )
  ]

  or_pending-IsPendingKey :
      (key_id signature : Bytes) (pending : Option PendingRotation) (fields : List Bytes)
      → or_pending c none key_id pending fields ≡ ok signature
      → ((seed : Bytes) × IsPendingKey key_id seed pending
          × (signature ≡ sign_fields c seed fields))
        × (is_pending_key c key_id pending ≡ true)
  unfolding or_pending sign_pending
  or_pending-IsPendingKey key_id signature none fields e = absurd (cc)
  or_pending-IsPendingKey key_id signature (some p) fields e =
      elim (Bool-cases (not (is_empty p.new_key_id) && bytes_eq p.new_key_id key_id)) [
        | inr other ↦ absurd (ground arith)
        | inl own ↦ elim (Option-cases (decode_seed c p.new_key)) [
          | inl bad ↦ absurd (ground arith)
          | inr (seed, decoded) ↦ (
            (
              seed,
              record {
                rotation = p;
                there = refl;
                named = ground arith;
                same_id = ground (arith, bytes_eq_iff p.new_key_id key_id);
                decoded = decoded;
              },
              ground arith,
            ),
            ground arith,
          )
        ]
      ]

  -- What `SignWithCredential` signs, it signs by the first key with the identifier, which is active
  -- or in a grace that is not over, or by the new key of the pending rotation, which the server has
  -- given this identifier; and `HasSigningKey` then says yes.
  pub sign_with_credential-IsOwned :
      (now : ℤ) (key_id signature : Bytes) (st : FileState) (fields : List Bytes)
      → sign_with_credential c now key_id st fields ≡ ok signature
      → ((seed : Bytes) × (IsOwnKey now key_id seed st.keys
            ⊎ IsPendingKey key_id seed (st.pending_rotation))
          × (signature ≡ sign_fields c seed fields))
        × (has_signing_key c now key_id st ≡ true)
  unfolding sign_with_credential or_pending has_signing_key
  sign_with_credential-IsOwned now key_id signature st fields e =
      elim (Option-cases (private_key_by_id c now key_id st.keys)) [
        | inr (seed, there) ↦
            let (own, has) = private_key_by_id-IsOwnKey now key_id seed st.keys there in
            ((seed, inl own, ground arith), ground arith)
        | inl none_own ↦
            let ((seed, own, same), has) =
              or_pending-IsPendingKey key_id signature (st.pending_rotation) fields
                (rw none_own at e) in
            ((seed, inr own, same), ground arith)
      ]
