-- ===== src/Identity/Keys.antt =====
-- internal/hnieoj/identity/identity.go: the records of keys and the functions that look one up.
use go_judge.Prelude.{
  ℕ, zero, suc, Bytes, bytes_eq, is_empty, Bool, true, false, ◌&&◌, Option, none, some, List, [],
  ◌∷◌, if◌then◌else◌,
}
use go_judge.Prelude.Int.{ℤ, pos, leb_ℤ, ltb_ℤ}

-- `other` is a text that the file format does not know.
pub data KeyStatus : Type 0 where
  active grace pending revoked : KeyStatus
  other : Bytes → KeyStatus

pub record KeyRecord : Type 0 where
  pub key_id : Bytes
  pub public_key : Bytes
  pub private_key : Bytes
  pub status : KeyStatus
  pub created_at : Bytes
  pub grace_until : ℤ

abbrev pub is_active : KeyStatus → Bool
is_active KeyStatus.active = true
is_active KeyStatus.grace = false
is_active KeyStatus.pending = false
is_active KeyStatus.revoked = false
is_active (KeyStatus.other t) = false

abbrev pub is_grace : KeyStatus → Bool
is_grace KeyStatus.active = false
is_grace KeyStatus.grace = true
is_grace KeyStatus.pending = false
is_grace KeyStatus.revoked = false
is_grace (KeyStatus.other t) = false

abbrev pub push_index : Option ℕ → Option ℕ
push_index none = none
push_index (some i) = some (suc i)

-- `keyIndexByPublic`; -1 is `none`.
unfoldable pub index_by_public : List KeyRecord → Bytes → Option ℕ
index_by_public [] public = none
index_by_public (k ∷ keys) public =
    let rest = index_by_public keys public in
    if bytes_eq k.public_key public then some zero else push_index rest

-- A loop over the keys that returns the first one with a property.
unfoldable pub find : (KeyRecord → Bool) → List KeyRecord → Option KeyRecord
find wanted [] = none
find wanted (k ∷ keys) = let rest = find wanted keys in if wanted k then some k else rest

abbrev pub has_id : Bytes → KeyRecord → Bool
has_id key_id k = bytes_eq k.key_id key_id

abbrev pub in_use : KeyRecord → Bool
in_use k = is_active k.status

abbrev pub first_key : List KeyRecord → Option KeyRecord
first_key [] = none
first_key (k ∷ keys) = some k

abbrev pub or_else : Option KeyRecord → Option KeyRecord → Option KeyRecord
or_else none later = later
or_else (some k) later = some k

-- `currentKeyOf`, of the identifier and the keys of a state.
unfoldable pub current_key : Bytes → List KeyRecord → Option KeyRecord
unfolding find
current_key current keys =
    or_else (if is_empty current then none else find (has_id current) keys)
      (or_else (find in_use keys) (first_key keys))

-- A key in grace whose deadline has come.
abbrev pub is_late : ℤ → ℤ → Bool
is_late now grace_until = ltb_ℤ (pos 0) grace_until && leb_ℤ grace_until now

abbrev pub is_expired : ℤ → KeyRecord → Bool
is_expired now k = is_grace k.status && is_late now k.grace_until

-- `append(keys[:i], keys[i+1:]...)`.
unfoldable pub without : ℕ → List KeyRecord → List KeyRecord
without i [] = []
without zero (k ∷ keys) = keys
without (suc i) (k ∷ keys) = k ∷ without i keys
