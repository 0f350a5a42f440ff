-- ===== src/Identity/State.antt =====
-- internal/hnieoj/identity/identity.go: the state of a store, its file, and changes to its keys.
use go_judge.Prelude.{ℕ, zero, suc, Bytes, Bool, Option, none, some, List, [], ◌∷◌}
use go_judge.Prelude.Int.{ℤ}
use go_judge.Identity.Keys.{KeyRecord}

pub record PendingRotation : Type 0 where
  pub rotation_id : Bytes
  pub new_key_id : Bytes
  pub new_public_key : Bytes
  pub new_key : Bytes
  pub confirm_nonce : Bytes
  pub expires_at : ℤ
  pub confirmed : Bool
  pub grace_until : ℤ
  pub created_at : Bytes

pub record FileState : Type 0 where
  pub version : ℤ
  pub enrollment_id : Bytes
  pub node_name : Bytes
  pub node_type : Bytes
  pub node_id : Bytes
  pub current_key_id : Bytes
  pub keys : List KeyRecord
  pub pending_rotation : Option PendingRotation
  pub created_at : Bytes
  pub updated_at : Bytes

-- The state in memory, and what a start would read from the file.
pub record Store : Type 0 where
  pub state : FileState
  pub disk : FileState

pub data StoreError : Type 0 where
  no_ids no_randomness not_found nothing_to_confirm not_confirmed key_missing refuses_all
        refuses_current write_failed no_pending bad_seed not_available no_active_key :
      StoreError

-- How `WriteFileAtomic` ends: with the file written, with an error before the file was replaced,
-- or with an error after it.
pub data Write : Type 0 where
  written unwritten unsynced : Write

-- `commitLocked`; the state can always be marshalled.
unfoldable pub commit : Write → FileState → Store → Store × Option StoreError
commit Write.written next s = (record s { state = next; disk = next }, none)
commit Write.unwritten next s = (s, some StoreError.write_failed)
commit Write.unsynced next s = (record s { disk = next }, some StoreError.write_failed)

-- A new start reads the file.
unfoldable pub restart : Store → Store
restart s = record s { state = s.disk }

-- `next.Keys[idx].KeyID = keyID` and the like.
abbrev pub modify : ℕ → (KeyRecord → KeyRecord) → List KeyRecord → List KeyRecord
modify i f [] = []
modify zero f (k ∷ keys) = f k ∷ keys
modify (suc i) f (k ∷ keys) = k ∷ modify i f keys

-- The same where the index may be -1, which changes nothing.
abbrev pub update_at : Option ℕ → (KeyRecord → KeyRecord) → List KeyRecord → List KeyRecord
update_at none f keys = keys
update_at (some i) f keys = modify i f keys

abbrev pub named : Bytes → KeyRecord → KeyRecord
named key_id k = record k { key_id = key_id }
