-- ===== src/Identity/Examples.antt =====
-- internal/hnieoj/identity/identity.go at concrete inputs. The codec of these tests is the identity,
-- a key is 32 times the same byte, and a signature is the key before the message.
use go_judge.Prelude.{
  ℕ, ◌≡◌, ◌⊎◌, inr, refl, Bytes, codes, bytes_eq, true, some, List, [], ◌∷◌, ◌++◌, replicate,
  length,
}
use go_judge.Prelude.Int.{pos}
use go_judge.Prelude.Ascii.{trim_space, trim_left}
use go_judge.Identity.{
  FileState, Store, Write, Draw, apply_enrollment, begin_rotation, record_rotation_prepared,
  mark_rotation_confirmed, activate_rotated_key, expire_grace, restart,
}
use go_judge.Identity.Keys.{find, current_key, index_by_public}
use go_judge.Identity.Calls.{Call, call, run}
use go_judge.Identity.Kept.{IsSafe}
use go_judge.Identity.Always.{run-IsSafe}
use go_judge.Identity.Signing.{
  Crypto, decode_seed, decode_public_key, sign_fields, sign_with_credential, has_signing_key,
}
use go_judge.Identity.Signed.{IsOwnKey, IsPendingKey, sign_with_credential-IsOwned}
use go_judge.Identity.Opening.{FileRead, new_file_state, open_store}
use go_judge.Identity.Opened.{IsOpened, open_store-IsOpened, new-IsSafe}

abbrev plain : Crypto
plain = record {
  decode64 = λ s. some s;
  encode64 = λ s. s;
  public_key = λ s. s;
  sign = λ seed message. seed ++ message;
}

abbrev bytes_of : ℕ → Bytes
bytes_of c = replicate 32 c

abbrev first : FileState
first =
    new_file_state plain (codes "n") (codes "t") (codes "e") (bytes_of 65) (bytes_of 65) (codes "1")

abbrev fresh : Store
fresh = record { state = first; disk = first }

abbrev second_pair : Draw
second_pair = record { random_id = codes "r"; pair = some (bytes_of 66, bytes_of 66) }

-- A rotation in which the write of the activation fails after it has replaced the file.
abbrev whole_rotation : List Call
whole_rotation =
    Call.enroll Write.written (codes "node") (codes "k1") (codes "2")
    ∷ (Call.open_rotation Write.written second_pair [] (codes "3")
        ∷ (Call.note_prepared Write.written (codes "r") (codes "k2") (codes "c") (pos 90)
              (codes "4")
            ∷ (Call.note_confirmed Write.written (pos 50) (codes "5")
                ∷ (Call.switch_key Write.unsynced (codes "6")
                    ∷ (Call.reopen
                        ∷ (Call.drop_expired Write.written (pos 60) (codes "7") ∷ []))))))

run-IsSafe_example : IsSafe (run whole_rotation fresh)
unfolding call apply_enrollment begin_rotation record_rotation_prepared mark_rotation_confirmed
    activate_rotated_key expire_grace find current_key index_by_public new_file_state bytes_eq
    trim_space trim_left
run-IsSafe_example =
    run-IsSafe whole_rotation fresh
      ((refl, refl), (refl, (inr (refl, inr refl), (refl, (tt, (tt, (tt, tt)))))))
      (new-IsSafe plain (codes "n") (codes "t") (codes "e") (bytes_of 65) (bytes_of 65) (codes "1"))

-- The grace of the old key is over, and the new one is left.
rotated_keys :
    (length (run whole_rotation fresh).state.keys ≡ 1)
    × ((run whole_rotation fresh).state.current_key_id ≡ codes "k2")
unfolding run call apply_enrollment begin_rotation record_rotation_prepared mark_rotation_confirmed
    activate_rotated_key expire_grace find current_key index_by_public new_file_state bytes_eq
    trim_space trim_left restart
rotated_keys = (refl, refl)

abbrev in_rotation : FileState
in_rotation =
    (run
      (Call.enroll Write.written (codes "node") (codes "k1") (codes "2")
        ∷ (Call.open_rotation Write.written second_pair [] (codes "3")
            ∷ (Call.note_prepared Write.written (codes "r") (codes "k2") (codes "c") (pos 90)
                  (codes "4")
                ∷ [])))
      fresh).state

-- The pending key signs for the identifier that the server has given it.
sign_with_credential-IsOwned_example :
    ((seed : Bytes) × (IsOwnKey plain (pos 10) (codes "k2") seed in_rotation.keys
        ⊎ IsPendingKey plain (codes "k2") seed (in_rotation.pending_rotation))
      × (sign_fields plain (bytes_of 66) (codes "x" ∷ [])
          ≡ sign_fields plain seed (codes "x" ∷ [])))
    × (has_signing_key plain (pos 10) (codes "k2") in_rotation ≡ true)
unfolding run call apply_enrollment begin_rotation record_rotation_prepared mark_rotation_confirmed
    activate_rotated_key expire_grace find current_key index_by_public new_file_state bytes_eq
    trim_space trim_left sign_with_credential decode_seed sign_fields
sign_with_credential-IsOwned_example =
    sign_with_credential-IsOwned plain (pos 10) (codes "k2")
      (sign_fields plain (bytes_of 66) (codes "x" ∷ [])) in_rotation (codes "x" ∷ []) refl

open_store-IsOpened_example : IsOpened plain (FileRead.contents (some first)) fresh
unfolding open_store decode_seed decode_public_key new_file_state bytes_eq trim_space trim_left
open_store-IsOpened_example =
    open_store-IsOpened plain true (FileRead.contents (some first)) Write.written second_pair
      (codes "/identity") (codes "n") (codes "t") (codes "1") fresh refl
