-- ===== src/Rotation/Examples.antt =====
-- internal/hnieoj/rotation/rotation.go at concrete inputs. The codec of these tests is the identity,
-- a key is 32 times the same byte, and a signature is the key before the message.
use go_judge.Prelude.{
  ℕ, ◌≡◌, inr, refl, subst, Bytes, codes, bytes_eq, false, none, some, [], ◌∷◌, ◌++◌, replicate,
}
use go_judge.Prelude.Int.{pos}
use go_judge.Prelude.Result.{Result, ok}
use go_judge.Identity.{FileState, PendingRotation, Draw}
use go_judge.Identity.Keys.{KeyStatus, KeyRecord, find, current_key}
use go_judge.Identity.Kept.{IsSafe}
use go_judge.Rotation.{Manager, World, Reply, recover, rotate_once}
use go_judge.Rotation.Safe.{IsUnused}
use go_judge.Rotation.Server.{Answer, RotationError, Payload, decode_data}
use go_judge.Rotation.Settled.{IsGiven, IsSettled}
use go_judge.Rotation.Ending.{recover-IsSettled}
use go_judge.Rotation.Rounds.{rotate_once-IsSafe}

abbrev manager : Manager
manager = record {
  crypto = record {
    decode64 = λ s. some s;
    encode64 = λ s. s;
    public_key = λ s. s;
    sign = λ seed message. seed ++ message;
  };
  audience = codes "a";
  stamp = codes "5";
}

abbrev key_of : Bytes → ℕ → KeyStatus → KeyRecord
key_of key_id c status = record {
  key_id = key_id;
  public_key = replicate 32 c;
  private_key = replicate 32 c;
  status = status;
  created_at = codes "1";
  grace_until = pos 0;
}

abbrev begun_rotation : PendingRotation
begun_rotation = record {
  rotation_id = codes "r";
  new_key_id = [];
  new_public_key = replicate 32 66;
  new_key = replicate 32 66;
  confirm_nonce = [];
  expires_at = pos 0;
  confirmed = false;
  grace_until = pos 0;
  created_at = codes "3";
}

abbrev idle : FileState
idle = record {
  version = pos 1;
  enrollment_id = codes "e";
  node_name = codes "n";
  node_type = codes "t";
  node_id = codes "node";
  current_key_id = codes "k1";
  keys = key_of (codes "k1") 65 KeyStatus.active ∷ [];
  pending_rotation = none;
  created_at = codes "1";
  updated_at = codes "1";
}

abbrev rotating : FileState
rotating = record idle {
  keys = key_of (codes "k1") 65 KeyStatus.active ∷ (key_of [] 66 KeyStatus.pending ∷ []);
  pending_rotation = some begun_rotation;
}

abbrev answer : Bytes → Answer
answer status = record {
  rotation_id = codes "r";
  key_id = codes "k2";
  status = status;
  new_public_key = replicate 32 66;
  confirm_nonce = codes "c";
  expires_at = pos 90;
  grace_until = pos 50;
}

abbrev says : Bytes → Reply
says status =
    Reply.body (some (record { code = pos 200; payload = Payload.answer (answer status) }))

-- The reply to the confirmation is lost, and the query then says that the new key is active.
abbrev lost_reply : FileState → World
lost_reply st = record {
  store = record { state = st; disk = st };
  writes = [];
  replies = says [] ∷ (Reply.failed ∷ (says (codes "active") ∷ []));
  sent = [];
  rotated = 0;
}

recover-IsSettled_example :
    IsSettled begun_rotation
      (IsGiven (lost_reply rotating).replies)
      (recover manager (lost_reply rotating)).0.store
recover-IsSettled_example = recover-IsSettled manager begun_rotation (lost_reply rotating) refl refl

idle-IsSafe : IsSafe record { state = idle; disk = idle }
unfolding current_key find bytes_eq
idle-IsSafe = record {
  memory = record { held = record { holder = _; found = refl; usable = refl }; ready = tt };
  file = record { held = record { holder = _; found = refl; usable = refl }; ready = tt };
}

abbrev drawn : Draw
drawn = record { random_id = codes "r"; pair = some (replicate 32 66, replicate 32 66) }

ok_injective : {a b : Answer} → ◌≡◌ {A = Result RotationError Answer} (ok a) (ok b) → a ≡ b
ok_injective e = cc

rotate_once-IsSafe_example : IsSafe (rotate_once manager drawn (lost_reply idle)).0.store
unfolding find bytes_eq decode_data
rotate_once-IsSafe_example =
    rotate_once-IsSafe manager drawn (lost_reply idle) refl
      (λ r given.
        subst (λ (t : Answer). IsUnused t.key_id idle) (ok_injective given) (inr (refl, refl)))
      idle-IsSafe
