-- ===== src/Rotation/Exchange.antt =====
-- internal/hnieoj/rotation/rotation.go: the requests of a rotation and what they meet.
use go_judge.Prelude.{ℕ, Bytes, Option, none, some, List, [], ◌∷◌, ◌++◌}
use go_judge.Identity.{PendingRotation, Store, StoreError, Write}
use go_judge.Identity.Signing.{Crypto}
use go_judge.Rotation.Server.{Envelope, RotationError}

-- A request, and the signature of the new key in it. Each is sent with the signature of a key that
-- `signer` has.
pub data Request : Type 0 where
  preparation : Bytes → Bytes → Bytes → Request
  confirmation : Bytes → Bytes → Request
  question : Bytes → Request

-- What a request ends with: an error, or a body that is an envelope or no JSON.
pub data Reply : Type 0 where
  failed : Reply
  body : Option Envelope → Reply

-- The store, how the next writes and requests end, the requests sent and the calls of `onRotated`.
pub record World : Type 0 where
  pub store : Store
  pub writes : List Write
  pub replies : List Reply
  pub sent : List Request
  pub rotated : ℕ

-- The settings of a `Manager`, and the stamp of the time that a call shows.
pub record Manager : Type 0 where
  pub crypto : Crypto
  pub audience : Bytes
  pub stamp : Bytes

abbrev pub Outcome : Type 0
Outcome = World × Option RotationError

-- The pending rotation in memory.
abbrev pub pending_of : World → Option PendingRotation
pending_of w = w.store.state.pending_rotation

abbrev pub first_write : List Write → Write
first_write [] = Write.written
first_write (x ∷ xs) = x

abbrev pub rest_of {ℓ} : {A : Type ℓ} → List A → List A
rest_of [] = []
rest_of (x ∷ xs) = xs

abbrev pub first_reply : List Reply → Reply
first_reply [] = Reply.failed
first_reply (x ∷ xs) = x

abbrev pub store_error : Option StoreError → Option RotationError
store_error none = none
store_error (some e) = some (RotationError.of_store e)

-- A call of the store, which writes its file once.
unfoldable pub write_with : (Write → Store → Store × Option StoreError) → World → Outcome
write_with change w =
    let done = change (first_write w.writes) w.store in
    (record w { store = done.0; writes = rest_of w.writes }, store_error (done.1))

-- `m.signed`.
unfoldable pub send : Request → World → World × Reply
send r w =
    (record w { sent = w.sent ++ r ∷ []; replies = rest_of w.replies }, first_reply w.replies)

-- The next step, unless there was an error.
abbrev pub and_then : Outcome → (World → Outcome) → Outcome
and_then (w, none) next = next w
and_then (w, some e) next = (w, some e)
