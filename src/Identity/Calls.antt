-- ===== src/Identity/Calls.antt =====
-- internal/hnieoj/identity/identity.go: sequences of calls of a store, with starts in between.
use go_judge.Prelude.{
  ◌≡◌, ◌⊎◌, Bytes, bytes_eq, is_empty, true, false, Option, none, some, List, [], ◌∷◌, length,
}
use go_judge.Prelude.Int.{ℤ}
use go_judge.Identity.{
  PendingRotation, FileState, Store, StoreError, Write, Draw, apply_enrollment, begin_rotation,
  record_rotation_prepared, mark_rotation_confirmed, activate_rotated_key, expire_grace,
  discard_pending_rotation, restart,
}
use go_judge.Identity.Keys.{KeyRecord, find, has_id}
use go_judge.Identity.Find.{has_public}

-- The stamps and the outcome of the write are arguments.
pub data Call : Type 0 where
  enroll : Write → Bytes → Bytes → Bytes → Call
  open_rotation : Write → Draw → Bytes → Bytes → Call
  note_prepared : Write → Bytes → Bytes → Bytes → ℤ → Bytes → Call
  note_confirmed : Write → ℤ → Bytes → Call
  switch_key : Write → Bytes → Call
  drop_expired : Write → ℤ → Bytes → Call
  drop_pending : Write → Bytes → Call
  reopen : Call

unfoldable pub call : Call → Store → Store × Option StoreError
call (Call.enroll w node key stamp) s = apply_enrollment w node key stamp s
call (Call.open_rotation w draw rotation_id stamp) s = begin_rotation w draw rotation_id stamp s
call (Call.note_prepared w rotation_id key_id nonce expires_at stamp) s =
    record_rotation_prepared w rotation_id key_id nonce expires_at stamp s
call (Call.note_confirmed w grace_until stamp) s = mark_rotation_confirmed w grace_until stamp s
call (Call.switch_key w stamp) s = activate_rotated_key w stamp s
call (Call.drop_expired w now stamp) s = expire_grace w now stamp s
call (Call.drop_pending w stamp) s = discard_pending_rotation w stamp s
call Call.reopen s = (restart s, none)

unfoldable pub run : List Call → Store → Store
unfolding call
run [] s = s
run (c ∷ cs) s = run cs (call c s).0

abbrev pub IsFresh : Option (Bytes × Bytes) → List KeyRecord → Type 0
IsFresh none keys = Unit
IsFresh (some drawn) keys = find (has_public (drawn.0)) keys ≡ none

-- The identifier is not the current one, and no other key's.
abbrev pub IsOwn : Bytes → FileState → Option PendingRotation → Type 0
IsOwn key_id st none = Unit
IsOwn key_id st (some p) =
    (is_empty key_id ≡ true)
    ⊎ ((bytes_eq key_id st.current_key_id ≡ false)
        × ((key_id ≡ p.new_key_id) ⊎ (find (has_id key_id) st.keys ≡ none)))

abbrev pub IsNamed : Option PendingRotation → Type 0
IsNamed none = Unit
IsNamed (some p) = is_empty p.new_key_id ≡ false

-- What the callers, the generator and the server keep to: a store is enrolled while it has its first
-- key only, a new public key is not there yet, the server gives each key an identifier of its own,
-- and a rotation is confirmed once its key has one.
abbrev pub Fits : Call → FileState → Type 0
Fits (Call.enroll w node key stamp) st = (length st.keys ≡ 1) × (st.pending_rotation ≡ none)
Fits (Call.open_rotation w draw rotation_id stamp) st = IsFresh (draw.pair) st.keys
Fits (Call.note_prepared w rotation_id key_id nonce expires_at stamp) st =
    IsOwn key_id st st.pending_rotation
Fits (Call.note_confirmed w grace_until stamp) st = IsNamed st.pending_rotation
Fits (Call.switch_key w stamp) st = Unit
Fits (Call.drop_expired w now stamp) st = Unit
Fits (Call.drop_pending w stamp) st = Unit
Fits Call.reopen st = Unit

abbrev pub AllFit : List Call → Store → Type 0
AllFit [] s = Unit
AllFit (c ∷ cs) s = Fits c s.state × AllFit cs (call c s).0
