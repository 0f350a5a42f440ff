-- ===== src/Identity/Always.antt =====
-- internal/hnieoj/identity/identity.go: whatever is called, there is an active key to sign with.
use go_judge.Prelude.{
  ℕ, ◌≡◌, inl, inr, refl, sym, subst, ◌∙◌, Bytes, bytes_eq_refl, is_empty, true, false, Option,
  none, some, List, [], ◌∷◌, length, arith, Bool-cases,
}
use go_judge.Prelude.Int.{ℤ}
use go_judge.Prelude.Ascii.{trim_space}
use go_judge.Identity.{
  PendingRotation, Store, Write, enrolled, apply_enrollment, begin_rotation,
  record_rotation_prepared, mark_rotation_confirmed, activate_rotated_key, expire_grace, kept_keys,
  discarded, discard_from, discard_pending_rotation, restart, is_none_left, is_current, key_at,
  name_current, named, without_at,
}
use go_judge.Identity.Keys.{KeyRecord, find, in_use, current_key, index_by_public}
use go_judge.Identity.Find.{without-drop_public}
use go_judge.Identity.Sound.{IsHeld, IsReady, AllReady, kept-IsHeld, drop-IsHeld, held}
use go_judge.Identity.Rotating.{key-in_use, key-has_id, kept-IsReady}
use go_judge.Identity.Kept.{
  IsSafe, commit-IsSafe, begin_from-IsSafe, record_from-IsSafe, mark_from-IsSafe,
  activate_from-IsSafe,
}
use go_judge.Identity.Calls.{Call, call, run, Fits, AllFit}

kept-AllReady :
    (o : Option PendingRotation) (current : Bytes) (keys : List KeyRecord) (now : ℤ)
    → AllReady o current keys
    → AllReady o current (kept_keys now keys).0
kept-AllReady none current keys now r = tt
kept-AllReady (some p) current keys now r = kept-IsReady p current keys r now

pub expire_grace-IsSafe :
    (w : Write) (now : ℤ) (stamp : Bytes) (s : Store)
    → IsSafe s
    → IsSafe (expire_grace w now stamp s).0
unfolding expire_grace
expire_grace-IsSafe w now stamp s h = elim (Bool-cases (kept_keys now s.state.keys).1) [
  | inr same ↦ rw same h
  | inl fewer ↦ elim (Bool-cases (is_none_left (kept_keys now s.state.keys).0)) [
    | inl all ↦ rw (fewer, all) h
    | inr some_left ↦
        rw (fewer, some_left)
          (commit-IsSafe w
            (record (s.state) { keys = (kept_keys now s.state.keys).0; updated_at = stamp }) s h
            record {
              held = kept-IsHeld s.state.current_key_id s.state.keys now h.memory.held;
              ready =
                  kept-AllReady (s.state.pending_rotation) s.state.current_key_id s.state.keys now
                    h.memory.ready;
            })
  ]
]

without_at-IsHeld :
    (p : PendingRotation) (at : Option ℕ) (current : Bytes) (keys : List KeyRecord)
    → index_by_public keys p.new_public_key ≡ at
    → IsReady p current keys
    → IsHeld current keys
    → IsHeld current (without_at at keys)
without_at-IsHeld p none current keys e r h = h
without_at-IsHeld p (some i) current keys e r h =
    subst (IsHeld current) (sym (without-drop_public p.new_public_key keys i e)) (
      drop-IsHeld current keys p.new_public_key r.key r.found (key-in_use p current keys r)
        (key-has_id p current keys r) h)

pub discard_from-IsSafe :
    (o : Option PendingRotation) (w : Write) (stamp : Bytes) (s : Store)
    → AllReady o s.state.current_key_id s.state.keys
    → IsSafe s
    → IsSafe (discard_from o w stamp s).0
unfolding discard_from discarded
discard_from-IsSafe none w stamp s r h = h
discard_from-IsSafe (some p) w stamp s r h =
    let at = index_by_public s.state.keys p.new_public_key in
    elim (Bool-cases p.confirmed) [
      | inl confirmed ↦ rw confirmed h
      | inr open_yet ↦
          elim (Bool-cases (is_current s.state.current_key_id (key_at at s.state.keys))) [
            | inl current ↦ rw (open_yet, current) h
            | inr other ↦
                rw (open_yet, other)
                  (commit-IsSafe w (discarded at stamp s.state) s h record {
                    held =
                        without_at-IsHeld p at s.state.current_key_id s.state.keys refl r
                          h.memory.held;
                    ready = tt;
                  })
          ]
    ]

one_key : (current : Bytes) (k : KeyRecord) → current_key current (k ∷ []) ≡ some k
unfolding current_key
one_key current k = ground arith

some_injective : {k k' : KeyRecord} → ◌≡◌ {A = Option KeyRecord} (some k) (some k') → k ≡ k'
some_injective e = cc

one_name :
    (key_id : Bytes) (k : KeyRecord)
    → name_current key_id (current_key key_id (k ∷ [])) (k ∷ []) ≡ named key_id k ∷ []
unfolding index_by_public
one_name key_id k = rw (one_key key_id k) (rw (bytes_eq_refl k.public_key) refl)

-- The only key is named by the server.
one_key-IsHeld :
    (current key_id : Bytes) (k : KeyRecord)
    → is_empty key_id ≡ false
    → IsHeld current (k ∷ [])
    → IsHeld key_id (name_current key_id (current_key key_id (k ∷ [])) (k ∷ []))
unfolding find
one_key-IsHeld current key_id k given h = subst (IsHeld key_id) (sym (one_name key_id k)) (
    held key_id (named key_id k ∷ []) (named key_id k)
      (subst (λ t. in_use t ≡ true) (some_injective (sym h.found ∙ one_key current k)) h.usable)
      (inl (given, rw (bytes_eq_refl key_id) refl)))

keys_enrolled-IsHeld :
    (current key_id : Bytes) (keys : List KeyRecord)
    → is_empty key_id ≡ false
    → length keys ≡ 1
    → IsHeld current keys
    → IsHeld key_id (name_current key_id (current_key key_id keys) keys)
keys_enrolled-IsHeld current key_id [] given one h = absurd (omega arith)
keys_enrolled-IsHeld current key_id (k ∷ []) given one h = one_key-IsHeld current key_id k given h
keys_enrolled-IsHeld current key_id (k ∷ (k' ∷ keys)) given one h = absurd (omega arith)

apply_enrollment-IsSafe :
    (w : Write) (node_id key_id stamp : Bytes) (s : Store)
    → length s.state.keys ≡ 1
    → s.state.pending_rotation ≡ none
    → IsSafe s
    → IsSafe (apply_enrollment w node_id key_id stamp s).0
unfolding apply_enrollment enrolled
apply_enrollment-IsSafe w node_id key_id stamp s one idle h =
    elim (Bool-cases (is_empty (trim_space node_id))) [
      | inl no_node ↦ rw no_node h
      | inr node ↦ elim (Bool-cases (is_empty (trim_space key_id))) [
        | inl no_key ↦ rw (node, no_key) h
        | inr given ↦
            rw (node, given)
              (commit-IsSafe w (enrolled (trim_space node_id) (trim_space key_id) stamp s.state) s h
                record {
                  held =
                      keys_enrolled-IsHeld s.state.current_key_id (trim_space key_id) s.state.keys
                        given one h.memory.held;
                  ready =
                      subst
                        (λ t. AllReady t (trim_space key_id) (
                          name_current (trim_space key_id)
                            (current_key (trim_space key_id) s.state.keys) s.state.keys))
                        (sym idle) tt;
                })
      ]
    ]

call-IsSafe : (c : Call) (s : Store) → Fits c s.state → IsSafe s → IsSafe (call c s).0
unfolding call begin_rotation record_rotation_prepared mark_rotation_confirmed activate_rotated_key
    discard_pending_rotation restart
call-IsSafe (Call.enroll w node key stamp) s fits h =
    apply_enrollment-IsSafe w node key stamp s fits.0 fits.1 h
call-IsSafe (Call.open_rotation w draw rotation_id stamp) s fits h =
    begin_from-IsSafe (s.state.pending_rotation) w draw rotation_id stamp s fits h
call-IsSafe (Call.note_prepared w rotation_id key_id nonce expires_at stamp) s fits h =
    record_from-IsSafe (s.state.pending_rotation) w rotation_id key_id nonce expires_at stamp s
      h.memory.ready fits h
call-IsSafe (Call.note_confirmed w grace_until stamp) s fits h =
    mark_from-IsSafe (s.state.pending_rotation) w grace_until stamp s h.memory.ready fits h
call-IsSafe (Call.switch_key w stamp) s fits h =
    activate_from-IsSafe (s.state.pending_rotation) w stamp s h.memory.ready h
call-IsSafe (Call.drop_expired w now stamp) s fits h = expire_grace-IsSafe w now stamp s h
call-IsSafe (Call.drop_pending w stamp) s fits h =
    discard_from-IsSafe (s.state.pending_rotation) w stamp s h.memory.ready h
call-IsSafe Call.reopen s fits h = record { memory = h.file; file = h.file }

-- From a safe store on, whatever calls and restarts follow, and whether each write succeeds, fails or
-- fails after it has replaced the file, the state in memory and the one in the file each have an
-- active key as the current one, and a rotation that is pending has its new key, inactive until it is
-- confirmed. It holds while a store is enrolled with its first key only, a new public key is not
-- there yet, the server gives each key an identifier of its own, and a rotation is confirmed once its
-- key has one.
pub run-IsSafe : (cs : List Call) (s : Store) → AllFit cs s → IsSafe s → IsSafe (run cs s)
unfolding run
run-IsSafe [] s fits h = h
run-IsSafe (c ∷ cs) s fits h = run-IsSafe cs (call c s).0 fits.1 (call-IsSafe c s fits.0 h)
