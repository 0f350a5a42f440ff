-- ===== src/Rotation/Safe.antt =====
-- internal/hnieoj/rotation/rotation.go: a rotation never leaves the node without an active key.
use go_judge.Prelude.{
  ◌≡◌, ◌⊎◌, inl, inr, refl, Bytes, bytes_eq, bytes_eq_iff, is_empty, true, false, Option, none,
  some, [], ◌∷◌, Option-cases, Bool-cases,
}
use go_judge.Prelude.Int.{ℤ, pos, leb_ℤ}
use go_judge.Prelude.Ascii.{trim_space, to_upper}
use go_judge.Prelude.Result.{Result, ok, err}
use go_judge.Protocol.{rotate_confirm_fields}
use go_judge.Identity.{
  PendingRotation, FileState, StoreError, activate_rotated_key, discard_pending_rotation,
  mark_rotation_confirmed,
}
use go_judge.Identity.Keys.{find, has_id}
use go_judge.Identity.Signing.{sign_pending}
use go_judge.Identity.Changes.{pending_in}
use go_judge.Identity.Calls.{IsOwn}
use go_judge.Identity.Kept.{IsSafe, mark_from-IsSafe, activate_from-IsSafe}
use go_judge.Identity.Always.{discard_from-IsSafe}
use go_judge.Rotation.Server.{
  Answer, RotationError, decode_data, validate_rotation_response, status_active, status_expired,
}
use go_judge.Rotation.Valid.{validate-active, validate-named}
use go_judge.Rotation.{
  World, Manager, Reply, Request, Outcome, write_with, and_then, send, activate, count_rotated,
  discard, confirmed_until, confirm_answered, query_answered, answered, confirm_reply,
  confirm_signed, confirm_from, query_reply, query_from, query_again, confirm_once, first_reply,
  first_write, pending_of,
}

unblank : (s : Bytes) → is_empty (trim_space s) ≡ false → is_empty s ≡ false
unfolding trim_space
unblank [] e = e
unblank (x ∷ s) e = refl

pub and_then-holds :
    (o : Outcome) (next : World → Outcome)
    → IsSafe o.0.store
    → ((v : World) → v ≡ o.0 → IsSafe v.store → IsSafe (next v).0.store)
    → IsSafe (and_then o next).0.store
and_then-holds (w, none) next h go = go w refl h
and_then-holds (w, some e) next h go = h

-- The identifier is none that the node knows.
abbrev pub IsUnused : Bytes → FileState → Type 0
IsUnused key_id st =
    (is_empty key_id ≡ true)
    ⊎ ((bytes_eq key_id st.current_key_id ≡ false) × (find (has_id key_id) st.keys ≡ none))

pub unused-IsOwn :
    (key_id : Bytes) (st : FileState) (o : Option PendingRotation)
    → IsUnused key_id st
    → IsOwn key_id st o
unused-IsOwn key_id st none h = tt
unused-IsOwn key_id st (some p) (inl nothing) = inl nothing
unused-IsOwn key_id st (some p) (inr (other, out)) = inr (other, inr out)

module _ (m : Manager) where
  abbrev Saves : (World → Outcome) → Type 0
  Saves f = (w : World) → IsSafe w.store → IsSafe (f w).0.store

  pub activate-Saves : Saves (activate m)
  unfolding activate write_with activate_rotated_key
  activate-Saves w h =
      and_then-holds (write_with (λ k. activate_rotated_key k m.stamp) w) (count_rotated m)
        (activate_from-IsSafe (pending_in w.store) (first_write w.writes) m.stamp w.store
          h.memory.ready h)
        (λ v e g. g)

  discard-Saves : Saves (discard m)
  unfolding discard write_with discard_pending_rotation
  discard-Saves w h =
      discard_from-IsSafe (pending_in w.store) (first_write w.writes) m.stamp w.store h.memory.ready
        h

  module _ (q : PendingRotation) where
    confirmed_until-Saves :
        (grace_until : ℤ) (w : World)
        → pending_in w.store ≡ some q
        → is_empty q.new_key_id ≡ false
        → IsSafe w.store
        → IsSafe (confirmed_until m grace_until w).0.store
    unfolding confirmed_until write_with mark_rotation_confirmed
    confirmed_until-Saves grace_until w e named h = elim (Bool-cases (leb_ℤ grace_until (pos 0))) [
      | inl never ↦ rw never h
      | inr later ↦ rw later (
          and_then-holds (write_with (λ k. mark_rotation_confirmed k grace_until m.stamp) w)
            (activate m)
            (mark_from-IsSafe (pending_in w.store) (first_write w.writes) grace_until m.stamp
              w.store h.memory.ready (rw e named) h)
            (λ v same g. activate-Saves v g))
    ]

    confirm_answered-Saves :
        (r : Answer) (w : World)
        → pending_in w.store ≡ some q
        → validate_rotation_response q r ≡ none
        → IsSafe w.store
        → IsSafe (confirm_answered m r w).0.store
    unfolding confirm_answered
    confirm_answered-Saves r w e valid h =
        elim (Bool-cases (bytes_eq (to_upper r.status) status_expired)) [
          | inl late ↦ rw late (discard-Saves w h)
          | inr early ↦ elim (Bool-cases (bytes_eq (to_upper r.status) status_active)) [
            | inl yes_active ↦
                rw (early, yes_active)
                  (confirmed_until-Saves r.grace_until w e
                    (unblank q.new_key_id (
                      validate-named q r (
                        validate-active q r valid
                          ((bytes_eq_iff (to_upper r.status) status_active).0 yes_active))))
                    h)
            | inr other ↦ rw (early, other) h
          ]
        ]

    query_answered-Saves :
        (unsettled : World → Outcome) (r : Answer) (w : World)
        → Saves unsettled
        → pending_in w.store ≡ some q
        → validate_rotation_response q r ≡ none
        → IsSafe w.store
        → IsSafe (query_answered m unsettled r w).0.store
    unfolding query_answered
    query_answered-Saves unsettled r w go e valid h =
        elim (Bool-cases (bytes_eq (to_upper r.status) status_active)) [
          | inl yes_active ↦ rw yes_active (
              confirmed_until-Saves r.grace_until w e
                (unblank q.new_key_id (
                  validate-named q r (
                    validate-active q r valid
                      ((bytes_eq_iff (to_upper r.status) status_active).0 yes_active))))
                h)
          | inr other ↦ elim (Bool-cases (bytes_eq (to_upper r.status) status_expired)) [
            | inl late ↦ rw (other, late) (discard-Saves w h)
            | inr early ↦ rw (other, early) (go w h)
          ]
        ]

    answered-Saves :
        (d : Result RotationError Answer) (next : Answer → World → Outcome) (w : World)
        → ((r : Answer) → validate_rotation_response q r ≡ none → IsSafe (next r w).0.store)
        → IsSafe w.store
        → IsSafe (answered m q d next w).0.store
    unfolding answered
    answered-Saves (err e) next w go h = h
    answered-Saves (ok r) next w go h = elim (Option-cases (validate_rotation_response q r)) [
      | inl valid ↦ rw valid (go r valid)
      | inr (e, bad) ↦ rw bad h
    ]

    confirm_reply-Saves :
        (lost : World → Outcome) (v : World) (x : Reply)
        → Saves lost
        → pending_in v.store ≡ some q
        → IsSafe v.store
        → IsSafe (confirm_reply m q lost (v, x)).0.store
    unfolding confirm_reply
    confirm_reply-Saves lost v Reply.failed go e h = go v h
    confirm_reply-Saves lost v (Reply.body b) go e h =
        answered-Saves (decode_data b) (confirm_answered m) v
          (λ r valid. confirm_answered-Saves r v e valid h) h

    query_reply-Saves :
        (unsettled : World → Outcome) (v : World) (x : Reply)
        → Saves unsettled
        → pending_in v.store ≡ some q
        → IsSafe v.store
        → IsSafe (query_reply m q unsettled (v, x)).0.store
    unfolding query_reply
    query_reply-Saves unsettled v Reply.failed go e h = h
    query_reply-Saves unsettled v (Reply.body b) go e h =
        answered-Saves (decode_data b) (query_answered m unsettled) v
          (λ r valid. query_answered-Saves unsettled r v go e valid h) h

    confirm_signed-Saves :
        (lost : World → Outcome) (d : Result StoreError Bytes) (w : World)
        → Saves lost
        → pending_in w.store ≡ some q
        → IsSafe w.store
        → IsSafe (confirm_signed m q lost d w).0.store
    unfolding confirm_signed send
    confirm_signed-Saves lost (err e) w go there h = h
    confirm_signed-Saves lost (ok signature) w go there h =
        confirm_reply-Saves lost (send (Request.confirmation q.rotation_id signature) w).0
          (first_reply w.replies) go there h

  query_from-Saves :
      (o : Option PendingRotation) (w : World)
      → pending_in w.store ≡ o
      → IsSafe w.store
      → IsSafe (query_from m o (λ v. (v, none)) w).0.store
  unfolding query_from send
  query_from-Saves none w e h = h
  query_from-Saves (some q) w e h =
      query_reply-Saves q (λ v. (v, none)) (send (Request.question q.rotation_id) w).0
        (first_reply w.replies) (λ v g. g) e h

  query_again-Saves : Saves (query_again m)
  unfolding query_again
  query_again-Saves w h = query_from-Saves (pending_in w.store) w refl h

  confirm_from-Saves :
      (o : Option PendingRotation) (w : World)
      → pending_in w.store ≡ o
      → IsSafe w.store
      → IsSafe (confirm_from m o (query_again m) w).0.store
  unfolding confirm_from
  confirm_from-Saves none w e h = h
  confirm_from-Saves (some q) w e h =
      confirm_signed-Saves q (query_again m)
        (sign_pending m.crypto (pending_of w) (
          rotate_confirm_fields m.audience w.store.state.node_id q.rotation_id q.new_key_id
            q.confirm_nonce))
        w query_again-Saves e h

  pub confirm_once-Saves : Saves (confirm_once m)
  unfolding confirm_once
  confirm_once-Saves w h = confirm_from-Saves (pending_in w.store) w refl h
