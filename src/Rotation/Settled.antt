-- ===== src/Rotation/Settled.antt =====
-- internal/hnieoj/rotation/rotation.go: how a rotation in progress ends.
use go_judge.Prelude.{
  ◌≡◌, ◌⊎◌, inl, inr, refl, sym, subst, ◌∙◌, bytes_eq, bytes_eq_iff, none, some, List, [], ◌∷◌,
  arith, Option-cases, Bool-cases,
}
use go_judge.Prelude.Int.{ℤ, pos, ◌≤ℤ◌, leb_ℤ}
use go_judge.Prelude.Ascii.{to_upper}
use go_judge.Prelude.Result.{Result, ok, err}
use go_judge.Identity.{
  PendingRotation, Store, activate_rotated_key, discard_pending_rotation, mark_rotation_confirmed,
}
use go_judge.Identity.Changes.{
  IsSame, Keeps, pending_in, activate_from-pending, discard_from-pending, mark-Keeps,
}
use go_judge.Rotation.Valid.{validate-rotation_id, validate-active, validate-public}
use go_judge.Rotation.Server.{
  Answer, RotationError, decode_data, validate_rotation_response, status_active, status_expired,
}
use go_judge.Rotation.{
  World, Manager, Reply, Outcome, write_with, and_then, activate, count_rotated, discard,
  confirmed_until, confirm_answered, query_answered, first_write, answered,
}

-- The answers that the replies hold.
abbrev pub Gives : Reply → Answer → Type 0
Gives Reply.failed r = ⊥
Gives (Reply.body e) r = decode_data e ≡ ok r

abbrev pub IsGiven : List Reply → Answer → Type 0
IsGiven [] r = ⊥
IsGiven (x ∷ replies) r = Gives x r ⊎ IsGiven replies r

-- An answer that says of this rotation that it is over.
pub record IsOver (p : PendingRotation) (r : Answer) : Type 0 where
  pub status : to_upper r.status ≡ status_expired
  pub rotation_id : r.rotation_id ≡ p.rotation_id

-- An answer that makes the new key of this rotation the active one, until a given end of grace.
pub record IsMatch (p : PendingRotation) (r : Answer) : Type 0 where
  pub status : to_upper r.status ≡ status_active
  pub rotation_id : r.rotation_id ≡ p.rotation_id
  pub public : r.new_public_key ≡ p.new_public_key
  pub grace : pos 1 ≤ℤ r.grace_until

-- The rotation is still there, or it is gone after such an answer.
pub data IsSettled (p : PendingRotation) (Given : Answer → Type 0) (s : Store) : Type 0 where
  kept : Keeps p s → IsSettled p Given s
  ended : (r : Answer) → Given r → IsOver p r → pending_in s ≡ none → IsSettled p Given s
  changed : (r : Answer) → Given r → IsMatch p r → pending_in s ≡ none → IsSettled p Given s

same_or_gone :
    (p : PendingRotation) (s s' : Store)
    → Keeps p s
    → (pending_in s' ≡ pending_in s) ⊎ (pending_in s' ≡ none)
    → Keeps p s' ⊎ (pending_in s' ≡ none)
same_or_gone p s s' h (inl e) =
    inl (record { rotation = h.rotation; there = e ∙ h.there; same = h.same })
same_or_gone p s s' h (inr e) = inr e

module _ (m : Manager) (p : PendingRotation) where
  and_then-count : (o : Outcome) → (and_then o (count_rotated m)).0.store ≡ o.0.store
  and_then-count (w, none) = refl
  and_then-count (w, some e) = refl

  pub activate-Settles :
      (w : World)
      → Keeps p w.store
      → Keeps p (activate m w).0.store ⊎ (pending_in (activate m w).0.store ≡ none)
  unfolding activate write_with activate_rotated_key
  activate-Settles w h =
      let s = (activate_rotated_key (first_write w.writes) m.stamp w.store).0 in
      subst (λ t. Keeps p t ⊎ (pending_in t ≡ none))
        (sym (and_then-count (write_with (λ k. activate_rotated_key k m.stamp) w)))
        (same_or_gone p w.store s h
          (activate_from-pending (pending_in w.store) (first_write w.writes) m.stamp w.store))

  discard-Settles :
      (w : World)
      → Keeps p w.store
      → Keeps p (discard m w).0.store ⊎ (pending_in (discard m w).0.store ≡ none)
  unfolding discard write_with discard_pending_rotation
  discard-Settles w h =
      same_or_gone p w.store (discard m w).0.store h
        (discard_from-pending (pending_in w.store) (first_write w.writes) m.stamp w.store)

  pub and_then-holds :
      {Q : Store → Type 0} (o : Outcome) (next : World → Outcome)
      → Keeps p o.0.store
      → ((s : Store) → Keeps p s → Q s)
      → ((v : World) → Keeps p v.store → Q (next v).0.store)
      → Q (and_then o next).0.store
  and_then-holds (w, none) next h stop go = go w h
  and_then-holds (w, some e) next h stop go = stop w.store h

  confirmed_until-Settles :
      (grace_until : ℤ) (w : World)
      → Keeps p w.store
      → Keeps p (confirmed_until m grace_until w).0.store
        ⊎ ((pending_in (confirmed_until m grace_until w).0.store ≡ none) × (pos 1 ≤ℤ grace_until))
  unfolding confirmed_until write_with
  confirmed_until-Settles grace_until w h = elim (Bool-cases (leb_ℤ grace_until (pos 0))) [
    | inl never ↦ rw never (inl h)
    | inr later ↦ rw later (
        and_then-holds {Q = λ s. Keeps p s ⊎ ((pending_in s ≡ none) × (pos 1 ≤ℤ grace_until))}
          (write_with (λ k. mark_rotation_confirmed k grace_until m.stamp) w) (activate m)
          (mark-Keeps p (first_write w.writes) grace_until m.stamp w.store h) (λ s g. inl g)
          (λ v g. elim (activate-Settles v g) [
            | inl still ↦ inl still
            | inr gone ↦ inr (gone, ground arith)
          ]))
  ]

  module _ (Given : Answer → Type 0) (q : PendingRotation) (same : IsSame p q) where
    active-Settles :
        (r : Answer) (w : World)
        → Keeps p w.store
        → Given r
        → validate_rotation_response q r ≡ none
        → to_upper r.status ≡ status_active
        → IsSettled p Given (confirmed_until m r.grace_until w).0.store
    active-Settles r w h given valid status = elim (confirmed_until-Settles r.grace_until w h) [
      | inl still ↦ kept still
      | inr (gone, grace) ↦
          changed r given
            record {
              status = status;
              rotation_id = validate-rotation_id q r valid ∙ same.rotation_id;
              public = validate-public q r (validate-active q r valid status) ∙ same.public;
              grace = grace;
            }
            gone
    ]

    over-Settles :
        (r : Answer) (w : World)
        → Keeps p w.store
        → Given r
        → validate_rotation_response q r ≡ none
        → to_upper r.status ≡ status_expired
        → IsSettled p Given (discard m w).0.store
    over-Settles r w h given valid status = elim (discard-Settles w h) [
      | inl still ↦ kept still
      | inr gone ↦
          ended r given
            record {
              status = status;
              rotation_id = validate-rotation_id q r valid ∙ same.rotation_id;
            }
            gone
    ]

    pub confirm_answered-Settles :
        (r : Answer) (w : World)
        → Keeps p w.store
        → Given r
        → validate_rotation_response q r ≡ none
        → IsSettled p Given (confirm_answered m r w).0.store
    unfolding confirm_answered
    confirm_answered-Settles r w h given valid =
        elim (Bool-cases (bytes_eq (to_upper r.status) status_expired)) [
          | inl late ↦ rw late (
              over-Settles r w h given valid
                ((bytes_eq_iff (to_upper r.status) status_expired).0 late))
          | inr early ↦ elim (Bool-cases (bytes_eq (to_upper r.status) status_active)) [
            | inl yes_active ↦
                rw (early, yes_active)
                  (active-Settles r w h given valid
                    ((bytes_eq_iff (to_upper r.status) status_active).0 yes_active))
            | inr other ↦ rw (early, other) (kept h)
          ]
        ]

    pub query_answered-Settles :
        (unsettled : World → Outcome) (r : Answer) (w : World)
        → Keeps p w.store
        → Given r
        → validate_rotation_response q r ≡ none
        → IsSettled p Given (unsettled w).0.store
        → IsSettled p Given (query_answered m unsettled r w).0.store
    unfolding query_answered
    query_answered-Settles unsettled r w h given valid next =
        elim (Bool-cases (bytes_eq (to_upper r.status) status_active)) [
          | inl yes_active ↦ rw yes_active (
              active-Settles r w h given valid
                ((bytes_eq_iff (to_upper r.status) status_active).0 yes_active))
          | inr other ↦ elim (Bool-cases (bytes_eq (to_upper r.status) status_expired)) [
            | inl late ↦
                rw (other, late)
                  (over-Settles r w h given valid
                    ((bytes_eq_iff (to_upper r.status) status_expired).0 late))
            | inr early ↦ rw (other, early) next
          ]
        ]

    pub answered-Settles :
        (d : Result RotationError Answer) (next : Answer → World → Outcome) (w : World)
        → Keeps p w.store
        → ((r : Answer)
            → d ≡ ok r
            → validate_rotation_response q r ≡ none
            → IsSettled p Given (next r w).0.store)
        → IsSettled p Given (answered m q d next w).0.store
    unfolding answered
    answered-Settles (err e) next w h go = kept h
    answered-Settles (ok r) next w h go = elim (Option-cases (validate_rotation_response q r)) [
      | inl valid ↦ rw valid (go r refl valid)
      | inr (e, bad) ↦ rw bad (kept h)
    ]
