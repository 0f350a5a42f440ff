-- ===== src/Rotation/Ending.antt =====
-- internal/hnieoj/rotation/rotation.go: what `Recover` does to a rotation in progress.
use go_judge.Prelude.{
  ◌≡◌, inl, inr, refl, sym, subst, Bytes, is_empty, false, Option, none, some, List, [], ◌∷◌,
  Bool-cases,
}
use go_judge.Prelude.Result.{Result, ok, err}
use go_judge.Identity.{PendingRotation, Store, StoreError, record_rotation_prepared}
use go_judge.Identity.Signing.{sign_pending}
use go_judge.Identity.Changes.{IsSame, Keeps, pending_in, record-Keeps}
use go_judge.Protocol.{rotate_prepare_fields, rotate_confirm_fields}
use go_judge.Rotation.Server.{Answer, RotationError, decode_data}
use go_judge.Rotation.{
  World, Manager, Reply, Request, Outcome, write_with, and_then, send, confirm_answered,
  query_answered, confirm_reply, confirm_signed, confirm_from, query_reply, query_from, query_again,
  confirm_once, prepare_answered, prepare_reply, prepare_signed, prepare, recover_from, recover,
  lacks_field, first_reply, first_write, rest_of, pending_of,
}
use go_judge.Rotation.Settled.{
  Gives, IsGiven, IsSettled, kept, ended, changed, confirm_answered-Settles, query_answered-Settles,
  answered-Settles,
}

weaken-IsSettled :
    (p : PendingRotation) (Given Given' : Answer → Type 0) (s : Store)
    → ((r : Answer) → Given r → Given' r)
    → IsSettled p Given s
    → IsSettled p Given' s
weaken-IsSettled p Given Given' s more (kept h) = kept h
weaken-IsSettled p Given Given' s more (ended r given o gone) = ended r (more r given) o gone
weaken-IsSettled p Given Given' s more (changed r given o gone) = changed r (more r given) o gone

IsGiven-rest : (replies : List Reply) (r : Answer) → IsGiven (rest_of replies) r → IsGiven replies r
IsGiven-rest [] r h = h
IsGiven-rest (x ∷ replies) r h = inr h

IsGiven-first :
    (replies : List Reply) (r : Answer) → Gives (first_reply replies) r → IsGiven replies r
IsGiven-first [] r h = h
IsGiven-first (x ∷ replies) r h = inl h

and_then-either :
    (Q : Store → Type 0) (o : Outcome) (next : World → Outcome)
    → Q o.0.store
    → Q (next o.0).0.store
    → Q (and_then o next).0.store
and_then-either Q (w, none) next stop go = go
and_then-either Q (w, some e) next stop go = stop

module _ (m : Manager) (p : PendingRotation) where
  -- The answers that the next requests may get.
  abbrev Settles : (World → Outcome) → Type 0
  Settles f = (w : World) → Keeps p w.store → IsSettled p (IsGiven w.replies) (f w).0.store

  unanswered-Settles : (e : Option RotationError) → Settles (λ w. (w, e))
  unanswered-Settles e w h = kept h

  later-Settles :
      (f : World → Outcome)
      → Settles f
      → (replies : List Reply) (v : World) → v.replies ≡ rest_of replies
      → Keeps p v.store
      → IsSettled p (IsGiven replies) (f v).0.store
  later-Settles f go replies v e h =
      weaken-IsSettled p (IsGiven v.replies) (IsGiven replies) (f v).0.store
        (λ r g. IsGiven-rest replies r (subst (λ t. IsGiven t r) e g)) (go v h)

  module _ (q : PendingRotation) (same : IsSame p q) (replies : List Reply) where
    confirm_reply-Settles :
        (lost : World → Outcome) (v : World) (x : Reply)
        → Settles lost
        → v.replies ≡ rest_of replies
        → ((r : Answer) → Gives x r → IsGiven replies r)
        → Keeps p v.store
        → IsSettled p (IsGiven replies) (confirm_reply m q lost (v, x)).0.store
    unfolding confirm_reply
    confirm_reply-Settles lost v Reply.failed go e given h = later-Settles lost go replies v e h
    confirm_reply-Settles lost v (Reply.body b) go e given h =
        answered-Settles m p (IsGiven replies) q same (decode_data b) (confirm_answered m) v h
          (λ r d valid.
            confirm_answered-Settles m p (IsGiven replies) q same r v h (given r d) valid)

    query_reply-Settles :
        (unsettled : World → Outcome) (v : World) (x : Reply)
        → Settles unsettled
        → v.replies ≡ rest_of replies
        → ((r : Answer) → Gives x r → IsGiven replies r)
        → Keeps p v.store
        → IsSettled p (IsGiven replies) (query_reply m q unsettled (v, x)).0.store
    unfolding query_reply
    query_reply-Settles unsettled v Reply.failed go e given h = kept h
    query_reply-Settles unsettled v (Reply.body b) go e given h =
        answered-Settles m p (IsGiven replies) q same (decode_data b) (query_answered m unsettled) v
          h
          (λ r d valid.
            query_answered-Settles m p (IsGiven replies) q same unsettled r v h (given r d) valid
              (later-Settles unsettled go replies v e h))

  query_again-Settles : Settles (query_again m)
  unfolding query_again query_from send
  query_again-Settles w h =
      subst (λ o. IsSettled p (IsGiven w.replies) (query_from m o (λ v. (v, none)) w).0.store)
        (sym h.there)
        (query_reply-Settles h.rotation h.same w.replies (λ v. (v, none))
          (send (Request.question h.rotation.rotation_id) w).0 (first_reply w.replies)
          (unanswered-Settles none) refl (IsGiven-first w.replies) h)

  confirm_signed-Settles :
      (q : PendingRotation) (lost : World → Outcome) (d : Result StoreError Bytes) (w : World)
      → IsSame p q
      → Settles lost
      → Keeps p w.store
      → IsSettled p (IsGiven w.replies) (confirm_signed m q lost d w).0.store
  unfolding confirm_signed send
  confirm_signed-Settles q lost (err e) w same go h = kept h
  confirm_signed-Settles q lost (ok signature) w same go h =
      confirm_reply-Settles q same w.replies lost
        (send (Request.confirmation q.rotation_id signature) w).0 (first_reply w.replies) go refl
        (IsGiven-first w.replies) h

  confirm_once-Settles : Settles (confirm_once m)
  unfolding confirm_once confirm_from
  confirm_once-Settles w h =
      subst (λ o. IsSettled p (IsGiven w.replies) (confirm_from m o (query_again m) w).0.store)
        (sym h.there)
        (confirm_signed-Settles h.rotation (query_again m)
          (sign_pending m.crypto (pending_of w) (
            rotate_confirm_fields m.audience w.store.state.node_id h.rotation.rotation_id
              h.rotation.new_key_id h.rotation.confirm_nonce))
          w h.same query_again-Settles h)

  prepare_answered-Settles : (d : Result RotationError Answer) → Settles (prepare_answered m d)
  unfolding prepare_answered write_with
  prepare_answered-Settles (err e) w h = kept h
  prepare_answered-Settles (ok r) w h = elim (Bool-cases (lacks_field m r)) [
    | inl lacking ↦ rw lacking (kept h)
    | inr whole ↦ rw whole (
        let change =
          write_with
            (λ k.
              record_rotation_prepared k r.rotation_id r.key_id r.confirm_nonce r.expires_at
                m.stamp)
            w in
        let still =
          record-Keeps p (first_write w.writes) r.rotation_id r.key_id r.confirm_nonce r.expires_at
            m.stamp w.store h in
        and_then-either (IsSettled p (IsGiven w.replies)) change (confirm_once m) (kept still)
          (confirm_once-Settles change.0 still))
  ]

  prepare_reply-Settles :
      (replies : List Reply) (v : World) (x : Reply)
      → v.replies ≡ rest_of replies
      → Keeps p v.store
      → IsSettled p (IsGiven replies) (prepare_reply m (v, x)).0.store
  unfolding prepare_reply
  prepare_reply-Settles replies v Reply.failed e h = kept h
  prepare_reply-Settles replies v (Reply.body b) e h =
      later-Settles (prepare_answered m (decode_data b)) (prepare_answered-Settles (decode_data b))
        replies v e h

  prepare_signed-Settles :
      (rotation_id public : Bytes) (d : Result StoreError Bytes)
      → Settles (prepare_signed m rotation_id public d)
  unfolding prepare_signed prepare_reply send
  prepare_signed-Settles rotation_id public (err e) w h = kept h
  prepare_signed-Settles rotation_id public (ok proof) w h =
      prepare_reply-Settles w.replies (send (Request.preparation rotation_id public proof) w).0
        (first_reply w.replies) refl h

  recover_from-Settles :
      (q : PendingRotation) (w : World)
      → q.confirmed ≡ false
      → Keeps p w.store
      → IsSettled p (IsGiven w.replies) (recover_from m (some q) w).0.store
  unfolding recover_from prepare
  recover_from-Settles q w open_yet h = elim (Bool-cases (is_empty q.new_key_id)) [
    | inl no_id ↦
        rw (open_yet, no_id)
          (prepare_signed-Settles q.rotation_id q.new_public_key
            (sign_pending m.crypto (pending_of w) (
              rotate_prepare_fields m.audience w.store.state.node_id q.rotation_id
                q.new_public_key))
            w h)
    | inr some_id ↦ rw (open_yet, some_id) (confirm_once-Settles w h)
  ]

  -- A rotation that is not confirmed is still there after `Recover`, with the new private key, or it
  -- is gone after an answer, among those that the server gave, which names it and says EXPIRED, or
  -- names it and the new public key and says ACTIVE with an end of the grace.
  pub recover-IsSettled :
      (w : World)
      → pending_in w.store ≡ some p
      → p.confirmed ≡ false
      → IsSettled p (IsGiven w.replies) (recover m w).0.store
  unfolding recover
  recover-IsSettled w e open_yet =
      subst (λ o. IsSettled p (IsGiven w.replies) (recover_from m o w).0.store) (sym e)
        (recover_from-Settles p w open_yet record {
          rotation = p;
          there = e;
          same = record { rotation_id = refl; public = refl; key = refl };
        })
