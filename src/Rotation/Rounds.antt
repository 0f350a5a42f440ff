-- ===== src/Rotation/Rounds.antt =====
-- internal/hnieoj/rotation/rotation.go: whole rounds of a rotation keep the store safe.
use go_judge.Prelude.{
  ◌≡◌, inl, inr, refl, sym, subst, Bytes, bytes_eq, is_empty, Option, none, some, [], ◌∷◌,
  Bool-cases,
}
use go_judge.Prelude.Result.{Result, ok, err}
use go_judge.Protocol.{rotate_prepare_fields}
use go_judge.Identity.{
  PendingRotation, FileState, Store, StoreError, Write, Draw, record_rotation_prepared,
  begin_rotation, begin_from, begin_drawn, begun, commit, pending_key, or_random,
}
use go_judge.Identity.Keys.{has_id}
use go_judge.Identity.Find.{find-append_last}
use go_judge.Identity.Signing.{sign_pending}
use go_judge.Identity.Changes.{pending_in}
use go_judge.Identity.Calls.{IsFresh}
use go_judge.Identity.Kept.{IsSafe, begin_from-IsSafe, record_from-IsSafe}
use go_judge.Rotation.Server.{Answer, RotationError, decode_data}
use go_judge.Rotation.Settled.{Gives}
use go_judge.Rotation.Safe.{
  IsUnused, and_then-holds, unused-IsOwn, activate-Saves, confirm_once-Saves,
}
use go_judge.Rotation.{
  World, Manager, Reply, Request, write_with, send, confirm_once, prepare_answered, prepare_reply,
  prepare_signed, prepare, prepare_begun, recover_from, rotate_from, rotate_once, lacks_field,
  first_reply, first_write, pending_of,
}

-- The identifier that a reply may hold for the new key is none that the node knows.
abbrev pub AllUnused : Reply → FileState → Type 0
AllUnused x st = (r : Answer) → Gives x r → IsUnused r.key_id st

module _ (m : Manager) where
  prepare_answered-Saves :
      (d : Result RotationError Answer) (w : World)
      → ((r : Answer) → d ≡ ok r → IsUnused r.key_id w.store.state)
      → IsSafe w.store
      → IsSafe (prepare_answered m d w).0.store
  unfolding prepare_answered write_with record_rotation_prepared
  prepare_answered-Saves (err e) w unused h = h
  prepare_answered-Saves (ok r) w unused h = elim (Bool-cases (lacks_field m r)) [
    | inl lacking ↦ rw lacking h
    | inr whole ↦ rw whole (
        and_then-holds
          (write_with
            (λ k.
              record_rotation_prepared k r.rotation_id r.key_id r.confirm_nonce r.expires_at
                m.stamp)
            w)
          (confirm_once m)
          (record_from-IsSafe (pending_in w.store) (first_write w.writes) r.rotation_id r.key_id
            r.confirm_nonce r.expires_at m.stamp w.store h.memory.ready
            (unused-IsOwn r.key_id w.store.state (pending_in w.store) (unused r refl)) h)
          (λ v same g. confirm_once-Saves m v g))
  ]

  prepare_reply-Saves :
      (v : World) (x : Reply)
      → AllUnused x v.store.state
      → IsSafe v.store
      → IsSafe (prepare_reply m (v, x)).0.store
  unfolding prepare_reply
  prepare_reply-Saves v Reply.failed unused h = h
  prepare_reply-Saves v (Reply.body b) unused h = prepare_answered-Saves (decode_data b) v unused h

  prepare_signed-Saves :
      (rotation_id public : Bytes) (d : Result StoreError Bytes) (w : World)
      → AllUnused (first_reply w.replies) w.store.state
      → IsSafe w.store
      → IsSafe (prepare_signed m rotation_id public d w).0.store
  unfolding prepare_signed send
  prepare_signed-Saves rotation_id public (err e) w unused h = h
  prepare_signed-Saves rotation_id public (ok proof) w unused h =
      prepare_reply-Saves (send (Request.preparation rotation_id public proof) w).0
        (first_reply w.replies) unused h

  prepare-Saves :
      (rotation_id public : Bytes) (w : World)
      → AllUnused (first_reply w.replies) w.store.state
      → IsSafe w.store
      → IsSafe (prepare m rotation_id public w).0.store
  unfolding prepare
  prepare-Saves rotation_id public w unused h =
      prepare_signed-Saves rotation_id public
        (sign_pending m.crypto (pending_of w)
          (rotate_prepare_fields m.audience w.store.state.node_id rotation_id public))
        w unused h

  recover_from-Saves :
      (o : Option PendingRotation) (w : World)
      → AllUnused (first_reply w.replies) w.store.state
      → IsSafe w.store
      → IsSafe (recover_from m o w).0.store
  unfolding recover_from
  recover_from-Saves none w unused h = h
  recover_from-Saves (some q) w unused h = elim (Bool-cases q.confirmed) [
    | inl confirmed ↦ rw confirmed (activate-Saves m w h)
    | inr open_yet ↦ elim (Bool-cases (is_empty q.new_key_id)) [
      | inl no_id ↦ rw (open_yet, no_id) (prepare-Saves q.rotation_id q.new_public_key w unused h)
      | inr some_id ↦ rw (open_yet, some_id) (confirm_once-Saves m w h)
    ]
  ]

  prepare_begun-Saves :
      (o : Option PendingRotation) (w : World)
      → AllUnused (first_reply w.replies) w.store.state
      → IsSafe w.store
      → IsSafe (prepare_begun m o w).0.store
  unfolding prepare_begun
  prepare_begun-Saves none w unused h = h
  prepare_begun-Saves (some q) w unused h = prepare-Saves q.rotation_id q.new_public_key w unused h

  -- A key without an identifier that is appended.
  begun-IsUnused :
      (key_id rotation_id public seed stamp : Bytes) (st : FileState)
      → IsUnused key_id st
      → IsUnused key_id (begun rotation_id public seed stamp st)
  unfolding begun bytes_eq
  begun-IsUnused key_id rotation_id public seed stamp st (inl nothing) = inl nothing
  begun-IsUnused [] rotation_id public seed stamp st (inr (other, out)) = inl refl
  begun-IsUnused (c ∷ cs) rotation_id public seed stamp st (inr (other, out)) =
      inr (other, find-append_last (has_id (c ∷ cs)) st.keys (pending_key public seed stamp) out)

  begin_drawn-AllUnused :
      (k : Write) (rotation_id : Bytes) (pair : Option (Bytes × Bytes)) (s : Store) (x : Reply)
      → AllUnused x s.state
      → AllUnused x (begin_drawn k rotation_id m.stamp pair s).0.state
  unfolding begin_drawn commit
  begin_drawn-AllUnused k rotation_id none s x unused = unused
  begin_drawn-AllUnused Write.written rotation_id (some (public, seed)) s x unused =
      λ r g. begun-IsUnused r.key_id rotation_id public seed m.stamp s.state (unused r g)
  begin_drawn-AllUnused Write.unwritten rotation_id (some (public, seed)) s x unused = unused
  begin_drawn-AllUnused Write.unsynced rotation_id (some (public, seed)) s x unused = unused

  begin_from-AllUnused :
      (o : Option PendingRotation) (k : Write) (draw : Draw) (s : Store) (x : Reply)
      → AllUnused x s.state
      → AllUnused x (begin_from o k draw [] m.stamp s).0.state
  unfolding begin_from
  begin_from-AllUnused (some q) k draw s x unused = unused
  begin_from-AllUnused none k draw s x unused =
      begin_drawn-AllUnused k (or_random [] draw.random_id) (draw.pair) s x unused

  rotate_from-Saves :
      (o : Option PendingRotation) (draw : Draw) (w : World)
      → IsFresh (draw.pair) w.store.state.keys
      → AllUnused (first_reply w.replies) w.store.state
      → IsSafe w.store
      → IsSafe (rotate_from m o draw w).0.store
  unfolding rotate_from write_with begin_rotation
  rotate_from-Saves (some q) draw w fresh unused h = recover_from-Saves (some q) w unused h
  rotate_from-Saves none draw w fresh unused h =
      let change = write_with (λ k. begin_rotation k draw [] m.stamp) w in
      and_then-holds change (λ v. prepare_begun m (pending_of v) v)
        (begin_from-IsSafe (pending_in w.store) (first_write w.writes) draw [] m.stamp w.store fresh
          h)
        (λ v same g.
          prepare_begun-Saves (pending_of v) v
            (subst (λ (t : World). AllUnused (first_reply t.replies) t.store.state) (sym same)
              (begin_from-AllUnused (pending_in w.store) (first_write w.writes) draw w.store
                (first_reply w.replies) unused))
            g)

  -- However the writes and the requests of `RotateOnce` end and whatever the server answers, a safe
  -- store stays safe: in memory and in the file, an active key is the current one. It holds while a
  -- new public key is not there yet, and the identifier that the answer to the first request gives
  -- the new key is none that the node knows.
  pub rotate_once-IsSafe :
      (draw : Draw) (w : World)
      → IsFresh (draw.pair) w.store.state.keys
      → AllUnused (first_reply w.replies) w.store.state
      → IsSafe w.store
      → IsSafe (rotate_once m draw w).0.store
  unfolding rotate_once
  rotate_once-IsSafe draw w fresh unused h = rotate_from-Saves (pending_of w) draw w fresh unused h
