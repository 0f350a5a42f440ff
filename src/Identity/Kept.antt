-- ===== src/Identity/Kept.antt =====
-- internal/hnieoj/identity/identity.go: a store always has an active key to sign with.
use go_judge.Prelude.{
  inl, inr, refl, sym, subst, Bytes, bytes_eq, is_empty, Option, none, some, Option-cases,
  Bool-cases,
}
use go_judge.Prelude.Int.{ℤ}
use go_judge.Identity.{
  PendingRotation, FileState, Store, Write, Draw, commit, begun, begin_drawn, begin_from, prepared,
  record_from, prepared_pending, confirmed_state, mark_from, activated, activate_at, activate_from,
  pending_key, or_random, named,
}
use go_judge.Identity.Keys.{index_by_public}
use go_judge.Identity.Find.{update_at-amend}
use go_judge.Identity.Sound.{IsHeld, IsReady, AllReady, IsSound, append-IsHeld, amend-IsHeld}
use go_judge.Identity.Rotating.{begun-IsReady, key-in_use, key-has_id, prepared-IsReady}
use go_judge.Identity.Activating.{activated-IsSound}
use go_judge.Identity.Calls.{IsFresh, IsOwn, IsNamed}

-- The state in memory and the one in the file.
pub record IsSafe (s : Store) : Type 0 where
  pub memory : IsSound s.state
  pub file : IsSound s.disk

pub commit-IsSafe :
    (w : Write) (next : FileState) (s : Store)
    → IsSafe s
    → IsSound next
    → IsSafe (commit w next s).0
unfolding commit
commit-IsSafe Write.written next s h n = record { memory = n; file = n }
commit-IsSafe Write.unwritten next s h n = h
commit-IsSafe Write.unsynced next s h n = record { memory = h.memory; file = n }

begin_drawn-IsSafe :
    (w : Write) (rotation_id stamp : Bytes) (pair : Option (Bytes × Bytes)) (s : Store)
    → IsFresh pair s.state.keys
    → IsSafe s
    → IsSafe (begin_drawn w rotation_id stamp pair s).0
unfolding begin_drawn
begin_drawn-IsSafe w rotation_id stamp none s fresh h = h
begin_drawn-IsSafe w rotation_id stamp (some (public, seed)) s fresh h =
    commit-IsSafe w (begun rotation_id public seed stamp s.state) s h record {
      held =
          append-IsHeld s.state.current_key_id s.state.keys (pending_key public seed stamp) refl
            refl h.memory.held;
      ready = begun-IsReady rotation_id public seed stamp s.state.current_key_id s.state.keys fresh;
    }

pub begin_from-IsSafe :
    (o : Option PendingRotation) (w : Write) (draw : Draw) (rotation_id stamp : Bytes) (s : Store)
    → IsFresh (draw.pair) s.state.keys
    → IsSafe s
    → IsSafe (begin_from o w draw rotation_id stamp s).0
unfolding begin_from
begin_from-IsSafe (some p) w draw rotation_id stamp s fresh h = h
begin_from-IsSafe none w draw rotation_id stamp s fresh h =
    begin_drawn-IsSafe w (or_random rotation_id draw.random_id) stamp (draw.pair) s fresh h

prepared-IsSound :
    (p : PendingRotation) (key_id nonce : Bytes) (expires_at : ℤ) (stamp : Bytes) (st : FileState)
    → IsSound st
    → IsReady p st.current_key_id st.keys
    → IsOwn key_id st (some p)
    → IsSound (prepared p key_id nonce expires_at stamp st)
unfolding prepared
prepared-IsSound p key_id nonce expires_at stamp st h r (inl nothing) =
    rw nothing (record { held = h.held; ready = h.ready })
prepared-IsSound p key_id nonce expires_at stamp st h r (inr (other, known)) =
    elim (Bool-cases (is_empty key_id)) [
      | inl nothing ↦ rw nothing (record { held = h.held; ready = h.ready })
      | inr given ↦ rw given (record {
        held =
            subst (IsHeld st.current_key_id)
              (sym (update_at-amend p.new_public_key (named key_id) st.keys))
              (amend-IsHeld st.current_key_id st.keys p.new_public_key (named key_id) r.key r.found
                (key-in_use p st.current_key_id st.keys r)
                (key-in_use p st.current_key_id st.keys r)
                (key-has_id p st.current_key_id st.keys r) (λ s. other) h.held);
        ready =
            subst (IsReady (prepared_pending key_id nonce expires_at p) st.current_key_id)
              (sym (update_at-amend p.new_public_key (named key_id) st.keys))
              (prepared-IsReady p st.current_key_id st.keys r key_id nonce expires_at given other
                known);
      })
    ]

pub record_from-IsSafe :
    (o : Option PendingRotation) (w : Write) (rotation_id key_id nonce : Bytes) (expires_at : ℤ)
    (stamp : Bytes) (s : Store)
    → AllReady o s.state.current_key_id s.state.keys
    → IsOwn key_id s.state o
    → IsSafe s
    → IsSafe (record_from o w rotation_id key_id nonce expires_at stamp s).0
unfolding record_from
record_from-IsSafe none w rotation_id key_id nonce expires_at stamp s r own h = h
record_from-IsSafe (some p) w rotation_id key_id nonce expires_at stamp s r own h =
    elim (Bool-cases (bytes_eq p.rotation_id rotation_id)) [
      | inl same ↦ rw same (
          commit-IsSafe w (prepared p key_id nonce expires_at stamp s.state) s h
            (prepared-IsSound p key_id nonce expires_at stamp s.state h.memory r own))
      | inr different ↦ rw different h
    ]

pub mark_from-IsSafe :
    (o : Option PendingRotation) (w : Write) (grace_until : ℤ) (stamp : Bytes) (s : Store)
    → AllReady o s.state.current_key_id s.state.keys
    → IsNamed o
    → IsSafe s
    → IsSafe (mark_from o w grace_until stamp s).0
unfolding mark_from confirmed_state
mark_from-IsSafe none w grace_until stamp s r given h = h
mark_from-IsSafe (some p) w grace_until stamp s r given h =
    commit-IsSafe w (confirmed_state p grace_until stamp s.state) s h record {
      held = h.memory.held;
      ready = record {
        key = r.key;
        found = r.found;
        inactive = r.inactive;
        same_id = r.same_id;
        by_id = r.by_id;
        settled = inr given;
      };
    }

pub activate_from-IsSafe :
    (o : Option PendingRotation) (w : Write) (stamp : Bytes) (s : Store)
    → AllReady o s.state.current_key_id s.state.keys
    → IsSafe s
    → IsSafe (activate_from o w stamp s).0
unfolding activate_from activate_at
activate_from-IsSafe none w stamp s r h = h
activate_from-IsSafe (some p) w stamp s r h = elim (Bool-cases p.confirmed) [
  | inr unconfirmed ↦ rw unconfirmed h
  | inl confirmed ↦ elim (Option-cases (index_by_public s.state.keys p.new_public_key)) [
    | inl out ↦ rw (confirmed, out) h
    | inr (i, at) ↦
        rw (confirmed, at)
          (commit-IsSafe w (activated p i stamp s.state) s h
            (activated-IsSound s.state p i stamp confirmed r at).1)
  ]
]
