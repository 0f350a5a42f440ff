-- ===== src/Identity/Changes.antt =====
-- internal/hnieoj/identity/identity.go: what the calls of a rotation do to the pending rotation.
use go_judge.Prelude.{
  ◌≡◌, ◌⊎◌, inl, inr, refl, sym, subst, ◌∙◌, ap, Bytes, bytes_eq, is_empty, true, Option, none,
  some, Option-cases, Bool-cases,
}
use go_judge.Prelude.Int.{ℤ}
use go_judge.Identity.{
  PendingRotation, FileState, Store, Write, commit, prepared, record_from, confirmed_state,
  mark_from, activated, activate_at, activate_from, discarded, discard_from, is_current, key_at,
  mark_rotation_confirmed, record_rotation_prepared, prepared_pending,
}
use go_judge.Identity.Keys.{index_by_public}

-- The same rotation, with the same new key.
pub record IsSame (p q : PendingRotation) : Type 0 where
  pub rotation_id : q.rotation_id ≡ p.rotation_id
  pub public : q.new_public_key ≡ p.new_public_key
  pub key : q.new_key ≡ p.new_key

pub trans-IsSame : {p q r : PendingRotation} → IsSame p q → IsSame q r → IsSame p r
trans-IsSame a b = record {
  rotation_id = b.rotation_id ∙ a.rotation_id;
  public = b.public ∙ a.public;
  key = b.key ∙ a.key;
}

abbrev pub pending_in : Store → Option PendingRotation
pending_in s = s.state.pending_rotation

-- The store still holds the rotation.
pub record Keeps (p : PendingRotation) (s : Store) : Type 0 where
  pub rotation : PendingRotation
  pub there : pending_in s ≡ some rotation
  pub same : IsSame p rotation

commit-state :
    (k : Write) (next : FileState) (s : Store)
    → ((commit k next s).0.state ≡ s.state) ⊎ ((commit k next s).0.state ≡ next)
unfolding commit
commit-state Write.written next s = inr refl
commit-state Write.unwritten next s = inl refl
commit-state Write.unsynced next s = inl refl

commit-pending :
    (k : Write) (next : FileState) (s : Store)
    → (pending_in (commit k next s).0 ≡ pending_in s)
      ⊎ (pending_in (commit k next s).0 ≡ next.pending_rotation)
commit-pending k next s = elim (commit-state k next s) [
  | inl e ↦ inl (ap (λ (t : FileState). t.pending_rotation) e)
  | inr e ↦ inr (ap (λ (t : FileState). t.pending_rotation) e)
]

pub activate_from-pending :
    (o : Option PendingRotation) (k : Write) (stamp : Bytes) (s : Store)
    → (pending_in (activate_from o k stamp s).0 ≡ pending_in s)
      ⊎ (pending_in (activate_from o k stamp s).0 ≡ none)
unfolding activate_from activate_at activated
activate_from-pending none k stamp s = inl refl
activate_from-pending (some p) k stamp s = elim (Bool-cases p.confirmed) [
  | inr unconfirmed ↦ rw unconfirmed (inl refl)
  | inl confirmed ↦ elim (Option-cases (index_by_public s.state.keys p.new_public_key)) [
    | inl out ↦ rw (confirmed, out) (inl refl)
    | inr (i, at) ↦ rw (confirmed, at) (commit-pending k (activated p i stamp s.state) s)
  ]
]

pub discard_from-pending :
    (o : Option PendingRotation) (k : Write) (stamp : Bytes) (s : Store)
    → (pending_in (discard_from o k stamp s).0 ≡ pending_in s)
      ⊎ (pending_in (discard_from o k stamp s).0 ≡ none)
unfolding discard_from discarded
discard_from-pending none k stamp s = inl refl
discard_from-pending (some p) k stamp s =
    let at = index_by_public s.state.keys p.new_public_key in
    elim (Bool-cases p.confirmed) [
      | inl confirmed ↦ rw confirmed (inl refl)
      | inr open_yet ↦
          elim (Bool-cases (is_current s.state.current_key_id (key_at at s.state.keys))) [
            | inl current ↦ rw (open_yet, current) (inl refl)
            | inr other ↦ rw (open_yet, other) (commit-pending k (discarded at stamp s.state) s)
          ]
    ]

-- A rotation that is kept, and one that comes out of a change.
moved-Keeps :
    (p : PendingRotation) (s s' : Store) (q : PendingRotation)
    → Keeps p s
    → IsSame p q
    → (pending_in s' ≡ pending_in s) ⊎ (pending_in s' ≡ some q)
    → Keeps p s'
moved-Keeps p s s' q h same (inl e) = record {
  rotation = h.rotation;
  there = e ∙ h.there;
  same = h.same;
}
moved-Keeps p s s' q h same (inr e) = record { rotation = q; there = e; same = same }

pub mark_from-Keeps :
    (p q : PendingRotation) (k : Write) (grace_until : ℤ) (stamp : Bytes) (s : Store)
    → IsSame p q
    → Keeps p s
    → Keeps p (mark_from (some q) k grace_until stamp s).0
unfolding mark_from confirmed_state
mark_from-Keeps p q k grace_until stamp s same h =
    moved-Keeps p s (mark_from (some q) k grace_until stamp s).0
      (record q { confirmed = true; grace_until = grace_until }) h
      record { rotation_id = same.rotation_id; public = same.public; key = same.key }
      (commit-pending k (confirmed_state q grace_until stamp s.state) s)

prepared-pending :
    (q : PendingRotation) (key_id nonce : Bytes) (expires_at : ℤ) (stamp : Bytes) (st : FileState)
    → ((prepared q key_id nonce expires_at stamp st).pending_rotation ≡ st.pending_rotation)
      ⊎ ((prepared q key_id nonce expires_at stamp st).pending_rotation
          ≡ some (prepared_pending key_id nonce expires_at q))
unfolding prepared
prepared-pending q key_id nonce expires_at stamp st = elim (Bool-cases (is_empty key_id)) [
  | inl nothing ↦ rw nothing (inl refl)
  | inr given ↦ rw given (inr refl)
]

pub record_from-Keeps :
    (p q : PendingRotation) (k : Write) (rotation_id key_id nonce : Bytes) (expires_at : ℤ)
    (stamp : Bytes) (s : Store)
    → IsSame p q
    → Keeps p s
    → Keeps p (record_from (some q) k rotation_id key_id nonce expires_at stamp s).0
unfolding record_from
record_from-Keeps p q k rotation_id key_id nonce expires_at stamp s same h =
    let next = prepared q key_id nonce expires_at stamp s.state in
    let q' = prepared_pending key_id nonce expires_at q in
    let same' : IsSame p q' = record {
      rotation_id = same.rotation_id;
      public = same.public;
      key = same.key;
    } in
    elim (Bool-cases (bytes_eq q.rotation_id rotation_id)) [
      | inr different ↦ rw different h
      | inl ours ↦ rw ours (
          moved-Keeps p s (commit k next s).0 q' h same' (elim (commit-pending k next s) [
            | inl e ↦ inl e
            | inr e ↦ elim (prepared-pending q key_id nonce expires_at stamp s.state) [
              | inl old ↦ inl (e ∙ old)
              | inr new ↦ inr (e ∙ new)
            ]
          ]))
    ]

pub mark-Keeps :
    (p : PendingRotation) (k : Write) (grace_until : ℤ) (stamp : Bytes) (s : Store)
    → Keeps p s
    → Keeps p (mark_rotation_confirmed k grace_until stamp s).0
unfolding mark_rotation_confirmed
mark-Keeps p k grace_until stamp s h =
    subst (λ o. Keeps p (mark_from o k grace_until stamp s).0) (sym h.there)
      (mark_from-Keeps p h.rotation k grace_until stamp s h.same h)

pub record-Keeps :
    (p : PendingRotation) (k : Write) (rotation_id key_id nonce : Bytes) (expires_at : ℤ)
    (stamp : Bytes) (s : Store)
    → Keeps p s
    → Keeps p (record_rotation_prepared k rotation_id key_id nonce expires_at stamp s).0
unfolding record_rotation_prepared
record-Keeps p k rotation_id key_id nonce expires_at stamp s h =
    subst (λ o. Keeps p (record_from o k rotation_id key_id nonce expires_at stamp s).0)
      (sym h.there)
      (record_from-Keeps p h.rotation k rotation_id key_id nonce expires_at stamp s h.same h)
