-- ===== src/Identity/Sound.antt =====
-- internal/hnieoj/identity/identity.go: the invariant of the keys.
use go_judge.Prelude.{
  ◌≡◌, ◌⊎◌, inl, inr, refl, ◌∙◌, Bytes, bytes_eq, is_empty, true, false, Option, none, some, List,
  [], ◌∷◌, ◌++◌, arith, Option-cases, Bool-cases,
}
use go_judge.Prelude.Int.{ℤ}
use go_judge.Identity.{PendingRotation, FileState, kept_keys}
use go_judge.Identity.Keys.{
  KeyStatus, KeyRecord, find, has_id, in_use, current_key, first_key, is_expired,
}
use go_judge.Identity.Find.{
  has_public, amend, drop_public, find-append, find-append_last, find-kept, find-kept_out,
  find-amend_other, find-drop_public,
}

-- The key that the node signs with is active.
pub record IsHeld (current : Bytes) (keys : List KeyRecord) : Type 0 where
  pub holder : KeyRecord
  pub found : current_key current keys ≡ some holder
  pub usable : in_use holder ≡ true

-- The new key of a rotation is there and inactive, it is the one with the new identifier once the
-- server has given one, and a rotation that is confirmed has one.
pub record IsReady (p : PendingRotation) (current : Bytes) (keys : List KeyRecord) : Type 0 where
  pub key : KeyRecord
  pub found : find (has_public p.new_public_key) keys ≡ some key
  pub inactive : key.status ≡ KeyStatus.pending
  pub same_id : key.key_id ≡ p.new_key_id
  pub by_id :
      (is_empty p.new_key_id ≡ true)
      ⊎ ((find (has_id p.new_key_id) keys ≡ some key) × (bytes_eq p.new_key_id current ≡ false))
  pub settled : (p.confirmed ≡ false) ⊎ (is_empty p.new_key_id ≡ false)

abbrev pub AllReady : Option PendingRotation → Bytes → List KeyRecord → Type 0
AllReady none current keys = Unit
AllReady (some p) current keys = IsReady p current keys

pub record IsSound (st : FileState) : Type 0 where
  pub held : IsHeld st.current_key_id st.keys
  pub ready : AllReady st.pending_rotation st.current_key_id st.keys

first-in_use :
    (keys : List KeyRecord) (k : KeyRecord)
    → first_key keys ≡ some k
    → in_use k ≡ true
    → find in_use keys ≡ some k
unfolding find
first-in_use [] k e u = cc
first-in_use (x ∷ keys) k e u = ground arith

-- The two ways in which the current key is looked up.
abbrev pub Chosen : Bytes → List KeyRecord → KeyRecord → Type 0
Chosen current keys k =
    ((is_empty current ≡ false) × (find (has_id current) keys ≡ some k))
    ⊎ (((is_empty current ≡ true) ⊎ (find (has_id current) keys ≡ none))
        × (find in_use keys ≡ some k))

chosen :
    (current : Bytes) (keys : List KeyRecord) (h : IsHeld current keys)
    → Chosen current keys h.holder
unfolding current_key
chosen current keys h = elim (Bool-cases (is_empty current)) [
  | inl no_id ↦ ground (arith, first-in_use keys h.holder)
  | inr some_id ↦ elim (Option-cases (find (has_id current) keys)) [
    | inl out ↦ ground (arith, first-in_use keys h.holder)
    | inr (k, there) ↦ ground arith
  ]
]

pub held :
    (current : Bytes) (keys : List KeyRecord) (k : KeyRecord)
    → in_use k ≡ true
    → Chosen current keys k
    → IsHeld current keys
unfolding current_key
held current keys k u (inl (some_id, there)) = record {
  holder = k;
  usable = u;
  found = rw (some_id, there) refl;
}
held current keys k u (inr (inl no_id, first)) = record {
  holder = k;
  usable = u;
  found = rw (no_id, first) refl;
}
held current keys k u (inr (inr out, first)) = record {
  holder = k;
  usable = u;
  found = ground arith;
}

-- A change to the keys that the look-ups do not see.
move-IsHeld :
    (current : Bytes) (keys keys' : List KeyRecord)
    → ((k : KeyRecord)
        → in_use k ≡ true
        → is_empty current ≡ false
        → find (has_id current) keys ≡ some k
        → find (has_id current) keys' ≡ some k)
    → (is_empty current ≡ false
        → find (has_id current) keys ≡ none
        → find (has_id current) keys' ≡ none)
    → ((k : KeyRecord) → in_use k ≡ true → find in_use keys ≡ some k → find in_use keys' ≡ some k)
    → IsHeld current keys
    → IsHeld current keys'
move-IsHeld current keys keys' by_id no_id by_use h = elim (chosen current keys h) [
  | inl (some_id, there) ↦
      held current keys' h.holder h.usable (inl (some_id, by_id h.holder h.usable some_id there))
  | inr (inl none_given, first) ↦
      held current keys' h.holder h.usable (inr (inl none_given, by_use h.holder h.usable first))
  | inr (inr out, first) ↦ elim (Bool-cases (is_empty current)) [
    | inl none_given ↦
        held current keys' h.holder h.usable (inr (inl none_given, by_use h.holder h.usable first))
    | inr some_id ↦
        held current keys' h.holder h.usable
          (inr (inr (no_id some_id out), by_use h.holder h.usable first))
  ]
]

active_key : (now : ℤ) (k : KeyRecord) → in_use k ≡ true → is_expired now k ≡ false
active_key now k u = ground arith

pub pending_not :
    (now : ℤ) (k : KeyRecord)
    → k.status ≡ KeyStatus.pending
    → (in_use k ≡ false) × (is_expired now k ≡ false)
pending_not now k e = simp e (refl, refl)

pub unnamed_not :
    (current : Bytes) (k : KeyRecord)
    → k.key_id ≡ []
    → is_empty current ≡ false
    → has_id current k ≡ false
unfolding bytes_eq
unnamed_not [] k e h = cc
unnamed_not (c ∷ cs) k e h = simp e refl

module _ (current : Bytes) (keys : List KeyRecord) where
  -- A key without an identifier is appended.
  pub append-IsHeld :
      (x : KeyRecord)
      → x.key_id ≡ []
      → in_use x ≡ false
      → IsHeld current keys
      → IsHeld current (keys ++ x ∷ [])
  append-IsHeld x unnamed inactive =
      move-IsHeld current keys (keys ++ x ∷ [])
        (λ k u s there. find-append (has_id current) keys (x ∷ []) k there)
        (λ s out.
          find-append_last (has_id current) keys x out ∙ rw (unnamed_not current x unnamed s) refl)
        (λ k u there. find-append in_use keys (x ∷ []) k there)

  -- The expired keys go.
  pub kept-IsHeld : (now : ℤ) → IsHeld current keys → IsHeld current (kept_keys now keys).0
  kept-IsHeld now =
      move-IsHeld current keys (kept_keys now keys).0
        (λ k u s there. find-kept (has_id current) now keys k there (active_key now k u))
        (λ s out. find-kept_out (has_id current) now keys out)
        (λ k u there. find-kept in_use now keys k there (active_key now k u))

  -- A key that is neither active nor the current one changes, and stays like that.
  pub amend-IsHeld :
      (public : Bytes) (f : KeyRecord → KeyRecord) (x : KeyRecord)
      → find (has_public public) keys ≡ some x
      → in_use x ≡ false
      → in_use (f x) ≡ false
      → (is_empty current ≡ false → has_id current x ≡ false)
      → (is_empty current ≡ false → has_id current (f x) ≡ false)
      → IsHeld current keys
      → IsHeld current (amend public f keys)
  amend-IsHeld public f x at u v i j =
      move-IsHeld current keys (amend public f keys)
        (λ k w s there. find-amend_other (has_id current) public f keys x at (i s) (j s) ∙ there)
        (λ s out. find-amend_other (has_id current) public f keys x at (i s) (j s) ∙ out)
        (λ k w there. find-amend_other in_use public f keys x at u v ∙ there)

  pub drop-IsHeld :
      (public : Bytes) (x : KeyRecord)
      → find (has_public public) keys ≡ some x
      → in_use x ≡ false
      → (is_empty current ≡ false → has_id current x ≡ false)
      → IsHeld current keys
      → IsHeld current (drop_public public keys)
  drop-IsHeld public x at u i =
      move-IsHeld current keys (drop_public public keys)
        (λ k w s there. find-drop_public (has_id current) public keys x at (i s) ∙ there)
        (λ s out. find-drop_public (has_id current) public keys x at (i s) ∙ out)
        (λ k w there. find-drop_public in_use public keys x at u ∙ there)
