-- ===== src/Identity/Find.antt =====
-- internal/hnieoj/identity/identity.go: what changes to the list of keys do to a look-up.
use go_judge.Prelude.{
  ℕ, zero, suc, ◌≡◌, refl, ap, Bytes, bytes_eq, Bool, true, false, none, some, List, [], ◌∷◌, ◌++◌,
  if◌then◌else◌, arith, Option-cases, Bool-cases, ◌⊎◌, inl, inr, subst,
}
use go_judge.Prelude.Int.{ℤ}
use go_judge.Identity.{update_at, kept_keys, key_at}
use go_judge.Identity.Keys.{KeyRecord, index_by_public, find, is_expired, without}

abbrev pub has_public : Bytes → KeyRecord → Bool
has_public public k = bytes_eq k.public_key public

-- A change to the first key with this public key.
pub amend : Bytes → (KeyRecord → KeyRecord) → List KeyRecord → List KeyRecord
amend public f [] = []
amend public f (k ∷ keys) =
    let rest = amend public f keys in if bytes_eq k.public_key public then f k ∷ keys else k ∷ rest

-- The keys without the first one with this public key.
pub drop_public : Bytes → List KeyRecord → List KeyRecord
drop_public public [] = []
drop_public public (k ∷ keys) =
    let rest = drop_public public keys in if bytes_eq k.public_key public then keys else k ∷ rest

pub key_at-index :
    (public : Bytes) (keys : List KeyRecord)
    → key_at (index_by_public keys public) keys ≡ find (has_public public) keys
unfolding index_by_public find
key_at-index public [] = refl
key_at-index public (k ∷ keys) = elim (Option-cases (index_by_public keys public)) [
  | inl e ↦ ground (arith, key_at-index public keys)
  | inr (i, e) ↦ ground (arith, key_at-index public keys)
]

pub update_at-amend :
    (public : Bytes) (f : KeyRecord → KeyRecord) (keys : List KeyRecord)
    → update_at (index_by_public keys public) f keys ≡ amend public f keys
unfolding index_by_public amend
update_at-amend public f [] = refl
update_at-amend public f (k ∷ keys) = elim (Bool-cases (bytes_eq k.public_key public)) [
  | inl hit ↦ rw hit refl
  | inr miss ↦ rw miss (elim (Option-cases (index_by_public keys public)) [
    | inl out ↦ rw out (
        ap (λ t. k ∷ t)
          (subst (λ o. update_at o f keys ≡ amend public f keys) out
            (update_at-amend public f keys)))
    | inr (i, found) ↦ rw found (
        ap (λ t. k ∷ t)
          (subst (λ o. update_at o f keys ≡ amend public f keys) found
            (update_at-amend public f keys)))
  ])
]

pub without-drop_public :
    (public : Bytes) (keys : List KeyRecord) (i : ℕ)
    → index_by_public keys public ≡ some i
    → without i keys ≡ drop_public public keys
unfolding index_by_public without drop_public
without-drop_public public [] i e = cc
without-drop_public public (k ∷ keys) zero e = elim (Option-cases (index_by_public keys public)) [
  | inl out ↦ ground arith
  | inr (j, found) ↦ ground arith
]
without-drop_public public (k ∷ keys) (suc i) e =
    elim (Option-cases (index_by_public keys public)) [
      | inl out ↦ ground arith
      | inr (j, found) ↦ ground (arith, without-drop_public public keys i)
    ]

pub find-wanted :
    (wanted : KeyRecord → Bool) (keys : List KeyRecord) (k : KeyRecord)
    → find wanted keys ≡ some k
    → wanted k ≡ true
unfolding find
find-wanted wanted [] k e = cc
find-wanted wanted (x ∷ keys) k e = ground (arith, find-wanted wanted keys k)

module _ (wanted : KeyRecord → Bool) where
  pub find-append :
      (keys more : List KeyRecord) (k : KeyRecord)
      → find wanted keys ≡ some k
      → find wanted (keys ++ more) ≡ some k
  unfolding find
  find-append [] more k e = cc
  find-append (x ∷ keys) more k e = ground (arith, find-append keys more k)

  pub find-append_last :
      (keys : List KeyRecord) (k : KeyRecord)
      → find wanted keys ≡ none
      → find wanted (keys ++ k ∷ []) ≡ (if wanted k then some k else none)
  unfolding find
  find-append_last [] k e = refl
  find-append_last (x ∷ keys) k e = ground (arith, find-append_last keys k)

  pub find-kept :
      (now : ℤ) (keys : List KeyRecord) (k : KeyRecord)
      → find wanted keys ≡ some k
      → is_expired now k ≡ false
      → find wanted (kept_keys now keys).0 ≡ some k
  unfolding find kept_keys
  find-kept now [] k e h = cc
  find-kept now (x ∷ keys) k e h = ground (arith, find-kept now keys k)

  pub find-kept_out :
      (now : ℤ) (keys : List KeyRecord)
      → find wanted keys ≡ none
      → find wanted (kept_keys now keys).0 ≡ none
  unfolding find kept_keys
  find-kept_out now [] e = refl
  find-kept_out now (x ∷ keys) e = ground (arith, find-kept_out now keys)

  -- A key that is not wanted, before and after.
  pub find-amend_other :
      (public : Bytes) (f : KeyRecord → KeyRecord) (keys : List KeyRecord) (k : KeyRecord)
      → find (has_public public) keys ≡ some k
      → wanted k ≡ false
      → wanted (f k) ≡ false
      → find wanted (amend public f keys) ≡ find wanted keys
  unfolding find amend
  find-amend_other public f [] k e h g = refl
  find-amend_other public f (x ∷ keys) k e h g = elim (Bool-cases (bytes_eq x.public_key public)) [
    | inl hit ↦ ground arith
    | inr miss ↦ ground (arith, find-amend_other public f keys k)
  ]

  pub find-drop_public :
      (public : Bytes) (keys : List KeyRecord) (k : KeyRecord)
      → find (has_public public) keys ≡ some k
      → wanted k ≡ false
      → find wanted (drop_public public keys) ≡ find wanted keys
  unfolding find drop_public
  find-drop_public public [] k e h = refl
  find-drop_public public (x ∷ keys) k e h = elim (Bool-cases (bytes_eq x.public_key public)) [
    | inl hit ↦ ground arith
    | inr miss ↦ ground (arith, find-drop_public public keys k)
  ]

  -- A key that is wanted only once it is changed, when no other one is.
  pub find-amend_new :
      (public : Bytes) (f : KeyRecord → KeyRecord) (keys : List KeyRecord) (k : KeyRecord)
      → find (has_public public) keys ≡ some k
      → find wanted keys ≡ none
      → wanted (f k) ≡ true
      → find wanted (amend public f keys) ≡ some (f k)
  unfolding find amend
  find-amend_new public f [] k e h g = cc
  find-amend_new public f (x ∷ keys) k e h g = elim (Bool-cases (bytes_eq x.public_key public)) [
    | inl hit ↦ ground arith
    | inr miss ↦ ground (arith, find-amend_new public f keys k)
  ]

  -- A key that was found, and is found after the change too.
  pub find-amend_same :
      (public : Bytes) (f : KeyRecord → KeyRecord) (keys : List KeyRecord) (k : KeyRecord)
      → find (has_public public) keys ≡ some k
      → find wanted keys ≡ some k
      → wanted (f k) ≡ true
      → find wanted (amend public f keys) ≡ some (f k)
  unfolding find amend
  find-amend_same public f [] k e h g = cc
  find-amend_same public f (x ∷ keys) k e h g =
      let here = find-wanted (has_public public) (x ∷ keys) k e in
      let there = find-wanted wanted (x ∷ keys) k h in
      elim (Bool-cases (bytes_eq x.public_key public)) [
        | inl hit ↦ ground arith
        | inr miss ↦ ground (arith, find-amend_same public f keys k)
      ]

  -- A key that was found, when another one is changed and is not found for that.
  pub find-amend_apart :
      (public : Bytes) (f : KeyRecord → KeyRecord) (keys : List KeyRecord) (y k : KeyRecord)
      → find (has_public public) keys ≡ some y
      → find wanted keys ≡ some k
      → has_public public k ≡ false
      → (wanted (f y) ≡ false) ⊎ (wanted y ≡ true)
      → find wanted (amend public f keys) ≡ some k
  unfolding find amend
  find-amend_apart public f [] y k e h g w = cc
  find-amend_apart public f (x ∷ keys) y k e h g w =
      elim (Bool-cases (bytes_eq x.public_key public)) [
        | inl hit ↦ ground arith
        | inr miss ↦ ground (arith, find-amend_apart public f keys y k)
      ]

pub amend_absent :
    (public : Bytes) (f : KeyRecord → KeyRecord) (keys : List KeyRecord)
    → find (has_public public) keys ≡ none
    → amend public f keys ≡ keys
unfolding find amend
amend_absent public f [] e = refl
amend_absent public f (x ∷ keys) e = ground (arith, amend_absent public f keys)

pub index-amend :
    (public other : Bytes) (f : KeyRecord → KeyRecord) (keys : List KeyRecord)
    → ((k : KeyRecord) → (f k).public_key ≡ k.public_key)
    → index_by_public (amend public f keys) other ≡ index_by_public keys other
unfolding index_by_public amend
index-amend public other f [] h = refl
index-amend public other f (x ∷ keys) h = elim (Bool-cases (bytes_eq x.public_key public)) [
  | inl hit ↦ rw hit (rw (h x) refl)
  | inr miss ↦ rw miss (rw (index-amend public other f keys h) refl)
]
