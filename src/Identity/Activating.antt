-- ===== src/Identity/Activating.antt =====
-- internal/hnieoj/identity/identity.go: the new key becomes the current one.
use go_judge.Prelude.{
  ℕ, ◌≡◌, ◌⊎◌, inl, inr, refl, sym, subst, ◌∙◌, ap, Bytes, bytes_eq, bytes_eq_iff, is_empty, Bool,
  true, false, some, List, arith, Option-cases, Bool-cases, get_elem?, [], ◌∷◌, if◌then◌else◌,
}
use go_judge.Identity.{
  PendingRotation, FileState, retired, activated_key, public_of, id_at, update_at, key_at,
  activated,
}
use go_judge.Identity.Keys.{KeyRecord, find, has_id, current_key, index_by_public}
use go_judge.Identity.Find.{
  has_public, amend, find-amend_same, find-amend_apart, find-wanted, amend_absent, index-amend,
  key_at-index, update_at-amend,
}
use go_judge.Identity.Sound.{IsHeld, IsReady, IsSound, held}

-- The new key, by its public key and by its identifier.
record IsNew (p : PendingRotation) (keys : List KeyRecord) : Type 0 where
  pub key : KeyRecord
  pub found : find (has_public p.new_public_key) keys ≡ some key
  pub by_id : find (has_id p.new_key_id) keys ≡ some key
  pub same_id : key.key_id ≡ p.new_key_id

found_either : (a b : Bool) → a ≡ b → (a ≡ false) ⊎ (b ≡ true)
found_either true b e = inr (sym e)
found_either false b e = inl refl

module _ (p : PendingRotation) (f : KeyRecord → KeyRecord) (keys : List KeyRecord)
    (same_public : (k : KeyRecord) → (f k).public_key ≡ k.public_key)
    (same_id : (k : KeyRecord) → has_id p.new_key_id (f k) ≡ has_id p.new_key_id k)
    (n : IsNew p keys) where
  amend_new-IsNew : IsNew p (amend p.new_public_key f keys)
  amend_new-IsNew =
      let by_public = find-wanted (has_public p.new_public_key) keys n.key n.found in
      let by_id = same_id n.key ∙ find-wanted (has_id p.new_key_id) keys n.key n.by_id in
      record {
        key = f n.key;
        found =
            find-amend_same (has_public p.new_public_key) p.new_public_key f keys n.key n.found
              n.found (ap (λ t. bytes_eq t p.new_public_key) (same_public n.key) ∙ by_public);
        by_id =
            find-amend_same (has_id p.new_key_id) p.new_public_key f keys n.key n.found n.by_id
              by_id;
        same_id = (bytes_eq_iff (f n.key).key_id p.new_key_id).0 by_id;
      }

  amend-IsNew : (public : Bytes) → IsNew p (amend public f keys)
  amend-IsNew public = elim (Option-cases (find (has_public public) keys)) [
    | inl out ↦ subst (IsNew p) (sym (amend_absent public f keys out)) n
    | inr (y, there) ↦ elim (Bool-cases (has_public public n.key)) [
      | inl hit ↦
          subst (λ t. IsNew p (amend t f keys))
            (sym (
                (bytes_eq_iff n.key.public_key p.new_public_key).0
                  (find-wanted (has_public p.new_public_key) keys n.key n.found))
              ∙ (bytes_eq_iff n.key.public_key public).0 hit)
            amend_new-IsNew
      | inr miss ↦ record {
        key = n.key;
        found =
            find-amend_apart (has_public p.new_public_key) public f keys y n.key there n.found miss
              (found_either (has_public p.new_public_key (f y)) (has_public p.new_public_key y)
                (ap (λ t. bytes_eq t p.new_public_key) (same_public y)));
        by_id =
            find-amend_apart (has_id p.new_key_id) public f keys y n.key there n.by_id miss
              (found_either (has_id p.new_key_id (f y)) (has_id p.new_key_id y) (same_id y));
        same_id = n.same_id;
      }
    ]
  ]

-- The old key does not come to have the new identifier.
retired-has_id :
    (key_id current old : Bytes)
    → is_empty key_id ≡ false
    → bytes_eq key_id current ≡ false
    → bytes_eq (if is_empty old then current else old) key_id ≡ bytes_eq old key_id
unfolding bytes_eq
retired-has_id [] current old given other = cc
retired-has_id (c ∷ cs) current [] given other =
    ground (arith, bytes_eq_iff (c ∷ cs) current, bytes_eq_iff current (c ∷ cs))
retired-has_id (c ∷ cs) current (x ∷ old) given other = refl

-- The two changes by index are changes by public key.
module _ (f g : KeyRecord → KeyRecord) (keys : List KeyRecord) (old public : Bytes) (i : ℕ)
    (same_f : (k : KeyRecord) → (f k).public_key ≡ k.public_key)
    (same_g : (k : KeyRecord) → (g k).public_key ≡ k.public_key)
    (at : index_by_public keys public ≡ some i) where
  update_at-update_at :
      update_at (some i) g (update_at (index_by_public keys old) f keys)
      ≡ amend public g (amend old f keys)
  update_at-update_at =
      ap (update_at (some i) g) (update_at-amend old f keys)
      ∙ ap (λ t. update_at t g (amend old f keys)) (sym (index-amend old public f keys same_f ∙ at))
      ∙ update_at-amend public g (amend old f keys)

  get_elem?-amend :
      get_elem? (amend public g (amend old f keys)) i
      ≡ find (has_public public) (amend public g (amend old f keys))
  get_elem?-amend =
      ap (λ t. key_at t (amend public g (amend old f keys)))
        (sym (
          index-amend public public g (amend old f keys) same_g
          ∙ index-amend old public f keys same_f
          ∙ at))
      ∙ key_at-index public (amend public g (amend old f keys))

new_key :
    (p : PendingRotation) (current : Bytes) (keys : List KeyRecord)
    → p.confirmed ≡ true
    → IsReady p current keys
    → (IsNew p keys × (is_empty p.new_key_id ≡ false) × (bytes_eq p.new_key_id current ≡ false))
new_key p current keys confirmed r = elim (r.settled) [
  | inl open_yet ↦ absurd (cc)
  | inr given ↦ elim (r.by_id) [
    | inl no_id ↦ absurd (cc)
    | inr (there, other) ↦
        (record { key = r.key; found = r.found; by_id = there; same_id = r.same_id }, given, other)
  ]
]

active-IsHeld :
    (p : PendingRotation) (keys : List KeyRecord)
    → is_empty p.new_key_id ≡ false
    → IsNew p keys
    → IsHeld p.new_key_id (amend p.new_public_key activated_key keys)
unfolding amend_new-IsNew
active-IsHeld p keys given n =
    held p.new_key_id (amend p.new_public_key activated_key keys) (activated_key n.key) refl
      (inl (given, (amend_new-IsNew p activated_key keys (λ k. refl) (λ k. refl) n).by_id))

-- After `ActivateRotatedKey`, the new key is active and current.
pub activated-IsSound :
    (st : FileState) (p : PendingRotation) (i : ℕ) (stamp : Bytes)
    → p.confirmed ≡ true
    → IsReady p st.current_key_id st.keys
    → index_by_public st.keys p.new_public_key ≡ some i
    → ((activated p i stamp st).current_key_id ≡ p.new_key_id) × IsSound (activated p i stamp st)
unfolding activated
activated-IsSound st p i stamp confirmed r at =
    let f = retired st.current_key_id p.grace_until in
    let old = public_of (current_key st.current_key_id st.keys) in
    let (n, given, other) = new_key p st.current_key_id st.keys confirmed r in
    let same =
      λ (k : KeyRecord). retired-has_id p.new_key_id st.current_key_id k.key_id given other in
    let n' = amend-IsNew p f st.keys (λ k. refl) same n old in
    let last = amend_new-IsNew p activated_key (amend old f st.keys) (λ k. refl) (λ k. refl) n' in
    let changed =
      update_at-update_at f activated_key st.keys old p.new_public_key i (λ k. refl) (λ k. refl)
        at in
    let id =
      ap (λ t. id_at (get_elem? t i)) changed
      ∙ ap id_at (
          get_elem?-amend f activated_key st.keys old p.new_public_key i (λ k. refl) (λ k. refl) at)
      ∙ ap id_at last.found
      ∙ last.same_id in
    let keys =
      update_at (some i) activated_key (update_at (index_by_public st.keys old) f st.keys) in
    (
      id,
      record {
        held =
            subst (λ t. IsHeld t keys) (sym id)
              (subst (IsHeld p.new_key_id) (sym changed)
                (active-IsHeld p (amend old f st.keys) given n'));
        ready = tt;
      },
    )
