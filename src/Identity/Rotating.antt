-- ===== src/Identity/Rotating.antt =====
-- internal/hnieoj/identity/identity.go: the new key of a rotation, until it is the current one.
use go_judge.Prelude.{
  ◌≡◌, ◌⊎◌, inl, inr, refl, sym, subst, ◌∙◌, ap, Bytes, bytes_eq, bytes_eq_refl, is_empty, true,
  false, none, some, List, [], ◌∷◌, ◌++◌, arith,
}
use go_judge.Prelude.Int.{ℤ}
use go_judge.Identity.{
  PendingRotation, pending_key, new_pending, kept_keys, named, prepared_pending,
}
use go_judge.Identity.Keys.{KeyRecord, find, has_id, in_use}
use go_judge.Identity.Find.{
  has_public, amend, find-append_last, find-kept, find-amend_new, find-amend_same, find-wanted,
}
use go_judge.Identity.Sound.{IsReady, pending_not, unnamed_not}

nil_lem : (s : Bytes) → is_empty s ≡ true → s ≡ []
nil_lem [] e = refl
nil_lem (x ∷ s) e = cc

-- A new key pair whose public key is not there yet.
pub begun-IsReady :
    (rotation_id public seed stamp current : Bytes) (keys : List KeyRecord)
    → find (has_public public) keys ≡ none
    → IsReady
        (new_pending rotation_id public seed stamp)
        current
        (keys ++ pending_key public seed stamp ∷ [])
begun-IsReady rotation_id public seed stamp current keys fresh = record {
  key = pending_key public seed stamp;
  found =
      find-append_last (has_public public) keys (pending_key public seed stamp) fresh
      ∙ rw (bytes_eq_refl public) refl;
  inactive = refl;
  same_id = refl;
  by_id = inl refl;
  settled = inl refl;
}

module _ (p : PendingRotation) (current : Bytes) (keys : List KeyRecord)
    (r : IsReady p current keys) where
  pub key-in_use : in_use r.key ≡ false
  key-in_use = (pending_not (ℤ.pos 0) r.key r.inactive).0

  pub key-has_id : is_empty current ≡ false → has_id current r.key ≡ false
  key-has_id s = elim (r.by_id) [
    | inl no_id ↦ unnamed_not current r.key (r.same_id ∙ nil_lem p.new_key_id no_id) s
    | inr (there, other) ↦ ap (λ t. bytes_eq t current) r.same_id ∙ other
  ]

  pub kept-IsReady : (now : ℤ) → IsReady p current (kept_keys now keys).0
  kept-IsReady now =
      let stays = (pending_not now r.key r.inactive).1 in
      record {
        key = r.key;
        found = find-kept (has_public p.new_public_key) now keys r.key r.found stays;
        inactive = r.inactive;
        same_id = r.same_id;
        by_id = elim (r.by_id) [
          | inl no_id ↦ inl no_id
          | inr (there, other) ↦
              inr (find-kept (has_id p.new_key_id) now keys r.key there stays, other)
        ];
        settled = r.settled;
      }

  -- The server names the key by an identifier that no key has, or by the one it has given before.
  pub prepared-IsReady :
      (key_id nonce : Bytes) (expires_at : ℤ)
      → is_empty key_id ≡ false
      → bytes_eq key_id current ≡ false
      → (key_id ≡ p.new_key_id) ⊎ (find (has_id key_id) keys ≡ none)
      → IsReady
          (prepared_pending key_id nonce expires_at p)
          current
          (amend p.new_public_key (named key_id) keys)
  prepared-IsReady key_id nonce expires_at given other known = record {
    key = named key_id r.key;
    found =
        find-amend_same (has_public p.new_public_key) p.new_public_key (named key_id) keys r.key
          r.found r.found (find-wanted (has_public p.new_public_key) keys r.key r.found);
    inactive = r.inactive;
    same_id = refl;
    by_id = inr (named_by_id, other);
    settled = inr given;
  }
    where
      named_by_id :
          find (has_id key_id) (amend p.new_public_key (named key_id) keys)
          ≡ some (named key_id r.key)
      named_by_id = elim known [
        | inl same ↦ elim (r.by_id) [
          | inl no_id ↦ absurd (ground (arith, same))
          | inr (there, apart) ↦
              find-amend_same (has_id key_id) p.new_public_key (named key_id) keys r.key r.found
                (subst (λ t. find (has_id t) keys ≡ some r.key) (sym same) there)
                (bytes_eq_refl key_id)
        ]
        | inr unknown ↦
            find-amend_new (has_id key_id) p.new_public_key (named key_id) keys r.key r.found
              unknown (bytes_eq_refl key_id)
      ]
