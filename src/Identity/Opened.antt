-- ===== src/Identity/Opened.antt =====
-- internal/hnieoj/identity/identity.go: what an opened store holds.
use go_judge.Prelude.{
  ◌≡◌, inl, inr, refl, subst, Bytes, bytes_eq_iff, Bool, true, Option, none, some, List, [], ◌∷◌,
  arith, Option-cases, length,
}
use go_judge.Prelude.Result.{Result, ok}
use go_judge.Identity.{FileState, Store, Write, Draw, commit}
use go_judge.Identity.Keys.{KeyRecord, current_key, find}
use go_judge.Identity.Signing.{Crypto, decode_seed, decode_public_key}
use go_judge.Identity.Opening.{
  OpenError, FileRead, is_known, validate_key, validate_keys, validate_file_state, new_file_state,
  create, loaded, opened, open_store,
}
use go_judge.Identity.Kept.{IsSafe}

ok_injective : {s t : Store} → ◌≡◌ {A = Result OpenError Store} (ok s) (ok t) → s ≡ t
ok_injective e = cc

module _ (c : Crypto) where
  -- The private key is a seed of 32 bytes whose public key is the one stored beside it.
  pub record IsPair (k : KeyRecord) : Type 0 where
    pub seed : Bytes
    pub decoded : decode_seed c k.private_key ≡ some seed
    pub public : decode_public_key c k.public_key ≡ some (c.public_key seed)
    pub known : is_known k.status ≡ true

  abbrev pub AllPairs : List KeyRecord → Type 0
  AllPairs [] = Unit
  AllPairs (k ∷ keys) = IsPair k × AllPairs keys

  validate_key-IsPair : (k : KeyRecord) → validate_key c k ≡ none → IsPair k
  unfolding validate_key
  validate_key-IsPair k e = elim (Option-cases (decode_seed c k.private_key)) [
    | inl bad ↦ absurd (ground arith)
    | inr (seed, decoded) ↦ elim (Option-cases (decode_public_key c k.public_key)) [
      | inl bad ↦ absurd (ground arith)
      | inr (public, there) ↦ record {
        seed = seed;
        decoded = decoded;
        public = ground (arith, bytes_eq_iff (c.public_key seed) public);
        known = ground arith;
      }
    ]
  ]

  validate_keys-AllPairs : (keys : List KeyRecord) → validate_keys c keys ≡ none → AllPairs keys
  unfolding validate_keys
  validate_keys-AllPairs [] e = tt
  validate_keys-AllPairs (k ∷ keys) e =
      (validate_key-IsPair k (ground arith), validate_keys-AllPairs keys (ground arith))

  -- The store is that of a file whose keys are pairs, or a new one, whose first key is active.
  pub data IsOpened (read : FileRead) (s : Store) : Type 0 where
    from_file :
        (st : FileState)
        → read ≡ FileRead.contents (some st)
        → s.disk ≡ st
        → s.state.keys ≡ st.keys
        → s.state.pending_rotation ≡ st.pending_rotation
        → AllPairs st.keys
        → IsOpened read s
    created :
        read ≡ FileRead.missing
        → length s.state.keys ≡ 1
        → s.disk ≡ s.state
        → IsSafe s
        → IsOpened read s

  pub new-IsSafe :
      (name kind random public seed stamp : Bytes)
      → IsSafe record {
        state = new_file_state c name kind random public seed stamp;
        disk = new_file_state c name kind random public seed stamp;
      }
  unfolding new_file_state current_key find
  new-IsSafe name kind random public seed stamp = record {
    memory = record { held = record { holder = _; found = refl; usable = refl }; ready = tt };
    file = record { held = record { holder = _; found = refl; usable = refl }; ready = tt };
  }

  create-IsOpened :
      (pair : Option (Bytes × Bytes)) (w : Write) (name kind random stamp : Bytes) (s : Store)
      → create c pair w name kind random stamp ≡ ok s
      → IsOpened FileRead.missing s
  unfolding create commit new_file_state
  create-IsOpened none w name kind random stamp s e = absurd (cc)
  create-IsOpened (some (public, seed)) Write.written name kind random stamp s e =
      let st = new_file_state c name kind random public seed stamp in
      subst (IsOpened FileRead.missing) (ok_injective e)
        (created refl refl refl (new-IsSafe name kind random public seed stamp))
  create-IsOpened (some (public, seed)) Write.unwritten name kind random stamp s e = absurd (cc)
  create-IsOpened (some (public, seed)) Write.unsynced name kind random stamp s e = absurd (cc)

  loaded-IsOpened :
      (name kind : Bytes) (st : FileState) (s : Store)
      → loaded c name kind st ≡ ok s
      → IsOpened (FileRead.contents (some st)) s
  unfolding loaded validate_file_state
  loaded-IsOpened name kind st s e = elim (Option-cases (validate_file_state c st)) [
    | inr (bad, found) ↦ absurd (ground arith)
    | inl valid ↦
        from_file st refl (ground arith) (ground arith) (ground arith)
          (validate_keys-AllPairs st.keys (ground arith))
  ]

  opened-IsOpened :
      (read : FileRead) (w : Write) (draw : Draw) (name kind stamp : Bytes) (s : Store)
      → opened c read w draw name kind stamp ≡ ok s
      → IsOpened read s
  unfolding opened
  opened-IsOpened FileRead.missing w draw name kind stamp s e =
      create-IsOpened (draw.pair) w name kind draw.random_id stamp s e
  opened-IsOpened FileRead.failed w draw name kind stamp s e = absurd (cc)
  opened-IsOpened (FileRead.contents none) w draw name kind stamp s e = absurd (cc)
  opened-IsOpened (FileRead.contents (some st)) w draw name kind stamp s e =
      loaded-IsOpened name kind st s e

  -- A store that `Open` returns has the keys and the pending rotation of the file, each key's seed of
  -- 32 bytes belongs to the public key beside it and its status is a known one; or there was no file,
  -- and it has one key, in memory and in the new file, which is active and current.
  pub open_store-IsOpened :
      (hardened : Bool) (read : FileRead) (w : Write) (draw : Draw) (path name kind stamp : Bytes)
      (s : Store)
      → open_store c hardened read w draw path name kind stamp ≡ ok s
      → IsOpened read s
  unfolding open_store
  open_store-IsOpened hardened read w draw path name kind stamp s e =
      opened-IsOpened read w draw name kind stamp s (ground arith)
