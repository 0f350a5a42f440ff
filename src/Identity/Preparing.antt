-- ===== src/Identity/Preparing.antt =====
-- internal/hnieoj/identity/identity.go: a rotation until the server has confirmed it.
use go_judge.Prelude.{
  Bytes, bytes_eq, is_empty, true, false, Option, none, some, [], ◌∷◌, ◌++◌, if◌then◌else◌,
}
use go_judge.Prelude.Int.{ℤ, pos}
use go_judge.Prelude.Ascii.{trim_space}
use go_judge.Identity.Keys.{KeyStatus, KeyRecord, index_by_public}
use go_judge.Identity.State.{
  PendingRotation, FileState, Store, StoreError, Write, commit, update_at, named,
}

-- What `BeginRotation` takes from the generator: an identifier, and a key pair as text.
pub record Draw : Type 0 where
  pub random_id : Bytes
  pub pair : Option (Bytes × Bytes)

abbrev pub or_random : Bytes → Bytes → Bytes
or_random rotation_id random = if is_empty (trim_space rotation_id) then random else rotation_id

abbrev pub new_pending : Bytes → Bytes → Bytes → Bytes → PendingRotation
new_pending rotation_id public seed stamp = record {
  rotation_id = rotation_id;
  new_key_id = [];
  new_public_key = public;
  new_key = seed;
  confirm_nonce = [];
  expires_at = pos 0;
  confirmed = false;
  grace_until = pos 0;
  created_at = stamp;
}

abbrev pub pending_key : Bytes → Bytes → Bytes → KeyRecord
pending_key public seed stamp = record {
  key_id = [];
  public_key = public;
  private_key = seed;
  status = KeyStatus.pending;
  created_at = stamp;
  grace_until = pos 0;
}

unfoldable pub begun : Bytes → Bytes → Bytes → Bytes → FileState → FileState
begun rotation_id public seed stamp st = record st {
  keys = st.keys ++ pending_key public seed stamp ∷ [];
  pending_rotation = some (new_pending rotation_id public seed stamp);
  updated_at = stamp;
}

-- From the key pair on.
unfoldable pub begin_drawn :
    Write → Bytes → Bytes → Option (Bytes × Bytes) → Store → Store × Option StoreError
unfolding commit begun
begin_drawn w rotation_id stamp none s = (s, some StoreError.no_randomness)
begin_drawn w rotation_id stamp (some (public, seed)) s =
    commit w (begun rotation_id public seed stamp s.state) s

unfoldable pub begin_from :
    Option PendingRotation → Write → Draw → Bytes → Bytes → Store → Store × Option StoreError
unfolding begin_drawn
begin_from (some p) w draw rotation_id stamp s = (s, none)
begin_from none w draw rotation_id stamp s =
    begin_drawn w (or_random rotation_id draw.random_id) stamp (draw.pair) s

-- `BeginRotation`; what it returns is the pending rotation, unless there is an error.
unfoldable pub begin_rotation : Write → Draw → Bytes → Bytes → Store → Store × Option StoreError
unfolding begin_from
begin_rotation w draw rotation_id stamp s =
    begin_from (s.state.pending_rotation) w draw rotation_id stamp s

abbrev pub prepared_pending : Bytes → Bytes → ℤ → PendingRotation → PendingRotation
prepared_pending key_id nonce expires_at p = record p {
  new_key_id = key_id;
  confirm_nonce = nonce;
  expires_at = expires_at;
}

unfoldable pub prepared : PendingRotation → Bytes → Bytes → ℤ → Bytes → FileState → FileState
prepared p key_id nonce expires_at stamp st =
    if is_empty key_id then record st { updated_at = stamp } else record st {
      keys = update_at (index_by_public st.keys p.new_public_key) (named key_id) st.keys;
      pending_rotation = some (prepared_pending key_id nonce expires_at p);
      updated_at = stamp;
    }

unfoldable pub record_from :
    Option PendingRotation
    → Write
    → Bytes
    → Bytes
    → Bytes
    → ℤ
    → Bytes
    → Store
    → Store × Option StoreError
unfolding commit prepared
record_from none w rotation_id key_id nonce expires_at stamp s = (s, some StoreError.not_found)
record_from (some p) w rotation_id key_id nonce expires_at stamp s =
    if bytes_eq p.rotation_id rotation_id
    then commit w (prepared p key_id nonce expires_at stamp s.state) s
    else (s, some StoreError.not_found)

unfoldable pub record_rotation_prepared :
    Write → Bytes → Bytes → Bytes → ℤ → Bytes → Store → Store × Option StoreError
unfolding record_from
record_rotation_prepared w rotation_id key_id nonce expires_at stamp s =
    record_from (s.state.pending_rotation) w rotation_id key_id nonce expires_at stamp s

unfoldable pub confirmed_state : PendingRotation → ℤ → Bytes → FileState → FileState
confirmed_state p grace_until stamp st = record st {
  pending_rotation = some (record p { confirmed = true; grace_until = grace_until });
  updated_at = stamp;
}

unfoldable pub mark_from :
    Option PendingRotation → Write → ℤ → Bytes → Store → Store × Option StoreError
unfolding commit confirmed_state
mark_from none w grace_until stamp s = (s, some StoreError.nothing_to_confirm)
mark_from (some p) w grace_until stamp s = commit w (confirmed_state p grace_until stamp s.state) s

unfoldable pub mark_rotation_confirmed : Write → ℤ → Bytes → Store → Store × Option StoreError
unfolding mark_from
mark_rotation_confirmed w grace_until stamp s =
    mark_from (s.state.pending_rotation) w grace_until stamp s
