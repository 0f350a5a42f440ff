-- ===== src/Identity/Switching.antt =====
-- internal/hnieoj/identity/identity.go: the end of a rotation, with the new key or without it.
use go_judge.Prelude.{
  ℕ, Bytes, bytes_eq, is_empty, Bool, false, not, ◌&&◌, Option, none, some, List, [], if◌then◌else◌,
  get_elem?,
}
use go_judge.Prelude.Int.{ℤ}
use go_judge.Identity.Keys.{KeyStatus, KeyRecord, index_by_public, current_key, without}
use go_judge.Identity.State.{
  PendingRotation, FileState, Store, StoreError, Write, commit, update_at,
}

-- The old key, which keeps its identifier or takes the current one.
abbrev pub retired : Bytes → ℤ → KeyRecord → KeyRecord
retired old_id grace_until k = record k {
  status = KeyStatus.grace;
  grace_until = grace_until;
  key_id = if is_empty k.key_id then old_id else k.key_id;
}

abbrev pub activated_key : KeyRecord → KeyRecord
activated_key k = record k { status = KeyStatus.active }

abbrev pub public_of : Option KeyRecord → Bytes
public_of none = []
public_of (some k) = k.public_key

abbrev pub id_at : Option KeyRecord → Bytes
id_at none = []
id_at (some k) = k.key_id

unfoldable pub activated : PendingRotation → ℕ → Bytes → FileState → FileState
activated p i stamp st =
    let old = index_by_public st.keys (public_of (current_key st.current_key_id st.keys)) in
    let keys =
      update_at (some i) activated_key
        (update_at old (retired st.current_key_id p.grace_until) st.keys) in
    record st {
      keys = keys;
      current_key_id = id_at (get_elem? keys i);
      pending_rotation = none;
      updated_at = stamp;
    }

-- From the place of the new key on.
unfoldable pub activate_at :
    Option ℕ → PendingRotation → Write → Bytes → Store → Store × Option StoreError
unfolding commit activated
activate_at none p w stamp s = (s, some StoreError.key_missing)
activate_at (some i) p w stamp s = commit w (activated p i stamp s.state) s

unfoldable pub activate_from :
    Option PendingRotation → Write → Bytes → Store → Store × Option StoreError
unfolding activate_at
activate_from none w stamp s = (s, some StoreError.not_confirmed)
activate_from (some p) w stamp s =
    if not p.confirmed
    then (s, some StoreError.not_confirmed)
    else activate_at (index_by_public s.state.keys p.new_public_key) p w stamp s

unfoldable pub activate_rotated_key : Write → Bytes → Store → Store × Option StoreError
unfolding activate_from
activate_rotated_key w stamp s = activate_from (s.state.pending_rotation) w stamp s

-- `next.CurrentKeyID != "" && next.Keys[idx].KeyID == next.CurrentKeyID`.
abbrev pub is_current : Bytes → Option KeyRecord → Bool
is_current current none = false
is_current current (some k) = not (is_empty current) && bytes_eq k.key_id current

abbrev pub without_at : Option ℕ → List KeyRecord → List KeyRecord
without_at none keys = keys
without_at (some i) keys = without i keys

unfoldable pub discarded : Option ℕ → Bytes → FileState → FileState
discarded at stamp st = record st {
  keys = without_at at st.keys;
  pending_rotation = none;
  updated_at = stamp;
}

abbrev pub key_at : Option ℕ → List KeyRecord → Option KeyRecord
key_at none keys = none
key_at (some i) keys = get_elem? keys i

unfoldable pub discard_from :
    Option PendingRotation → Write → Bytes → Store → Store × Option StoreError
unfolding commit discarded
discard_from none w stamp s = (s, none)
discard_from (some p) w stamp s =
    let at = index_by_public s.state.keys p.new_public_key in
    if p.confirmed
    then (s, none)
    else if is_current s.state.current_key_id (key_at at s.state.keys)
    then (s, some StoreError.refuses_current)
    else commit w (discarded at stamp s.state) s

unfoldable pub discard_pending_rotation : Write → Bytes → Store → Store × Option StoreError
unfolding discard_from
discard_pending_rotation w stamp s = discard_from (s.state.pending_rotation) w stamp s
