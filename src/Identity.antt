-- ===== src/Identity.antt =====
-- internal/hnieoj/identity/identity.go: the keys of a node, the file that keeps them, and the
-- operations on them. A time is its number of Unix milliseconds, and a stamp is its text.
pub mod Keys
mod State
mod Preparing
mod Switching
pub mod Signing
pub mod Opening
mod Opened
pub mod Find
pub mod Sound
mod Rotating
mod Activating
pub mod Calls
pub mod Changes
pub mod Kept
pub mod Always
mod Signed
mod Examples
unfoldable pub use State.*
unfoldable pub use Preparing.*
unfoldable pub use Switching.*
use go_judge.Identity.State.{FileState, Store, StoreError, Write, commit, update_at, named}
use go_judge.Prelude.{
  ℕ, zero, suc, Bytes, codes, bytes_eq, is_empty, Bool, true, false, not, ◌&&◌, Option, none, some,
  List, [], ◌∷◌, ◌++◌, if◌then◌else◌, get_elem?,
}
use go_judge.Prelude.Int.{ℤ, pos, leb_ℤ, ltb_ℤ}
use go_judge.Prelude.Ascii.{trim_space}
use go_judge.Identity.Keys.{KeyStatus, KeyRecord, index_by_public, current_key, is_expired, without}

-- `next.Keys[0].KeyID = keyID`, where there is a key.
abbrev pub name_current : Bytes → Option KeyRecord → List KeyRecord → List KeyRecord
name_current key_id (some k) keys =
    update_at (index_by_public keys k.public_key) (named key_id) keys
name_current key_id none keys = update_at (some zero) (named key_id) keys

unfoldable pub enrolled : Bytes → Bytes → Bytes → FileState → FileState
enrolled node_id key_id stamp st = record st {
  node_id = node_id;
  current_key_id = key_id;
  keys = name_current key_id (current_key key_id st.keys) st.keys;
  updated_at = stamp;
}

unfoldable pub apply_enrollment : Write → Bytes → Bytes → Bytes → Store → Store × Option StoreError
unfolding commit enrolled
apply_enrollment w node_id key_id stamp s =
    let node = trim_space node_id in
    let key = trim_space key_id in
    if is_empty node
    then (s, some StoreError.no_ids)
    else if is_empty key
    then (s, some StoreError.no_ids)
    else commit w (enrolled node key stamp s.state) s

-- The keys that stay, and whether one goes.
unfoldable pub kept_keys : ℤ → List KeyRecord → List KeyRecord × Bool
kept_keys now [] = ([], false)
kept_keys now (k ∷ keys) =
    let rest = kept_keys now keys in
    if is_expired now k then (rest.0, true) else (k ∷ rest.0, rest.1)

abbrev pub is_none_left : List KeyRecord → Bool
is_none_left [] = true
is_none_left (k ∷ keys) = false

unfoldable pub expire_grace : Write → ℤ → Bytes → Store → Store × Option StoreError
unfolding commit kept_keys
expire_grace w now stamp s =
    let kept = kept_keys now s.state.keys in
    if not (kept.1)
    then (s, none)
    else if is_none_left (kept.0)
    then (s, some StoreError.refuses_all)
    else commit w (record (s.state) { keys = kept.0; updated_at = stamp }) s
