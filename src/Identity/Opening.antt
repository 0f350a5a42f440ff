-- ===== src/Identity/Opening.antt =====
-- internal/hnieoj/identity/identity.go: `Open`, which reads or creates the identity file, and what
-- the web panel is shown of it.
use go_judge.Prelude.{
  Bytes, codes, bytes_eq, is_empty, Bool, true, false, not, ◌&&◌, Option, none, some, List, [], ◌∷◌,
  if◌then◌else◌,
}
use go_judge.Prelude.Int.{ℤ, pos, eq_ℤ}
use go_judge.Prelude.Ascii.{trim_space}
use go_judge.Prelude.Result.{Result, ok, err}
use go_judge.Identity.{PendingRotation, FileState, Store, StoreError, Write, Draw, commit}
use go_judge.Identity.Keys.{KeyStatus, KeyRecord, current_key, is_grace}
use go_judge.Identity.Signing.{Crypto, decode_seed, decode_public_key}

pub data OpenError : Type 0 where
  no_path not_hardened unreadable unparsed wrong_version no_enrollment_id no_keys bad_seed
        bad_public_key mismatch unknown_status no_randomness not_persisted :
      OpenError

-- What `os.ReadFile` and `json.Unmarshal` give.
pub data FileRead : Type 0 where
  missing failed : FileRead
  contents : Option FileState → FileRead

abbrev pub is_known : KeyStatus → Bool
is_known KeyStatus.active = true
is_known KeyStatus.grace = true
is_known KeyStatus.pending = true
is_known KeyStatus.revoked = true
is_known (KeyStatus.other t) = false

module _ (c : Crypto) where
  abbrev pub checked_pair : Option Bytes → Option Bytes → KeyStatus → Option OpenError
  checked_pair none public status = some OpenError.bad_seed
  checked_pair (some seed) none status = some OpenError.bad_public_key
  checked_pair (some seed) (some public) status =
      if not (bytes_eq (c.public_key seed) public)
      then some OpenError.mismatch
      else if is_known status
      then none
      else some OpenError.unknown_status

  unfoldable pub validate_key : KeyRecord → Option OpenError
  unfolding decode_seed decode_public_key
  validate_key k =
      checked_pair (decode_seed c k.private_key) (decode_public_key c k.public_key) k.status

  abbrev pub first_of : Option OpenError → Option OpenError → Option OpenError
  first_of none rest = rest
  first_of (some e) rest = some e

  unfoldable pub validate_keys : List KeyRecord → Option OpenError
  unfolding validate_key
  validate_keys [] = none
  validate_keys (k ∷ keys) = first_of (validate_key k) (validate_keys keys)

  abbrev pub no_key : List KeyRecord → Bool
  no_key [] = true
  no_key (k ∷ keys) = false

  unfoldable pub validate_file_state : FileState → Option OpenError
  unfolding validate_keys
  validate_file_state st =
      if is_empty (trim_space st.enrollment_id)
      then some OpenError.no_enrollment_id
      else if no_key st.keys
      then some OpenError.no_keys
      else validate_keys st.keys

  abbrev pub or_given : Bytes → Bytes → Bytes
  or_given kept given = if not (is_empty given) && is_empty kept then given else kept

  unfoldable pub new_file_state : Bytes → Bytes → Bytes → Bytes → Bytes → Bytes → FileState
  new_file_state name kind random public seed stamp = record {
    version = pos 1;
    enrollment_id = random;
    node_name = name;
    node_type = kind;
    node_id = [];
    current_key_id = [];
    keys =
        record {
          key_id = [];
          public_key = public;
          private_key = seed;
          status = KeyStatus.active;
          created_at = stamp;
          grace_until = pos 0;
        }
        ∷ [];
    pending_rotation = none;
    created_at = stamp;
    updated_at = stamp;
  }

  abbrev pub persisted : Store × Option StoreError → Result OpenError Store
  persisted (s, none) = ok s
  persisted (s, some e) = err OpenError.not_persisted

  -- The store has no state before the first commit; the new one stands in for it.
  unfoldable pub create :
      Option (Bytes × Bytes) → Write → Bytes → Bytes → Bytes → Bytes → Result OpenError Store
  unfolding commit new_file_state
  create none w name kind random stamp = err OpenError.no_randomness
  create (some (public, seed)) w name kind random stamp =
      let st = new_file_state name kind random public seed stamp in
      persisted (commit w st record { state = st; disk = st })

  unfoldable pub loaded : Bytes → Bytes → FileState → Result OpenError Store
  unfolding validate_file_state
  loaded name kind st =
      if not (eq_ℤ st.version (pos 1))
      then err OpenError.wrong_version
      else elim (validate_file_state st) [
        | some e ↦ err e
        | none ↦ ok (record {
          state = record st {
            node_name = or_given st.node_name name;
            node_type = or_given st.node_type kind;
          };
          disk = st;
        })
      ]

  unfoldable pub opened : FileRead → Write → Draw → Bytes → Bytes → Bytes → Result OpenError Store
  unfolding create loaded
  opened FileRead.missing w draw name kind stamp =
      create (draw.pair) w name kind draw.random_id stamp
  opened FileRead.failed w draw name kind stamp = err OpenError.unreadable
  opened (FileRead.contents none) w draw name kind stamp = err OpenError.unparsed
  opened (FileRead.contents (some st)) w draw name kind stamp = loaded name kind st

  -- `Open`, with the outcomes of `HardenExisting`, of the read and of the write.
  unfoldable pub open_store :
      Bool → FileRead → Write → Draw → Bytes → Bytes → Bytes → Bytes → Result OpenError Store
  unfolding opened
  open_store hardened read w draw path name kind stamp =
      if is_empty (trim_space path)
      then err OpenError.no_path
      else if not hardened
      then err OpenError.not_hardened
      else opened read w draw name kind stamp

-- What the panel is shown: no private key.
pub record Public : Type 0 where
  pub enrollment_id : Bytes
  pub node_id : Bytes
  pub key_id : Bytes
  pub node_name : Bytes
  pub node_type : Bytes
  pub public_key : Bytes
  pub key_status : Option KeyStatus
  pub rotation_id : Bytes
  pub rotation_status : Bytes
  pub rotation_key_id : Bytes
  pub rotation_expires : ℤ
  pub grace_key_id : Bytes
  pub grace_until : ℤ

abbrev with_current : Option KeyRecord → Public → Public
with_current none v = v
with_current (some k) v = record v { public_key = k.public_key; key_status = some k.status }

-- The loop over the keys, in which the last one in grace stays.
unfoldable pub with_grace : List KeyRecord → Public → Public
with_grace [] v = v
with_grace (k ∷ keys) v = with_grace keys (
    if is_grace k.status
    then record v { grace_key_id = k.key_id; grace_until = k.grace_until }
    else v)

abbrev with_rotation : Option PendingRotation → Public → Public
with_rotation none v = v
with_rotation (some p) v = record v {
  rotation_id = p.rotation_id;
  rotation_key_id = p.new_key_id;
  rotation_expires = p.expires_at;
  rotation_status = if p.confirmed then codes "CONFIRMED_PENDING_SWITCH" else codes "PENDING";
}

unfoldable pub public_view : FileState → Public
unfolding with_grace current_key
public_view st = with_rotation (st.pending_rotation) (
    with_grace st.keys (
      with_current (current_key st.current_key_id st.keys) record {
        enrollment_id = st.enrollment_id;
        node_id = st.node_id;
        key_id = st.current_key_id;
        node_name = st.node_name;
        node_type = st.node_type;
        public_key = [];
        key_status = none;
        rotation_id = [];
        rotation_status = [];
        rotation_key_id = [];
        rotation_expires = pos 0;
        grace_key_id = [];
        grace_until = pos 0;
      }))
