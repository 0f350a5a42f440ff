-- ===== src/ResultQueue/Load.antt =====
-- internal/hnieoj/resultqueue/queue.go: `Open` and `load`.
use go_judge.Prelude.{
  ℕ, ◌+◌, ◌*◌, Bytes, codes, bytes_eq, is_empty, Bool, false, not, ◌||◌, Option, none, some, List,
  [], ◌∷◌, ltb, ◌==◌, if◌then◌else◌,
}
use go_judge.Prelude.Int.{ℤ, pos_part}
use go_judge.Prelude.Dict.{insert}
use go_judge.Prelude.Result.{Result, ok, err, ◌>>=◌}
use go_judge.ResultQueue.{Record, Codec, Queue, event_size, max_record_file_overhead}

-- An entry of the directory, with what `Info` and `os.ReadFile` answer for it.
pub record DirEntry : Type 0 where
  pub name : Bytes
  pub is_dir : Bool
  pub size : Option ℕ
  pub content : Option Bytes

pub data LoadError : Type 0 where
  mkdir_failed unreadable_dir no_info file_too_large too_many_records : LoadError
  unreadable_file corrupt_record event_too_large too_many_bytes : LoadError

-- `filepath.Ext` on a name without a slash: from its last dot on.
unfoldable pub ext : Bytes → Bytes
ext [] = []
ext (c ∷ s) =
    let after = ext s in if is_empty after then (if c == b'.' then c ∷ s else []) else after

unfoldable pub skipped : DirEntry → Bool
unfolding ext
skipped e = e.is_dir || not (bytes_eq (ext e.name) (codes ".json"))

-- The first loop of `load`: the sizes and the number of the files, before any is read.
unfoldable pub scan : Queue → ℕ → List DirEntry → Result LoadError (Unit {0})
unfolding skipped
scan q count [] = ok tt
scan q count (e ∷ es) =
    let skip = scan q count es in
    let next = scan q (count + 1) es in
    if skipped e then skip else elim e.size [
      | none ↦ err no_info
      | some size ↦
          if ltb (q.max_record + max_record_file_overhead) size
          then err file_too_large
          else if ltb q.max_records (count + 1)
          then err too_many_records
          else next
    ]

-- One round of the second loop of `load`, for a file that was read as `r`.
unfoldable pub take_in : Bytes → Bytes → Record → Queue → Queue
take_in name raw r q = record q {
  disk = insert name raw q.disk;
  records = insert r.id r q.records;
  bytes = q.bytes + event_size r;
}

unfoldable pub read_entry : Codec → DirEntry → Queue → Result LoadError Queue
unfolding take_in
read_entry c e q = elim e.content [
  | none ↦ err unreadable_file
  | some raw ↦ elim (c.unmarshal raw) [
    | none ↦ err corrupt_record
    | some r ↦
        if ltb q.max_record (event_size r)
        then err event_too_large
        else if ltb q.max_bytes (q.bytes + event_size r)
        then err too_many_bytes
        else ok (take_in e.name raw r q)
  ]
]

unfoldable pub read_entries : Codec → List DirEntry → Queue → Result LoadError Queue
unfolding skipped read_entry
read_entries c [] q = ok q
read_entries c (e ∷ es) q =
    let skip = read_entries c es q in
    if skipped e then skip else read_entry c e q >>= λ q'. read_entries c es q'

-- `load`, where `os.ReadDir` answers `entries`.
unfoldable pub load : Codec → Option (List DirEntry) → Queue → Result LoadError Queue
unfolding scan read_entries
load c none q = err unreadable_dir
load c (some entries) q = scan q 0 entries >>= λ _. read_entries c entries q

-- A limit that is not positive is replaced.
abbrev pub or_default : ℤ → ℕ → ℕ
or_default n d = if pos_part n == 0 then d else pos_part n

unfoldable pub empty_queue : ℤ → ℤ → ℤ → ℤ → Queue
empty_queue max_records max_bytes max_record ttl = record {
  max_records = or_default max_records 256;
  max_bytes = or_default max_bytes (64 * 1024 * 1024);
  max_record = or_default max_record (4 * 1024 * 1024);
  ttl = ttl;
  records = [];
  reservations = [];
  bytes = 0;
  degraded = false;
  disk = [];
}

-- `Open`: `made` says whether `securefile.MkdirAll` succeeds.
unfoldable pub open_queue :
    Codec → Bool → Option (List DirEntry) → ℤ → ℤ → ℤ → ℤ → Result LoadError Queue
unfolding load empty_queue
open_queue c made entries max_records max_bytes max_record ttl =
    if made
    then load c entries (empty_queue max_records max_bytes max_record ttl)
    else err mkdir_failed
