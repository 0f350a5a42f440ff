-- ===== src/ResultQueue/Opening.antt =====
-- internal/hnieoj/resultqueue/queue.go: a queue that `Open` returns is within its limits.
use go_judge.Prelude.{
  ℕ, ◌+◌, ◌≤◌, ◌≡◌, inl, inr, refl, subst, ◌∙◌, Bool, true, false, List, [], ◌∷◌, Option, none,
  some, Bytes, arith, length, if◌then◌else◌, Bool-cases, Option-cases,
}
use go_judge.Prelude.Int.{ℤ}
use go_judge.Prelude.Result.{ok, Result-cases}
use go_judge.Prelude.Dict.{
  Dict, lookup, insert, has, IsUnique, insert-IsUnique, total, total-insert, total-insert_present,
  length-insert, length-insert_present, has-lookup-none, has-lookup,
}
use go_judge.ResultQueue.{Record, Codec, Queue, event_size}
use go_judge.ResultQueue.Load.{
  DirEntry, skipped, scan, take_in, read_entry, read_entries, load, empty_queue, open_queue,
}
use go_judge.ResultQueue.Capacity.{IsSound}

-- The number of files that `load` takes for records.
abbrev pub kept : List DirEntry → ℕ
kept [] = 0
kept (e ∷ es) = if skipped e then kept es else kept es + 1

scan-le :
    (q : Queue) (n : ℕ) (es : List DirEntry)
    → n ≤ q.max_records
    → scan q n es ≡ ok tt
    → n + kept es ≤ q.max_records
unfolding scan
scan-le q n [] h e = omega arith
scan-le q n (e ∷ es) h done = ground (arith, scan-le q n es, scan-le q (n + 1) es)

-- A queue with nothing reserved, as it is while `load` runs.
record Loading (n : ℕ) (q : Queue) : Type 0 where
  records_unique : IsUnique q.records
  nothing_reserved : q.reservations ≡ []
  counted : total event_size q.records ≤ q.bytes
  few : length q.records ≤ n
  bytes_fit : q.bytes ≤ q.max_bytes

take_in-few :
    (r : Record) (m : Dict Record)
    → (length (insert r.id r m) ≤ length m + 1)
      × (total event_size (insert r.id r m) ≤ total event_size m + event_size r)
take_in-few r m = elim (Option-cases (lookup r.id m)) [
  | inl new ↦ (
    omega (arith, length-insert r.id r m (has-lookup-none r.id m new)),
    omega (arith, total-insert event_size r.id r m (has-lookup-none r.id m new)),
  )
  | inr (x, old) ↦ (
    omega (arith, length-insert_present r.id r m (has-lookup r.id m old)),
    omega (arith, total-insert_present event_size r.id r x m old),
  )
]

-- The fields that `load` leaves alone.
abbrev SameLimits : Queue → Queue → Type 0
SameLimits q t = (t.max_records ≡ q.max_records) × (t.max_bytes ≡ q.max_bytes)

pub read_entry-take_in :
    (c : Codec) (e : DirEntry) (q t : Queue)
    → read_entry c e q ≡ ok t
    → (raw : Bytes) × (r : Record) × (e.content ≡ some raw)
      × (c.unmarshal raw ≡ some r)
      × (event_size r ≤ q.max_record)
      × (q.bytes + event_size r ≤ q.max_bytes)
      × (t ≡ take_in e.name raw r q)
unfolding read_entry
read_entry-take_in c e q t done = elim (Option-cases e.content) [
  | inl unread ↦ absurd (ground arith)
  | inr (raw, read) ↦ elim (Option-cases (c.unmarshal raw)) [
    | inl corrupt ↦ absurd (ground arith)
    | inr (r, decoded) ↦ (raw, r, read, decoded, ground arith, ground arith, ground arith)
  ]
]

take_in-Loading :
    (name raw : Bytes) (r : Record) (n : ℕ) (q : Queue)
    → Loading n q
    → q.bytes + event_size r ≤ q.max_bytes
    → Loading (n + 1) (take_in name raw r q)
unfolding take_in
take_in-Loading name raw r n q l fits = record {
  records_unique = insert-IsUnique r.id r q.records l.records_unique;
  nothing_reserved = l.nothing_reserved;
  counted = omega (arith, take_in-few r q.records, l.counted);
  few = omega (arith, take_in-few r q.records, l.few);
  bytes_fit = fits;
}

take_in-SameLimits :
    (name raw : Bytes) (r : Record) (q : Queue) → SameLimits q (take_in name raw r q)
unfolding take_in
take_in-SameLimits name raw r q = (refl, refl)

read_entry-Loading :
    (c : Codec) (e : DirEntry) (n : ℕ) (q t : Queue)
    → Loading n q
    → read_entry c e q ≡ ok t
    → Loading (n + 1) t × SameLimits q t
read_entry-Loading c e n q t l done =
    let (raw, r, _, _, _, fits, eq) = read_entry-take_in c e q t done in
    rw eq (take_in-Loading e.name raw r n q l fits, take_in-SameLimits e.name raw r q)

read_entries-Loading :
    (c : Codec) (es : List DirEntry) (n : ℕ) (q t : Queue)
    → Loading n q
    → read_entries c es q ≡ ok t
    → Loading (n + kept es) t × SameLimits q t
unfolding read_entries
read_entries-Loading c [] n q t l done = ground arith
read_entries-Loading c (e ∷ es) n q t l done = elim (Bool-cases (skipped e)) [
  | inl skip ↦ rw skip (read_entries-Loading c es n q t l (ground arith))
  | inr keep ↦ elim (Result-cases (read_entry c e q)) [
    | inr (x, bad) ↦ absurd (ground arith)
    | inl (m, good) ↦
        let (first, limits) = read_entry-Loading c e n q m l good in
        let (rest, limits') = read_entries-Loading c es (n + 1) m t first (ground arith) in
        rw keep (
          subst (λ k. Loading k t) (omega arith) rest,
          (limits'.0 ∙ limits.0, limits'.1 ∙ limits.1),
        )
  ]
]

Loading-IsSound : (n : ℕ) (q : Queue) → Loading n q → n ≤ q.max_records → IsSound q
unfolding has lookup
Loading-IsSound n q l h = record {
  records_unique = l.records_unique;
  reservations_unique = rw l.nothing_reserved tt;
  counted = l.counted;
  records_fit = rw l.nothing_reserved (omega (arith, l.few));
  disjoint = λ id held. ground (arith, l.nothing_reserved);
  bytes_fit = rw l.nothing_reserved (omega (arith, l.bytes_fit));
}

load-IsSound :
    (c : Codec) (entries : List DirEntry) (q t : Queue)
    → Loading 0 q
    → load c (some entries) q ≡ ok t
    → IsSound t
unfolding load
load-IsSound c entries q t l done = elim (Result-cases (scan q 0 entries)) [
  | inr (x, bad) ↦ absurd (ground arith)
  | inl (_, good) ↦
      let (loaded, limits) = read_entries-Loading c entries 0 q t l (ground arith) in
      Loading-IsSound (0 + kept entries) t loaded
        (omega (arith, limits.0, scan-le q 0 entries (omega arith) (ground arith)))
]

empty_queue-Loading : (a b d ttl : ℤ) → Loading 0 (empty_queue a b d ttl)
unfolding empty_queue total
empty_queue-Loading a b d ttl = ground arith

-- Whatever the directory holds, a queue that `Open` returns satisfies the invariant: what is on
-- disk fits the limits, and nothing is reserved.
pub open_queue-IsSound :
    (c : Codec) (made : Bool) (entries : Option (List DirEntry))
    (max_records max_bytes max_record ttl : ℤ) (q : Queue)
    → open_queue c made entries max_records max_bytes max_record ttl ≡ ok q
    → IsSound q
unfolding open_queue
open_queue-IsSound c false entries a b d ttl q done = absurd (ground arith)
open_queue-IsSound c true none a b d ttl q done = absurd (unfold load in ground arith)
open_queue-IsSound c true (some entries) a b d ttl q done =
    load-IsSound c entries (empty_queue a b d ttl) q (empty_queue-Loading a b d ttl) done
