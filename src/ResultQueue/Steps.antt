-- ===== src/ResultQueue/Steps.antt =====
-- internal/hnieoj/resultqueue/queue.go as a step relation: the changes that its methods make.
use go_judge.Prelude.{
  ℕ, ◌+◌, ◌≤◌, ◌≡◌, inl, inr, Bool, true, false, none, some, [], ◌∷◌, Bytes, bytes_eq_iff,
  bytes_eq_refl, Bool-cases, arith, if◌then◌else◌, length,
}
use go_judge.Prelude.Int.{ℤ, pos, negsuc}
use go_judge.Prelude.Dict.{Dict, lookup, insert, has, IsUnique, lookup-delete}
use go_judge.ResultQueue.{
  Record, Codec, Queue, event_size, max_record_file_overhead, admission_exceeds, commit,
  enqueue_locked, enqueue, stamp, reserve, release, mark_attempt, forget, ack, is_stale, prune_loop,
  prune,
}

-- One change of the queue, with what its method has checked.
pub data Step (c : Codec) (q : Queue) : Queue → Type 0 where
  keep : Step c q q
  store :
      (r : Record) (raw : Bytes)
      → c.marshal r ≡ some raw
      → event_size r ≤ q.max_record
      → length raw ≤ q.max_record + max_record_file_overhead
      → lookup r.id q.records ≡ none
      → admission_exceeds q 1 (if has r.id q.reservations then negsuc 0 else pos 0) (event_size r)
        ≡ false
      → Step c q (commit c r raw q)
  degrade : Step c q (record q { degraded = true })
  hold :
      (id : Bytes)
      → has id q.records ≡ false
      → has id q.reservations ≡ false
      → admission_exceeds q 0 (pos 1) 0 ≡ false
      → Step c q (record q { reservations = insert id tt q.reservations })
  drop : (id : Bytes) → Step c q (release id q)
  count :
      (id : Bytes) (r : Record)
      → lookup id q.records ≡ some r
      → Step c q
          (record q { records = insert id (record r { attempts = r.attempts + 1 }) q.records })
  remove : (id : Bytes) (r : Record) → lookup id q.records ≡ some r → Step c q (forget c id r q)

pub data Steps (c : Codec) : Queue → Queue → Type 0 where
  here : {q : Queue} → Steps c q q
  next : {q s t : Queue} → Step c q s → Steps c s t → Steps c q t

enqueue_locked-Step :
    (c : Codec) (written : Bool) (r : Record) (raw : Bytes) (q : Queue)
    → c.marshal r ≡ some raw
    → event_size r ≤ q.max_record
    → length raw ≤ q.max_record + max_record_file_overhead
    → Step c q (enqueue_locked c written r raw q).0
unfolding enqueue_locked
enqueue_locked-Step c written r raw q m e l = grind (arith, keep, degrade, store)

pub enqueue-Step :
    (c : Codec) (now : ℤ) (written : Bool) (r : Record) (q : Queue)
    → Step c q (enqueue c now written r q).0
unfolding enqueue
enqueue-Step c now written r q = grind (arith, keep, enqueue_locked-Step c written (stamp now r))

pub reserve-Step : (c : Codec) (id : Bytes) (q : Queue) → Step c q (reserve id q).0
unfolding reserve
reserve-Step c id q = grind (arith, keep, hold)

pub mark_attempt-Step : (c : Codec) (id : Bytes) (q : Queue) → Step c q (mark_attempt id q)
unfolding mark_attempt
mark_attempt-Step c id q = grind (arith, keep, count)

pub ack-Step :
    (c : Codec) (removed synced : Bool) (id : Bytes) (q : Queue)
    → Step c q (ack c removed synced id q).0
unfolding ack
ack-Step c removed synced id q = grind (arith, keep, remove)

-- Every entry of the first map stands in the second.
abbrev AllAt : Dict Record → Dict Record → Type 0
AllAt [] all = Unit
AllAt ((id, r) ∷ m) all = (lookup id all ≡ some r) × AllAt m all

AllAt-forget :
    (c : Codec) (id : Bytes) (r : Record) (m : Dict Record) (q : Queue)
    → has id m ≡ false
    → AllAt m q.records
    → AllAt m (forget c id r q).records
unfolding forget has lookup
AllAt-forget c id r [] q h a = tt
AllAt-forget c id r ((j, x) ∷ m) q h a = ground (
  arith,
  lookup-delete id j q.records,
  bytes_eq_iff id j,
  bytes_eq_iff j id,
  AllAt-forget c id r m q,
)

prune_loop-Steps :
    (c : Codec) (removable : Bytes → Bool) (now : ℤ) (n : ℕ) (m : Dict Record) (q : Queue)
    → IsUnique m
    → AllAt m q.records
    → Steps c q (prune_loop c removable now n m q).0
unfolding prune_loop
prune_loop-Steps c removable now n [] q u a = here
prune_loop-Steps c removable now n ((id, r) ∷ m) q u a = elim (Bool-cases (is_stale now q.ttl r)) [
  | inr fresh ↦ rw fresh (prune_loop-Steps c removable now n m q u.1 a.1)
  | inl stale ↦ elim (Bool-cases (removable id)) [
    | inl gone ↦
        rw (stale, gone)
          (next (remove id r a.0) (
            prune_loop-Steps c removable now (n + 1) m (forget c id r q) u.1
              (AllAt-forget c id r m q u.0 a.1)))
    | inr stays ↦ rw (stale, stays) here
  ]
]

AllAt-cons :
    (id : Bytes) (r : Record) (all m : Dict Record)
    → AllAt m all
    → has id m ≡ false
    → AllAt m ((id, r) ∷ all)
unfolding has lookup
AllAt-cons id r all [] a h = tt
AllAt-cons id r all ((j, x) ∷ m) a h =
    ground (arith, bytes_eq_iff id j, bytes_eq_iff j id, AllAt-cons id r all m)

AllAt-self : (m : Dict Record) → IsUnique m → AllAt m m
unfolding lookup
AllAt-self [] u = tt
AllAt-self ((id, r) ∷ m) u =
    (ground (arith, bytes_eq_refl id), AllAt-cons id r m m (AllAt-self m u.1) u.0)

pub prune-Steps :
    (c : Codec) (removable : Bytes → Bool) (synced : Bool) (now : ℤ) (q : Queue)
    → IsUnique q.records
    → Steps c q (prune c removable synced now q).0
unfolding prune
prune-Steps c removable synced now q u =
    let idle : Steps c q q = here in
    let swept = prune_loop-Steps c removable now 0 q.records q u (AllAt-self q.records u) in
    ground arith
