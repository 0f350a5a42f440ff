-- ===== src/ResultQueue/Capacity.antt =====
-- The capacity of the result queue: internal/hnieoj/resultqueue/queue.go, `Reserve`, `Enqueue`,
-- `Release`, `Ack`, `Prune`, `MarkAttempt`.
use go_judge.Prelude.{
  ℕ, ◌+◌, ◌*◌, ◌-◌, ◌≤◌, ◌≡◌, ap, inl, inr, true, false, some, Bytes, bytes_eq_iff, Bool-cases,
  arith, if◌then◌else◌, length,
}
use go_judge.Prelude.Int.{pos, negsuc}
use go_judge.Prelude.Dict.{
  lookup, insert, delete, has, IsUnique, insert-IsUnique, delete-IsUnique, total, total-insert,
  total-insert_present, total-delete, length-insert, length-insert_present, length-delete,
  length-delete-le, has-lookup, has-lookup-none, has-insert, has-delete, delete_absent,
}
use go_judge.ResultQueue.Steps.{
  Step, keep, store, degrade, hold, drop, count, remove, Steps, here, next,
}
use go_judge.ResultQueue.{
  Record, Codec, Queue, event_size, admission_exceeds, commit, reserve, release, forget,
}

-- What holds between two calls: the maps are maps, no stored record is still reserved, the bytes in
-- use are counted, and the records together with the reservations, each at the size of the largest
-- record, fit the limits.
pub record IsSound (q : Queue) : Type 0 where
  pub records_unique : IsUnique q.records
  pub reservations_unique : IsUnique q.reservations
  pub counted : total event_size q.records ≤ q.bytes
  pub records_fit : length q.records + length q.reservations ≤ q.max_records
  pub disjoint : (id : Bytes) → has id q.reservations ≡ true → has id q.records ≡ false
  pub bytes_fit : q.bytes + length q.reservations * q.max_record ≤ q.max_bytes

pub forget-IsSound :
    (c : Codec) (id : Bytes) (r : Record) (q : Queue)
    → lookup id q.records ≡ some r
    → IsSound q
    → IsSound (forget c id r q)
unfolding forget
forget-IsSound c id r q found s = record {
  records_unique = delete-IsUnique id q.records s.records_unique;
  reservations_unique = s.reservations_unique;
  counted = omega (arith, total-delete event_size id r q.records s.records_unique found, s.counted);
  records_fit = omega (arith, length-delete-le id q.records, s.records_fit);
  disjoint = λ j h. ground (arith, has-delete id j q.records, s.disjoint j);
  bytes_fit = omega (arith, s.bytes_fit);
}

mul_mono : (a b m : ℕ) → a ≤ b → a * m ≤ b * m
mul_mono a b m h = grind arith

pub release-IsSound : (id : Bytes) (q : Queue) → IsSound q → IsSound (release id q)
unfolding release
release-IsSound id q s = record {
  records_unique = s.records_unique;
  reservations_unique = delete-IsUnique id q.reservations s.reservations_unique;
  counted = s.counted;
  records_fit = omega (arith, length-delete-le id q.reservations, s.records_fit);
  disjoint = λ j h. ground (arith, has-delete id j q.reservations, s.disjoint j);
  bytes_fit = omega (
    arith,
    mul_mono (length (delete id q.reservations)) (length q.reservations) q.max_record
        (length-delete-le id q.reservations),
    s.bytes_fit,
  );
}

-- The reservation of a new record, or the check made in its place, leaves room for it.
commit-fits :
    (r : Record) (q : Queue)
    → IsSound q
    → admission_exceeds q 1 (if has r.id q.reservations then negsuc 0 else pos 0) (event_size r)
      ≡ false
    → (length q.records + 1 + length (delete r.id q.reservations) ≤ q.max_records)
      × (q.bytes + event_size r + length (delete r.id q.reservations) * q.max_record ≤ q.max_bytes)
unfolding admission_exceeds
commit-fits r q s fits = elim (Bool-cases (has r.id q.reservations)) [
  | inl held ↦
      let shorter = length-delete r.id q.reservations s.reservations_unique held in
      ground (arith, shorter, ap (λ (t : ℕ). (t - 1) * q.max_record) shorter)
  | inr new ↦ ground (arith, delete_absent r.id q.reservations new)
]

pub commit-IsSound :
    (c : Codec) (r : Record) (raw : Bytes) (q : Queue)
    → IsSound q
    → has r.id q.records ≡ false
    → admission_exceeds q 1 (if has r.id q.reservations then negsuc 0 else pos 0) (event_size r)
      ≡ false
    → IsSound (commit c r raw q)
unfolding commit
commit-IsSound c r raw q s fresh fits = record {
  records_unique = insert-IsUnique r.id r q.records s.records_unique;
  reservations_unique = delete-IsUnique r.id q.reservations s.reservations_unique;
  counted = omega (arith, total-insert event_size r.id r q.records fresh, s.counted);
  records_fit = omega (arith, length-insert r.id r q.records fresh, commit-fits r q s fits);
  disjoint = λ j h.
      ground (arith, has-delete r.id j q.reservations, has-insert r.id j r q.records, s.disjoint j);
  bytes_fit = omega (arith, commit-fits r q s fits);
}

count-IsSound :
    (id : Bytes) (r : Record) (q : Queue)
    → lookup id q.records ≡ some r
    → IsSound q
    → IsSound (record q { records = insert id (record r { attempts = r.attempts + 1 }) q.records })
count-IsSound id r q found s =
    let again = record r { attempts = r.attempts + 1 } in
    record {
      records_unique = insert-IsUnique id again q.records s.records_unique;
      reservations_unique = s.reservations_unique;
      counted =
          omega (arith, total-insert_present event_size id again r q.records found, s.counted);
      records_fit = omega (
        arith,
        length-insert_present id again q.records (has-lookup id q.records found),
        s.records_fit,
      );
      disjoint = λ j h. ground (
        arith,
        bytes_eq_iff id j,
        has-insert id j again q.records,
        has-lookup id q.records found,
        s.disjoint j,
      );
      bytes_fit = s.bytes_fit;
    }

hold-IsSound :
    (id : Bytes) (q : Queue)
    → has id q.records ≡ false
    → has id q.reservations ≡ false
    → admission_exceeds q 0 (pos 1) 0 ≡ false
    → IsSound q
    → IsSound (record q { reservations = insert id tt q.reservations })
unfolding admission_exceeds
hold-IsSound id q unknown new fits s =
    let longer = length-insert id tt q.reservations new in
    record {
      records_unique = s.records_unique;
      reservations_unique = insert-IsUnique id tt q.reservations s.reservations_unique;
      counted = s.counted;
      records_fit = ground (arith, longer);
      disjoint =
          λ j h. ground (arith, bytes_eq_iff id j, has-insert id j tt q.reservations, s.disjoint j);
      bytes_fit = ground (arith, longer, ap (λ (t : ℕ). t * q.max_record) longer);
    }

pub reserve-IsSound : (id : Bytes) (q : Queue) → IsSound q → IsSound (reserve id q).0
unfolding reserve
reserve-IsSound id q s = ground (arith, hold-IsSound id q)

pub Step-IsSound : {c : Codec} {q t : Queue} → Step c q t → IsSound q → IsSound t
Step-IsSound keep s = s
Step-IsSound {c} {q} (store r raw _ _ _ fresh fits) s =
    commit-IsSound c r raw q s (has-lookup-none r.id q.records fresh) fits
Step-IsSound {q} degrade s = record {
  records_unique = s.records_unique;
  reservations_unique = s.reservations_unique;
  counted = s.counted;
  records_fit = s.records_fit;
  disjoint = s.disjoint;
  bytes_fit = s.bytes_fit;
}
Step-IsSound {q} (hold id unknown new fits) s = hold-IsSound id q unknown new fits s
Step-IsSound {q} (drop id) s = release-IsSound id q s
Step-IsSound {q} (count id r found) s = count-IsSound id r q found s
Step-IsSound {c} {q} (remove id r found) s = forget-IsSound c id r q found s

pub Steps-IsSound : {c : Codec} {q t : Queue} → Steps c q t → IsSound q → IsSound t
Steps-IsSound here s = s
Steps-IsSound (next st rest) s = Steps-IsSound rest (Step-IsSound st s)
