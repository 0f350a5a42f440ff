-- ===== src/Wss/Admission.antt =====
-- internal/hnieoj/wss/client.go: an assignment and the room for its result in the queue.
use go_judge.Prelude.{
  ℕ, ◌≡◌, ◌⊎◌, inl, inr, Bytes, bytes_eq, bytes_eq_iff, bytes_eq_refl, Bool, true, false, ◌||◌,
  Option, none, some, [], ◌∷◌, if◌then◌else◌, arith,
}
use go_judge.Prelude.Int.{ℤ, pos, leb_ℤ}
use go_judge.Prelude.Dict.{Dict, delete, has, has-insert, has-delete}
use go_judge.Tasks.{
  Attempt, Entry, key, key_of, tells_done, Registry, len, has_attempt, prune_done, start, complete,
}
use go_judge.Tasks.InFlight.{stamped}
use go_judge.ResultQueue.{Queue, reserve, release}
use go_judge.Wss.{
  TaskAssign, Client, Turn, draining, approved_slots, mode_allowed, new_attempt,
  reserve_result_capacity, release_result_capacity, observe, complete_attempt, offer, begin, admit,
  handle_assign,
}

-- The queue has a record or a reservation under the identifier.
abbrev pub is_backed : Bytes → Queue → Bool
is_backed k q = has k q.records || has k q.reservations

-- Every attempt in flight has a record or a reservation in the result queue, if there is one.
abbrev pub Backs : Option Queue → Dict Entry → Type 0
Backs none m = Unit
Backs (some q) m = (k : Bytes) → has k m ≡ true → is_backed k q ≡ true

pub record IsBacked (c : Client) : Type 0 where
  pub backs : Backs c.queue c.registry.entries

reserve-backed :
    (id k : Bytes) (q : Queue) → is_backed k q ≡ true → is_backed k (reserve id q).0 ≡ true
unfolding reserve
reserve-backed id k q b = ground (arith, has-insert id k tt q.reservations)

reserve-own :
    (id : Bytes) (q : Queue) → (reserve id q).1 ≡ none → is_backed id (reserve id q).0 ≡ true
unfolding reserve
reserve-own id q e = ground (arith, has-insert id id tt q.reservations, bytes_eq_refl id)

pub start-has :
    (now : ℤ) (attempt : Attempt) (cancel : Option ℕ) (r : Registry) (k : Bytes)
    → has k (start now attempt cancel r).0.entries
      ≡ (if bytes_eq (key_of attempt) k then true else has k r.entries)
unfolding start
start-has now attempt cancel r k = ground (
  arith,
  has-insert (key_of attempt) k
      (record { attempt = stamped now attempt; cancel = cancel; on_lease = none }) r.entries,
  bytes_eq_iff (key_of attempt) k,
)

delete-Backs : (id : Bytes) (q : Option Queue) (m : Dict Entry) → Backs q m → Backs q (delete id m)
delete-Backs id none m b = tt
delete-Backs id (some q) m b = λ k h. b k (ground (arith, has-delete id k m))

release-Backs :
    (id : Bytes) (q : Option Queue) (m : Dict Entry)
    → Backs q m
    → Backs (release_result_capacity id q) (delete id m)
unfolding release_result_capacity release
release-Backs id none m b = tt
release-Backs id (some q) m b =
    λ k h. ground (arith, b k, has-delete id k m, has-delete id k q.reservations)

-- The result's room is given back when its attempt leaves the registry, not before.
complete-IsBacked :
    (t : Turn) (s j a : Bytes) (c : Client) → IsBacked c → IsBacked (complete_attempt t s j a c)
unfolding complete_attempt complete prune_done observe
complete-IsBacked t s j a c b =
    let m = delete (key s j a) c.registry.entries in
    record {
      backs =
          elim c.registry.done_observer
            as (λ o.
              Backs (observe (elim o [ none ↦ [] | some f ↦ tells_done f s j a ∷ [] ]) c.queue) m) [
                | none ↦ delete-Backs (key s j a) c.queue c.registry.entries b.backs
                | some f ↦ release-Backs (key s j a) c.queue c.registry.entries b.backs
              ];
    }

offer-IsBacked :
    (t : Turn) (request_id : Bytes) (p : TaskAssign) (c : Client)
    → IsBacked c
    → IsBacked (offer t request_id p c).0
unfolding offer
offer-IsBacked t request_id p c b =
    let s = p.task.submission_id in
    let j = p.task.judge_task_id in
    let a = p.attempt_id in grind (arith, complete-IsBacked t s j a c)

-- The attempt that starts has its room reserved.
start-Backs :
    (now : ℤ) (attempt : Attempt) (cancel : Option ℕ) (r : Registry) (q : Option Queue)
    → Backs q r.entries
    → let (q', reserved) = reserve_result_capacity (key_of attempt) q in
      reserved ≡ true → Backs q' (start now attempt cancel r).0.entries
unfolding reserve_result_capacity
start-Backs now attempt cancel r none b e = tt
start-Backs now attempt cancel r (some q) b e = λ k h. ground (
  arith,
  start-has now attempt cancel r k,
  bytes_eq_iff (key_of attempt) k,
  reserve-own (key_of attempt) q,
  reserve-backed (key_of attempt) k q,
  b k,
)

reserve-Backs :
    (id : Bytes) (q : Option Queue) (m : Dict Entry)
    → Backs q m
    → Backs (reserve_result_capacity id q).0 m
unfolding reserve_result_capacity
reserve-Backs id none m b = tt
reserve-Backs id (some q) m b = λ k h. reserve-backed id k q (b k h)

start-fresh :
    (now : ℤ) (attempt : Attempt) (cancel : Option ℕ) (r : Registry)
    → has (key_of attempt) r.entries ≡ false
    → (start now attempt cancel r).1 ≡ true
unfolding start
start-fresh now attempt cancel r new = ground arith

abbrev pub key_for : TaskAssign → Bytes
key_for p = key p.task.submission_id p.task.judge_task_id p.attempt_id

-- The client once an attempt is registered and its room is reserved.
abbrev pub registered : Turn → TaskAssign → Client → Client
registered t p c = record c {
  registry = (start t.started_at (new_attempt p c.epoch) (some t.cancel) c.registry).0;
  queue = (reserve_result_capacity (key_for p) c.queue).0;
}

pub begin-cases :
    (t : Turn) (request_id : Bytes) (p : TaskAssign) (c : Client)
    → has (key_for p) c.registry.entries ≡ false
    → (((reserve_result_capacity (key_for p) c.queue).1 ≡ false)
        × ((begin t request_id p c).0
            ≡ record c { queue = (reserve_result_capacity (key_for p) c.queue).0 }))
      ⊎ (((reserve_result_capacity (key_for p) c.queue).1 ≡ true)
          × (begin t request_id p c ≡ offer t request_id p (registered t p c)))
unfolding begin
begin-cases t request_id p c new =
    ground (arith, start-fresh t.started_at (new_attempt p c.epoch) (some t.cancel) c.registry new)

begin-IsBacked :
    (t : Turn) (request_id : Bytes) (p : TaskAssign) (c : Client)
    → has (key_for p) c.registry.entries ≡ false
    → IsBacked c
    → IsBacked (begin t request_id p c).0
begin-IsBacked t request_id p c new b = elim (begin-cases t request_id p c new) [
  | inl (_, e) ↦
      rw e (record { backs = reserve-Backs (key_for p) c.queue c.registry.entries b.backs })
  | inr (held, e) ↦ rw e (
      offer-IsBacked t request_id p (registered t p c) (record {
        backs =
            start-Backs t.started_at (new_attempt p c.epoch) (some t.cancel) c.registry c.queue
              b.backs held;
      }))
]

-- Nothing is registered, reserved or passed on.
abbrev pub Rests : Client → Client → Type 0
Rests c c' =
    (c'.registry.entries ≡ c.registry.entries) × (c'.queue ≡ c.queue) × (c'.assign_ch ≡ c.assign_ch)

-- The client after `Has` pruned the attempts that ended long ago.
abbrev pub pruned : Turn → Client → Client
pruned t c = record c { registry = prune_done t.looked_at c.registry }

pub handle_assign-cases :
    (t : Turn) (request_id : Bytes) (p : TaskAssign) (c : Client)
    → Rests c (handle_assign t request_id (some p) c).0
      ⊎ ((draining c ≡ false)
          × (mode_allowed c p.task.judge_mode ≡ true)
          × (leb_ℤ (approved_slots c) (pos (len c.registry)) ≡ false)
          × ((has_attempt t.looked_at p.task.submission_id p.task.judge_task_id p.attempt_id
                c.registry).1
              ≡ false)
          × (has (key_for p) c.registry.entries ≡ false)
          × (handle_assign t request_id (some p) c ≡ begin t request_id p (pruned t c)))
unfolding handle_assign admit has_attempt prune_done mode_allowed approved_slots
handle_assign-cases t request_id p c = ground arith

-- After any assignment, every attempt in flight still has a record or a reservation in the result
-- queue, if it was so before.
pub handle_assign-IsBacked :
    (t : Turn) (request_id : Bytes) (frame : Option TaskAssign) (c : Client)
    → IsBacked c
    → IsBacked (handle_assign t request_id frame c).0
unfolding handle_assign prune_done
handle_assign-IsBacked t request_id none c b = b
handle_assign-IsBacked t request_id (some p) c b = elim (handle_assign-cases t request_id p c) [
  | inl (m, q, _) ↦ record { backs = rw (m, q) b.backs }
  | inr (_, _, _, _, new, e) ↦
      rw e (begin-IsBacked t request_id p (pruned t c) new (record { backs = b.backs }))
]
