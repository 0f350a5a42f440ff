-- ===== src/Wss/Channel.antt =====
-- internal/hnieoj/wss/client.go: which assignments are passed on, and how many attempts are in flight.
use go_judge.Prelude.{
  ℕ, ◌+◌, ◌≤◌, ◌≡◌, ◌⊎◌, inl, inr, refl, Bytes, bytes_eq_refl, true, false, Option, none, some, [],
  ◌∷◌, ◌++◌, arith,
}
use go_judge.Prelude.Int.{ℤ, pos, ◌≤ℤ◌, leb_ℤ}
use go_judge.Prelude.Dict.{has, length-insert, length-delete-le}
use go_judge.Tasks.{Attempt, key_of, Registry, len, has_attempt, prune_done, start, complete}
use go_judge.Tasks.InFlight.{stamped}
use go_judge.Wss.{
  TaskAssign, Client, Turn, approved_slots, ack_task, new_attempt, new_assignment, complete_attempt,
  offer, handle_assign,
}
use go_judge.Wss.Admission.{
  key_for, registered, pruned, start-has, begin-cases, handle_assign-cases,
}

-- The attempt is passed on, acknowledged and kept in flight, or it is not in the channel.
offer-cases :
    (t : Turn) (request_id : Bytes) (p : TaskAssign) (c : Client)
    → (((offer t request_id p c).0.assign_ch ≡ c.assign_ch)
        × (len (offer t request_id p c).0.registry ≤ len c.registry))
      ⊎ (offer t request_id p c ≡ (
        record c { assign_ch = c.assign_ch ++ new_assignment p t.cancel ∷ [] },
        ack_task t request_id p.task.submission_id p.task.judge_task_id p.attempt_id ∷ [],
      ))
unfolding offer complete_attempt complete prune_done
offer-cases t request_id p c = ground (arith, length-delete-le (key_for p) c.registry.entries)

start-own :
    (now : ℤ) (attempt : Attempt) (cancel : Option ℕ) (r : Registry)
    → has (key_of attempt) (start now attempt cancel r).0.entries ≡ true
start-own now attempt cancel r =
    rw (start-has now attempt cancel r (key_of attempt), bytes_eq_refl (key_of attempt)) refl

start-len :
    (now : ℤ) (attempt : Attempt) (cancel : Option ℕ) (r : Registry)
    → len (start now attempt cancel r).0 ≤ len r + 1
unfolding start
start-len now attempt cancel r = ground (
  arith,
  length-insert (key_of attempt)
      (record { attempt = stamped now attempt; cancel = cancel; on_lease = none }) r.entries,
)

-- An attempt is passed on to be executed only if the node is not draining, a slot is free and `Has`
-- does not know the attempt; it is then acknowledged once and in flight.
pub handle_assign-channel :
    (t : Turn) (request_id : Bytes) (p : TaskAssign) (c : Client)
    → let (c', outputs) = handle_assign t request_id (some p) c in
      (c'.assign_ch ≡ c.assign_ch)
      ⊎ ((c.local_draining ≡ false)
          × (c.remote_draining ≡ false)
          × (leb_ℤ (approved_slots c) (pos (len c.registry)) ≡ false)
          × ((has_attempt t.looked_at p.task.submission_id p.task.judge_task_id p.attempt_id
                c.registry).1
              ≡ false)
          × (has (key_for p) c'.registry.entries ≡ true)
          × (outputs
              ≡ ack_task t request_id p.task.submission_id p.task.judge_task_id p.attempt_id ∷ [])
          × (c'.assign_ch ≡ c.assign_ch ++ new_assignment p t.cancel ∷ []))
unfolding prune_done
handle_assign-channel t request_id p c = elim (handle_assign-cases t request_id p c) [
  | inl (_, _, same) ↦ inl same
  | inr (d, _, s, k, new, e) ↦ elim (begin-cases t request_id p (pruned t c) new) [
    | inl (_, f) ↦ inl (rw (e, f) refl)
    | inr (_, f) ↦ elim (offer-cases t request_id p (registered t p (pruned t c))) [
      | inl (same, _) ↦ inl (rw (e, f) same)
      | inr o ↦ inr (
        ground (arith, d),
        ground (arith, d),
        s,
        k,
        rw (e, f, o)
            (start-own t.started_at (new_attempt p c.epoch) (some t.cancel) (pruned t c).registry),
        rw (e, f, o) refl,
        rw (e, f, o) refl,
      )
    ]
  ]
]

-- An assignment does not bring the attempts in flight above the approved concurrency.
handle_assign-len :
    (t : Turn) (request_id : Bytes) (p : TaskAssign) (c : Client)
    → let (c', _) = handle_assign t request_id (some p) c in
      (len c'.registry ≤ len c.registry) ⊎ (pos (len c'.registry) ≤ℤ approved_slots c)
unfolding prune_done
handle_assign-len t request_id p c = elim (handle_assign-cases t request_id p c) [
  | inl (m, _, _) ↦ inl (rw m (omega arith))
  | inr (_, _, s, _, new, e) ↦ elim (begin-cases t request_id p (pruned t c) new) [
    | inl (_, f) ↦ inl (rw (e, f) (omega arith))
    | inr (_, f) ↦ inr (
        let grown =
          start-len t.started_at (new_attempt p c.epoch) (some t.cancel) (pruned t c).registry in
        elim (offer-cases t request_id p (registered t p (pruned t c))) [
          | inl (_, h) ↦ rw (e, f) (ground (arith, h, grown, s))
          | inr o ↦ rw (e, f, o) (ground (arith, grown, s))
        ])
  ]
]
