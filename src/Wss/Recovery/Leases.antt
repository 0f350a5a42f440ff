-- ===== src/Wss/Recovery/Leases.antt =====
-- internal/hnieoj/wss/run.go: which leases `resume` renews.
use go_judge.Prelude.{
  ◌≡◌, ◌⊎◌, inl, inr, refl, sym, subst, ◌∙◌, Bytes, bytes_eq, bytes_eq_iff, true, false, Option,
  none, some, List, [], ◌∷◌, arith, Bool-cases,
}
use go_judge.Prelude.Int.{ℤ, pos, ltb_ℤ}
use go_judge.Prelude.Dict.{Dict, has, insert, has-insert}
use go_judge.Tasks.{Attempt, Registry, key, resume}
use go_judge.Tasks.InFlight.{attempt_at, renewed, resume_lem}
use go_judge.ResultQueue.{Queue}
use go_judge.Wss.Recovery.{
  ResumedTask, RejectedTask, ResumeResult, resume_list, resumed_map, rejected_map, goes_on,
  settle_resumed, settle,
}

-- The task stands in the map.
abbrev pub Holds : ResumedTask → Dict ResumedTask → Type 0
Holds x [] = ⊥
Holds x ((k, y) ∷ m) = (x ≡ y) ⊎ Holds x m

-- A task of the list has this key.
abbrev pub Rejects : Bytes → List RejectedTask → Type 0
Rejects k [] = ⊥
Rejects k (x ∷ xs) = (key x.submission_id x.judge_task_id x.attempt_id ≡ k) ⊎ Rejects k xs

rejected_map-has :
    (k : Bytes) (xs : List RejectedTask) (m : Dict (Unit {0}))
    → has k m ≡ true
    → has k (rejected_map xs m) ≡ true
unfolding rejected_map
rejected_map-has k [] m h = h
rejected_map-has k (x ∷ xs) m h =
    let j = key x.submission_id x.judge_task_id x.attempt_id in
    rejected_map-has k xs (insert j tt m) (ground (arith, has-insert j k tt m))

pub Rejects-has :
    (k : Bytes) (xs : List RejectedTask) (m : Dict (Unit {0}))
    → Rejects k xs
    → has k (rejected_map xs m) ≡ true
unfolding rejected_map
Rejects-has k [] m h = absurd h
Rejects-has k (x ∷ xs) m (inl e) =
    let j = key x.submission_id x.judge_task_id x.attempt_id in
    rejected_map-has k xs (insert j tt m) (ground (arith, has-insert j k tt m, bytes_eq_iff j k))
Rejects-has k (x ∷ xs) m (inr h) =
    Rejects-has k xs (insert (key x.submission_id x.judge_task_id x.attempt_id) tt m) h

-- The server has neither rejected nor completed the task, and its lease lies in the future.
pub record IsResumed (now : ℤ) (listed : List RejectedTask) (k : Bytes) (x : ResumedTask)
    : Type 0 where
  pub kept : ¬ Rejects k listed
  pub running : x.completed ≡ false
  pub stated : ltb_ℤ (pos 0) x.lease_until ≡ true
  pub future : ltb_ℤ now x.lease_until ≡ true

pub goes_on-IsResumed :
    (now : ℤ) (rejected : Dict (Unit {0})) (listed : List RejectedTask) (k : Bytes)
    (x : ResumedTask)
    → (Rejects k listed → has k rejected ≡ true)
    → goes_on now rejected k x ≡ true
    → IsResumed now listed k x
goes_on-IsResumed now rejected listed k x all h = record {
  kept = λ b. let bad = all b in ground (arith, h, bad);
  running = ground (arith, h);
  stated = ground (arith, h);
  future = ground (arith, h);
}

-- The attempt is as it was, or has the lease of a resumed task and the epoch of the session.
abbrev pub IsSettled :
    ℤ → ℤ → List RejectedTask → Dict ResumedTask → Bytes → Option Attempt → Option Attempt → Type 0
IsSettled now epoch listed resumed k before after =
    (after ≡ before)
    ⊎ ((x : ResumedTask) × Holds x resumed
        × IsResumed now listed k x
        × (key x.submission_id x.judge_task_id x.attempt_id ≡ k)
        × (after ≡ renewed x.lease_until epoch before))

renewed-renewed :
    (lease lease' epoch : ℤ) (o : Option Attempt)
    → renewed lease epoch (renewed lease' epoch o) ≡ renewed lease epoch o
renewed-renewed lease lease' epoch none = refl
renewed-renewed lease lease' epoch (some a) = refl

weaken-IsSettled :
    (now epoch : ℤ) (listed : List RejectedTask) (m : Dict ResumedTask) (i : Bytes)
    (y : ResumedTask) (k : Bytes) (before after : Option Attempt)
    → IsSettled now epoch listed m k before after
    → IsSettled now epoch listed ((i, y) ∷ m) k before after
weaken-IsSettled now epoch listed m i y k before after (inl h) = inl h
weaken-IsSettled now epoch listed m i y k before after (inr (x, h, g, e, u)) =
    inr (x, inr h, g, e, u)

renewed-IsSettled :
    (now epoch : ℤ) (listed : List RejectedTask) (m : Dict ResumedTask) (i : Bytes)
    (y : ResumedTask) (k : Bytes) (before middle after : Option Attempt)
    → IsResumed now listed k y
    → key y.submission_id y.judge_task_id y.attempt_id ≡ k
    → middle ≡ renewed y.lease_until epoch before
    → IsSettled now epoch listed m k middle after
    → IsSettled now epoch listed ((i, y) ∷ m) k before after
renewed-IsSettled now epoch listed m i y k before middle after g e h (inl same) =
    inr (y, inl refl, g, e, same ∙ h)
renewed-IsSettled now epoch listed m i y k before middle after g e h (inr (x, held, g', e', u)) =
    inr (x, inr held, g', e', u ∙ (rw h (renewed-renewed x.lease_until y.lease_until epoch before)))

-- Every task of the map stands under its key.
abbrev pub IsKeyed : Dict ResumedTask → Type 0
IsKeyed [] = Unit
IsKeyed ((k, x) ∷ m) = (key x.submission_id x.judge_task_id x.attempt_id ≡ k) × IsKeyed m

insert-IsKeyed :
    (x : ResumedTask) (m : Dict ResumedTask)
    → IsKeyed m
    → IsKeyed (insert (key x.submission_id x.judge_task_id x.attempt_id) x m)
unfolding insert
insert-IsKeyed x [] u = (refl, tt)
insert-IsKeyed x ((i, y) ∷ m) u = ground (
  arith,
  bytes_eq_iff i (key x.submission_id x.judge_task_id x.attempt_id),
  insert-IsKeyed x m u.1,
)

pub resumed_map-IsKeyed :
    (xs : List ResumedTask) (m : Dict ResumedTask) → IsKeyed m → IsKeyed (resumed_map xs m)
unfolding resumed_map
resumed_map-IsKeyed [] m u = u
resumed_map-IsKeyed (x ∷ xs) m u =
    let k = key x.submission_id x.judge_task_id x.attempt_id in
    ground (
      arith,
      resumed_map-IsKeyed xs m u,
      resumed_map-IsKeyed xs (insert k x m) (insert-IsKeyed x m u),
    )

settle_resumed-IsSettled :
    (now epoch : ℤ) (in_flight rejected : Dict (Unit {0})) (m : Dict ResumedTask) (r : Registry)
    (listed : List RejectedTask) (k : Bytes)
    → (Rejects k listed → has k rejected ≡ true)
    → IsKeyed m
    → IsSettled now epoch listed m k
        (attempt_at k r)
        (attempt_at k (settle_resumed now epoch in_flight rejected m r).0)
unfolding settle_resumed
settle_resumed-IsSettled now epoch in_flight rejected [] r listed k all _ = inl refl
settle_resumed-IsSettled now epoch in_flight rejected ((i, y) ∷ m) r listed k all (e, u) =
    let kept = settle_resumed-IsSettled now epoch in_flight rejected m r listed k all u in
    let after = attempt_at k (settle_resumed now epoch in_flight rejected m r).0 in
    let stay = weaken-IsSettled now epoch listed m i y k (attempt_at k r) after kept in
    let r' = (resume y.submission_id y.judge_task_id y.attempt_id y.lease_until epoch r).0 in
    let moved = settle_resumed-IsSettled now epoch in_flight rejected m r' listed k all u in
    let after' = attempt_at k (settle_resumed now epoch in_flight rejected m r').0 in
    let (_, change) =
      resume_lem y.submission_id y.judge_task_id y.attempt_id y.lease_until epoch r k in
    elim (Bool-cases (has i in_flight)) [
      | inr out ↦ rw out stay
      | inl active ↦ elim (Bool-cases (goes_on now rejected i y)) [
        | inr off ↦ rw (active, off) stay
        | inl on ↦
            elim (Bool-cases (bytes_eq (key y.submission_id y.judge_task_id y.attempt_id) k)) [
              | inl same ↦
                  let at : key y.submission_id y.judge_task_id y.attempt_id ≡ k =
                    ground
                      (arith, bytes_eq_iff (key y.submission_id y.judge_task_id y.attempt_id) k) in
                  rw (active, on)
                    (renewed-IsSettled now epoch listed m i y k (attempt_at k r) (attempt_at k r')
                      after'
                      (goes_on-IsResumed now rejected listed k y all
                        (subst (λ t. goes_on now rejected t y ≡ true) (sym e ∙ at) on))
                      at (ground (arith, change)) moved)
              | inr other ↦
                  let unchanged : attempt_at k r' ≡ attempt_at k r = ground (arith, change) in
                  rw (active, on)
                    (weaken-IsSettled now epoch listed m i y k (attempt_at k r) after'
                      (subst (λ o. IsSettled now epoch listed m k o after') unchanged moved))
            ]
      ]
    ]

-- A resumption changes an attempt only to give it the lease that the server states for it, which
-- lies in the future, and the epoch of the session, and only if the server neither rejects nor
-- completes it.
pub settle-IsSettled :
    (now epoch : ℤ) (asked : Registry) (queue : Option Queue) (result : ResumeResult) (r : Registry)
    (k : Bytes)
    → IsSettled now epoch result.rejected
        (resumed_map result.resumed [])
        k
        (attempt_at k r)
        (attempt_at k (settle now epoch asked queue result r).0)
unfolding settle
settle-IsSettled now epoch asked queue result r k =
    settle_resumed-IsSettled now epoch (resume_list asked queue).0 (rejected_map result.rejected [])
      (resumed_map result.resumed []) r result.rejected k (Rejects-has k result.rejected [])
      (resumed_map-IsKeyed result.resumed [] tt)
