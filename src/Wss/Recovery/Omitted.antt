-- ===== src/Wss/Recovery/Omitted.antt =====
-- internal/hnieoj/wss/run.go: which attempts `resume` cancels.
use go_judge.Prelude.{
  ℕ, ◌≡◌, inl, inr, refl, ◌∙◌, Bytes, bytes_eq, bytes_eq_iff, true, false, ◌||◌, Option, some, List,
  [], ◌∷◌, ◌++◌, arith, Bool-cases, Option-cases,
}
use go_judge.Prelude.Int.{ℤ}
use go_judge.Prelude.Dict.{Dict, has, insert, lookup, has-insert, has-lookup-none}
use go_judge.Tasks.{Registry, cancels, key, resume, cancel_attempt}
use go_judge.ResultQueue.{Queue}
use go_judge.Wss.Recovery.{
  ResumedTask, RejectedTask, ResumeResult, resume_list, resumed_map, rejected_map, cancel_rejected,
  goes_on, settle_resumed, split_key, cancel_omitted, settle,
}
use go_judge.Wss.Recovery.Leases.{
  Rejects, Rejects-has, IsKeyed, IsResumed, goes_on-IsResumed, resumed_map-IsKeyed,
}
use go_judge.Wss.Recovery.Callbacks.{
  IsCalled, IsCalled-left, IsCalled-right, cancel_of, cancel_attempt-IsCalled, resume-cancel_of,
}
use go_judge.Wss.Recovery.Parts.{split_key-join, split_key-key}

-- The calls for the rejected tasks, of which this attempt is one.
rejected-IsCalled :
    (xs : List RejectedTask) (m : Dict (Unit {0})) (r : Registry) (k : Bytes) (f : ℕ)
    → has k m ≡ false
    → has k (rejected_map xs m) ≡ true
    → cancel_of k r ≡ some f
    → IsCalled (cancels f) (cancel_rejected xs r)
unfolding rejected_map cancel_rejected
rejected-IsCalled [] m r k f out h c = cc
rejected-IsCalled (x ∷ xs) m r k f out h c =
    let j = key x.submission_id x.judge_task_id x.attempt_id in
    let calls = (cancel_attempt x.submission_id x.judge_task_id x.attempt_id r).1 in
    elim (Bool-cases (bytes_eq j k)) [
      | inl same ↦ IsCalled-left (cancels f) calls (cancel_rejected xs r) (
          cancel_attempt-IsCalled x.submission_id x.judge_task_id x.attempt_id r k f
            (ground (arith, bytes_eq_iff j k)) c)
      | inr other ↦
          IsCalled-right (cancels f) calls (cancel_rejected xs r)
            (rejected-IsCalled xs (insert j tt m) r k f (ground (arith, has-insert j k tt m)) h c)
    ]

-- The calls for the resumed tasks, of which this attempt is one that does not go on.
settle_resumed-IsCalled :
    (now epoch : ℤ) (in_flight rejected : Dict (Unit {0})) (m : Dict ResumedTask) (r : Registry)
    (k : Bytes) (f : ℕ) (x : ResumedTask)
    → IsKeyed m
    → has k in_flight ≡ true
    → lookup k m ≡ some x
    → goes_on now rejected k x ≡ false
    → cancel_of k r ≡ some f
    → IsCalled (cancels f) (settle_resumed now epoch in_flight rejected m r).1
unfolding settle_resumed lookup
settle_resumed-IsCalled now epoch in_flight rejected [] r k f x u a h g c = cc
settle_resumed-IsCalled now epoch in_flight rejected ((i, y) ∷ m) r k f x (e, u) a h g c =
    let rest = settle_resumed now epoch in_flight rejected m r in
    let renewal = resume y.submission_id y.judge_task_id y.attempt_id y.lease_until epoch r in
    let rest' = settle_resumed now epoch in_flight rejected m (renewal.0) in
    let calls = (cancel_attempt y.submission_id y.judge_task_id y.attempt_id r).1 in
    elim (Bool-cases (bytes_eq i k)) [
      | inl same ↦
          let at : i ≡ k = ground (arith, bytes_eq_iff i k) in
          let this : y ≡ x = ground arith in
          let stops : goes_on now rejected i y ≡ false = rw (at, this) g in
          let active : has i in_flight ≡ true = rw at a in
          rw (active, stops)
            (IsCalled-left (cancels f) calls rest.1 (
              cancel_attempt-IsCalled y.submission_id y.judge_task_id y.attempt_id r k f (e ∙ at)
                c))
      | inr other ↦
          let below : lookup k m ≡ some x = ground arith in
          let kept = settle_resumed-IsCalled now epoch in_flight rejected m r k f x u a below g c in
          elim (Bool-cases (has i in_flight)) [
            | inr out ↦ rw out kept
            | inl active ↦ elim (Bool-cases (goes_on now rejected i y)) [
              | inr off ↦ rw (active, off) (IsCalled-right (cancels f) calls rest.1 kept)
              | inl on ↦
                  rw (active, on)
                    (IsCalled-right (cancels f) (renewal.2) rest'.1 (
                      settle_resumed-IsCalled now epoch in_flight rejected m (renewal.0) k f x u a
                        below g
                        (resume-cancel_of y.submission_id y.judge_task_id y.attempt_id y.lease_until
                            epoch r k
                          ∙ c)))
            ]
          ]
    ]

settle_resumed-cancel_of :
    (now epoch : ℤ) (in_flight rejected : Dict (Unit {0})) (m : Dict ResumedTask) (r : Registry)
    (k : Bytes)
    → cancel_of k (settle_resumed now epoch in_flight rejected m r).0 ≡ cancel_of k r
unfolding settle_resumed
settle_resumed-cancel_of now epoch in_flight rejected [] r k = refl
settle_resumed-cancel_of now epoch in_flight rejected ((i, y) ∷ m) r k =
    let r' = (resume y.submission_id y.judge_task_id y.attempt_id y.lease_until epoch r).0 in
    ground (
      arith,
      settle_resumed-cancel_of now epoch in_flight rejected m r k,
      settle_resumed-cancel_of now epoch in_flight rejected m r' k,
      resume-cancel_of y.submission_id y.judge_task_id y.attempt_id y.lease_until epoch r k,
    )

-- The calls for what the server left out, of which this attempt is one.
cancel_omitted-IsCalled :
    (m : Dict (Unit {0})) (resumed : Dict ResumedTask) (rejected : Dict (Unit {0})) (r : Registry)
    (s j a : Bytes) (f : ℕ)
    → has (key s j a) m ≡ true
    → has (key s j a) resumed ≡ false
    → has (key s j a) rejected ≡ false
    → cancel_of (key s j a) r ≡ some f
    → IsCalled (cancels f) (cancel_omitted m resumed rejected r)
unfolding cancel_omitted has lookup
cancel_omitted-IsCalled [] resumed rejected r s j a f h p q c = cc
cancel_omitted-IsCalled ((i, y) ∷ m) resumed rejected r s j a f h p q c =
    let rest = cancel_omitted m resumed rejected r in
    elim (Bool-cases (bytes_eq i (key s j a))) [
      | inl same ↦
          let at : i ≡ key s j a = ground (arith, bytes_eq_iff i (key s j a)) in
          elim (Option-cases (split_key (key s j a))) [
            | inl out ↦ absurd (split_key-key s j a out)
            | inr (t, found) ↦
                rw (at, p, q, found)
                  (IsCalled-left (cancels f) (cancel_attempt (t.0) (t.1) (t.2) r).1 rest (
                    cancel_attempt-IsCalled (t.0) (t.1) (t.2) r (key s j a) f
                      (split_key-join (key s j a) t found) c))
          ]
      | inr other ↦
          let below : has (key s j a) m ≡ true = ground arith in
          let kept = cancel_omitted-IsCalled m resumed rejected r s j a f below p q c in
          elim (Bool-cases (has i resumed || has i rejected)) [
            | inl known ↦ rw known kept
            | inr omitted ↦ elim (Option-cases (split_key i)) [
              | inl out ↦ rw (omitted, out) kept
              | inr (t, found) ↦
                  rw (omitted, found)
                    (IsCalled-right (cancels f) (cancel_attempt (t.0) (t.1) (t.2) r).1 rest kept)
            ]
          ]
    ]

not_resumed :
    (now : ℤ) (rejected : Dict (Unit {0})) (listed : List RejectedTask) (k : Bytes)
    (x : ResumedTask)
    → (Rejects k listed → has k rejected ≡ true)
    → ¬ IsResumed now listed k x
    → goes_on now rejected k x ≡ false
not_resumed now rejected listed k x all n = elim (Bool-cases (goes_on now rejected k x)) [
  | inl on ↦ absurd (n (goes_on-IsResumed now rejected listed k x all on))
  | inr off ↦ off
]

-- An attempt in flight with a function to cancel it, which the server was asked about, is cancelled,
-- unless the server resumes it with a lease in the future and neither rejects nor completes it.
pub settle-cancels :
    (now epoch : ℤ) (asked : Registry) (queue : Option Queue) (result : ResumeResult) (r : Registry)
    (s j a : Bytes) (f : ℕ)
    → has (key s j a) (resume_list asked queue).0 ≡ true
    → cancel_of (key s j a) r ≡ some f
    → ((x : ResumedTask)
        → lookup (key s j a) (resumed_map result.resumed []) ≡ some x
        → ¬ IsResumed now result.rejected (key s j a) x)
    → IsCalled (cancels f) (settle now epoch asked queue result r).1
unfolding settle has
settle-cancels now epoch before queue result r s j a f asked c dropped =
    let k = key s j a in
    let in_flight = (resume_list before queue).0 in
    let resumed = resumed_map result.resumed [] in
    let rejected = rejected_map result.rejected [] in
    let settled = settle_resumed now epoch in_flight rejected resumed r in
    let first = cancel_rejected result.rejected r in
    let last = cancel_omitted in_flight resumed rejected (settled.0) in
    elim (Bool-cases (has k rejected)) [
      | inl bad ↦
          IsCalled-left (cancels f) first (settled.1 ++ last)
            (rejected-IsCalled result.rejected [] r k f refl bad c)
      | inr good ↦
          IsCalled-right (cancels f) first (settled.1 ++ last)
            (elim (Option-cases (lookup k resumed)) [
              | inl out ↦ IsCalled-right (cancels f) (settled.1) last (
                  cancel_omitted-IsCalled in_flight resumed rejected (settled.0) s j a f asked
                    (has-lookup-none k resumed out) good
                    (settle_resumed-cancel_of now epoch in_flight rejected resumed r k ∙ c))
              | inr (x, found) ↦ IsCalled-left (cancels f) (settled.1) last (
                  settle_resumed-IsCalled now epoch in_flight rejected resumed r k f x
                    (resumed_map-IsKeyed result.resumed [] tt) asked found
                    (not_resumed now rejected result.rejected k x (Rejects-has k result.rejected [])
                      (dropped x found))
                    c)
            ])
    ]
