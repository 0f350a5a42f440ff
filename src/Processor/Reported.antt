-- ===== src/Processor/Reported.antt =====
-- internal/hnieoj/processor/processor.go: what the last event says of the results of the cases.
use go_judge.Prelude.{
  ℕ, suc, ◌+◌, ◌≡◌, refl, ap, Bytes, Bool, true, false, Option, none, some, List, [], ◌∷◌, ◌++◌,
  ◌∙◌, codes, length, if◌then◌else◌,
}
use go_judge.Prelude.Int.{ℤ, pos, ◌+ℤ◌}
use go_judge.Prelude.Result.{Result, ok, err}
use go_judge.Model.{Task, Case, Event, accepted, running, new_event, status_changed}
use go_judge.Processor.{
  World, Trace, Failure, retryable, proceed, or_retry, ◌>>=◌, ◌>>◌, report, case_event, run_case,
  RunResult, judge_loop, judge_cases, worse, finished_event,
}
use go_judge.Processor.Score.{case_score}
use go_judge.Processor.Verdict.{tally}

abbrev collect : Option RunResult → Option (List RunResult) → Option (List RunResult)
collect (some r) (some rs) = some (r ∷ rs)
collect _ _ = none

-- The results of the cases from index `i` on, if every one runs.
abbrev pub results :
    World → Bytes → Task → Bytes → Bytes → Bytes → ℕ → List Case → Option (List RunResult)
results w mode task user checker interactor i [] = some []
results w mode task user checker interactor i (tc ∷ rest) =
    collect (run_case w mode i task tc user checker interactor)
      (results w mode task user checker interactor (i + 1) rest)

abbrev pub last_report : List (Event × Bool) → Option (Event × Bool)
last_report [] = none
last_report (x ∷ []) = some x
last_report (x ∷ (y ∷ sent)) = last_report (y ∷ sent)

last_report-append :
    (sent : List (Event × Bool)) (x : Event × Bool) → last_report (sent ++ x ∷ []) ≡ some x
last_report-append [] x = refl
last_report-append (y ∷ []) x = refl
last_report-append (y ∷ (z ∷ sent)) x = last_report-append (z ∷ sent) x

-- The loop succeeded with the tally of `n` results, or is to be retried.
abbrev Totals :
    Task → ℕ → ℕ → ℕ → Option (List RunResult) → ℤ × ℤ → Trace × Result Failure (ℤ × ℤ) → Type 0
Totals task total i n answers so_far (t, ok totals) =
    (rs : List RunResult) × (answers ≡ some rs)
    × (length rs ≡ n)
    × (totals ≡ tally task total i rs so_far)
Totals task total i n answers so_far (t, err e) = e ≡ retryable

cons-Totals :
    (task : Task) (total i n : ℕ) (r : RunResult) (answers : Option (List RunResult))
    (final score : ℤ) (p : Trace × Result Failure (ℤ × ℤ))
    → Totals task total
        (i + 1)
        n
        answers
        (worse final r.status, score +ℤ case_score task total i r.status r.score)
        p
    → Totals task total i (suc n) (collect (some r) answers) (final, score) p
cons-Totals task total i n r answers final score (t, ok totals) (rs, e, l, h) =
    (r ∷ rs, ap (collect (some r)) e, ap suc l, h)
cons-Totals task total i n r answers final score (t, err e) h = h

judge_loop-Totals :
    (w : World) (mode : Bytes) (task : Task) (total : ℕ) (user checker interactor : Bytes) (i : ℕ)
    (cases : List Case) (final score : ℤ) (t : Trace)
    → Totals task total i
        (length cases)
        (results w mode task user checker interactor i cases)
        (final, score)
        (judge_loop w mode task total user checker interactor i cases final score t)
unfolding judge_loop report
judge_loop-Totals w mode task total user checker interactor i [] final score t =
    ([], refl, refl, refl)
judge_loop-Totals w mode task total user checker interactor i (tc ∷ rest) final score t =
    let answers = results w mode task user checker interactor (i + 1) rest in
    let n = length t.sent in
    elim (run_case w mode i task tc user checker interactor)
      as (λ o.
        Totals task total i (suc (length rest)) (collect o answers) (final, score)
          (or_retry o
            (λ r.
              report w (case_event task total i tc r)
              >> judge_loop w mode task total user checker interactor (i + 1) rest
                  (worse final r.status) (score +ℤ case_score task total i r.status r.score))
            t)) [
              | none ↦ refl
              | some r ↦
                  let e = case_event task total i tc r (w.clock n) in
                  let next =
                    judge_loop w mode task total user checker interactor (i + 1) rest
                      (worse final r.status) (score +ℤ case_score task total i r.status r.score) in
                  elim (w.delivers n e)
                    as (λ d.
                      Totals task total i (suc (length rest)) (collect (some r) answers)
                        (final, score)
                        (proceed {A = Unit} (λ _. next)
                          (
                            record t { sent = t.sent ++ (e, d) ∷ [] },
                            if d then ok tt else err retryable,
                          ))) [
                            | true ↦
                                cons-Totals task total i (length rest) r answers final score
                                  (next (record t { sent = t.sent ++ (e, true) ∷ [] }))
                                  (judge_loop-Totals w mode task total user checker interactor
                                    (i + 1) rest (worse final r.status)
                                    (score +ℤ case_score task total i r.status r.score)
                                    (record t { sent = t.sent ++ (e, true) ∷ [] }))
                            | false ↦ refl
                          ]
            ]

-- What the results of the cases make of the last report.
abbrev pub IsReported :
    World
    → Bytes
    → Task
    → List Case
    → Bytes
    → Bytes
    → Bytes
    → Trace × Result Failure (Unit {0})
    → Type 0
IsReported w mode task cases user checker interactor (t, err e) = e ≡ retryable
IsReported w mode task cases user checker interactor (t, ok a) =
    (rs : List RunResult) × (now : ℤ) × (results w mode task user checker interactor 0 cases
      ≡ some rs)
    × (length rs ≡ length cases)
    × (last_report t.sent
        ≡ some (
          finished_event task (length cases) (tally task (length cases) 0 rs (accepted, pos 0)).0
              (tally task (length cases) 0 rs (accepted, pos 0)).1 now,
          true,
        ))

finish-IsReported :
    (w : World) (mode : Bytes) (task : Task) (cases : List Case) (user checker interactor : Bytes)
    (p : Trace × Result Failure (ℤ × ℤ))
    → Totals task
        (length cases)
        0
        (length cases)
        (results w mode task user checker interactor 0 cases)
        (accepted, pos 0)
        p
    → IsReported w mode task cases user checker interactor
        (proceed (λ totals. report w (finished_event task (length cases) totals.0 totals.1)) p)
unfolding report
finish-IsReported w mode task cases user checker interactor (t, err e) h = h
finish-IsReported w mode task cases user checker interactor (t, ok totals) (rs, a, l, h) =
    let n = length t.sent in
    let e = finished_event task (length cases) totals.0 totals.1 (w.clock n) in
    elim (w.delivers n e)
      as (λ d.
        IsReported w mode task cases user checker interactor
          (record t { sent = t.sent ++ (e, d) ∷ [] }, if d then ok tt else err retryable)) [
            | true ↦ (
              rs,
              w.clock n,
              a,
              l,
              last_report-append t.sent (e, true)
                  ∙ ap (λ q. some (finished_event task (length cases) q.0 q.1 (w.clock n), true)) h,
            )
            | false ↦ refl
          ]

-- The judging of the cases either is to be retried, or every case has a result and the last report,
-- which was delivered, is the final event for the tally of those results.
pub judge_cases-IsReported :
    (w : World) (mode : Bytes) (task : Task) (cases : List Case) (user checker interactor : Bytes)
    (t : Trace)
    → IsReported w mode task cases user checker interactor
        (judge_cases w mode task cases user checker interactor t)
unfolding judge_cases report
judge_cases-IsReported w mode task cases user checker interactor t =
    let n = length t.sent in
    let e =
      new_event (w.clock n) status_changed task running (length cases) 0 1 none (codes "Running") in
    let rest = λ (x : Unit {0}).
      judge_loop w mode task (length cases) user checker interactor 0 cases accepted (pos 0)
      >>= (λ totals. report w (finished_event task (length cases) totals.0 totals.1)) in
    elim (w.delivers n e)
      as (λ d. IsReported w mode task cases user checker interactor (
        proceed rest
          (record t { sent = t.sent ++ (e, d) ∷ [] }, if d then ok tt else err retryable))) [
            | true ↦ finish-IsReported w mode task cases user checker interactor _ (
                judge_loop-Totals w mode task (length cases) user checker interactor 0 cases
                  accepted (pos 0) (record t { sent = t.sent ++ (e, true) ∷ [] }))
            | false ↦ refl
          ]
