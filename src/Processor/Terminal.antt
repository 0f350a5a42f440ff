-- ===== src/Processor/Terminal.antt =====
-- internal/hnieoj/processor/processor.go: how often the final event of a task is reported.
use go_judge.Prelude.{
  ℕ, ◌+◌, ◌≡◌, refl, subst, sym, Bytes, false, Option, none, some, List, [], ◌∷◌, arith, length,
  is_empty, bytes_eq,
}
use go_judge.Prelude.Int.{ℤ, pos, ◌+ℤ◌, eq_ℤ}
use go_judge.Prelude.Dict.{Dict, has}
use go_judge.Prelude.Result.{Result}
use go_judge.Model.{Task, Program, Case, mode_spj, mode_interactive, accepted, new_event}
use go_judge.Processor.{
  World, no_trace, Trace, judge_ensured, Failure, M, report, failed_event, finished_event,
  case_event, judge_loop, run_case, Ensured, ensured, permanent, transient, judge_cases,
  with_program, judge_with_mode, compile_and_judge, judge, worse, Processor, process, task_key,
  normalize_mode,
}
use go_judge.Processor.Score.{case_score}
use go_judge.Processor.Reports.{
  Ends, Closing, Quiet, report-Quiet, report-Closing, quietly-Closing, fail-Closing, bind-Closing,
  bind-Quiet, deferring-Closing, compiling-Closing, or_retry-Quiet, if-Closing,
}

judge_loop-Quiet :
    (w : World) (mode : Bytes) (task : Task) (total : ℕ) (user checker interactor : Bytes) (i : ℕ)
    (cases : List Case) (final score : ℤ)
    → Quiet (judge_loop w mode task total user checker interactor i cases final score)
unfolding judge_loop case_event new_event
judge_loop-Quiet w mode task total user checker interactor i [] final score = record {
  stays = λ t. refl;
}
judge_loop-Quiet w mode task total user checker interactor i (tc ∷ rest) final score =
    or_retry-Quiet (run_case w mode i task tc user checker interactor) _ (λ r.
      bind-Quiet (report w (case_event task total i tc r)) _
        (report-Quiet w (case_event task total i tc r) (λ now. refl))
        (λ _.
          judge_loop-Quiet w mode task total user checker interactor (i + 1) rest
            (worse final r.status) (score +ℤ case_score task total i r.status r.score)))

failed-Closing :
    (w : World) (task : Task) (total : ℕ) (status : ℤ) (message diagnostic : Bytes)
    → Closing (report w (failed_event task total status message diagnostic))
unfolding failed_event new_event
failed-Closing w task total status message diagnostic =
    report-Closing w (failed_event task total status message diagnostic) (λ now. refl)

judge_cases-Closing :
    (w : World) (mode : Bytes) (task : Task) (cases : List Case) (user checker interactor : Bytes)
    → Closing (judge_cases w mode task cases user checker interactor)
unfolding judge_cases finished_event new_event
judge_cases-Closing w mode task cases user checker interactor =
    bind-Closing (report w _) _ (report-Quiet w _ (λ now. refl)) (λ _.
      bind-Closing
        (judge_loop w mode task (length cases) user checker interactor 0 cases accepted (pos 0)) _
        (judge_loop-Quiet w mode task (length cases) user checker interactor 0 cases accepted
          (pos 0))
        (λ totals.
          report-Closing w (finished_event task (length cases) totals.0 totals.1) (λ now. refl)))

with_program-Closing :
    (w : World) (task : Task) (total : ℕ) (role : Bytes) (status : ℤ) (p : Option Program)
    (next : Bytes → M (Unit {0}))
    → ((artifact : Bytes) → Closing (next artifact))
    → Closing (with_program w task total role status p next)
unfolding with_program
with_program-Closing w task total role status none next c = failed-Closing w task total status _ _
with_program-Closing w task total role status (some p) next c =
    compiling-Closing (w.compiles_program _ p.language p.source) _ (λ r.
      deferring-Closing r.artifact_file_id _ (
        if-Closing (eq_ℤ r.status accepted) _ _ (c r.artifact_file_id)
          (failed-Closing w task total status _ _)))

judge_with_mode-Closing :
    (w : World) (mode : Bytes) (task : Task) (cases : List Case) (user : Bytes)
    → Closing (judge_with_mode w mode task cases user)
unfolding judge_with_mode
judge_with_mode-Closing w mode task cases user =
    if-Closing (bytes_eq mode mode_spj) _ _
      (with_program-Closing w task (length cases) _ _ task.checker _
        (λ checker. judge_cases-Closing w mode task cases user checker []))
      (if-Closing (bytes_eq mode mode_interactive) _ _
        (with_program-Closing w task (length cases) _ _ task.interactor _
          (λ interactor. judge_cases-Closing w mode task cases user [] interactor))
        (judge_cases-Closing w mode task cases user [] []))

compile_and_judge-Closing :
    (w : World) (mode : Bytes) (task : Task) (cases : List Case)
    → Closing (compile_and_judge w mode task cases)
unfolding compile_and_judge new_event
compile_and_judge-Closing w mode task cases =
    bind-Closing (report w _) _ (report-Quiet w _ (λ now. refl)) (λ _.
      compiling-Closing (w.compiles task) _ (λ c. deferring-Closing c.artifact_file_id _ (
        if-Closing (eq_ℤ c.status accepted) _ _
          (judge_with_mode-Closing w mode task cases c.artifact_file_id)
          (failed-Closing w task (length cases) c.status c.message []))))

ensured-Closing :
    (w : World) (mode : Bytes) (task : Task) (answer : Ensured)
    → Closing (judge_ensured w mode task answer)
unfolding judge_ensured failed_event new_event
ensured-Closing w mode task (ensured cases) = compile_and_judge-Closing w mode task cases
ensured-Closing w mode task (permanent message) = quietly-Closing w _
ensured-Closing w mode task transient = fail-Closing

judge-Closing : (w : World) (modes : Dict (Unit {0})) (task : Task) → Closing (judge w modes task)
unfolding judge failed_event new_event
judge-Closing w modes task =
    if-Closing _ _ _ (quietly-Closing w _)
      (ensured-Closing w (normalize_mode task.judge_mode) task w.ensures)

process-judge :
    (w : World) (task : Task) (p : Processor)
    → is_empty task.submission_id ≡ false
    → is_empty task.judge_task_id ≡ false
    → w.revoked ≡ false
    → w.expired ≡ false
    → has (task_key task) p.in_flight ≡ false
    → ◌≡◌ {A = Trace × Result Failure (Unit {0})}
        ((process w task p).1, (process w task p).2)
        (judge w p.supported_modes task no_trace)
unfolding process
process-judge w task p s j v x new = ground arith

-- A call of `Process` on a task that is not being processed, with identifiers and a valid credential,
-- delivers one final event if it succeeds, as its last report; none if the task is to be retried;
-- and at most one if not.
pub process-terminal :
    (w : World) (task : Task) (p : Processor)
    → is_empty task.submission_id ≡ false
    → is_empty task.judge_task_id ≡ false
    → w.revoked ≡ false
    → w.expired ≡ false
    → has (task_key task) p.in_flight ≡ false
    → let (_, t, r) = process w task p in Ends 0 (t, r)
unfolding process
process-terminal w task p s j v x new =
    subst (λ q. Ends 0 q) (sym (process-judge w task p s j v x new))
      ((judge-Closing w p.supported_modes task).ends no_trace)
