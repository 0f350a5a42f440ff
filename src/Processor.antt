-- ===== src/Processor.antt =====
-- internal/hnieoj/processor/processor.go: `Process`, the judging of one task from its receipt to its
-- final event. The other packages answer through a `World`; what the call leaves behind is a `Trace`.
pub mod Score
pub mod Reports
pub mod Terminal
pub mod Cleanup
pub mod Verdict
pub mod Reported
mod Examples
use go_judge.Prelude.{
  ℕ, zero, suc, ◌+◌, ◌/◌, ◌%◌, Bytes, codes, bytes_eq, is_empty, Bool, true, false, not, ◌&&◌,
  Option, none, some, List, [], ◌∷◌, ◌++◌, ltb, leb, ◌==◌, if◌then◌else◌, length,
}
use go_judge.Prelude.Int.{ℤ, pos, ◌+ℤ◌, leb_ℤ, eq_ℤ}
use go_judge.Prelude.Ascii.{trim_space, to_lower}
use go_judge.Prelude.Dict.{Dict, insert, delete, has}
use go_judge.Prelude.Result.{Result, ok, err}
use go_judge.Model.{
  Task, Program, Case, CaseResult, Event, EventType, status_changed, case_finished, judge_finished,
  judge_failed, compiling, running, accepted, system_error, judgement_failed, invalid_interaction,
  problem_type_acm, problem_type_oi, mode_default, mode_spj, mode_interactive, status_text,
  new_event,
}
use Score.{case_score}

pub record CompileResult : Type 0 where
  pub artifact_file_id : Bytes
  pub status : ℤ
  pub message : Bytes

pub record RunResult : Type 0 where
  pub status : ℤ
  pub time_ms : ℤ
  pub memory_kb : ℤ
  pub user_output : Bytes
  pub message : Bytes
  pub diagnostic_message : Bytes
  pub score : Option ℤ

-- The answer of `testdataClient.Ensure`.
pub data Ensured : Type 0 where
  ensured : List Case → Ensured
  permanent : Bytes → Ensured
  transient : Ensured

-- The answers of the other packages during one call; `none` is an error. `clock` and `delivers` take
-- the number of reports made before, the `run` functions the index of the case.
pub record World : Type 0 where
  pub revoked : Bool
  pub expired : Bool
  pub clock : ℕ → ℤ
  pub delivers : ℕ → Event → Bool
  pub ensures : Ensured
  pub compiles : Task → Option CompileResult
  pub compiles_program : Bytes → Bytes → Bytes → Option CompileResult
  pub runs : ℕ → Task → Case → Bytes → Option RunResult
  pub runs_spj : ℕ → Task → Case → Bytes → Bytes → Option RunResult
  pub runs_interactive : ℕ → Task → Case → Bytes → Bytes → Option RunResult

-- The events reported, with whether the report succeeded, the artifacts that compilers made, and
-- the calls that delete one; each oldest first.
pub record Trace : Type 0 where
  pub sent : List (Event × Bool)
  pub made : List Bytes
  pub deleted : List Bytes

-- `ErrRetryable` and `ErrNonRetryable`.
pub data Failure : Type 0 where
  retryable non_retryable : Failure

abbrev pub M : Type 0 → Type 0
M A = Trace → Trace × Result Failure A

-- An error ends the call.
abbrev pub proceed :
    {A B : Type 0} → (A → M B) → Trace × Result Failure A → Trace × Result Failure B
proceed f (t, ok a) = f a t
proceed f (t, err e) = (t, err e)

infixl 5 ◌>>=◌ ◌>>◌
abbrev pub ◌>>=◌ : {A B : Type 0} → M A → (A → M B) → M B
◌>>=◌ m f t = proceed f (m t)

abbrev pub ◌>>◌ : {A B : Type 0} → M A → M B → M B
◌>>◌ m k = m >>= λ _. k

abbrev pub return : {A : Type 0} → A → M A
return a t = (t, ok a)

abbrev pub fail : {A : Type 0} → Failure → M A
fail e t = (t, err e)

-- `if err != nil { return ErrRetryable{Err: err} }`.
abbrev pub or_retry : {A B : Type 0} → Option A → (A → M B) → M B
or_retry none f = fail retryable
or_retry (some a) f = f a

-- A report whose failure is retried later.
unfoldable pub report : World → (ℤ → Event) → M (Unit {0})
report w make t =
    let n = length t.sent in
    let event = make (w.clock n) in
    let done = w.delivers n event in
    (record t { sent = t.sent ++ (event, done) ∷ [] }, if done then ok tt else err retryable)

-- A report whose failure is ignored.
unfoldable pub report_quietly : World → (ℤ → Event) → M (Unit {0})
unfolding report
report_quietly w make t = ((report w make t).0, ok tt)

-- The event of `reportFailed`.
unfoldable pub failed_event : Task → ℕ → ℤ → Bytes → Bytes → ℤ → Event
failed_event task total status message diagnostic now =
    record (new_event now judge_failed task status total 0 0 none message) {
      diagnostic_message = diagnostic;
    }

-- What a compiler answers: an error ends the call, and an artifact is made.
unfoldable pub compiling_with : {A : Type 0} → Option CompileResult → (CompileResult → M A) → M A
compiling_with none f t = (t, err retryable)
compiling_with (some c) f t = f c (
    if is_empty c.artifact_file_id
    then t
    else record t { made = t.made ++ c.artifact_file_id ∷ [] })

-- `if artifact != "" { defer p.deleteArtifact(artifact) }`, over what follows it. An error of
-- `DeleteFile` is only logged, so the trace has the call.
unfoldable pub deferring : Bytes → M (Unit {0}) → M (Unit {0})
deferring artifact m t =
    if is_empty artifact
    then m t
    else let (t', r) = m t in (record t' { deleted = t'.deleted ++ artifact ∷ [] }, r)

-- `normalizeMode`.
unfoldable pub normalize_mode : Bytes → Bytes
normalize_mode mode = let m = to_lower (trim_space mode) in if is_empty m then mode_default else m

-- `supportedModeSet`.
unfoldable pub supported_mode_set : List Bytes → Dict (Unit {0})
supported_mode_set [] = insert (normalize_mode mode_default) tt []
supported_mode_set (mode ∷ []) = insert (normalize_mode mode) tt []
supported_mode_set (mode ∷ (next ∷ modes)) =
    insert (normalize_mode mode) tt (supported_mode_set (next ∷ modes))

-- `supports`.
unfoldable pub supports : Dict (Unit {0}) → Bytes → Bool
supports modes mode = has (normalize_mode mode) modes

-- `nextCase`.
unfoldable pub next_case : ℕ → ℕ → ℕ
next_case judged total = if leb total judged then total else judged + 1

-- `runCase`.
unfoldable pub run_case : World → Bytes → ℕ → Task → Case → Bytes → Bytes → Bytes → Option RunResult
run_case w mode i task tc user checker interactor =
    if bytes_eq mode mode_spj
    then w.runs_spj i task tc user checker
    else if bytes_eq mode mode_interactive
    then w.runs_interactive i task tc user interactor
    else w.runs i task tc user

-- `%d`.
decimal_digits : ℕ → ℕ → Bytes
decimal_digits zero n = []
decimal_digits (suc fuel) n =
    let high = decimal_digits fuel (n / 10) in
    if ltb n 10 then (b'0' + n) ∷ [] else high ++ (b'0' + n % 10) ∷ []

unfoldable pub decimal : ℕ → Bytes
unfolding decimal_digits
decimal n = decimal_digits (n + 1) n

-- The message of a case.
unfoldable pub case_message : ℕ → ℕ → RunResult → Bytes
case_message i total r =
    let head =
      codes "Test "
      ++ (decimal (i + 1)
          ++ (codes "/" ++ (decimal total ++ (codes " " ++ status_text r.status)))) in
    let detail = trim_space r.message in
    if is_empty detail then head else head ++ (codes ": " ++ detail)

-- The event of a case.
unfoldable pub case_event : Task → ℕ → ℕ → Case → RunResult → ℤ → Event
case_event task total i tc r now =
    record (new_event now case_finished task running total (i + 1) (next_case (i + 1) total)
      (some (record {
        case_id = tc.id;
        status = r.status;
        status_text = status_text r.status;
        time = r.time_ms;
        memory = r.memory_kb;
        score = case_score task total i r.status r.score;
        user_output = r.user_output;
        diagnostic_message = r.diagnostic_message;
      }))
      (case_message i total r)) { diagnostic_message = r.diagnostic_message }

-- The first status that is not `Accepted` stays.
abbrev pub worse : ℤ → ℤ → ℤ
worse final status = if not (eq_ℤ status accepted) && eq_ℤ final accepted then status else final

-- The loop over the cases from index `i` on, with the status and the score so far.
unfoldable pub judge_loop :
    World → Bytes → Task → ℕ → Bytes → Bytes → Bytes → ℕ → List Case → ℤ → ℤ → M (ℤ × ℤ)
judge_loop w mode task total user checker interactor i [] final score = return (final, score)
judge_loop w mode task total user checker interactor i (tc ∷ rest) final score =
    or_retry (run_case w mode i task tc user checker interactor) λ r.
      report w (case_event task total i tc r)
      >> judge_loop w mode task total user checker interactor (i + 1) rest (worse final r.status)
          (score +ℤ case_score task total i r.status r.score)

-- The score and the status of the last event, from those of the loop.
unfoldable pub final_score : Task → ℤ → ℤ → ℤ
final_score task final score =
    if eq_ℤ task.problem_type problem_type_acm && eq_ℤ final accepted then task.io_score else score

unfoldable pub final_status : Task → ℤ → ℤ → ℤ
unfolding final_score
final_status task final score =
    if eq_ℤ task.problem_type problem_type_oi && leb_ℤ task.io_score (final_score task final score)
    then accepted
    else final

unfoldable pub finished_event : Task → ℕ → ℤ → ℤ → ℤ → Event
finished_event task total final score now =
    record (new_event now judge_finished task (final_status task final score) total total total none
      (codes "Judge finished: " ++ status_text (final_status task final score))) {
        score = final_score task final score;
      }

-- `Process` from the second status event on.
unfoldable pub judge_cases : World → Bytes → Task → List Case → Bytes → Bytes → Bytes → M (Unit {0})
judge_cases w mode task cases user checker interactor = do
  report w
      (λ now. new_event now status_changed task running (length cases) 0 1 none (codes "Running"))
  totals ← judge_loop w mode task (length cases) user checker interactor 0 cases accepted (pos 0)
  report w (finished_event task (length cases) totals.0 totals.1)

-- The compilation of a checker or an interactor; `role` is its name, `status` the verdict without it.
unfoldable pub with_program :
    World → Task → ℕ → Bytes → ℤ → Option Program → (Bytes → M (Unit {0})) → M (Unit {0})
with_program w task total role status none next =
    report w (failed_event task total status (role ++ codes " is required") [])
with_program w task total role status (some p) next =
    compiling_with
      (w.compiles_program (task.submission_id ++ (codes ":" ++ (role ++ codes ":compile")))
        p.language p.source)
      λ c. deferring c.artifact_file_id (
        if eq_ℤ c.status accepted
        then next c.artifact_file_id
        else report w (failed_event task total status (role ++ codes " compile failed") c.message))

-- The switch over the mode.
unfoldable pub judge_with_mode : World → Bytes → Task → List Case → Bytes → M (Unit {0})
judge_with_mode w mode task cases user =
    if bytes_eq mode mode_spj
    then with_program w task (length cases) (codes "checker") judgement_failed task.checker
        (λ checker. judge_cases w mode task cases user checker [])
    else if bytes_eq mode mode_interactive
    then with_program w task (length cases) (codes "interactor") invalid_interaction task.interactor
        (λ interactor. judge_cases w mode task cases user [] interactor)
    else judge_cases w mode task cases user [] []

-- `Process` from the compilation on.
unfoldable pub compile_and_judge : World → Bytes → Task → List Case → M (Unit {0})
compile_and_judge w mode task cases =
    report w (λ now.
      new_event now status_changed task compiling (length cases) 0 0 none (codes "Compiling"))
    >> compiling_with (w.compiles task) λ c. deferring c.artifact_file_id (
        if eq_ℤ c.status accepted
        then judge_with_mode w mode task cases c.artifact_file_id
        else report w (failed_event task (length cases) c.status c.message []))

-- `Process` from the answer of `Ensure` on.
unfoldable pub judge_ensured : World → Bytes → Task → Ensured → M (Unit {0})
judge_ensured w mode task (ensured cases) = compile_and_judge w mode task cases
judge_ensured w mode task (permanent message) =
    report_quietly w (failed_event task 0 system_error message []) >> fail non_retryable
judge_ensured w mode task transient = fail retryable

-- `Process` between the entry into `inFlight` and the deferred `Delete`.
unfoldable pub judge : World → Dict (Unit {0}) → Task → M (Unit {0})
judge w modes task =
    let mode = normalize_mode task.judge_mode in
    if not (supports modes mode)
    then report_quietly w (
        failed_event task 0 system_error (codes "unsupported judge mode \"" ++ (mode ++ codes "\""))
          [])
      >> fail non_retryable
    else judge_ensured w mode task w.ensures

-- `taskKey`.
unfoldable pub task_key : Task → Bytes
task_key task = task.submission_id ++ (codes ":" ++ task.judge_task_id)

pub record Processor : Type 0 where
  pub supported_modes : Dict (Unit {0})
  pub in_flight : Dict (Unit {0})

abbrev pub no_trace : Trace
no_trace = record { sent = []; made = []; deleted = [] }

-- `Process`.
unfoldable pub process : World → Task → Processor → Processor × Trace × Result Failure (Unit {0})
process w task p =
    let key = task_key task in
    let (t, r) = judge w p.supported_modes task no_trace in
    if is_empty task.submission_id
    then (p, no_trace, err non_retryable)
    else if is_empty task.judge_task_id
    then (p, no_trace, err non_retryable)
    else if w.revoked
    then (p, no_trace, err non_retryable)
    else if w.expired
    then (p, no_trace, err retryable)
    else if has key p.in_flight
    then (p, no_trace, ok tt)
    else (record p { in_flight = delete key (insert key tt p.in_flight) }, t, r)
