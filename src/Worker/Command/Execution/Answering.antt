-- ===== src/Worker/Command/Execution/Answering.antt =====
-- worker/worker.go: what `workDoCmd` answers.
use go_judge.Prelude.{
  ℕ, ◌∙◌, ◌≡◌, refl, ap, sym, length-map, arith, Bytes, Bool, true, false, Option, none, some, List,
  [], ◌∷◌, map, length,
}
use mathlib.Core.List.{reverse}
use go_judge.Prelude.Result.{Result, ok, err}
use go_judge.EnvPool.{EnvPool, get_env}
use go_judge.Envexec.Results.{ExecResult}
use go_judge.Envexec.Descriptors.{Fault, failed, panicked}
use go_judge.Envexec.Commands.{PipeMap, ExecCmd}
use go_judge.Worker.Command.{Cmd, Response}
use go_judge.Envexec.Run.{Answers, single_run, group_run, run_single}
use go_judge.Worker.Command.Conversion.{convert_result}
use go_judge.Worker.Command.Prepare.{prepare_pipe_names}
use go_judge.Worker.Command.Execution.Lengths.{
  commands, get_envs-commands, length-prepare_pipe_names, length-prepare_all,
  length-convert_results,
}
use go_judge.Worker.Command.Execution.{
  Services, Request, prepare_group, with_id, failed_response, no_environment, observed, single_got,
  single_prepared, prepare_all, get_envs, group_answer, group_prepared, work_do_single,
  work_do_group, work_do_any, work_do_cmd,
}

-- The answer of a request has an error and no results, or no error and a result for each command.
pub data AnswersAll (n : ℕ) (r : Response) : Type 0 where
  fails : (e : Bytes) → r.error ≡ some e → r.results ≡ [] → AnswersAll n r
  answers : r.error ≡ none → length r.results ≡ n → AnswersAll n r

length-group_run :
    (f : Result Fault (List (List Bool))) (e : Bytes) (cs : List (ExecCmd × Answers))
    (rs : List ExecResult)
    → group_run f e cs ≡ some (ok rs)
    → length rs ≡ length cs
unfolding group_run
length-group_run (err panicked) e cs rs h = ground (arith, h)
length-group_run (err failed) e cs rs h = ground (arith, h)
length-group_run (ok files) e cs rs h =
    ground (arith, h, length-map cs (λ (c : ExecCmd × Answers). run_single c.0 c.1))

group_run-panics :
    (f : Result Fault (List (List Bool))) (e : Bytes) (cs : List (ExecCmd × Answers))
    → group_run f e cs ≡ none
    → f ≡ err panicked
unfolding group_run
group_run-panics (err panicked) e cs h = refl
group_run-panics (err failed) e cs h = ground (arith, h)
group_run-panics (ok files) e cs h = ground (arith, h)

single_got-AnswersAll :
    (w : Services) (rc : Cmd) (c : ExecCmd) (got : EnvPool × Option ℕ)
    → AnswersAll 1 (single_got w rc c got).1
unfolding single_got
single_got-AnswersAll w rc c (q, none) = answers refl refl
single_got-AnswersAll w rc c (q, some env) =
    by_run (single_run (w.prepare_error c env) c (w.observes c env))
  where
    by_run :
        (r : Result Bytes ExecResult)
        → AnswersAll 1 (elim r [
          | err e ↦ failed_response e
          | ok result ↦ record {
            request_id = [];
            results = (convert_result w.adds w.add_error result rc).0 ∷ [];
            error = none;
          }
        ])
    by_run (err e) = fails e refl refl
    by_run (ok r) = answers refl refl

single_prepared-AnswersAll :
    (w : Services) (rc : Cmd) (p : EnvPool) (c : Result Bytes ExecCmd)
    → AnswersAll 1 (single_prepared w rc p c).1
unfolding single_prepared
single_prepared-AnswersAll w rc p (err e) = fails e refl refl
single_prepared-AnswersAll w rc p (ok c) = single_got-AnswersAll w rc c (get_env (w.builds 0) p)

-- A group is answered, or the preparation of the files of its commands panics.
data Ends (w : Services) (pipes : List PipeMap) (cs : Result Bytes (List ExecCmd)) (n : ℕ)
    (o : Option Response) : Type 0 where
  ends : (r : Response) → o ≡ some r → AnswersAll n r → Ends w pipes cs n o
  panics :
      (held : List (ExecCmd × ℕ))
      → o ≡ none
      → cs ≡ ok (commands held)
      → prepare_group w held pipes ≡ err panicked
      → Ends w pipes cs n o

group_answer-Ends :
    (w : Services) (rc : List Cmd) (pipes : List PipeMap) (cs : List ExecCmd) (all : Bool)
    (held : List (ExecCmd × ℕ)) (run : Option (Result Bytes (List ExecResult)))
    → length cs ≡ length rc
    → (all ≡ true → commands held ≡ cs)
    → ((rs : List ExecResult) → run ≡ some (ok rs) → length rs ≡ length held)
    → (run ≡ none → prepare_group w held pipes ≡ err panicked)
    → Ends w pipes (ok cs) (length rc) (group_answer w rc cs all run)
unfolding group_answer
group_answer-Ends w rc pipes cs false held run n l h p =
    ends _ refl (answers refl (length-map cs (λ (c : ExecCmd). no_environment w.env_error) ∙ n))
group_answer-Ends w rc pipes cs true held none n l h p =
    panics held refl (ap ok (sym (l refl))) (p refl)
group_answer-Ends w rc pipes cs true held (some (err e)) n l h p = ends _ refl (fails e refl refl)
group_answer-Ends w rc pipes cs true held (some (ok rs)) n l h p = ends _ refl (
    answers refl (
      length-convert_results w rs rc (
        h rs refl
        ∙ sym (length-map held (λ (c : ExecCmd × ℕ). c.0))
        ∙ ap (λ (t : List ExecCmd). length t) (l refl)
        ∙ n)))

group_prepared-Ends :
    (w : Services) (rc : List Cmd) (pipes : List PipeMap) (p : EnvPool)
    (cs : Result Bytes (List ExecCmd))
    → ((l : List ExecCmd) → cs ≡ ok l → length l ≡ length rc)
    → Ends w pipes cs (length rc) (group_prepared w rc pipes p cs).1
unfolding group_prepared
group_prepared-Ends w rc pipes p (err e) h = ends _ refl (fails e refl refl)
group_prepared-Ends w rc pipes p (ok cs) h =
    let got = get_envs w.builds cs [] p in
    let held = reverse got.1 in
    group_answer-Ends w rc pipes cs got.2 held _ (h cs refl)
      (λ all. get_envs-commands w.builds cs [] p all)
      (λ rs e.
        length-group_run (prepare_group w held pipes) (w.prepare_group_error held pipes)
          (observed w held) rs e
        ∙ length-map {B = ExecCmd × Answers} held (λ (c : ExecCmd × ℕ). (c.0, w.observes c.0 c.1)))
      (group_run-panics (prepare_group w held pipes) (w.prepare_group_error held pipes)
        (observed w held))

-- The pipes and the commands of a request as `workDoGroup` makes them.
abbrev pub group_pipes : List PipeMap → Bytes → List PipeMap
group_pipes pm cpuset = map (λ (m : PipeMap). record m { cpuset = cpuset }) pm

abbrev pub group_commands : Services → List Cmd → List PipeMap → Bytes → Result Bytes (List ExecCmd)
group_commands w rc pm cpuset = prepare_all w rc (prepare_pipe_names pm (length rc)) cpuset

work_do_group-Ends :
    (w : Services) (rc : List Cmd) (pm : List PipeMap) (cpuset : Bytes) (p : EnvPool)
    → Ends w
        (group_pipes pm cpuset)
        (group_commands w rc pm cpuset)
        (length rc)
        (work_do_group w rc pm cpuset p).1
unfolding work_do_group
work_do_group-Ends w rc pm cpuset p = group_prepared-Ends w rc _ p _ (λ l.
    length-prepare_all w rc (prepare_pipe_names pm (length rc)) cpuset l
      (length-prepare_pipe_names pm (length rc)))

work_do_any-Ends :
    (w : Services) (rc : List Cmd) (pm : List PipeMap) (cpuset : Bytes) (p : EnvPool)
    → Ends w
        (group_pipes pm cpuset)
        (group_commands w rc pm cpuset)
        (length rc)
        (work_do_any w rc pm cpuset p).1
unfolding work_do_any work_do_single
work_do_any-Ends w [] pm cpuset p = work_do_group-Ends w [] pm cpuset p
work_do_any-Ends w (rc ∷ []) pm cpuset p = ends _ refl (single_prepared-AnswersAll w rc p _)
work_do_any-Ends w (rc ∷ rc' ∷ rest) pm cpuset p =
    work_do_group-Ends w (rc ∷ rc' ∷ rest) pm cpuset p

other_id :
    (n : ℕ) (id : Bytes) (r : Response)
    → AnswersAll n r
    → AnswersAll n (record r { request_id = id })
other_id n id r (fails e h k) = fails e h k
other_id n id r (answers h k) = answers h k

-- The request with this id is answered, or the preparation of the files of its commands panics.
pub data IsAnswered (w : Services) (req : Request) (cpuset : Bytes) (o : Option Response)
    : Type 0 where
  answered :
      (r : Response)
      → o ≡ some r
      → r.request_id ≡ req.request_id
      → AnswersAll (length req.cmd) r
      → IsAnswered w req cpuset o
  panicking :
      (held : List (ExecCmd × ℕ))
      → o ≡ none
      → group_commands w req.cmd req.pipe_mapping cpuset ≡ ok (commands held)
      → prepare_group w held (group_pipes req.pipe_mapping cpuset) ≡ err panicked
      → IsAnswered w req cpuset o

-- Unless `prepareFds` panics for its commands and its pipes, a request is answered under its own id,
-- with an error and no results, or with no error and exactly as many results as it has commands.
pub work_do_cmd-IsAnswered :
    (w : Services) (req : Request) (cpuset : Bytes) (p : EnvPool)
    → IsAnswered w req cpuset (work_do_cmd w req cpuset p).1
unfolding work_do_cmd
work_do_cmd-IsAnswered w req cpuset p =
    by_end (work_do_any w req.cmd req.pipe_mapping cpuset p).1
      (work_do_any-Ends w req.cmd req.pipe_mapping cpuset p)
  where
    by_end :
        (o : Option Response)
        → Ends w
            (group_pipes req.pipe_mapping cpuset)
            (group_commands w req.cmd req.pipe_mapping cpuset)
            (length req.cmd)
            o
        → IsAnswered w req cpuset (with_id req.request_id o)
    by_end o (ends r e a) =
        answered (record r { request_id = req.request_id }) (ap (with_id req.request_id) e) refl
          (other_id _ _ r a)
    by_end o (panics held e made h) = panicking held (ap (with_id req.request_id) e) made h
