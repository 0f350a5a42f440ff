-- ===== src/Worker/Command/Execution/Returning.antt =====
-- worker/worker.go: `workDoCmd` returns the environments that it takes.
use go_judge.Prelude.{ℕ, Bytes, Bool, false, Option, none, some, List, [], ◌∷◌, length}
use go_judge.Prelude.Result.{Result, ok, err}
use go_judge.EnvPool.{EnvPool, get_env, put_env}
use go_judge.EnvPool.Lending.{Lends, lent_by, get_env-Lends, put_env-Lends}
use go_judge.Envexec.Commands.{PipeMap, ExecCmd}
use go_judge.Worker.Command.{Cmd}
use go_judge.Worker.Command.Execution.{
  Services, Request, get_envs, put_envs, single_got, single_prepared, group_prepared,
  work_do_single, work_do_group, work_do_any, work_do_cmd,
}

abbrev envs_of : List (ExecCmd × ℕ) → List ℕ → List ℕ
envs_of [] lent = lent
envs_of ((c, e) ∷ held) lent = e ∷ envs_of held lent

put_envs-Lends :
    (resets : ℕ → Bool) (held : List (ExecCmd × ℕ)) (lent : List ℕ) (p : EnvPool)
    → Lends (envs_of held lent) p
    → Lends lent (put_envs resets held p)
unfolding put_envs
put_envs-Lends resets [] lent p l = l
put_envs-Lends resets ((c, e) ∷ held) lent p l =
    put_envs-Lends resets held lent (put_env (resets e) e p)
      (put_env-Lends (resets e) e (envs_of held lent) p l)

-- Whatever is held when a `Get` fails is returned.
got-Lends :
    (w : Services) (c : ExecCmd) (cs : List ExecCmd) (held : List (ExecCmd × ℕ)) (lent : List ℕ)
    (got : EnvPool × Option ℕ)
    → ((e : ℕ) (q : EnvPool)
        → Lends (e ∷ envs_of held lent) q
        → Lends lent (let g = get_envs w.builds cs ((c, e) ∷ held) q in put_envs w.resets g.1 g.0))
    → Lends (lent_by got.1 (envs_of held lent)) got.0
    → let g : EnvPool × List (ExecCmd × ℕ) × Bool = elim got.1 [
      | none ↦ (got.0, held, false)
      | some e ↦ get_envs w.builds cs ((c, e) ∷ held) got.0
    ] in
      Lends lent (put_envs w.resets g.1 g.0)
got-Lends w c cs held lent (q, none) next l = put_envs-Lends w.resets held lent q l
got-Lends w c cs held lent (q, some e) next l = next e q l

get_envs-Lends :
    (w : Services) (cs : List ExecCmd) (held : List (ExecCmd × ℕ)) (lent : List ℕ) (p : EnvPool)
    → Lends (envs_of held lent) p
    → Lends lent (let g = get_envs w.builds cs held p in put_envs w.resets g.1 g.0)
unfolding get_envs
get_envs-Lends w [] held lent p l = put_envs-Lends w.resets held lent p l
get_envs-Lends w (c ∷ cs) held lent p l =
    got-Lends w c cs held lent (get_env (w.builds (length cs)) p)
      (λ e q. get_envs-Lends w cs ((c, e) ∷ held) lent q)
      (get_env-Lends (w.builds (length cs)) (envs_of held lent) p l)

single_got-Lends :
    (w : Services) (rc : Cmd) (c : ExecCmd) (lent : List ℕ) (got : EnvPool × Option ℕ)
    → Lends (lent_by got.1 lent) got.0
    → Lends lent (single_got w rc c got).0
unfolding single_got
single_got-Lends w rc c lent (q, none) l = l
single_got-Lends w rc c lent (q, some env) l = put_env-Lends (w.resets env) env lent q l

single_prepared-Lends :
    (w : Services) (rc : Cmd) (lent : List ℕ) (p : EnvPool) (c : Result Bytes ExecCmd)
    → Lends lent p
    → Lends lent (single_prepared w rc p c).0
unfolding single_prepared
single_prepared-Lends w rc lent p (err e) l = l
single_prepared-Lends w rc lent p (ok c) l =
    single_got-Lends w rc c lent (get_env (w.builds 0) p) (get_env-Lends (w.builds 0) lent p l)

group_prepared-Lends :
    (w : Services) (rc : List Cmd) (pipes : List PipeMap) (lent : List ℕ) (p : EnvPool)
    (cs : Result Bytes (List ExecCmd))
    → Lends lent p
    → Lends lent (group_prepared w rc pipes p cs).0
unfolding group_prepared
group_prepared-Lends w rc pipes lent p (err e) l = l
group_prepared-Lends w rc pipes lent p (ok cs) l = get_envs-Lends w cs [] lent p l

work_do_any-Lends :
    (w : Services) (rc : List Cmd) (pm : List PipeMap) (cpuset : Bytes) (lent : List ℕ)
    (p : EnvPool)
    → Lends lent p
    → Lends lent (work_do_any w rc pm cpuset p).0
unfolding work_do_any work_do_single work_do_group
work_do_any-Lends w [] pm cpuset lent p l = group_prepared-Lends w [] _ lent p _ l
work_do_any-Lends w (rc ∷ []) pm cpuset lent p l = single_prepared-Lends w rc lent p _ l
work_do_any-Lends w (rc ∷ rc' ∷ rest) pm cpuset lent p l =
    group_prepared-Lends w (rc ∷ rc' ∷ rest) _ lent p _ l

-- If every environment built is in the pool, destroyed or lent, and only one of these, this holds
-- again when `workDoCmd` returns, with the same environments lent, whatever fails in between.
pub work_do_cmd-Lends :
    (w : Services) (req : Request) (cpuset : Bytes) (lent : List ℕ) (p : EnvPool)
    → Lends lent p
    → Lends lent (work_do_cmd w req cpuset p).0
unfolding work_do_cmd
work_do_cmd-Lends w req cpuset lent p l =
    work_do_any-Lends w req.cmd req.pipe_mapping cpuset lent p l
