-- ===== src/Worker/Command/Execution/Lengths.antt =====
-- worker/worker.go: how many commands and results there are in `workDoGroup`.
use go_judge.Prelude.{
  ℕ, ◌∙◌, ◌≡◌, inl, inr, Option-cases, refl, ap, sym, arith, Bytes, Bool, true, List, [], ◌∷◌, ◌++◌,
  map, length, length-set, length-replicate, set, get_or, replicate,
}
use mathlib.Core.List.{reverse, reverse-cons, append-nil, append_assoc}
use go_judge.Prelude.Int.{pos_part}
use go_judge.Prelude.Dict.{Dict, insert}
use go_judge.Prelude.Result.{ok, Result-cases}
use go_judge.EnvPool.{EnvPool, get_env}
use go_judge.Envexec.Results.{ExecResult}
use go_judge.Envexec.Commands.{PipeMap, ExecCmd}
use go_judge.Worker.Command.{Cmd}
use go_judge.Worker.Command.Prepare.{prepare_cmd, name_pipes, prepare_pipe_names}
use go_judge.Worker.Command.Execution.{Services, prepare_all, get_envs, convert_results}

length-name_pipes :
    (pipes : List PipeMap) (l : ℕ) (names : List (Dict (Unit {0})))
    → length (name_pipes pipes l names) ≡ length names
unfolding name_pipes
length-name_pipes [] l names = refl
length-name_pipes (p ∷ pipes) l names =
    let i = pos_part p.in_end.index in
    let added : List (Dict (Unit {0})) = set names i (insert p.name tt (get_or names i [])) in
    ground (
      arith,
      length-name_pipes pipes l names,
      length-name_pipes pipes l added,
      length-set names i (insert p.name tt (get_or names i [])),
    )

pub length-prepare_pipe_names : (pm : List PipeMap) (l : ℕ) → length (prepare_pipe_names pm l) ≡ l
unfolding prepare_pipe_names
length-prepare_pipe_names pm l =
    omega
      (arith, length-name_pipes pm l (replicate l []), length-replicate {A = Dict (Unit {0})} l [])

-- A command is prepared for each command of the request.
pub length-prepare_all :
    (w : Services) (rc : List Cmd) (names : List (Dict (Unit {0}))) (cpuset : Bytes)
    (cs : List ExecCmd)
    → length names ≡ length rc
    → prepare_all w rc names cpuset ≡ ok cs
    → length cs ≡ length rc
unfolding prepare_all
length-prepare_all w [] names cpuset [] hn h = refl
length-prepare_all w [] names cpuset (c ∷ cs) hn h = ground (arith, h)
length-prepare_all w (c ∷ rc) [] cpuset cs hn h = omega (arith, hn)
length-prepare_all w (c ∷ rc) (n ∷ names) cpuset cs hn h =
    elim (Result-cases (prepare_cmd w.config w.get c n cpuset)) [
      | inr (e, h1) ↦ ground (arith, h1, h)
      | inl (c', h1) ↦ elim (Result-cases (prepare_all w rc names cpuset)) [
        | inr (e, h2) ↦ ground (arith, h1, h2, h)
        | inl (cs', h2) ↦
            ground
              (arith, h1, h2, h, length-prepare_all w rc names cpuset cs' (omega (arith, hn)) h2)
      ]
    ]

-- The commands that have their environments.
abbrev pub commands : List (ExecCmd × ℕ) → List ExecCmd
commands held = map (λ (c : ExecCmd × ℕ). c.0) held

commands-append : (xs ys : List (ExecCmd × ℕ)) → commands (xs ++ ys) ≡ commands xs ++ commands ys
commands-append [] ys = refl
commands-append (x ∷ xs) ys = ap (λ l. x.0 ∷ l) (commands-append xs ys)

-- If all have them, these are the commands asked for, in their order.
pub get_envs-commands :
    (builds : ℕ → Bool) (cs : List ExecCmd) (held : List (ExecCmd × ℕ)) (p : EnvPool)
    → (get_envs builds cs held p).2 ≡ true
    → commands (reverse (get_envs builds cs held p).1) ≡ commands (reverse held) ++ cs
unfolding get_envs
get_envs-commands builds [] held p h = sym (append-nil (commands (reverse held)))
get_envs-commands builds (c ∷ cs) held p h =
    elim (Option-cases (get_env (builds (length cs)) p).1) [
      | inl e ↦ absurd (ground (arith, e, h))
      | inr (x, e) ↦
          let l =
            get_envs-commands builds cs ((c, x) ∷ held) (get_env (builds (length cs)) p).0
              (ground (arith, e, h)) in
          let moved : commands (reverse ((c, x) ∷ held)) ++ cs
              ≡ commands (reverse held) ++ (c ∷ cs) =
            ap (λ t. commands t ++ cs) (reverse-cons (c, x) held)
            ∙ ap (λ t. t ++ cs) (commands-append (reverse held) ((c, x) ∷ []))
            ∙ append_assoc (commands (reverse held)) (c ∷ []) cs in
          rw (e, get_envs) (l ∙ moved)
    ]

pub length-convert_results :
    (w : Services) (rs : List ExecResult) (rc : List Cmd)
    → length rs ≡ length rc
    → length (convert_results w rs rc) ≡ length rc
unfolding convert_results
length-convert_results w [] rc h = h
length-convert_results w (r ∷ rs) [] h = omega (arith, h)
length-convert_results w (r ∷ rs) (c ∷ rc) h =
    omega (arith, length-convert_results w rs rc (omega (arith, h)))
