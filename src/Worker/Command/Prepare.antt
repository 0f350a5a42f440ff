-- ===== src/Worker/Command/Prepare.antt =====
-- worker/worker.go: `prepareCmd`, `prepareCmdFiles`, `prepareCopyIn` and `preparePipeNames`.
use go_judge.Prelude.{
  ℕ, Bytes, codes, is_empty, ◌&&◌, Option, none, some, List, [], ◌∷◌, ◌++◌, ltb, ◌==◌,
  if◌then◌else◌, get_or, replicate, set,
}
use go_judge.Prelude.Int.{pos, ltb_ℤ, leb_ℤ, pos_part}
use go_judge.Prelude.Dict.{Dict, insert, has}
use go_judge.Prelude.Result.{Result, ok, err}
use go_judge.Envexec.Results.{CopyOutFile}
use go_judge.Envexec.Commands.{PipeMap, File, file_collector, ExecCmd}
use go_judge.Worker.Command.{CmdFile, env_file, Cmd, Config}

-- `preparePipeNames`.
unfoldable pub name_pipes : List PipeMap → ℕ → List (Dict (Unit {0})) → List (Dict (Unit {0}))
name_pipes [] l names = names
name_pipes (p ∷ pipes) l names =
    let i = pos_part p.in_end.index in
    if p.proxy && (leb_ℤ (pos 0) p.in_end.index && ltb_ℤ p.in_end.index (pos l))
    then name_pipes pipes l (set names i (insert p.name tt (get_or names i [])))
    else name_pipes pipes l names

unfoldable pub prepare_pipe_names : List PipeMap → ℕ → List (Dict (Unit {0}))
prepare_pipe_names pipes l = name_pipes pipes l (replicate l [])

-- `prepareCmdFiles`, with the names of the collectors added to `names`.
unfoldable pub prepare_cmd_files :
    (Bytes → Option File)
    → List (Option CmdFile)
    → Dict (Unit {0})
    → Result Bytes (List (Option File) × Dict (Unit {0}))
prepare_cmd_files store [] names = ok ([], names)
prepare_cmd_files store (none ∷ rest) names = elim (prepare_cmd_files store rest names) [
  | err e ↦ err e
  | ok p ↦ ok (none ∷ p.0, p.1)
]
prepare_cmd_files store (some f ∷ rest) names = elim (env_file store f) [
  | err e ↦ err e
  | ok file ↦
      let names' : Dict (Unit {0}) = elim file [
        | file_collector name limit pipe ↦ insert name tt names
        | _ ↦ names
      ] in
      elim (prepare_cmd_files store rest names') [
        | err e ↦ err e
        | ok p ↦ ok (some file ∷ p.0, p.1)
      ]
]

-- `prepareCopyIn`.
unfoldable pub prepare_copy_in :
    (Bytes → Option File) → Dict (Option CmdFile) → Result Bytes (Dict File)
prepare_copy_in store [] = ok []
prepare_copy_in store ((name, none) ∷ rest) =
    err (codes "nil type cannot be used for copyIn " ++ name)
prepare_copy_in store ((name, some f) ∷ rest) = elim (env_file store f) [
  | err e ↦ err e
  | ok file ↦ elim (prepare_copy_in store rest) [ err e ↦ err e | ok m ↦ ok (insert name file m) ]
]

-- The files to copy out that no pipe collects.
unfoldable pub unpiped : Dict (Unit {0}) → List CopyOutFile → List CopyOutFile
unpiped names [] = []
unpiped names (f ∷ rest) =
    let next = unpiped names rest in if has f.name names then next else f ∷ next

-- `prepareCmd`.
unfoldable pub prepare_cmd :
    Config → (Bytes → Option File) → Cmd → Dict (Unit {0}) → Bytes → Result Bytes ExecCmd
prepare_cmd w store rc names cpuset = elim (prepare_cmd_files store rc.files names) [
  | err e ↦ err e
  | ok p ↦ elim (prepare_copy_in store rc.copy_in) [
    | err e ↦ err e
    | ok copy_in ↦ ok (record {
      args = rc.args;
      env = rc.env;
      files = p.0;
      tty = rc.tty;
      time_limit = rc.cpu_limit;
      memory_limit = rc.memory_limit;
      stack_limit = rc.stack_limit;
      extra_memory_limit = w.extra_memory_limit;
      output_limit = if rc.output_limit == 0 then w.output_limit else rc.output_limit;
      proc_limit = rc.proc_limit;
      open_file_limit = if rc.open_file_limit == 0 then w.open_file_limit else rc.open_file_limit;
      cpu_rate_limit = rc.cpu_rate_limit;
      cpuset_limit = if is_empty rc.cpuset_limit then cpuset else rc.cpuset_limit;
      data_segment_limit = rc.data_segment_limit;
      address_space_limit = rc.address_space_limit;
      copy_in = copy_in;
      symlinks = rc.symlinks;
      copy_out = unpiped p.1 rc.copy_out ++ unpiped p.1 rc.copy_out_cached;
      copy_out_max = if ltb 0 rc.copy_out_max then rc.copy_out_max else w.copy_out_limit;
      copy_out_truncate = rc.copy_out_truncate;
      wait_tick = w.time_limit_tick_interval;
      wait_cpu = rc.cpu_limit;
      wait_clock = rc.clock_limit;
    })
  ]
]
