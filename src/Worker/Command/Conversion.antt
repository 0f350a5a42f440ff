-- ===== src/Worker/Command/Conversion.antt =====
-- worker/worker.go: `convertResult`, and what becomes of the files of a result.
pub mod Closing
use go_judge.Prelude.{
  ℕ, ◌+◌, ◌≡◌, ◌⊎◌, inl, inr, refl, ap, Bytes, bytes_eq, bytes_eq_iff, Bool, true, false, not, ◌&&◌,
  ◌||◌, Option, none, some, List, [], ◌∷◌, ◌++◌, ◌==◌, if◌then◌else◌, arith, Option-cases,
  Bool-cases,
}
use go_judge.Prelude.Int.{ℤ, pos, ltb_ℤ, eq_ℤ}
use go_judge.Prelude.Dict.{Dict, insert, has, lookup, total, total-insert, has-insert, IsUnique}
use go_judge.Prelude.Count.{count, count-append}
use go_judge.Envexec.Results.{
  CopyOutFile, ExecResult, status_time_limit_exceeded, status_file_error, status_signalled,
  status_internal_error,
}
use go_judge.Worker.Command.{Cmd, CmdResult}

-- `copyOutCachedSet`.
unfoldable pub cached_set : List CopyOutFile → Dict (Unit {0})
cached_set [] = []
cached_set (f ∷ rest) = insert f.name tt (cached_set rest)

-- What the loop over the files leaves: `res.Files`, `res.FileIDs`, `cachedAdded`, the files closed
-- in it, and the error of the file store.
pub record Sorted : Type 0 where
  pub files : Dict ℕ
  pub file_ids : Dict Bytes
  pub added : Dict (Unit {0})
  pub closed : List ℕ
  pub failed : Bool

-- One file of the loop, by whether its name is cached and by what `FileStore.Add` returns for it.
unfoldable pub sort_file : Bool → Option Bytes → Bytes → ℕ → Sorted → Sorted
sort_file false id name b next = record next { files = insert name b next.files }
sort_file true none name b next = record {
  files = [];
  file_ids = [];
  added = [];
  closed = [];
  failed = true;
}
sort_file true (some id) name b next = record next {
  file_ids = insert name id next.file_ids;
  added = insert name tt next.added;
  closed = b ∷ next.closed;
}

-- The loop, where `adds` is `FileStore.Add`.
unfoldable pub sort_files : (Bytes → ℕ → Option Bytes) → Dict (Unit {0}) → Dict ℕ → Sorted
sort_files adds cached [] = record {
  files = [];
  file_ids = [];
  added = [];
  closed = [];
  failed = false;
}
sort_files adds cached ((name, b) ∷ rest) =
    sort_file (has name cached) (adds name b) name b (sort_files adds cached rest)

-- The deferred function, for a file error.
unfoldable pub close_rest : Dict ℕ → Dict (Unit {0}) → Dict ℕ → List ℕ
close_rest kept added [] = []
close_rest kept added ((name, b) ∷ rest) =
    let next = close_rest kept added rest in
    if has name kept || has name added then next else b ∷ next

-- A time limit that the limits do not explain comes from a cancelled context.
unfoldable pub fixed_status : ExecResult → Cmd → ℤ
fixed_status r cmd =
    if eq_ℤ r.status status_time_limit_exceeded
      && (not (eq_ℤ r.exit_status (pos 0))
          && (ltb_ℤ r.time cmd.cpu_limit && ltb_ℤ r.run_time cmd.clock_limit))
    then status_signalled
    else r.status

-- `convertResult`, with the files that it closes; `add_error` is the text of an error of `Add`.
unfoldable pub convert_result :
    (Bytes → ℕ → Option Bytes) → Bytes → ExecResult → Cmd → CmdResult × List ℕ
unfolding fixed_status
convert_result adds add_error r cmd =
    let sorted = sort_files adds (cached_set cmd.copy_out_cached) r.files in
    let status = if sorted.failed then status_file_error else fixed_status r cmd in
    (
      record {
        status = status;
        exit_status = r.exit_status;
        error = if sorted.failed then add_error else r.error;
        time = r.time;
        run_time = r.run_time;
        memory = r.memory;
        proc_peak = r.proc_peak;
        files = sorted.files;
        file_ids = sorted.file_ids;
        file_error = r.file_error;
      },
      sorted.closed
          ++ (if eq_ℤ status status_file_error
              then close_rest sorted.files sorted.added r.files
              else []),
    )
