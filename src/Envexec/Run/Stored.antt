-- ===== src/Envexec/Run/Stored.antt =====
-- envexec/run_single.go and envexec/file_collect.go: the files of a run that is accepted.
use go_judge.Prelude.{◌⊎◌, ◌≡◌, Bytes, is_empty, true, List, [], ◌∷◌, ℕ, ◌+◌, arith, inl, inr}
use go_judge.Envexec.Results.{CopyOutFile, status_accepted}
use go_judge.Prelude.Dict.{Dict, has}
use go_judge.Prelude.Result.{Result}
use go_judge.Envexec.Commands.{ExecCmd}
use go_judge.Envexec.Collect.{Opened, copy_out_and_collect}
use go_judge.Envexec.Collect.Complete.{IsStored, copy_out_and_collect-IsStored}
use go_judge.Envexec.Run.{
  Answers, opened_from, opened_files, run_single_wait, run_single_ended, run_single,
}
use go_judge.Envexec.Run.Accepted.{IsClean, run_single-accepted_iff, run_single-ended}

-- Each of the files that is not optional has an entry.
abbrev pub AllStored : List CopyOutFile → Dict ℕ → Type 0
AllStored [] files = Unit
AllStored (n ∷ rest) files =
    ((n.optional ≡ true) ⊎ (has n.name files ≡ true)) × AllStored rest files

IsStored-AllStored :
    (opens : ℕ → Result Bytes Opened) (i : ℕ) (asked : List CopyOutFile) (files : Dict ℕ)
    → IsStored (opened_from opens i asked) files
    → AllStored asked files
IsStored-AllStored opens i [] files h = tt
IsStored-AllStored opens i (n ∷ rest) files (h, hs) =
    (h, IsStored-AllStored opens (i + 1) rest files hs)

-- A run that is accepted, and whose process has no error text, has an entry for every file to copy
-- out of the command that is not optional.
pub run_single-accepted-AllStored :
    (c : ExecCmd) (a : Answers)
    → (run_single c a).status ≡ status_accepted
    → is_empty (run_single_wait a).error ≡ true
    → AllStored c.copy_out (run_single c a).files
run_single-accepted-AllStored c a h e =
    let w = (run_single-accepted_iff c a).0 h in
    let clean : IsClean (
        copy_out_and_collect c.copy_out_max c.copy_out_truncate a.copy_out_batch (opened_files c a)
          a.collectors) =
      elim w.ended.clean [ inl named ↦ absurd (ground (arith, named, e)) | inr files ↦ files ] in
    rw (run_single-ended c a w) (
      unfold run_single_ended in
      IsStored-AllStored a.opened 0 c.copy_out _ (
        copy_out_and_collect-IsStored c.copy_out_max c.copy_out_truncate a.copy_out_batch
          (opened_files c a) a.collectors clean.0 clean.1))
