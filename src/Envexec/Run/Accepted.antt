-- ===== src/Envexec/Run/Accepted.antt =====
-- envexec/run_single.go: when a run is accepted.
use go_judge.Prelude.{
  ◌⊎◌, false, ◌≤◌, ◌≡◌, ◌↔◌, ◌∙◌, refl, Bytes, is_empty, ◌&&◌, Option, none, some, List, [], ◌∷◌,
  arith, Bool-cases, inl, inr,
}
use go_judge.Prelude.Int.{ℤ, ◌≤ℤ◌}
use go_judge.Envexec.Results.{FileError, status_accepted}
use go_judge.Envexec.Commands.{ExecCmd}
use go_judge.Envexec.CopyIn.{run_single_copy_in, symlink}
use go_judge.Envexec.Collect.{StreamError, Collected, copy_out_and_collect}
use go_judge.Envexec.Run.{
  RunnerStatus, runner_normal, runner_signalled, runner_nonzero_exit_status,
  runner_memory_limit_exceeded, runner_time_limit_exceeded, runner_output_limit_exceeded,
  runner_disallowed_syscall, runner_error, runner_other, RunnerResult, convert_status, Answers,
  opened_files, run_single_wait, with_collect_error, is_normal, collected_status, limited_status,
  run_single_ended, run_single_linked, run_single_copied, run_single,
}

-- The files of a process are as asked for.
abbrev pub IsClean : Collected → Type 0
IsClean c = (c.wait_error ≡ none) × (c.file_errors ≡ [])

convert_status-accepted :
    (s : RunnerStatus) → convert_status s ≡ status_accepted → s ≡ runner_normal
unfolding convert_status
convert_status-accepted runner_normal h = refl
convert_status-accepted runner_signalled h = cc
convert_status-accepted runner_nonzero_exit_status h = cc
convert_status-accepted runner_memory_limit_exceeded h = cc
convert_status-accepted runner_time_limit_exceeded h = cc
convert_status-accepted runner_output_limit_exceeded h = cc
convert_status-accepted runner_disallowed_syscall h = cc
convert_status-accepted runner_error h = cc
convert_status-accepted runner_other h = cc

with_collect_error-accepted :
    (rt : RunnerResult) (e : Option StreamError) (fe : List FileError)
    → (with_collect_error rt e fe).0 ≡ status_accepted
    → (rt.status ≡ runner_normal) × (e ≡ none) × (fe ≡ [])
unfolding with_collect_error convert_status
with_collect_error-accepted rt none [] h = (convert_status-accepted rt.status h, refl, refl)
with_collect_error-accepted rt none (f ∷ fe) h = absurd (ground arith)
with_collect_error-accepted rt (some e) fe h = absurd (ground arith)

-- What the process and its files are if the run is accepted.
pub record Ends (c : ExecCmd) (rt : RunnerResult) (collected : Collected) : Type 0 where
  pub normal : rt.status ≡ runner_normal
  pub clean : (is_empty rt.error ≡ false) ⊎ IsClean collected
  pub in_time : rt.time ≤ℤ c.time_limit
  pub in_memory : rt.memory ≤ c.memory_limit

collected_status-accepted :
    (rt : RunnerResult) (c : Collected)
    → (collected_status rt c).0 ≡ status_accepted
    → (rt.status ≡ runner_normal) × ((is_empty rt.error ≡ false) ⊎ IsClean c)
unfolding collected_status
collected_status-accepted rt c h = elim (Bool-cases (is_normal rt.status && is_empty rt.error)) [
  | inl t ↦
      let r = with_collect_error-accepted rt c.wait_error c.file_errors (ground (arith, t, h)) in
      (r.0, inr (r.1, r.2))
  | inr t ↦
      let n = convert_status-accepted rt.status (ground (arith, t, h)) in
      (n, inl (ground (arith, t, n)))
]

accepted-collected_status :
    (rt : RunnerResult) (c : Collected)
    → rt.status ≡ runner_normal
    → ((is_empty rt.error ≡ false) ⊎ IsClean c)
    → (collected_status rt c).0 ≡ status_accepted
unfolding collected_status with_collect_error convert_status
accepted-collected_status rt c n clean = elim (Bool-cases (is_empty rt.error)) [
  | inr t ↦ ground (arith, t, n)
  | inl t ↦ elim clean [
    | inl named ↦ absurd (ground (arith, t, named))
    | inr files ↦ ground (arith, t, n, files.0, files.1)
  ]
]

limited_status-accepted :
    (c : ExecCmd) (rt : RunnerResult) (status : ℤ)
    → limited_status c rt status ≡ status_accepted
    → (status ≡ status_accepted) × (rt.time ≤ℤ c.time_limit) × (rt.memory ≤ c.memory_limit)
limited_status-accepted c rt status h = ground arith

accepted-limited_status :
    (c : ExecCmd) (rt : RunnerResult) (status : ℤ)
    → rt.time ≤ℤ c.time_limit
    → rt.memory ≤ c.memory_limit
    → limited_status c rt status ≡ status
accepted-limited_status c rt status t m = ground arith

run_single_ended-accepted :
    (c : ExecCmd) (rt : RunnerResult) (collected : Collected)
    → (run_single_ended c rt collected).status ≡ status_accepted
    → Ends c rt collected
unfolding run_single_ended
run_single_ended-accepted c rt collected h =
    let l = limited_status-accepted c rt (collected_status rt collected).0 h in
    let s = collected_status-accepted rt collected l.0 in
    record { normal = s.0; clean = s.1; in_time = l.1; in_memory = l.2 }

accepted-run_single_ended :
    (c : ExecCmd) (rt : RunnerResult) (collected : Collected)
    → Ends c rt collected
    → (run_single_ended c rt collected).status ≡ status_accepted
unfolding run_single_ended
accepted-run_single_ended c rt collected e =
    accepted-limited_status c rt (collected_status rt collected).0 e.in_time e.in_memory
    ∙ accepted-collected_status rt collected e.normal e.clean

-- What the environment answers in an accepted run.
pub record Accepts (c : ExecCmd) (a : Answers) : Type 0 where
  pub copied : (run_single_copy_in a.copy_in_batch a.copy_in_files).1 ≡ none
  pub linked : (symlink a.symlink_batch a.symlink_text a.links).1 ≡ none
  pub ended : Ends c (run_single_wait a) (
      copy_out_and_collect c.copy_out_max c.copy_out_truncate a.copy_out_batch
        (opened_files c a)
        a.collectors)

linked-accepted :
    (c : ExecCmd) (a : Answers) (fe : List FileError × Option Bytes)
    → (run_single_linked c a fe).status ≡ status_accepted
    → (fe.1 ≡ none)
      × Ends c (run_single_wait a) (
          copy_out_and_collect c.copy_out_max c.copy_out_truncate a.copy_out_batch
            (opened_files c a)
            a.collectors)
unfolding run_single_linked
linked-accepted c a (fe, some e) h = absurd (ground (arith, h))
linked-accepted c a (fe, none) h = (refl, run_single_ended-accepted c _ _ h)

copied-accepted :
    (c : ExecCmd) (a : Answers) (fe : List FileError × Option Bytes)
    → (run_single_copied c a fe).status ≡ status_accepted
    → (fe.1 ≡ none)
      × ((run_single_linked c a (symlink a.symlink_batch a.symlink_text a.links)).status
          ≡ status_accepted)
unfolding run_single_copied
copied-accepted c a (fe, some e) h = absurd (ground (arith, h))
copied-accepted c a (fe, none) h = (refl, h)

accepted-linked :
    (c : ExecCmd) (a : Answers) (fe : List FileError × Option Bytes)
    → fe.1 ≡ none
    → Ends c (run_single_wait a) (
        copy_out_and_collect c.copy_out_max c.copy_out_truncate a.copy_out_batch
          (opened_files c a)
          a.collectors)
    → (run_single_linked c a fe).status ≡ status_accepted
unfolding run_single_linked
accepted-linked c a (fe, some e) h ends = absurd (ground (arith, h))
accepted-linked c a (fe, none) h ends = accepted-run_single_ended c _ _ ends

accepted-copied :
    (c : ExecCmd) (a : Answers) (fe : List FileError × Option Bytes)
    → fe.1 ≡ none
    → (run_single_linked c a (symlink a.symlink_batch a.symlink_text a.links)).status
      ≡ status_accepted
    → (run_single_copied c a fe).status ≡ status_accepted
unfolding run_single_copied
accepted-copied c a (fe, some e) h l = absurd (ground (arith, h))
accepted-copied c a (fe, none) h l = l

-- A run is accepted exactly if copying in and linking return no error, the process ends normally
-- within the limits of time and memory and, unless its result has an error text, neither an error
-- nor a file error comes from copying out and collecting.
pub run_single-accepted_iff :
    (c : ExecCmd) (a : Answers) → ((run_single c a).status ≡ status_accepted) ↔ Accepts c a
unfolding run_single
run_single-accepted_iff c a = (
  to,
  λ (w : Accepts c a). accepted-copied c a _ w.copied (accepted-linked c a _ w.linked w.ended),
)
  where
    to : (run_single c a).status ≡ status_accepted → Accepts c a
    to h =
        let p = copied-accepted c a (run_single_copy_in a.copy_in_batch a.copy_in_files) h in
        let q = linked-accepted c a (symlink a.symlink_batch a.symlink_text a.links) p.1 in
        record { copied = p.0; linked = q.0; ended = q.1 }

pub run_single-ended :
    (c : ExecCmd) (a : Answers)
    → Accepts c a
    → run_single c a
      ≡ run_single_ended c (run_single_wait a) (
          copy_out_and_collect c.copy_out_max c.copy_out_truncate a.copy_out_batch
            (opened_files c a)
            a.collectors)
unfolding run_single
run_single-ended c a w =
    copied_ended (run_single_copy_in a.copy_in_batch a.copy_in_files) w.copied
    ∙ linked_ended (symlink a.symlink_batch a.symlink_text a.links) w.linked
  where
    copied_ended :
        (fe : List FileError × Option Bytes)
        → fe.1 ≡ none
        → run_single_copied c a fe
          ≡ run_single_linked c a (symlink a.symlink_batch a.symlink_text a.links)
    copied_ended (fe, none) h = unfold run_single_copied in refl
    copied_ended (fe, some e) h = absurd (ground (arith, h))

    linked_ended :
        (fe : List FileError × Option Bytes)
        → fe.1 ≡ none
        → run_single_linked c a fe
          ≡ run_single_ended c (run_single_wait a) (
              copy_out_and_collect c.copy_out_max c.copy_out_truncate a.copy_out_batch
                (opened_files c a)
                a.collectors)
    linked_ended (fe, none) h = unfold run_single_linked in refl
    linked_ended (fe, some e) h = absurd (ground (arith, h))
