-- ===== src/Runner/Accepting.antt =====
-- internal/hnieoj/runner/runner.go: when a case is accepted.
use go_judge.Prelude.{
  ◌≡◌, ◌↔◌, Bytes, bytes_eq, bytes_eq_iff, codes, Bool, true, false, ◌==◌, Option, none, some, List,
  [], ◌∷◌, arith,
}
use go_judge.Prelude.Result.{Result}
use go_judge.Model.{Case, accepted}
use go_judge.Processor.{RunResult}
use go_judge.Runner.Outputs.{SameToNewlines, trim_right-same, same-trim_right}
use go_judge.Runner.{
  SandboxResult, ResultJson, map_go_judge_status, file_of, stdout_file, same_output, replace_crlf,
  trim_right, normalize_output, special_result_from_run, run_user_case, compared, run_plain_case,
  run_interactive_case,
}

map_go_judge_status-accepted :
    (s : Bytes) → map_go_judge_status s ≡ accepted → bytes_eq s (codes "Accepted") ≡ true
unfolding map_go_judge_status
map_go_judge_status-accepted s h = ground arith

map_go_judge_status-Accepted :
    (s : Bytes) → bytes_eq s (codes "Accepted") ≡ true → map_go_judge_status s ≡ accepted
unfolding map_go_judge_status
map_go_judge_status-Accepted s h = ground arith

-- What is expected of an output, by whether blanks at the ends of its lines are removed: the texts
-- are the same up to the newlines at their ends, where `\r\n` counts as a newline, or up to the
-- blanks too.
abbrev pub IsExpected : Bool → Bytes → Bytes → Type 0
IsExpected false actual expected = SameToNewlines (replace_crlf actual) (replace_crlf expected)
IsExpected true actual expected = normalize_output actual true ≡ normalize_output expected true

same_output-IsExpected :
    (remove_end_blank : Bool) (actual expected : Bytes)
    → (same_output actual expected remove_end_blank ≡ true)
      ↔ IsExpected remove_end_blank actual expected
unfolding same_output normalize_output
same_output-IsExpected true actual expected =
    bytes_eq_iff (normalize_output actual true) (normalize_output expected true)
same_output-IsExpected false actual expected =
    let (to, back) =
      bytes_eq_iff (trim_right (λ b. b == 10) (replace_crlf actual))
        (trim_right (λ b. b == 10) (replace_crlf expected)) in
    (
      λ h. trim_right-same (replace_crlf actual) (replace_crlf expected) (to h),
      λ h. back (same-trim_right (replace_crlf actual) (replace_crlf expected) h),
    )

-- What an accepted case without a checker comes from.
abbrev pub IsRight : Case → Bool → Option (List SandboxResult) → Type 0
IsRight tc remove_end_blank none = ⊥
IsRight tc remove_end_blank (some []) = ⊥
IsRight tc remove_end_blank (some (x ∷ [])) =
    (bytes_eq x.status (codes "Accepted") ≡ true)
    × IsExpected remove_end_blank (file_of stdout_file x) tc.expected
IsRight tc remove_end_blank (some (x ∷ (y ∷ rest))) = ⊥

-- A case without a checker that ends without an error is accepted exactly if there is one answer of
-- the sandbox, its status is `Accepted` and its output and the expected one are the same up to the
-- newlines at their ends and to `\r\n`, or, if blanks at the ends of lines are removed, once both
-- are normalized.
pub run_plain_case-IsRight :
    (tc : Case) (remove_end_blank : Bool) (answers : Option (List SandboxResult)) (r : RunResult)
    → run_plain_case tc remove_end_blank answers ≡ some r
    → (r.status ≡ accepted) ↔ IsRight tc remove_end_blank answers
unfolding run_plain_case run_user_case compared
run_plain_case-IsRight tc remove_end_blank none r h = cc
run_plain_case-IsRight tc remove_end_blank (some []) r h = cc
run_plain_case-IsRight tc remove_end_blank (some (x ∷ (y ∷ rest))) r h = cc
run_plain_case-IsRight tc remove_end_blank (some (x ∷ [])) r h =
    let (to, back) = same_output-IsExpected remove_end_blank (file_of stdout_file x) tc.expected in
    (
      λ a. (
        ground (arith, map_go_judge_status-accepted x.status),
        to (ground (arith, map_go_judge_status-accepted x.status)),
      ),
      λ right.
          let same = back right.1 in
          let good = map_go_judge_status-Accepted x.status right.0 in ground arith,
    )

-- An interactive case is accepted only if the sandbox accepts the program and the interactor's
-- verdict is that it is accepted.
run_interactive_case-accepted :
    (unmarshal : Bytes → Result Bytes ResultJson) (user interactor : SandboxResult)
    → (run_interactive_case unmarshal user interactor).status ≡ accepted
    → (bytes_eq user.status (codes "Accepted") ≡ true)
      × ((special_result_from_run unmarshal interactor (codes "interactor")).status ≡ accepted)
unfolding run_interactive_case
run_interactive_case-accepted unmarshal user interactor h =
    ground (arith, map_go_judge_status-accepted user.status)
