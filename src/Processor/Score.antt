-- ===== src/Processor/Score.antt =====
-- internal/hnieoj/processor/processor.go: `caseMaxScore`, `caseScore` and `clamp`.
use go_judge.Prelude.{
  ℕ, ◌+◌, ◌*◌, ◌/◌, ◌%◌, ◌<◌, ◌≡◌, min, zero, suc, Option, none, some, ◌&&◌, ◌||◌, not, ltb, ◌==◌,
  if◌then◌else◌, arith,
}
use go_judge.Prelude.Int.{ℤ, pos, pos_part, ltb_ℤ, leb_ℤ, eq_ℤ, ◌≤ℤ◌}
use go_judge.Model.{Task, accepted, problem_type_acm}

-- `clamp`.
unfoldable pub clamp : ℤ → ℤ → ℤ → ℤ
clamp v lo hi = if ltb_ℤ v lo then lo else if ltb_ℤ hi v then hi else v

-- `caseMaxScore`. The operands of the division are positive.
unfoldable pub case_max_score : Task → ℕ → ℕ → ℕ
case_max_score task total index =
    if total == 0 || leb_ℤ task.io_score (pos 0)
    then 0
    else let base = pos_part task.io_score / total in
      if ltb index (pos_part task.io_score % total) then base + 1 else base

-- The function `caseScore`.
unfoldable pub plain_score : Task → ℕ → ℕ → ℤ → ℕ
plain_score task total index status =
    if not (eq_ℤ status accepted) || total == 0
    then 0
    else if leb_ℤ task.io_score (pos 0)
    then 0
    else case_max_score task total index

-- The method `caseScore`, for a result with this status and score.
unfoldable pub case_score : Task → ℕ → ℕ → ℤ → Option ℤ → ℤ
unfolding plain_score clamp
case_score task total index status (some score) =
    clamp score (pos 0) (pos (case_max_score task total index))
case_score task total index status none =
    if eq_ℤ task.problem_type problem_type_acm && not (eq_ℤ status accepted)
    then pos 0
    else pos (plain_score task total index status)

-- The scores of the first `n` cases at most.
abbrev pub max_scores : Task → ℕ → ℕ → ℕ
max_scores task total zero = 0
max_scores task total (suc n) = max_scores task total n + case_max_score task total n

case_max_score-eq :
    (task : Task) (total n io : ℕ)
    → task.io_score ≡ pos io
    → 0 < io
    → 0 < total
    → case_max_score task total n + min n (io % total) ≡ io / total + min (suc n) (io % total)
unfolding case_max_score
case_max_score-eq task total n io e p q = rw e (ground arith)

max_scores-eq :
    (task : Task) (total n io : ℕ)
    → task.io_score ≡ pos io
    → 0 < io
    → 0 < total
    → max_scores task total n ≡ n * (io / total) + min n (io % total)
max_scores-eq task total zero io e p q = omega arith
max_scores-eq task total (suc n) io e p q =
    omega (arith, max_scores-eq task total n io e p q, case_max_score-eq task total n io e p q)

-- For a positive score of the problem, the maximal scores of the cases add up to it, for any
-- positive number of cases.
pub max_scores_total :
    (task : Task) (total io : ℕ)
    → task.io_score ≡ pos io
    → 0 < io
    → 0 < total
    → max_scores task total total ≡ io
max_scores_total task total io e p q = omega (arith, max_scores-eq task total total io e p q)

-- The score of a case lies between 0 and its maximum, whatever the checker answers.
pub case_score_bounds :
    (task : Task) (total index : ℕ) (status : ℤ) (score : Option ℤ)
    → (pos 0 ≤ℤ case_score task total index status score)
      × (case_score task total index status score ≤ℤ pos (case_max_score task total index))
unfolding case_score
case_score_bounds task total index status none = ground arith
case_score_bounds task total index status (some s) = ground arith
