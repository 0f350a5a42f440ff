-- ===== src/Processor/Verdict.antt =====
-- internal/hnieoj/processor/processor.go: the status and the score of the final event.
use go_judge.Prelude.{
  ℕ, zero, suc, ◌+◌, ◌≤◌, ◌<◌, ◌≡◌, ap, sym, subst, Option, none, List, [], ◌∷◌, arith, length,
}
use go_judge.Prelude.Int.{ℤ, pos, ◌+ℤ◌, +ℤ_parts, pos-add, ◌≤ℤ◌}
use go_judge.Model.{Task, accepted, problem_type_oi}
use go_judge.Processor.{RunResult, worse, final_score, final_status}
use go_judge.Processor.Score.{
  case_max_score, case_score, plain_score, max_scores, max_scores_total, case_score_bounds,
}

-- Status and score after the results of the cases from index `i` on, computed without the reports.
abbrev pub tally : Task → ℕ → ℕ → List RunResult → ℤ × ℤ → ℤ × ℤ
tally task total i [] so_far = so_far
tally task total i (r ∷ rs) (final, score) =
    tally task total (i + 1) rs
      (worse final r.status, score +ℤ case_score task total i r.status r.score)

max_scores-suc :
    (task : Task) (total i : ℕ)
    → max_scores task total (i + 1) ≡ max_scores task total i + case_max_score task total i
max_scores-suc task total i = let e : i + 1 ≡ suc i = omega arith in ap (max_scores task total) e

-- The score stays within the sum of the maxima of the cases seen.
next_bound :
    (task : Task) (total i : ℕ) (status : ℤ) (answer : Option ℤ) (score : ℤ)
    → pos 0 ≤ℤ score
    → score ≤ℤ pos (max_scores task total i)
    → (pos 0 ≤ℤ score +ℤ case_score task total i status answer)
      × (score +ℤ case_score task total i status answer ≤ℤ pos (max_scores task total (i + 1)))
next_bound task total i status answer score lo hi =
    let c = case_score_bounds task total i status answer in
    let next = +ℤ_parts score (case_score task total i status answer) in
    (omega (arith, lo, c, next), omega (arith, lo, hi, c, next, max_scores-suc task total i))

tally_bounds :
    (task : Task) (total i n : ℕ) (rs : List RunResult) (final score : ℤ)
    → length rs + i ≡ n
    → pos 0 ≤ℤ score
    → score ≤ℤ pos (max_scores task total i)
    → let (_, sum) = tally task total i rs (final, score) in
      (pos 0 ≤ℤ sum) × (sum ≤ℤ pos (max_scores task total n))
tally_bounds task total i n [] final score e lo hi =
    let e' : i ≡ n = omega (arith, e) in
    (lo, subst (λ k. score ≤ℤ pos (max_scores task total k)) e' hi)
tally_bounds task total i n (r ∷ rs) final score e lo hi =
    let (l, h) = next_bound task total i r.status r.score score lo hi in
    tally_bounds task total (i + 1) n rs _ _ (omega (arith, e)) l h

max_scores_at_most :
    (task : Task) (total io : ℕ)
    → task.io_score ≡ pos io
    → 0 < io
    → max_scores task total total ≤ io
max_scores_at_most task zero io e p = omega arith
max_scores_at_most task (suc n) io e p =
    omega (arith, max_scores_total task (suc n) io e p (omega arith))

final_score-between :
    (task : Task) (final score : ℤ) (io : ℕ)
    → task.io_score ≡ pos io
    → pos 0 ≤ℤ score
    → score ≤ℤ pos io
    → (pos 0 ≤ℤ final_score task final score) × (final_score task final score ≤ℤ pos io)
unfolding final_score
final_score-between task final score io e lo hi = ground arith

-- For a problem with a positive score, the score reported at the end lies between 0 and the score
-- of the problem, whatever the results of the cases.
final_score_bounds :
    (task : Task) (rs : List RunResult) (io : ℕ)
    → task.io_score ≡ pos io
    → 0 < io
    → let (final, score) = tally task (length rs) 0 rs (accepted, pos 0) in
      (pos 0 ≤ℤ final_score task final score) × (final_score task final score ≤ℤ pos io)
final_score_bounds task rs io e p =
    let (final, score) = tally task (length rs) 0 rs (accepted, pos 0) in
    let (lo, hi) =
      tally_bounds task (length rs) 0 (length rs) rs accepted (pos 0) (omega arith) (omega arith)
        (omega arith) in
    final_score-between task final score io e lo
      (omega (arith, hi, max_scores_at_most task (length rs) io e p))

-- Every case is accepted, and no checker gave a score of its own.
abbrev pub AllAccepted : List RunResult → Type 0
AllAccepted [] = Unit
AllAccepted (r ∷ rs) = (r.status ≡ accepted) × (r.score ≡ none) × AllAccepted rs

case_score-accepted :
    (task : Task) (total i : ℕ)
    → 0 < total
    → case_score task total i accepted none ≡ pos (case_max_score task total i)
unfolding case_score plain_score case_max_score
case_score-accepted task total i p = ground arith

tally-AllAccepted :
    (task : Task) (total i n : ℕ) (rs : List RunResult)
    → 0 < total
    → length rs + i ≡ n
    → AllAccepted rs
    → tally task total i rs (accepted, pos (max_scores task total i))
      ≡ (accepted, pos (max_scores task total n))
tally-AllAccepted task total i n [] p e a =
    let e' : i ≡ n = omega (arith, e) in ap (λ k. (accepted, pos (max_scores task total k))) e'
tally-AllAccepted task total i n (r ∷ rs) p e (s, c, a) =
    rw
      (
        s,
        c,
        case_score-accepted task total i p,
        pos-add (max_scores task total i) (case_max_score task total i),
        sym (max_scores-suc task total i),
      )
      (tally-AllAccepted task total (i + 1) n rs p (omega (arith, e)) a)

full_score-accepted :
    (task : Task) (io : ℕ)
    → task.io_score ≡ pos io
    → (final_status task accepted (pos io) ≡ accepted)
      × (final_score task accepted (pos io) ≡ pos io)
unfolding final_score final_status
full_score-accepted task io e = ground arith

-- If every case is accepted, there is at least one, no result has a score of its own and the score
-- of the problem is positive, the verdict is `Accepted` with the full score, for every kind of
-- problem.
accepted-verdict :
    (task : Task) (rs : List RunResult) (io : ℕ)
    → task.io_score ≡ pos io
    → 0 < io
    → 0 < length rs
    → AllAccepted rs
    → let (final, score) = tally task (length rs) 0 rs (accepted, pos 0) in
      (final_status task final score ≡ accepted) × (final_score task final score ≡ pos io)
accepted-verdict task rs io e p q a =
    rw
      (
        tally-AllAccepted task (length rs) 0 (length rs) rs q (omega arith) a,
        max_scores_total task (length rs) io e p q,
      )
      (full_score-accepted task io e)

oi-zero_score :
    (task : Task) (final score : ℤ)
    → task.io_score ≡ pos 0
    → task.problem_type ≡ problem_type_oi
    → pos 0 ≤ℤ score
    → final_status task final score ≡ accepted
unfolding final_status final_score
oi-zero_score task final score e o lo = rw (e, o) (ground arith)

-- A problem of type OI whose score is 0 is accepted whatever the results of its cases are.
pub zero_score-accepted :
    (task : Task) (rs : List RunResult)
    → task.io_score ≡ pos 0
    → task.problem_type ≡ problem_type_oi
    → let (final, score) = tally task (length rs) 0 rs (accepted, pos 0) in
      final_status task final score ≡ accepted
zero_score-accepted task rs e o =
    let (final, score) = tally task (length rs) 0 rs (accepted, pos 0) in
    let (lo, hi) =
      tally_bounds task (length rs) 0 (length rs) rs accepted (pos 0) (omega arith) (omega arith)
        (omega arith) in
    oi-zero_score task final score e o lo
