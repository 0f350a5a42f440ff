-- ===== src/Tasks/Examples.antt =====
-- internal/hnieoj/tasks/registry.go at concrete inputs.
use go_judge.Prelude.{◌≡◌, ◌&&◌, some, [], ◌∷◌, codes}
use go_judge.Prelude.Int.{pos}
use go_judge.Tasks.{Attempt, key_of, Registry, complete, has_attempt, default_done_ttl}
use go_judge.Tasks.Memory.{is_fresh, complete-has_attempt}

abbrev attempt : Attempt
attempt = record {
  submission_id = codes "s";
  judge_task_id = codes "j";
  attempt_id = codes "a";
  lease_until = pos 100;
  started_at = pos 0;
  epoch = pos 1;
}

abbrev busy : Registry
busy = record {
  entries = (key_of attempt, record { attempt = attempt; cancel = some 4; on_lease = some 5 }) ∷ [];
  finished = [];
  done_ttl = default_done_ttl;
  done_observer = some 6;
}

complete-has_attempt_example :
    (has_attempt
      (pos 9)
      (codes "s")
      (codes "j")
      (codes "a")
      (complete (pos 8) (pos 8) (codes "s") (codes "j") (codes "a") busy).0).1
    ≡ is_fresh (pos 8) (pos 8) busy && is_fresh (pos 8) (pos 9) busy
complete-has_attempt_example =
    complete-has_attempt (pos 8) (pos 8) (pos 9) (codes "s") (codes "j") (codes "a") busy tt
