-- ===== src/Wss/Recovery/Examples.antt =====
-- internal/hnieoj/wss/run.go at concrete inputs.
use go_judge.Prelude.{arith, refl, false, none, some, [], ◌∷◌, codes, bytes_eq, bytes_lt}
use go_judge.Prelude.Int.{pos}
use go_judge.Tasks.{Attempt, Registry, key, key_of, cancels, default_done_ttl, snapshot}
use go_judge.Tasks.InFlight.{attempt_at}
use go_judge.Prelude.Dict.{has, lookup, insert}
use go_judge.Wss.Recovery.{
  ResumeResult, settle, resume_list, append_in_flight, append_attempt, resumed_map, rejected_map,
}
use go_judge.Wss.Recovery.Callbacks.{IsCalled}
use go_judge.Wss.Recovery.Leases.{IsSettled, settle-IsSettled}
use go_judge.Wss.Recovery.Omitted.{settle-cancels}

abbrev first : Attempt
first = record {
  submission_id = codes "s";
  judge_task_id = codes "j";
  attempt_id = codes "a";
  lease_until = pos 100;
  started_at = pos 0;
  epoch = pos 1;
}

abbrev second : Attempt
second = record first { attempt_id = codes "b" }

abbrev busy : Registry
busy = record {
  entries =
      (key_of first, record { attempt = first; cancel = some 4; on_lease = none })
      ∷ ((key_of second, record { attempt = second; cancel = some 5; on_lease = none }) ∷ []);
  finished = [];
  done_ttl = default_done_ttl;
  done_observer = none;
}

-- The server resumes the first attempt and leaves the second one out.
abbrev answer : ResumeResult
answer = record {
  resumed =
      record {
        submission_id = codes "s";
        judge_task_id = codes "j";
        attempt_id = codes "a";
        lease_until = pos 900;
        renew_after_millis = pos 10;
        completed = false;
      }
      ∷ [];
  rejected = [];
}

settle-IsSettled_example :
    IsSettled
      (pos 500)
      (pos 2)
      []
      (resumed_map answer.resumed [])
      (key_of first)
      (attempt_at (key_of first) busy)
      (attempt_at (key_of first) (settle (pos 500) (pos 2) busy none answer busy).0)
settle-IsSettled_example = settle-IsSettled (pos 500) (pos 2) busy none answer busy (key_of first)

settle-cancels_example : IsCalled (cancels 5) (settle (pos 500) (pos 2) busy none answer busy).1
unfolding resume_list append_in_flight append_attempt snapshot has lookup insert resumed_map
    rejected_map key bytes_eq bytes_lt
settle-cancels_example =
    settle-cancels (pos 500) (pos 2) busy none answer busy (codes "s") (codes "j") (codes "b") 5
      refl refl (λ x h. absurd (ground arith))
