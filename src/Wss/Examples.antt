-- ===== src/Wss/Examples.antt =====
-- internal/hnieoj/wss/client.go at concrete inputs.
use go_judge.Prelude.{◌≡◌, ◌⊎◌, refl, true, false, none, some, [], ◌∷◌, ◌++◌, codes, bytes_eq}
use go_judge.Prelude.Int.{pos, leb_ℤ, ◌+ℤ◌}
use go_judge.Prelude.Ascii.{trim_space, to_lower}
use go_judge.Prelude.Dict.{has, insert, lookup}
use go_judge.Model.{problem_type_acm}
use go_judge.Tasks.{key, has_attempt, len, default_done_ttl, prune_done, start, prune_finished}
use go_judge.ResultQueue.{Queue, reserve, admission_exceeds}
use go_judge.Wss.{
  TaskAssign, Client, Turn, acks, approved_slots, ack_task, new_assignment, mode_allowed, any_mode,
  handle_assign, admit, begin, offer, reserve_result_capacity,
}
use go_judge.Wss.Admission.{key_for, IsBacked, handle_assign-IsBacked}
use go_judge.Wss.Channel.{handle_assign-channel}

abbrev assign : TaskAssign
assign = record {
  task = record {
    submission_id = codes "s";
    judge_task_id = codes "j";
    judge_id = pos 1;
    problem_id = pos 2;
    problem_code = codes "P2";
    language = codes "C++";
    code = codes "main";
    time_limit = pos 1000;
    memory_limit = pos 256;
    stack_limit = pos 128;
    judge_mode = codes " Default ";
    checker = none;
    interactor = none;
    interaction = none;
    problem_type = problem_type_acm;
    io_score = pos 100;
    is_remove_end_blank = false;
    data_version = pos 1;
    contest_id = pos 0;
    created_at = pos 0;
    attempt_id = [];
  };
  attempt_id = codes "a";
  lease_until = pos 5000;
  renew_after_millis = pos 1000;
}

abbrev queue : Queue
queue = record {
  max_records = 2;
  max_bytes = 1000;
  max_record = 100;
  ttl = pos 1;
  records = [];
  reservations = [];
  bytes = 0;
  degraded = false;
  disk = [];
}

abbrev client : Client
client = record {
  registry = record {
    entries = [];
    finished = [];
    done_ttl = default_done_ttl;
    done_observer = some 0;
  };
  queue = some queue;
  assign_ch = [];
  local_draining = false;
  remote_draining = false;
  epoch = pos 3;
  max_concurrency = pos 2;
  approved_modes = codes "default" ∷ [];
  local_concurrency = pos 1;
  local_modes = [];
}

abbrev turn : Turn
turn = record {
  is_ready = true;
  closed = false;
  leaves = false;
  looked_at = pos 10;
  started_at = pos 11;
  ended_at = pos 12;
  pruned_at = pos 13;
  cancel = 4;
  random_id = codes "x";
}

client-IsBacked : IsBacked client
unfolding has lookup
client-IsBacked = record { backs = λ k h. cc }

handle_assign-IsBacked_example : IsBacked (handle_assign turn (codes "r") (some assign) client).0
handle_assign-IsBacked_example =
    handle_assign-IsBacked turn (codes "r") (some assign) client client-IsBacked

handle_assign-channel_example :
    let (c', outputs) = handle_assign turn (codes "r") (some assign) client in
    (c'.assign_ch ≡ client.assign_ch)
    ⊎ ((client.local_draining ≡ false)
        × (client.remote_draining ≡ false)
        × (leb_ℤ (approved_slots client) (pos (len client.registry)) ≡ false)
        × ((has_attempt (pos 10) (codes "s") (codes "j") (codes "a") client.registry).1 ≡ false)
        × (has (key_for assign) c'.registry.entries ≡ true)
        × (outputs ≡ ack_task turn (codes "r") (codes "s") (codes "j") (codes "a") ∷ [])
        × (c'.assign_ch ≡ client.assign_ch ++ new_assignment assign 4 ∷ []))
handle_assign-channel_example = handle_assign-channel turn (codes "r") assign client

-- The assignment is admitted: it is in the channel, and acknowledged.
admitted :
    let (c', outputs) = handle_assign turn (codes "r") (some assign) client in
    (outputs ≡ acks (codes "r") (codes "s") (codes "j") (codes "a") ∷ [])
    × (c'.assign_ch ≡ new_assignment assign 4 ∷ [])
    × (len c'.registry ≡ 1)
unfolding handle_assign has_attempt prune_done prune_finished has lookup admit mode_allowed any_mode
    approved_slots begin reserve_result_capacity reserve admission_exceeds start insert offer ◌+ℤ◌
    trim_space to_lower bytes_eq key
admitted = (refl, refl, refl)
