-- ===== src/ResultQueue/Examples.antt =====
-- internal/hnieoj/resultqueue/queue.go at concrete inputs.
use go_judge.Prelude.{
  ◌≡◌, refl, true, false, none, some, List, [], ◌∷◌, Bytes, codes, bytes_eq, arith,
}
use go_judge.Prelude.Int.{pos}
use go_judge.Prelude.Dict.{insert, delete, has, total}
use go_judge.ResultQueue.{
  Record, Codec, Queue, commit, enqueue, reserve, admission_exceeds, mark_attempt, ack,
}
use go_judge.ResultQueue.Load.{DirEntry, open_queue}
use go_judge.ResultQueue.Capacity.{IsSound}
use go_judge.ResultQueue.Calls.{Call, enqueues, reserves, marks, acks, run, run-IsSound}
use go_judge.ResultQueue.Guarantee.{reserve-run-enqueue}
use go_judge.ResultQueue.Outcomes.{IsStored, enqueue-IsStored}
use go_judge.ResultQueue.Opening.{open_queue-IsSound}

abbrev result : Bytes → Bytes → Record
result id event = record {
  id = id;
  submission_id = id;
  judge_task_id = codes "1";
  attempt_id = codes "1";
  event = event;
  enqueued_at = pos 7;
  attempts = 0;
}

abbrev json : Codec
json = record {
  marshal = λ r. some r.event;
  unmarshal = λ raw. some (result raw raw);
  file_name = λ id. id;
}

abbrev small_queue : Queue
small_queue = record {
  max_records = 2;
  max_bytes = 10;
  max_record = 4;
  ttl = pos 1000000;
  records = [];
  reservations = [];
  bytes = 0;
  degraded = false;
  disk = [];
}

small_queue-IsSound : IsSound small_queue
unfolding has total
small_queue-IsSound = ground arith

abbrev first : Record
first = result (codes "s1") (codes "ok")

-- Other attempts come and go while the reservation is held.
abbrev traffic : List Call
traffic =
    reserves (codes "s2")
    ∷ enqueues (pos 9) true (result (codes "s2") (codes "bad"))
    ∷ marks (codes "s2")
    ∷ acks true true (codes "s2")
    ∷ []

run-IsSound_example : IsSound (run json traffic small_queue)
run-IsSound_example = run-IsSound json traffic small_queue small_queue-IsSound

reserve-run-enqueue_example :
    let t = run json traffic (reserve (codes "s1") small_queue).0 in
    enqueue json (pos 20) true first t ≡ (commit json first (codes "ok") t, none)
unfolding run reserve admission_exceeds enqueue has bytes_eq insert delete mark_attempt ack
reserve-run-enqueue_example =
    reserve-run-enqueue json traffic (pos 20) first (codes "ok") small_queue small_queue-IsSound
      refl refl refl (tt, (refl, (tt, (tt, tt)))) refl (omega arith) refl (omega arith)

abbrev small_queue_with_first : Queue
small_queue_with_first = record small_queue {
  records = (codes "s1", first) ∷ [];
  disk = (codes "s1", codes "ok") ∷ [];
  bytes = 2;
}

enqueue-IsStored_example : IsStored first (enqueue json (pos 20) true first small_queue).0
unfolding enqueue admission_exceeds has
enqueue-IsStored_example =
    enqueue-IsStored json (pos 20) true first small_queue small_queue-IsSound refl

abbrev directory : List DirEntry
directory =
    (record { name = codes "s1.json"; is_dir = false; size = some 2; content = some (codes "ok") })
    ∷ (record { name = codes "s2.tmp"; is_dir = false; size = none; content = none })
    ∷ []

abbrev opened : Queue
opened = record {
  max_records = 256;
  max_bytes = 64;
  max_record = 4;
  ttl = pos 0;
  records = (codes "ok", result (codes "ok") (codes "ok")) ∷ [];
  reservations = [];
  bytes = 2;
  degraded = false;
  disk = (codes "s1.json", codes "ok") ∷ [];
}

open_queue-IsSound_example : IsSound opened
unfolding open_queue bytes_eq insert
open_queue-IsSound_example =
    open_queue-IsSound json true (some directory) (pos 0) (pos 64) (pos 4) (pos 0) opened refl

-- Both limits count: the second record would fit, the third reservation does not.
admits_two :
    admission_exceeds (run json (reserves (codes "s2") ∷ []) small_queue_with_first) 0 (pos 1) 0
    ≡ true
unfolding run reserve admission_exceeds has bytes_eq insert
admits_two = refl
