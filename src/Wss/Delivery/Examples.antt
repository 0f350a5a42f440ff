-- ===== src/Wss/Delivery/Examples.antt =====
-- internal/hnieoj/wss/run.go: a round of deliveries at a concrete queue.
use go_judge.Prelude.{
  refl, true, false, bytes_eq, codes, arith, none, some, [], ◌∷◌, inl, inr, if◌then◌else◌,
  Bool-cases,
}
use go_judge.Prelude.Int.{pos}
use go_judge.Prelude.Dict.{lookup}
use go_judge.ResultQueue.{Record, Codec, Queue}
use go_judge.ResultQueue.Calls.{marks}
use go_judge.ResultQueue.Keeping.{Holds}
use go_judge.Wss.Delivery.{Exchange, acknowledges, no_reply, confirms, deliver_results}
use go_judge.Wss.Delivery.Kept.{IsUnconfirmed, deliver_results-Holds}

abbrev first : Record
first = record {
  id = codes "a";
  submission_id = codes "s1";
  judge_task_id = codes "j1";
  attempt_id = codes "t1";
  event = codes "{}";
  enqueued_at = pos 1;
  attempts = 0;
}

abbrev second : Record
second = record first { id = codes "b"; submission_id = codes "s2"; enqueued_at = pos 2 }

abbrev queue : Queue
queue = record {
  max_records = 2;
  max_bytes = 1000;
  max_record = 100;
  ttl = pos 1;
  records = (codes "a", first) ∷ ((codes "b", second) ∷ []);
  reservations = [];
  bytes = 4;
  degraded = false;
  disk = [];
}

abbrev codec : Codec
codec = record { marshal = λ r. some r.event; unmarshal = λ raw. none; file_name = λ id. id }

-- The server acknowledges each record under its own identifiers, but for the one with identifier b.
abbrev answers : Record → Exchange
answers r = record {
  is_over = false;
  meanwhile = marks (codes "a") ∷ [];
  reply =
      if bytes_eq r.id (codes "b")
      then no_reply
      else acknowledges r.submission_id r.judge_task_id r.attempt_id;
  removed = true;
  synced = true;
}

unconfirmed : (r : Record) → IsUnconfirmed (codes "b") r (answers r)
unfolding confirms
unconfirmed r = record {
  protected = (tt, tt);
  unconfirmed = elim (Bool-cases (bytes_eq r.id (codes "b"))) [
    | inl e ↦ inr (λ h. ground (arith, e, h))
    | inr e ↦ inl e
  ];
}

deliver_results-Holds_example : Holds (codes "b") (codes "{}") (deliver_results codec answers queue)
unfolding lookup bytes_eq
deliver_results-Holds_example =
    deliver_results-Holds codec answers (codes "b") (codes "{}") queue unconfirmed refl
