-- ===== src/Worker/Pool/Sound.antt =====
-- worker/worker.go: each request stands at one place, and is answered once.
use go_judge.Prelude.{
  ℕ, suc, ◌+◌, ◌≤◌, ◌<◌, ◌≡◌, refl, ap, Bool, true, false, List, [], ◌∷◌, ◌++◌, ◌==◌, if◌then◌else◌,
  length, length-append, arith,
}
use go_judge.Prelude.Count.{count, count-append, made_below}
use go_judge.Worker.Pool.{
  Answer, not_started, shutting_down, queue_full, refused, queued, Pool, new_pool, max_waiting,
  start, submit, execute, take_request, finish, finish_direct, shut, destroy, LoopStep, takes,
  finishes, finishes_direct, leaves, Step, loops, starts, submits, executes, shuts, destroys, Steps,
  here, then_step,
}

-- How often a request has an answer.
abbrev pub count_sent : ℕ → List (ℕ × Answer) → ℕ
count_sent id [] = 0
count_sent id ((x, a) ∷ xs) = (if x == id then 1 else 0) + count_sent id xs

pub record IsSound (p : Pool) : Type 0 where
  -- A request made waits, is executed or has an answer, and only one of these.
  pub once :
      (id : ℕ)
      → count id p.queue + count id p.busy + count id p.direct + count_sent id p.sent
        ≡ made_below id p.next
  -- The channel `started` of a request of `Submit` that waits no more was closed once.
  pub told_once :
      (id : ℕ) → count id p.told + count id p.queue + count id p.made ≡ made_below id p.next
  pub counted : p.running ≡ length p.busy + length p.direct
  pub bounded : length p.queue ≤ max_waiting
  pub parallel : p.idle + length p.busy ≤ p.parallelism
  pub unstarted : p.is_started ≡ false → (p.idle ≡ 0) × (p.busy ≡ [])

pub new_pool-IsSound : (n : ℕ) → IsSound (new_pool n)
new_pool-IsSound n = record {
  once = λ id. ground arith;
  told_once = λ id. ground arith;
  counted = refl;
  bounded = omega arith;
  parallel = omega arith;
  unstarted = λ h. (refl, refl);
}

opened-IsSound :
    (p : Pool)
    → p.is_started ≡ false
    → IsSound p
    → IsSound (record p { is_started = true; idle = p.parallelism })
opened-IsSound p off s = record {
  once = s.once;
  told_once = s.told_once;
  counted = s.counted;
  bounded = s.bounded;
  parallel = rw (s.unstarted off).1 (omega arith);
  unstarted = λ h. cc;
}

start-IsSound : (p : Pool) → IsSound p → IsSound (start p)
unfolding start
start-IsSound p s = grind (arith, opened-IsSound p)

refused-IsSound : (a : Answer) (p : Pool) → IsSound p → IsSound (refused a p)
refused-IsSound a p s = record {
  once = λ id. ground (arith, s.once id, s.once p.next);
  told_once = λ id. ground (arith, s.told_once id);
  counted = s.counted;
  bounded = s.bounded;
  parallel = s.parallel;
  unstarted = s.unstarted;
}

queued-IsSound : (p : Pool) → length p.queue < max_waiting → IsSound p → IsSound (queued p)
queued-IsSound p room s = record {
  once = λ id. ground (arith, s.once id, count-append id p.queue (p.next ∷ []));
  told_once = λ id. ground (arith, s.told_once id, count-append id p.queue (p.next ∷ []));
  counted = s.counted;
  bounded = omega (arith, room, length-append p.queue (p.next ∷ []));
  parallel = s.parallel;
  unstarted = s.unstarted;
}

pub submit-IsSound : (chance : Bool) (p : Pool) → IsSound p → IsSound (submit chance p)
unfolding submit
submit-IsSound chance p s = grind (
  arith,
  refused-IsSound not_started p s,
  refused-IsSound shutting_down p s,
  refused-IsSound queue_full p s,
  queued-IsSound p,
)

execute-IsSound : (p : Pool) → IsSound p → IsSound (execute p)
unfolding execute
execute-IsSound p s = record {
  once = λ id. ground (arith, s.once id, s.once p.next);
  told_once = λ id. ground (arith, s.told_once id);
  counted = omega (arith, s.counted);
  bounded = s.bounded;
  parallel = s.parallel;
  unstarted = s.unstarted;
}

take_request-IsSound :
    (is_done : Bool) (id : ℕ) (rest : List ℕ) (idle : ℕ) (p : Pool)
    → p.queue ≡ id ∷ rest
    → p.idle ≡ suc idle
    → IsSound p
    → IsSound (take_request is_done id rest idle p)
unfolding take_request
take_request-IsSound true id rest idle p e i s = record {
  once = λ k. ground (arith, s.once k, ap (count k) e);
  told_once = λ k. ground (arith, s.told_once k, ap (count k) e);
  counted = s.counted;
  bounded = omega (arith, s.bounded, ap (length {A = ℕ}) e);
  parallel = s.parallel;
  unstarted = s.unstarted;
}
take_request-IsSound false id rest idle p e i s = record {
  once = λ k. ground (arith, s.once k, ap (count k) e);
  told_once = λ k. ground (arith, s.told_once k, ap (count k) e);
  counted = omega (arith, s.counted);
  bounded = omega (arith, s.bounded, ap (length {A = ℕ}) e);
  parallel = omega (arith, s.parallel, i);
  unstarted = λ h. ground (arith, s.unstarted h, i);
}

finish-IsSound :
    (id : ℕ) (before after : List ℕ) (p : Pool)
    → p.busy ≡ before ++ id ∷ after
    → IsSound p
    → IsSound (finish id before after p)
unfolding finish
finish-IsSound id before after p e s =
    let size = ap (length {A = ℕ}) e in
    let parts = length-append before (id ∷ after) in
    let parts' = length-append before after in
    record {
      once = λ k. omega (
        arith,
        s.once k,
        ap (count k) e,
        count-append k before (id ∷ after),
        count-append k before after,
      );
      told_once = s.told_once;
      counted = omega (arith, s.counted, size, parts, parts');
      bounded = s.bounded;
      parallel = omega (arith, s.parallel, size, parts, parts');
      unstarted = λ h. absurd (omega (arith, size, parts, ap (length {A = ℕ}) (s.unstarted h).1));
    }

finish_direct-IsSound :
    (id : ℕ) (before after : List ℕ) (p : Pool)
    → p.direct ≡ before ++ id ∷ after
    → IsSound p
    → IsSound (finish_direct id before after p)
unfolding finish_direct
finish_direct-IsSound id before after p e s =
    let size = ap (length {A = ℕ}) e in
    let parts = length-append before (id ∷ after) in
    let parts' = length-append before after in
    record {
      once = λ k. omega (
        arith,
        s.once k,
        ap (count k) e,
        count-append k before (id ∷ after),
        count-append k before after,
      );
      told_once = s.told_once;
      counted = omega (arith, s.counted, size, parts, parts');
      bounded = s.bounded;
      parallel = s.parallel;
      unstarted = s.unstarted;
    }

shut-IsSound : (p : Pool) → IsSound p → IsSound (shut p)
unfolding shut
shut-IsSound p s = grind (arith, stopped-IsSound, locked-IsSound)
  where
    stopped-IsSound : IsSound (record p { stop_called = true })
    stopped-IsSound = record {
      once = s.once;
      told_once = s.told_once;
      counted = s.counted;
      bounded = s.bounded;
      parallel = s.parallel;
      unstarted = s.unstarted;
    }

    locked-IsSound : IsSound (record p { stop_called = true; is_locked = true; is_stopping = true })
    locked-IsSound = record {
      once = s.once;
      told_once = s.told_once;
      counted = s.counted;
      bounded = s.bounded;
      parallel = s.parallel;
      unstarted = s.unstarted;
    }

pub LoopStep-IsSound : {p q : Pool} → LoopStep p q → IsSound p → IsSound q
LoopStep-IsSound {p} (takes is_done id rest idle e i) s =
    take_request-IsSound is_done id rest idle p e i s
LoopStep-IsSound {p} (finishes id before after e) s = finish-IsSound id before after p e s
LoopStep-IsSound {p} (finishes_direct id before after e) s =
    finish_direct-IsSound id before after p e s
LoopStep-IsSound {p} (leaves idle stop i) s = record {
  once = s.once;
  told_once = s.told_once;
  counted = s.counted;
  bounded = s.bounded;
  parallel = omega (arith, s.parallel, i);
  unstarted = λ h. ground (arith, s.unstarted h, i);
}

pub Step-IsSound : {p q : Pool} → Step p q → IsSound p → IsSound q
unfolding destroy
Step-IsSound (loops step) s = LoopStep-IsSound step s
Step-IsSound {p} starts s = start-IsSound p s
Step-IsSound {p} (submits chance free) s = submit-IsSound chance p s
Step-IsSound {p} executes s = execute-IsSound p s
Step-IsSound {p} shuts s = shut-IsSound p s
Step-IsSound {p} (destroys l i b d) s = record {
  once = s.once;
  told_once = s.told_once;
  counted = s.counted;
  bounded = s.bounded;
  parallel = s.parallel;
  unstarted = s.unstarted;
}

pub Steps-IsSound : {p q : Pool} → Steps p q → IsSound p → IsSound q
Steps-IsSound here s = s
Steps-IsSound (then_step step rest) s = Steps-IsSound rest (Step-IsSound step s)

-- From a new pool on, whatever the callers and the loops do in whatever order: each request made
-- waits, is executed or has an answer, and only one of these; a request of `Submit` that waits no
-- more had its channel `started` closed once, and no other; the counter is that of the executions;
-- at most 512 requests wait, and no more loops are busy than there are.
pub new_pool-Steps-IsSound : (n : ℕ) (q : Pool) → Steps (new_pool n) q → IsSound q
new_pool-Steps-IsSound n q steps = Steps-IsSound steps (new_pool-IsSound n)
