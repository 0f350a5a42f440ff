-- ===== src/Worker/Pool/Stranded.antt =====
-- worker/worker.go: requests that the pool takes in after `Shutdown`.
use go_judge.Prelude.{
  ℕ, ◌≤◌, ◌<◌, ◌≡◌, refl, ap, sym, ◌∙◌, length-append, Bool, true, [], ◌∷◌, ◌++◌, length, arith,
}
use go_judge.Prelude.Count.{count, count-append}
use go_judge.Worker.Pool.{
  Answer, not_started, shutting_down, queue_full, Pool, max_waiting, start, submit, execute,
  finish_direct, shut, destroy, queued, refused, takes, finishes, finishes_direct, leaves, Step,
  loops, starts, submits, executes, shuts, destroys, Steps, here, then_step,
}
use go_judge.Worker.Pool.Sound.{count_sent, IsSound, submit-IsSound, Steps-IsSound}

-- `Shutdown` has closed `done` and all loops have returned.
pub record IsShut (p : Pool) : Type 0 where
  pub started : p.is_started ≡ true
  pub stopping : p.is_stopping ≡ true
  pub no_idle : p.idle ≡ 0
  pub no_busy : p.busy ≡ []

-- No request leaves the queue.
pub record Keeps (p q : Pool) : Type 0 where
  pub shut : IsShut q
  pub kept : (id : ℕ) → count id p.queue ≤ count id q.queue

-- The pool with another record of it that agrees in what matters here.
stays :
    (p q : Pool)
    → IsShut p
    → q.queue ≡ p.queue
    → q.is_started ≡ p.is_started
    → q.is_stopping ≡ true
    → q.idle ≡ p.idle
    → q.busy ≡ p.busy
    → Keeps p q
stays p q s a b c d e = record {
  shut = record {
    started = b ∙ s.started;
    stopping = c;
    no_idle = d ∙ s.no_idle;
    no_busy = e ∙ s.no_busy;
  };
  kept = λ id. omega (arith, ap (count id) a);
}

queued-Keeps : (p : Pool) → IsShut p → Keeps p (queued p)
queued-Keeps p s = record {
  shut = record {
    started = s.started;
    stopping = s.stopping;
    no_idle = s.no_idle;
    no_busy = s.no_busy;
  };
  kept = λ id. omega (arith, count-append id p.queue (p.next ∷ []));
}

refused-Keeps : (a : Answer) (p : Pool) → IsShut p → Keeps p (refused a p)
refused-Keeps a p s = stays p (refused a p) s refl refl s.stopping refl refl

submit-Keeps : (chance : Bool) (p : Pool) → IsShut p → Keeps p (submit chance p)
unfolding submit
submit-Keeps chance p s = grind (
  arith,
  queued-Keeps p s,
  refused-Keeps not_started p s,
  refused-Keeps shutting_down p s,
  refused-Keeps queue_full p s,
)

start-Keeps : (p : Pool) → IsShut p → Keeps p (start p)
unfolding start
start-Keeps p s =
    let same : Keeps p p = stays p p s refl refl s.stopping refl refl in
    grind (arith, same, s.started)

shut-Keeps : (p : Pool) → IsShut p → Keeps p (shut p)
unfolding shut
shut-Keeps p s =
    let same : Keeps p p = stays p p s refl refl s.stopping refl refl in
    let stopped : Keeps p (record p { stop_called = true }) =
      stays p (record p { stop_called = true }) s refl refl s.stopping refl refl in
    let locked : Keeps p (record p { stop_called = true; is_locked = true; is_stopping = true }) =
      stays p (record p { stop_called = true; is_locked = true; is_stopping = true }) s refl refl
        refl refl refl in
    grind (arith, same, stopped, locked)

Step-Keeps : {p q : Pool} → Step p q → IsShut p → Keeps p q
unfolding execute destroy finish_direct
Step-Keeps (loops (takes is_done id rest idle e i)) s = absurd (omega (arith, i, s.no_idle))
Step-Keeps {p} (loops (finishes id before after e)) s =
    absurd
      (omega (arith, ap (length {A = ℕ}) (sym e ∙ s.no_busy), length-append before (id ∷ after)))
Step-Keeps {p} (loops (finishes_direct id before after e)) s =
    stays p (finish_direct id before after p) s refl refl s.stopping refl refl
Step-Keeps (loops (leaves idle stop i)) s = absurd (omega (arith, i, s.no_idle))
Step-Keeps {p} starts s = start-Keeps p s
Step-Keeps {p} (submits chance free) s = submit-Keeps chance p s
Step-Keeps {p} executes s = stays p (execute p) s refl refl s.stopping refl refl
Step-Keeps {p} shuts s = shut-Keeps p s
Step-Keeps {p} (destroys l i b d) s = stays p (destroy p) s refl refl s.stopping refl refl

Steps-Keeps : {p q : Pool} → Steps p q → IsShut p → Keeps p q
Steps-Keeps {p} here s = stays p p s refl refl s.stopping refl refl
Steps-Keeps (then_step step rest) s =
    let first = Step-Keeps step s in
    let later = Steps-Keeps rest first.shut in
    record { shut = later.shut; kept = λ id. omega (arith, first.kept id, later.kept id) }

submit-queue :
    (p : Pool)
    → IsShut p
    → length p.queue < max_waiting
    → (submit true p).queue ≡ p.queue ++ p.next ∷ []
unfolding submit
submit-queue p s room = ground (arith, s.started, s.stopping)

-- After `Shutdown`, when the loops have returned, `Submit` may still put a request into the queue, if
-- that has room; such a request then gets no answer and its channel `started` is never closed,
-- whatever happens later.
pub submit-stranded :
    (p q : Pool)
    → IsSound p
    → IsShut p
    → length p.queue < max_waiting
    → Steps (submit true p) q
    → (count_sent p.next q.sent ≡ 0) × (count p.next q.told ≡ 0)
submit-stranded p q s shut room steps =
    let id = p.next in
    let sound = Steps-IsSound steps (submit-IsSound true p s) in
    let kept = (Steps-Keeps steps (submit-Keeps true p shut).shut).kept id in
    let inside = ap (count id) (submit-queue p shut room) in
    let split = count-append id p.queue (id ∷ []) in
    let waits : 0 < count id q.queue = ground (arith, kept, inside, split) in
    (ground (arith, sound.once id, waits), ground (arith, sound.told_once id, waits))
