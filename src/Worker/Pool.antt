-- ===== src/Worker/Pool.antt =====
-- worker/worker.go: `Start`, `Submit`, `Execute`, `loop` and `Shutdown` as a step relation. A request
-- is known by a number, in the order of the calls; its execution is between two steps.
pub mod Sound
pub mod Progress
pub mod Stranded
use go_judge.Prelude.{
  ℕ, suc, ◌+◌, ◌-◌, ◌<◌, ◌≡◌, Bool, true, false, not, ◌&&◌, ◌||◌, Option, none, some, List, [], ◌∷◌,
  ◌++◌, ltb, ◌==◌, if◌then◌else◌, length,
}

-- `maxWaiting`.
abbrev pub max_waiting : ℕ
max_waiting = 512

-- The `Error` of an answer; `executed` stands for the result of `workDoCmd`.
pub data Answer : Type 0 where
  not_started shutting_down queue_full cancelled executed : Answer

-- `idle` and `busy` are the loops that wait and those that execute a request, `direct` the goroutines
-- of `Execute`, and `running` the counter. `is_stopping` says that `done` is closed, `is_locked` that
-- `Shutdown` holds the lock, and `told` lists the requests whose `started` is closed. `sent` are the
-- answers sent, and `made` the requests of `Execute`.
pub record Pool : Type 0 where
  pub parallelism : ℕ
  pub is_started : Bool
  pub is_stopping : Bool
  pub stop_called : Bool
  pub is_locked : Bool
  pub destroyed : Bool
  pub queue : List ℕ
  pub idle : ℕ
  pub busy : List ℕ
  pub direct : List ℕ
  pub running : ℕ
  pub told : List ℕ
  pub sent : List (ℕ × Answer)
  pub made : List ℕ
  pub next : ℕ

-- `New`, for a number of loops, which is that of the CPU sets if there are any.
abbrev pub new_pool : ℕ → Pool
new_pool n = record {
  parallelism = n;
  is_started = false;
  is_stopping = false;
  stop_called = false;
  is_locked = false;
  destroyed = false;
  queue = [];
  idle = 0;
  busy = [];
  direct = [];
  running = 0;
  told = [];
  sent = [];
  made = [];
  next = 0;
}

-- `Start`.
unfoldable pub start : Pool → Pool
start p = if p.is_started then p else record p { is_started = true; idle = p.parallelism }

-- An answer of `Submit` itself, and a request that it puts into the queue.
abbrev pub refused : Answer → Pool → Pool
refused a p = record p { told = p.next ∷ p.told; sent = (p.next, a) ∷ p.sent; next = p.next + 1 }

abbrev pub queued : Pool → Pool
queued p = record p { queue = p.queue ++ p.next ∷ []; next = p.next + 1 }

-- `Submit` of the request `p.next`; `chance` is the choice of `select` if `done` is closed and the
-- queue has room.
unfoldable pub submit : Bool → Pool → Pool
submit chance p =
    if not p.is_started
    then refused not_started p
    else if ltb (length p.queue) max_waiting && (not p.is_stopping || chance)
    then queued p
    else if p.is_stopping
    then refused shutting_down p
    else refused queue_full p

-- `Execute`, which starts a goroutine.
unfoldable pub execute : Pool → Pool
execute p = record p {
  direct = p.next ∷ p.direct;
  made = p.next ∷ p.made;
  running = p.running + 1;
  next = p.next + 1;
}

-- A loop receives the first request, whose context is done or not.
unfoldable pub take_request : Bool → ℕ → List ℕ → ℕ → Pool → Pool
take_request is_done id rest idle p =
    if is_done
    then record p { queue = rest; told = id ∷ p.told; sent = (id, cancelled) ∷ p.sent }
    else record p {
      queue = rest;
      told = id ∷ p.told;
      idle = idle;
      busy = id ∷ p.busy;
      running = p.running + 1;
    }

-- The end of `workDoCmd` in a loop, and in a goroutine of `Execute`.
unfoldable pub finish : ℕ → List ℕ → List ℕ → Pool → Pool
finish id before after p = record p {
  busy = before ++ after;
  idle = p.idle + 1;
  running = p.running - 1;
  sent = (id, executed) ∷ p.sent;
}

unfoldable pub finish_direct : ℕ → List ℕ → List ℕ → Pool → Pool
finish_direct id before after p = record p {
  direct = before ++ after;
  running = p.running - 1;
  sent = (id, executed) ∷ p.sent;
}

-- `Shutdown` up to `wg.Wait`.
unfoldable pub shut : Pool → Pool
shut p =
    if p.stop_called
    then p
    else if not p.is_started
    then record p { stop_called = true }
    else record p { stop_called = true; is_locked = true; is_stopping = true }

-- `Shutdown` from the end of `wg.Wait` on.
unfoldable pub destroy : Pool → Pool
destroy p = record p { is_locked = false; destroyed = true }

-- What a loop or a goroutine does by itself.
pub data LoopStep (p : Pool) : Pool → Type 0 where
  takes :
      (is_done : Bool) (id : ℕ) (rest : List ℕ) (idle : ℕ)
      → p.queue ≡ id ∷ rest
      → p.idle ≡ suc idle
      → LoopStep p (take_request is_done id rest idle p)
  finishes :
      (id : ℕ) (before after : List ℕ)
      → p.busy ≡ before ++ id ∷ after
      → LoopStep p (finish id before after p)
  finishes_direct :
      (id : ℕ) (before after : List ℕ)
      → p.direct ≡ before ++ id ∷ after
      → LoopStep p (finish_direct id before after p)
  leaves :
      (idle : ℕ) → p.is_stopping ≡ true → p.idle ≡ suc idle → LoopStep p (record p { idle = idle })

-- A step of the whole: of a loop, or of a caller. `Submit` waits for the lock of `Shutdown`, and
-- `wg.Wait` for all loops and goroutines.
pub data Step (p : Pool) : Pool → Type 0 where
  loops : {q : Pool} → LoopStep p q → Step p q
  starts : Step p (start p)
  submits : (chance : Bool) → p.is_locked ≡ false → Step p (submit chance p)
  executes : Step p (execute p)
  shuts : Step p (shut p)
  destroys : p.is_locked ≡ true → p.idle ≡ 0 → p.busy ≡ [] → p.direct ≡ [] → Step p (destroy p)

pub data Steps : Pool → Pool → Type 0 where
  here : {p : Pool} → Steps p p
  then_step : {p q r : Pool} → Step p q → Steps q r → Steps p r

pub data LoopSteps : Pool → Pool → Type 0 where
  rests : {p : Pool} → LoopSteps p p
  goes : {p q r : Pool} → LoopStep p q → LoopSteps q r → LoopSteps p r
