-- ===== src/Processor/Reports.antt =====
-- internal/hnieoj/processor/processor.go: which calls deliver a final event, rule by rule.
use go_judge.Prelude.{
  is_empty, if◌then◌else◌, ℕ, suc, ◌≤◌, ◌≡◌, refl, subst, Bytes, Bool, true, false, ◌&&◌, Option,
  none, some, List, [], ◌∷◌, ◌++◌, arith, if◌then◌else◌, length,
}
use go_judge.Prelude.Int.{ℤ}
use go_judge.Prelude.Result.{Result, ok, err}
use go_judge.Model.{Event, EventType, judge_finished, judge_failed}
use go_judge.Processor.{
  World, Trace, proceed, or_retry, Failure, retryable, non_retryable, M, ◌>>=◌, ◌>>◌, fail, report,
  report_quietly, deferring, CompileResult, compiling_with,
}

abbrev pub is_terminal : EventType → Bool
is_terminal judge_finished = true
is_terminal judge_failed = true
is_terminal _ = false

-- How many final events were delivered.
abbrev pub terminals : List (Event × Bool) → ℕ
terminals [] = 0
terminals ((e, done) ∷ sent) =
    if is_terminal e.event_type && done then suc (terminals sent) else terminals sent

-- The last report was a final event, and was delivered.
abbrev pub is_closed : List (Event × Bool) → Bool
is_closed [] = false
is_closed ((e, done) ∷ []) = is_terminal e.event_type && done
is_closed (first ∷ (next ∷ sent)) = is_closed (next ∷ sent)

terminals-append :
    (sent : List (Event × Bool)) (e : Event) (done : Bool)
    → terminals (sent ++ (e, done) ∷ [])
      ≡ (if is_terminal e.event_type && done then suc (terminals sent) else terminals sent)
terminals-append [] e done = refl
terminals-append ((x, d) ∷ sent) e done = ground (arith, terminals-append sent e done)

is_closed-append :
    (sent : List (Event × Bool)) (e : Event) (done : Bool)
    → is_closed (sent ++ (e, done) ∷ []) ≡ is_terminal e.event_type && done
is_closed-append [] e done = refl
is_closed-append (x ∷ []) e done = refl
is_closed-append (x ∷ (y ∷ sent)) e done = is_closed-append (y ∷ sent) e done

-- What a result says of the final events, of which `n` were delivered before.
abbrev pub Ends : {A : Type 0} → ℕ → Trace × Result Failure A → Type 0
Ends n (t, ok a) = (terminals t.sent ≡ suc n) × (is_closed t.sent ≡ true)
Ends n (t, err retryable) = terminals t.sent ≡ n
Ends n (t, err non_retryable) = terminals t.sent ≤ suc n

pub record Closing {A : Type 0} (m : M A) : Type 0 where
  pub ends : (t : Trace) → Ends (terminals t.sent) (m t)

-- No final event is delivered, and a failure can be retried.
abbrev pub Stays : {A : Type 0} → ℕ → Trace × Result Failure A → Type 0
Stays n (t, ok a) = terminals t.sent ≡ n
Stays n (t, err retryable) = terminals t.sent ≡ n
Stays n (t, err non_retryable) = ⊥

pub record Quiet {A : Type 0} (m : M A) : Type 0 where
  pub stays : (t : Trace) → Stays (terminals t.sent) (m t)

pub report-Quiet :
    (w : World) (make : ℤ → Event)
    → ((now : ℤ) → is_terminal (make now).event_type ≡ false)
    → Quiet (report w make)
unfolding report
report-Quiet w make h = record { stays = at }
  where
    at : (t : Trace) → Stays (terminals t.sent) (report w make t)
    at t =
        let n = length t.sent in
        let e = make (w.clock n) in
        elim (w.delivers n e)
          as (λ d.
            Stays (terminals t.sent)
              (record t { sent = t.sent ++ (e, d) ∷ [] }, if d then ok tt else err retryable)) [
                | true ↦ ground (arith, h (w.clock n), terminals-append t.sent e true)
                | false ↦ ground (arith, h (w.clock n), terminals-append t.sent e false)
              ]

pub report-Closing :
    (w : World) (make : ℤ → Event)
    → ((now : ℤ) → is_terminal (make now).event_type ≡ true)
    → Closing (report w make)
unfolding report
report-Closing w make h = record { ends = at }
  where
    at : (t : Trace) → Ends (terminals t.sent) (report w make t)
    at t =
        let n = length t.sent in
        let e = make (w.clock n) in
        elim (w.delivers n e)
          as (λ d.
            Ends (terminals t.sent)
              (record t { sent = t.sent ++ (e, d) ∷ [] }, if d then ok tt else err retryable)) [
                | true ↦ ground (
                  arith,
                  h (w.clock n),
                  terminals-append t.sent e true,
                  is_closed-append t.sent e true,
                )
                | false ↦ ground (arith, h (w.clock n), terminals-append t.sent e false)
              ]

-- A final report whose failure is ignored, before a failure that is not retried.
pub quietly-Closing :
    (w : World) (make : ℤ → Event)
    → Closing {A = Unit} (report_quietly w make >> fail non_retryable)
unfolding report_quietly report
quietly-Closing w make = record { ends = at }
  where
    at :
        (t : Trace)
        → Ends (terminals t.sent) (◌>>◌ {B = Unit} (report_quietly w make) (fail non_retryable) t)
    at t =
        let n = length t.sent in
        let e = make (w.clock n) in ground (arith, terminals-append t.sent e (w.delivers n e))

pub fail-Closing : Closing {A = Unit} (fail retryable)
fail-Closing = record { ends = λ t. refl }

after-Ends :
    {A : Type 0} (f : A → M (Unit {0})) (n : ℕ) (p : Trace × Result Failure A)
    → ((a : A) → Closing (f a))
    → Stays n p
    → Ends n (proceed f p)
after-Ends f n (t, ok a) c s = subst (λ k. Ends k (f a t)) s ((c a).ends t)
after-Ends f n (t, err retryable) c s = s
after-Ends f n (t, err non_retryable) c s = absurd s

pub bind-Closing :
    {A : Type 0} (m : M A) (f : A → M (Unit {0}))
    → Quiet m
    → ((a : A) → Closing (f a))
    → Closing (m >>= f)
bind-Closing m f q c = record { ends = λ t. after-Ends f (terminals t.sent) (m t) c (q.stays t) }

after-Stays :
    {A B : Type 0} (f : A → M B) (n : ℕ) (p : Trace × Result Failure A)
    → ((a : A) → Quiet (f a))
    → Stays n p
    → Stays n (proceed f p)
after-Stays f n (t, ok a) c s = subst (λ k. Stays k (f a t)) s ((c a).stays t)
after-Stays f n (t, err retryable) c s = s
after-Stays f n (t, err non_retryable) c s = absurd s

pub bind-Quiet :
    {A B : Type 0} (m : M A) (f : A → M B) → Quiet m → ((a : A) → Quiet (f a)) → Quiet (m >>= f)
bind-Quiet m f q c = record { stays = λ t. after-Stays f (terminals t.sent) (m t) c (q.stays t) }

deleted-Ends :
    (n : ℕ) (artifact : Bytes) (p : Trace × Result Failure (Unit {0}))
    → Ends n p
    → Ends n (record (p.0) { deleted = p.0.deleted ++ artifact ∷ [] }, p.1)
deleted-Ends n artifact (t, ok a) e = e
deleted-Ends n artifact (t, err retryable) e = e
deleted-Ends n artifact (t, err non_retryable) e = e

pub deferring-Closing :
    (artifact : Bytes) (m : M (Unit {0})) → Closing m → Closing (deferring artifact m)
unfolding deferring
deferring-Closing [] m c = c
deferring-Closing (x ∷ rest) m c = record {
  ends = λ t. deleted-Ends (terminals t.sent) (x ∷ rest) (m t) (c.ends t);
}

pub compiling-Closing :
    (o : Option CompileResult) (f : CompileResult → M (Unit {0}))
    → ((c : CompileResult) → Closing (f c))
    → Closing (compiling_with o f)
unfolding compiling_with
compiling-Closing none f c = fail-Closing
compiling-Closing (some r) f c = record {
  ends = λ t.
      elim r.artifact_file_id
        as (λ a.
          Ends (terminals t.sent)
            (f r (if is_empty a then t else record t { made = t.made ++ a ∷ [] }))) [
              | [] ↦ (c r).ends t
              | x ∷ rest ↦ (c r).ends (record t { made = t.made ++ (x ∷ rest) ∷ [] })
            ];
}

pub or_retry-Closing :
    {A : Type 0} (o : Option A) (f : A → M (Unit {0}))
    → ((a : A) → Closing (f a))
    → Closing (or_retry o f)
or_retry-Closing none f c = fail-Closing
or_retry-Closing (some a) f c = c a

pub or_retry-Quiet :
    {A B : Type 0} (o : Option A) (f : A → M B) → ((a : A) → Quiet (f a)) → Quiet (or_retry o f)
or_retry-Quiet none f c = record { stays = λ t. refl }
or_retry-Quiet (some a) f c = c a

pub if-Closing :
    (b : Bool) (m k : M (Unit {0})) → Closing m → Closing k → Closing (if b then m else k)
if-Closing true m k c d = c
if-Closing false m k c d = d
