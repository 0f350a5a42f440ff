-- ===== src/Processor/Cleanup.antt =====
-- internal/hnieoj/processor/processor.go: what `Process` leaves behind: the deferred deletions.
use go_judge.Prelude.{
  ◌≡◌, refl, ap, ℕ, ◌+◌, ◌⊎◌, inl, inr, bytes_eq_iff, sym, ◌∙◌, Bytes, is_empty, Bool, true, false,
  Option, none, some, List, [], ◌∷◌, ◌++◌, bytes_eq, length, arith, if◌then◌else◌,
}
use mathlib.Core.List.{reverse, append_assoc, append-nil, reverse-cons}
use go_judge.Prelude.Int.{ℤ, pos, ◌+ℤ◌, eq_ℤ}
use go_judge.Prelude.Dict.{Dict, insert, has, has-insert, has-delete}
use go_judge.Prelude.Result.{Result, ok, err}
use go_judge.Model.{Task, Program, Case, Event, accepted, mode_spj, mode_interactive}
use go_judge.Processor.{
  World, Trace, Failure, retryable, non_retryable, M, proceed, or_retry, ◌>>=◌, ◌>>◌, fail, report,
  report_quietly, case_event, run_case, CompileResult, compiling_with, deferring, judge_loop,
  judge_cases, with_program, judge_with_mode, compile_and_judge, Ensured, ensured, permanent,
  transient, judge_ensured, judge, worse, Processor, process, task_key, no_trace, normalize_mode,
  finished_event, failed_event,
}
use go_judge.Processor.Score.{case_score}

-- The call of a function that handles no artifact.
record Keeps {A : Type 0} (m : M A) : Type 0 where
  keeps : (t : Trace) → ((m t).0.made ≡ t.made) × ((m t).0.deleted ≡ t.deleted)

-- Every artifact made is deleted, in the opposite order.
record Cleans {A : Type 0} (m : M A) : Type 0 where
  cleans :
      (t : Trace)
      → (files : List Bytes) × ((m t).0.made ≡ t.made ++ files)
        × ((m t).0.deleted ≡ t.deleted ++ reverse files)

report-Keeps : (w : World) (make : ℤ → Event) → Keeps (report w make)
unfolding report
report-Keeps w make = record { keeps = λ t. (refl, refl) }

bind-Keeps :
    {A B : Type 0} (m : M A) (f : A → M B) → Keeps m → ((a : A) → Keeps (f a)) → Keeps (m >>= f)
bind-Keeps {A = A} m f k l = record { keeps = λ t. after t (m t) (k.keeps t) }
  where
    after :
        (t : Trace) (p : Trace × Result Failure A)
        → (p.0.made ≡ t.made) × (p.0.deleted ≡ t.deleted)
        → ((proceed f p).0.made ≡ t.made) × ((proceed f p).0.deleted ≡ t.deleted)
    after t (t', ok a) (x, y) = let (u, v) = (l a).keeps t' in (u ∙ x, v ∙ y)
    after t (t', err e) h = h

or_retry-Keeps :
    {A B : Type 0} (o : Option A) (f : A → M B) → ((a : A) → Keeps (f a)) → Keeps (or_retry o f)
or_retry-Keeps none f k = record { keeps = λ t. (refl, refl) }
or_retry-Keeps (some a) f k = k a

Keeps-Cleans : {A : Type 0} (m : M A) → Keeps m → Cleans m
Keeps-Cleans m k = record {
  cleans = λ t.
      let (x, y) = k.keeps t in ([], x ∙ sym (append-nil t.made), y ∙ sym (append-nil t.deleted));
}

bind-Cleans :
    {A B : Type 0} (m : M A) (f : A → M B) → Keeps m → ((a : A) → Cleans (f a)) → Cleans (m >>= f)
bind-Cleans {A = A} m f k c = record { cleans = λ t. after t (m t) (k.keeps t) }
  where
    after :
        (t : Trace) (p : Trace × Result Failure A)
        → (p.0.made ≡ t.made) × (p.0.deleted ≡ t.deleted)
        → (files : List Bytes) × ((proceed f p).0.made ≡ t.made ++ files)
          × ((proceed f p).0.deleted ≡ t.deleted ++ reverse files)
    after t (t', ok a) (x, y) =
        let (files, u, v) = (c a).cleans t' in
        (files, u ∙ ap (λ l. l ++ files) x, v ∙ ap (λ l. l ++ reverse files) y)
    after t (t', err e) (x, y) = ([], x ∙ sym (append-nil t.made), y ∙ sym (append-nil t.deleted))

if-Cleans : {A : Type 0} (b : Bool) (m k : M A) → Cleans m → Cleans k → Cleans (if b then m else k)
if-Cleans true m k c d = c
if-Cleans false m k c d = d

-- What follows a compiler that made this artifact: it is deleted last.
record CleansUp (artifact : Bytes) (m : M (Unit {0})) : Type 0 where
  cleans_up :
      (t : Trace)
      → (files : List Bytes) × ((m t).0.made ≡ t.made ++ files)
        × ((m t).0.deleted ≡ t.deleted ++ (reverse files ++ artifact ∷ []))

deferring-CleansUp :
    (x : ℕ) (rest : Bytes) (m : M (Unit {0}))
    → Cleans m
    → CleansUp (x ∷ rest) (deferring (x ∷ rest) m)
unfolding deferring
deferring-CleansUp x rest m c = record {
  cleans_up = λ t.
      let (files, u, v) = c.cleans t in
      (
        files,
        u,
        ap (λ l. l ++ (x ∷ rest) ∷ []) v ∙ append_assoc t.deleted (reverse files) ((x ∷ rest) ∷ []),
      );
}

CleansUp-made :
    (x : ℕ) (rest : Bytes) (m : M (Unit {0})) (t : Trace)
    → CleansUp (x ∷ rest) m
    → let p = m (record t { made = t.made ++ (x ∷ rest) ∷ [] }) in
      (files : List Bytes) × (p.0.made ≡ t.made ++ files)
      × (p.0.deleted ≡ t.deleted ++ reverse files)
CleansUp-made x rest m t c =
    let (files, u, v) = c.cleans_up (record t { made = t.made ++ (x ∷ rest) ∷ [] }) in
    (
      (x ∷ rest) ∷ files,
      u ∙ append_assoc t.made ((x ∷ rest) ∷ []) files,
      v ∙ ap (λ l. t.deleted ++ l) (sym (reverse-cons (x ∷ rest) files)),
    )

-- A compiler's artifact is made whatever follows, so what follows has to delete it.
compiling-Cleans :
    (o : Option CompileResult) (f : CompileResult → M (Unit {0}))
    → ((c : CompileResult) → Cleans (f c))
    → Cleans (compiling_with o (λ c. deferring c.artifact_file_id (f c)))
unfolding compiling_with
compiling-Cleans none f c = Keeps-Cleans (fail retryable) (record { keeps = λ t. (refl, refl) })
compiling-Cleans (some r) f c = record { cleans = λ t. by_artifact t r.artifact_file_id }
  where
    by_artifact :
        (t : Trace) (a : Bytes)
        → let p =
            deferring a (f r) (if is_empty a then t else record t { made = t.made ++ a ∷ [] }) in
          (files : List Bytes) × (p.0.made ≡ t.made ++ files)
          × (p.0.deleted ≡ t.deleted ++ reverse files)
    by_artifact t [] = unfold deferring in (c r).cleans t
    by_artifact t (x ∷ rest) =
        CleansUp-made x rest (deferring (x ∷ rest) (f r)) t (deferring-CleansUp x rest (f r) (c r))

judge_loop-Keeps :
    (w : World) (mode : Bytes) (task : Task) (total : ℕ) (user checker interactor : Bytes) (i : ℕ)
    (cases : List Case) (final score : ℤ)
    → Keeps (judge_loop w mode task total user checker interactor i cases final score)
unfolding judge_loop
judge_loop-Keeps w mode task total user checker interactor i [] final score = record {
  keeps = λ t. (refl, refl);
}
judge_loop-Keeps w mode task total user checker interactor i (tc ∷ rest) final score =
    or_retry-Keeps (run_case w mode i task tc user checker interactor) _ (λ r.
      bind-Keeps (report w (case_event task total i tc r)) _ (report-Keeps w _) (λ _.
        judge_loop-Keeps w mode task total user checker interactor (i + 1) rest
          (worse final r.status) (score +ℤ case_score task total i r.status r.score)))

report-Cleans : (w : World) (make : ℤ → Event) → Cleans (report w make)
report-Cleans w make = Keeps-Cleans (report w make) (report-Keeps w make)

judge_cases-Cleans :
    (w : World) (mode : Bytes) (task : Task) (cases : List Case) (user checker interactor : Bytes)
    → Cleans (judge_cases w mode task cases user checker interactor)
unfolding judge_cases
judge_cases-Cleans w mode task cases user checker interactor =
    bind-Cleans (report w _) _ (report-Keeps w _) (λ _.
      bind-Cleans
        (judge_loop w mode task (length cases) user checker interactor 0 cases accepted (pos 0)) _
        (judge_loop-Keeps w mode task (length cases) user checker interactor 0 cases accepted
          (pos 0))
        (λ totals. report-Cleans w (finished_event task (length cases) totals.0 totals.1)))

with_program-Cleans :
    (w : World) (task : Task) (total : ℕ) (role : Bytes) (status : ℤ) (p : Option Program)
    (next : Bytes → M (Unit {0}))
    → ((artifact : Bytes) → Cleans (next artifact))
    → Cleans (with_program w task total role status p next)
unfolding with_program
with_program-Cleans w task total role status none next c = report-Cleans w _
with_program-Cleans w task total role status (some p) next c =
    compiling-Cleans (w.compiles_program _ p.language p.source) _
      (λ r. if-Cleans (eq_ℤ r.status accepted) _ _ (c r.artifact_file_id) (report-Cleans w _))

judge_with_mode-Cleans :
    (w : World) (mode : Bytes) (task : Task) (cases : List Case) (user : Bytes)
    → Cleans (judge_with_mode w mode task cases user)
unfolding judge_with_mode
judge_with_mode-Cleans w mode task cases user =
    if-Cleans (bytes_eq mode mode_spj) _ _
      (with_program-Cleans w task (length cases) _ _ task.checker _
        (λ checker. judge_cases-Cleans w mode task cases user checker []))
      (if-Cleans (bytes_eq mode mode_interactive) _ _
        (with_program-Cleans w task (length cases) _ _ task.interactor _
          (λ interactor. judge_cases-Cleans w mode task cases user [] interactor))
        (judge_cases-Cleans w mode task cases user [] []))

compile_and_judge-Cleans :
    (w : World) (mode : Bytes) (task : Task) (cases : List Case)
    → Cleans (compile_and_judge w mode task cases)
unfolding compile_and_judge
compile_and_judge-Cleans w mode task cases = bind-Cleans (report w _) _ (report-Keeps w _) (λ _.
    compiling-Cleans (w.compiles task) _ (λ c.
      if-Cleans (eq_ℤ c.status accepted) _ _
        (judge_with_mode-Cleans w mode task cases c.artifact_file_id)
        (report-Cleans w (failed_event task (length cases) c.status c.message []))))

quietly-Cleans :
    (w : World) (make : ℤ → Event) → Cleans {A = Unit} (report_quietly w make >> fail non_retryable)
unfolding report_quietly report
quietly-Cleans w make = Keeps-Cleans _ (record { keeps = λ t. (refl, refl) })

ensured-Cleans :
    (w : World) (mode : Bytes) (task : Task) (answer : Ensured)
    → Cleans (judge_ensured w mode task answer)
unfolding judge_ensured
ensured-Cleans w mode task (ensured cases) = compile_and_judge-Cleans w mode task cases
ensured-Cleans w mode task (permanent message) = quietly-Cleans w _
ensured-Cleans w mode task transient = Keeps-Cleans _ (record { keeps = λ t. (refl, refl) })

judge-Cleans : (w : World) (modes : Dict (Unit {0})) (task : Task) → Cleans (judge w modes task)
unfolding judge
judge-Cleans w modes task =
    if-Cleans _ _ _ (quietly-Cleans w _)
      (ensured-Cleans w (normalize_mode task.judge_mode) task w.ensures)

process_traces :
    (w : World) (task : Task) (p : Processor)
    → ((process w task p).1 ≡ no_trace)
      ⊎ ((process w task p).1 ≡ (judge w p.supported_modes task no_trace).0)
unfolding process
process_traces w task p = ground arith

-- However a call of `Process` ends, the deletion of every artifact that its compilers made was
-- asked for, the last one first, and no other deletion.
pub process_cleanup :
    (w : World) (task : Task) (p : Processor)
    → let (_, t, _) = process w task p in t.deleted ≡ reverse t.made
process_cleanup w task p = elim (process_traces w task p) [
  | inl h ↦ rw h refl
  | inr h ↦ rw h (
      let (files, u, v) = (judge-Cleans w p.supported_modes task).cleans no_trace in
      v ∙ sym (ap reverse u))
]

-- A call of `Process` leaves the set of the tasks in flight as it found it, however it ends.
process-in_flight :
    (w : World) (task : Task) (p : Processor) (k : Bytes)
    → has k (process w task p).0.in_flight ≡ has k p.in_flight
unfolding process
process-in_flight w task p k = ground (
  arith,
  has-delete (task_key task) k (insert (task_key task) tt p.in_flight),
  has-insert (task_key task) k tt p.in_flight,
  bytes_eq_iff (task_key task) k,
)
