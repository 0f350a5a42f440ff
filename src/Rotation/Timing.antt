-- ===== src/Rotation/Timing.antt =====
-- internal/hnieoj/rotation/rotation.go: when the next rotation is due. Durations are in nanoseconds.
use go_judge.Prelude.{
  ℕ, ◌*◌, ◌≡◌, inl, inr, refl, Bytes, is_empty, false, ◌&&◌, ◌||◌, Option, none, some, arith,
  if◌then◌else◌, Bool-cases,
}
use go_judge.Prelude.Int.{ℤ, pos, negsuc, ◌+ℤ◌, ◌-ℤ◌, ◌≤ℤ◌, leb_ℤ, ltb_ℤ}
use go_judge.Identity.{PendingRotation, FileState}
use go_judge.Identity.Keys.{KeyRecord, current_key}

abbrev second : ℕ
second = 1000000000

pub record Options : Type 0 where
  pub interval : ℤ
  pub grace : ℤ
  pub confirm_timeout : ℤ

abbrev or_duration : ℤ → ℕ → ℤ
or_duration given n = if leb_ℤ given (pos 0) then pos n else given

-- The defaults of `New`.
pub with_defaults : Options → Options
with_defaults o = record {
  interval = or_duration o.interval (2592000 * second);
  grace = or_duration o.grace (300 * second);
  confirm_timeout = or_duration o.confirm_timeout (30 * second);
}

-- The interval of the ticker in `Run`.
pub cleanup_interval : Options → ℤ
cleanup_interval o =
    if leb_ℤ o.grace (pos 0) || ltb_ℤ (pos (60 * second)) o.grace
    then pos (60 * second)
    else o.grace

pub retry_backoff : Options → ℤ
retry_backoff o =
    if ltb_ℤ (pos 0) o.confirm_timeout && ltb_ℤ o.confirm_timeout (pos (2 * second))
    then o.confirm_timeout
    else pos (2 * second)

add-sub_lem : (a b : ℤ) → a +ℤ (b -ℤ a) ≡ b
unfolding ◌+ℤ◌ ◌-ℤ◌
add-sub_lem (pos m) (pos n) = ground arith
add-sub_lem (pos m) (negsuc n) = ground arith
add-sub_lem (negsuc m) (pos n) = ground arith
add-sub_lem (negsuc m) (negsuc n) = ground arith

not-later : (a b : ℤ) → ltb_ℤ (pos 0) (b -ℤ a) ≡ false → b ≤ℤ a
unfolding ◌-ℤ◌
not-later (pos m) (pos n) e = ground arith
not-later (pos m) (negsuc n) e = ground arith
not-later (negsuc m) (pos n) e = ground arith
not-later (negsuc m) (negsuc n) e = ground arith

-- The parser of stamps is a parameter.
module _ (parse : Bytes → Option ℤ) where
  abbrev created_of : Option KeyRecord → Option ℤ
  created_of none = none
  created_of (some k) = if is_empty k.created_at then none else parse k.created_at

  -- `CurrentKeyCreatedAt`.
  pub current_key_created_at : FileState → Option ℤ
  unfolding current_key
  current_key_created_at st = created_of (current_key st.current_key_id st.keys)

  pub wait_until : ℤ → ℤ
  wait_until left = if ltb_ℤ (pos 0) left then left else pos 0

  pub due_from : Options → ℤ → Option ℤ → ℤ
  unfolding wait_until
  due_from o now none = o.interval
  due_from o now (some created) = wait_until ((created +ℤ o.interval) -ℤ now)

  pub due_with : Option PendingRotation → Options → ℤ → Option ℤ → ℤ
  unfolding retry_backoff due_from
  due_with (some p) o now created = retry_backoff o
  due_with none o now created = due_from o now created

  pub next_due : Options → ℤ → FileState → ℤ
  unfolding due_with current_key_created_at
  next_due o now st = due_with (st.pending_rotation) o now (current_key_created_at st)

  -- A retry within two seconds, or a wait that ends when the key is as old as the interval.
  pub data IsTimely (o : Options) (now wait : ℤ) (st : FileState) : Type 0 where
    retries :
        (p : PendingRotation)
        → st.pending_rotation ≡ some p
        → wait ≤ℤ pos (2 * second)
        → IsTimely o now wait st
    undated : current_key_created_at st ≡ none → wait ≡ o.interval → IsTimely o now wait st
    waits :
        (created : ℤ)
        → current_key_created_at st ≡ some created
        → now +ℤ wait ≡ created +ℤ o.interval
        → IsTimely o now wait st
    overdue :
        (created : ℤ)
        → current_key_created_at st ≡ some created
        → created +ℤ o.interval ≤ℤ now
        → wait ≡ pos 0
        → IsTimely o now wait st

  wait_until-IsTimely :
      (o : Options) (now created : ℤ) (st : FileState)
      → current_key_created_at st ≡ some created
      → IsTimely o now (wait_until ((created +ℤ o.interval) -ℤ now)) st
  unfolding wait_until
  wait_until-IsTimely o now created st dated =
      elim (Bool-cases (ltb_ℤ (pos 0) ((created +ℤ o.interval) -ℤ now))) [
        | inl later ↦ rw later (waits created dated (add-sub_lem now (created +ℤ o.interval)))
        | inr late ↦
            rw late (overdue created dated (not-later now (created +ℤ o.interval) late) refl)
      ]

  retry_backoff-le : (o : Options) → retry_backoff o ≤ℤ pos (2 * second)
  unfolding retry_backoff
  retry_backoff-le o = ground arith

  due_with-IsTimely :
      (p : Option PendingRotation) (created : Option ℤ) (o : Options) (now : ℤ) (st : FileState)
      → st.pending_rotation ≡ p
      → current_key_created_at st ≡ created
      → IsTimely o now (due_with p o now created) st
  unfolding due_with due_from
  due_with-IsTimely (some p) created o now st there dated = retries p there (retry_backoff-le o)
  due_with-IsTimely none none o now st idle dated = undated dated refl
  due_with-IsTimely none (some created) o now st idle dated =
      wait_until-IsTimely o now created st dated

  -- While a rotation is pending, the next attempt comes within two seconds; else, if the current key
  -- has a time of creation, when that is an interval ago, or at once if it already is; and else
  -- after an interval.
  pub next_due-IsTimely :
      (o : Options) (now : ℤ) (st : FileState) → IsTimely o now (next_due o now st) st
  unfolding next_due
  next_due-IsTimely o now st =
      due_with-IsTimely (st.pending_rotation) (current_key_created_at st) o now st refl refl
