-- ===== src/Envexec/Descriptors/Counting.antt =====
-- envexec/file_prepare.go: what `countFd` counts, and when it panics.
use go_judge.Prelude.{
  ℕ, zero, suc, ◌+◌, ◌<◌, ◌≤◌, ◌≡◌, refl, ◌∙◌, arith, Bool, true, false, ◌||◌, List, [], ◌∷◌, ltb,
  length, length-set, get_or, set, Bool-cases, inl, inr,
}
use go_judge.Prelude.Int.{pos, negsuc, pos_part, ltb_ℤ}
use go_judge.Prelude.Result.{ok, err}
use go_judge.Envexec.Commands.{PipeIndex}
use go_judge.Envexec.Descriptors.{panicked, max_int, count_end, count_ends}

-- An end of a pipe at a command that is there, with a descriptor that is negative, or free there and
-- less than the number of places that can be made.
pub data IsSpare (max_places : ℕ) (files : List (List Bool)) (p : PipeIndex) : Type 0 where
  negative :
      (i n : ℕ) → p.index ≡ pos i → i < length files → p.fd ≡ negsuc n → IsSpare max_places files p
  spare :
      (i k : ℕ)
      → p.index ≡ pos i
      → i < length files
      → p.fd ≡ pos k
      → k < max_places
      → get_or (get_or files i []) k false ≡ false
      → IsSpare max_places files p

abbrev pub AllSpare : ℕ → List (List Bool) → List PipeIndex → Type 0
AllSpare max_places files [] = Unit
AllSpare max_places files (p ∷ ends) = IsSpare max_places files p × AllSpare max_places files ends

abbrev pub any_negative : List PipeIndex → Bool
any_negative [] = false
any_negative (p ∷ ends) = ltb_ℤ p.fd (pos 0) || any_negative ends

-- A descriptor within what was counted for its command.
abbrev pub IsBelow : PipeIndex → List ℕ → Type 0
IsBelow p counts =
    (ltb_ℤ p.index (pos 0) ≡ false)
    × (ltb_ℤ p.fd (pos 0) ≡ false)
    × (pos_part p.fd < get_or counts (pos_part p.index) 0)

abbrev pub AllBelow : List PipeIndex → List ℕ → Type 0
AllBelow [] counts = Unit
AllBelow (p ∷ ends) counts = IsBelow p counts × AllBelow ends counts

get_or-set : (xs : List ℕ) (i j v : ℕ) → get_or xs i 0 ≤ v → get_or xs j 0 ≤ get_or (set xs i v) j 0
get_or-set [] i j v h = omega arith
get_or-set (x ∷ xs) zero zero v h = h
get_or-set (x ∷ xs) zero (suc j) v h = omega arith
get_or-set (x ∷ xs) (suc i) zero v h = omega arith
get_or-set (x ∷ xs) (suc i) (suc j) v h = get_or-set xs i j v h

get_or-set_self : (xs : List ℕ) (i v : ℕ) → i < length xs → get_or (set xs i v) i 0 ≡ v
get_or-set_self [] i v h = absurd (omega (arith, h))
get_or-set_self (x ∷ xs) zero v h = refl
get_or-set_self (x ∷ xs) (suc i) v h = get_or-set_self xs i v (omega (arith, h))

get_or-set_le :
    (xs : List ℕ) (i j v m : ℕ) → get_or xs j 0 ≤ m → v ≤ m → get_or (set xs i v) j 0 ≤ m
get_or-set_le [] i j v m h k = h
get_or-set_le (x ∷ xs) zero zero v m h k = k
get_or-set_le (x ∷ xs) zero (suc j) v m h k = h
get_or-set_le (x ∷ xs) (suc i) zero v m h k = h
get_or-set_le (x ∷ xs) (suc i) (suc j) v m h k = get_or-set_le xs i j v m h k

-- One end is counted.
pub record Counted (max_places : ℕ) (p : PipeIndex) (counts counts' : List ℕ) : Type 0 where
  pub grows : (j : ℕ) → get_or counts j 0 ≤ get_or counts' j 0
  pub small : (j : ℕ) → get_or counts j 0 ≤ max_places → get_or counts' j 0 ≤ max_places
  pub same : length counts' ≡ length counts
  pub below : IsBelow p counts'

count_end-negative :
    (max_places : ℕ) (files : List (List Bool)) (p : PipeIndex) (counts : List ℕ)
    → IsSpare max_places files p
    → ltb_ℤ p.fd (pos 0) ≡ true
    → count_end files p counts ≡ err panicked
unfolding count_end
count_end-negative max_places files p counts (negative i n hi l hf) h = ground (arith, hi, hf, l)
count_end-negative max_places files p counts (spare i k hi l hf b f) h =
    absurd (ground (arith, hf, h))

count_end-spare :
    (max_places : ℕ) (files : List (List Bool)) (p : PipeIndex) (counts : List ℕ)
    → max_places ≤ max_int
    → length counts ≡ length files
    → IsSpare max_places files p
    → ltb_ℤ p.fd (pos 0) ≡ false
    → (counts' : List ℕ) × (count_end files p counts ≡ ok counts')
      × Counted max_places p counts counts'
unfolding count_end
count_end-spare max_places files p counts w e (negative i n hi l hf) h =
    absurd (ground (arith, hf, h))
count_end-spare max_places files p counts w e (spare i k hi l hf b f) h =
    elim (Bool-cases (ltb (get_or counts i 0) (k + 1))) [
      | inl more ↦ (
        set counts i (k + 1),
        ground (arith, hi, hf, l, b, w, f, more),
        record {
          grows = λ j. get_or-set counts i j (k + 1) (ground (arith, more));
          small = λ j h. get_or-set_le counts i j (k + 1) max_places h (omega (arith, b));
          same = length-set counts i (k + 1);
          below = ground (arith, hi, hf, get_or-set_self counts i (k + 1) (omega (arith, e, l)));
        },
      )
      | inr fits ↦ (
        counts,
        ground (arith, hi, hf, l, b, w, f, fits),
        record {
          grows = λ j. omega arith;
          small = λ j h. h;
          same = refl;
          below = ground (arith, hi, hf, fits);
        },
      )
    ]

IsBelow-grows :
    (p : PipeIndex) (counts counts' : List ℕ)
    → ((j : ℕ) → get_or counts j 0 ≤ get_or counts' j 0)
    → IsBelow p counts
    → IsBelow p counts'
IsBelow-grows p counts counts' g (a, b, c) = (a, b, omega (arith, c, g (pos_part p.index)))

-- All ends are counted.
pub record AllCounted (max_places : ℕ) (ends : List PipeIndex) (counts counts' : List ℕ)
    : Type 0 where
  pub grows : (j : ℕ) → get_or counts j 0 ≤ get_or counts' j 0
  pub small : (j : ℕ) → get_or counts j 0 ≤ max_places → get_or counts' j 0 ≤ max_places
  pub same : length counts' ≡ length counts
  pub below : AllBelow ends counts'

pub count_ends-spare :
    (max_places : ℕ) (files : List (List Bool)) (ends : List PipeIndex) (counts : List ℕ)
    → max_places ≤ max_int
    → length counts ≡ length files
    → AllSpare max_places files ends
    → any_negative ends ≡ false
    → (counts' : List ℕ) × (count_ends files ends counts ≡ ok counts')
      × AllCounted max_places ends counts counts'
unfolding count_ends
count_ends-spare max_places files [] counts w e a h =
    (counts, refl, record { grows = λ j. omega arith; small = λ j h. h; same = refl; below = tt })
count_ends-spare max_places files (p ∷ ends) counts w e (a, rest) h =
    let (c, r, one) = count_end-spare max_places files p counts w e a (ground (arith, h)) in
    let (c', rs, all) =
      count_ends-spare max_places files ends c w (one.same ∙ e) rest (ground (arith, h)) in
    (
      c',
      rw r rs,
      record {
        grows = λ j. omega (arith, one.grows j, all.grows j);
        small = λ j t. all.small j (one.small j t);
        same = all.same ∙ one.same;
        below = (IsBelow-grows p c c' all.grows one.below, all.below);
      },
    )

pub count_ends-negative :
    (max_places : ℕ) (files : List (List Bool)) (ends : List PipeIndex) (counts : List ℕ)
    → max_places ≤ max_int
    → length counts ≡ length files
    → AllSpare max_places files ends
    → any_negative ends ≡ true
    → count_ends files ends counts ≡ err panicked
unfolding count_ends
count_ends-negative max_places files [] counts w e a h = absurd (ground (arith, h))
count_ends-negative max_places files (p ∷ ends) counts w e (a, rest) h =
    elim (Bool-cases (ltb_ℤ p.fd (pos 0))) [
      | inl n ↦ rw (count_end-negative max_places files p counts a n) refl
      | inr n ↦
          let (c, r, one) = count_end-spare max_places files p counts w e a n in
          rw r (
            count_ends-negative max_places files ends c w (one.same ∙ e) rest
              (ground (arith, h, n)))
    ]
