-- ===== src/Testdata/Swept.antt =====
-- internal/hnieoj/testdata/cleanup.go: what a cleanup of the cache leaves.
use mathlib.Core.List.Perm
use mathlib.Core.Logic.Or
use mathlib.Core.HLevel.{⊥_prop}
use mathlib.Core.List.{Mem, not-mem-nil, eq-or-mem_of_mem-cons}
use mathlib.Core.List.{Perm, perm_middle, foldr}
use go_judge.Prelude.{
  ◌+◌, ◌≡◌, inl, inr, refl, subst, ◌∙◌, ap, Bytes, Bool, true, false, List, [], ◌∷◌, ◌++◌, arith,
  length, Bool-cases,
}
use go_judge.Prelude.Int.{ℤ, pos, negsuc, ◌-ℤ◌, ◌≤ℤ◌, leb_ℤ, ltb_ℤ}
use go_judge.Testdata.{
  CacheEntry, Sweep, total_size, is_unused, remove_unused, evict, nothing_removed, with_removed,
}

-- A limit is set, and the last use lies longer ago than it allows.
pub record IsUnused (now max_unused : ℤ) (e : CacheEntry) : Type 0 where
  pub limited : ltb_ℤ (pos 0) max_unused ≡ true
  pub old : ltb_ℤ max_unused (now -ℤ e.last_used) ≡ true

abbrev pub AllUnused : ℤ → ℤ → List CacheEntry → Type 0
AllUnused now max_unused [] = Unit
AllUnused now max_unused (e ∷ entries) =
    IsUnused now max_unused e × AllUnused now max_unused entries

-- No entry of the list is unused for too long.
abbrev pub AllUsed : ℤ → ℤ → List CacheEntry → Type 0
AllUsed now max_unused entries = (e : CacheEntry) → Mem e entries → ¬ IsUnused now max_unused e

pub AllUsed-perm :
    (now max_unused : ℤ) (xs ys : List CacheEntry)
    → Perm xs ys
    → AllUsed now max_unused xs
    → AllUsed now max_unused ys
AllUsed-perm now max_unused xs ys p u e m = u e ((Perm.mem_iff p).1 m)

is_unused-IsUnused :
    (now max_unused : ℤ) (e : CacheEntry)
    → is_unused now max_unused e ≡ true
    → IsUnused now max_unused e
is_unused-IsUnused now max_unused e h = record { limited = ground arith; old = ground arith }

used-AllUsed :
    (now max_unused : ℤ) (x : CacheEntry) (entries : List CacheEntry)
    → is_unused now max_unused x ≡ false
    → AllUsed now max_unused entries
    → AllUsed now max_unused (x ∷ entries)
used-AllUsed now max_unused x entries used rest e m u =
    Or.elim ⊥_prop (eq-or-mem_of_mem-cons m)
      (λ same.
        let old : ltb_ℤ max_unused (now -ℤ x.last_used) ≡ true =
          subst (λ (t : CacheEntry). ltb_ℤ max_unused (now -ℤ t.last_used) ≡ true) same u.old in
        ground (arith, u.limited, old, used))
      (λ below. rest e below u)

-- No entry of the list was used before this one.
abbrev pub IsOldest : CacheEntry → List CacheEntry → Type 0
IsOldest e [] = Unit
IsOldest e (x ∷ entries) = (e.last_used ≤ℤ x.last_used) × IsOldest e entries

abbrev pub IsSorted : List CacheEntry → Type 0
IsSorted [] = Unit
IsSorted (e ∷ entries) = IsOldest e entries × IsSorted entries

abbrev pub AllOlder : List CacheEntry → List CacheEntry → Type 0
AllOlder [] left = Unit
AllOlder (e ∷ gone) left = IsOldest e left × AllOlder gone left

-- Before each removal the cache was too large.
abbrev pub AllNeeded : ℤ → List CacheEntry → List CacheEntry → Type 0
AllNeeded max_bytes [] left = Unit
AllNeeded max_bytes (e ∷ gone) left =
    (leb_ℤ (pos (total_size (e ∷ (gone ++ left)))) max_bytes ≡ false)
    × AllNeeded max_bytes gone left

pub total_size-foldr :
    (entries : List CacheEntry)
    → total_size entries ≡ foldr (λ (e : CacheEntry) n. e.size + n) 0 entries
unfolding total_size
total_size-foldr [] = refl
total_size-foldr (e ∷ entries) = ap (λ t. e.size + t) (total_size-foldr entries)

pub total_size-append :
    (xs ys : List CacheEntry) → total_size (xs ++ ys) ≡ total_size xs + total_size ys
unfolding total_size
total_size-append [] ys = omega arith
total_size-append (x ∷ xs) ys = omega (arith, total_size-append xs ys)

IsOldest-right : (e : CacheEntry) (xs ys : List CacheEntry) → IsOldest e (xs ++ ys) → IsOldest e ys
IsOldest-right e [] ys h = h
IsOldest-right e (x ∷ xs) ys h = IsOldest-right e xs ys h.1

pub sorted-AllOlder : (xs ys : List CacheEntry) → IsSorted (xs ++ ys) → AllOlder xs ys
sorted-AllOlder [] ys h = tt
sorted-AllOlder (x ∷ xs) ys h = (IsOldest-right x xs ys h.0, sorted-AllOlder xs ys h.1)

rest_size :
    (e : CacheEntry) (entries : List CacheEntry)
    → pos (total_size (e ∷ entries)) -ℤ pos e.size ≡ pos (total_size entries)
unfolding total_size ◌-ℤ◌
rest_size e entries = ground arith

no_entries :
    (max_bytes : ℤ) → ltb_ℤ (pos 0) max_bytes ≡ true → leb_ℤ (pos (total_size [])) max_bytes ≡ true
unfolding total_size
no_entries (pos n) room = ground arith
no_entries (negsuc n) room = ground arith

-- The counters of a sweep say what is gone.
pub record IsCounted (s : Sweep) : Type 0 where
  pub removed : s.removed ≡ length s.gone
  pub freed : s.freed ≡ total_size s.gone

module _ (fails : Bytes → Bool) where
  pub record IsEvicted (max_bytes : ℤ) (entries : List CacheEntry) (s : Sweep) : Type 0 where
    pub whole : entries ≡ s.gone ++ s.left
    pub counted : IsCounted s
    pub fits : leb_ℤ (pos (total_size s.left)) max_bytes ≡ true
    pub needed : AllNeeded max_bytes s.gone s.left

  none-IsEvicted :
      (max_bytes : ℤ) (entries : List CacheEntry)
      → leb_ℤ (pos (total_size entries)) max_bytes ≡ true
      → IsEvicted max_bytes entries (nothing_removed entries false)
  unfolding total_size
  none-IsEvicted max_bytes entries fits = record {
    whole = refl;
    counted = record { removed = refl; freed = refl };
    fits = fits;
    needed = tt;
  }

  cons-IsEvicted :
      (max_bytes : ℤ) (e : CacheEntry) (entries : List CacheEntry) (s : Sweep)
      → leb_ℤ (pos (total_size (e ∷ entries))) max_bytes ≡ false
      → IsEvicted max_bytes entries s
      → IsEvicted max_bytes (e ∷ entries) (with_removed e s)
  unfolding total_size
  cons-IsEvicted max_bytes e entries s over h = record {
    whole = ap (λ t. e ∷ t) h.whole;
    counted = record {
      removed = omega (arith, h.counted.removed);
      freed = omega (arith, h.counted.freed);
    };
    fits = h.fits;
    needed =
        (subst (λ t. leb_ℤ (pos (total_size (e ∷ t))) max_bytes ≡ false) h.whole over, h.needed);
  }

  pub evict-IsEvicted :
      (max_bytes total : ℤ) (entries : List CacheEntry)
      → ltb_ℤ (pos 0) max_bytes ≡ true
      → total ≡ pos (total_size entries)
      → (evict fails max_bytes total entries).failed ≡ false
      → IsEvicted max_bytes entries (evict fails max_bytes total entries)
  unfolding evict
  evict-IsEvicted max_bytes total [] room same done =
      none-IsEvicted max_bytes [] (no_entries max_bytes room)
  evict-IsEvicted max_bytes total (e ∷ entries) room same done =
      elim (Bool-cases (leb_ℤ total max_bytes)) [
        | inl fits ↦ rw fits (
            none-IsEvicted max_bytes (e ∷ entries)
              (subst (λ t. leb_ℤ t max_bytes ≡ true) same fits))
        | inr over ↦ elim (Bool-cases (fails e.path)) [
          | inl bad ↦ absurd (ground arith)
          | inr good ↦
              rw (over, good)
                (cons-IsEvicted max_bytes e entries
                  (evict fails max_bytes (total -ℤ pos e.size) entries)
                  (subst (λ t. leb_ℤ t max_bytes ≡ false) same over)
                  (evict-IsEvicted max_bytes (total -ℤ pos e.size) entries room
                    (ap (λ t. t -ℤ pos e.size) same ∙ rest_size e entries) (ground arith)))
        ]
      ]

  pub remove_unused-gone :
      (now max_unused : ℤ) (entries : List CacheEntry)
      → let s = remove_unused fails now max_unused entries in
        AllUnused now max_unused s.gone × IsCounted s × Perm entries (s.gone ++ s.left)
  unfolding remove_unused total_size
  remove_unused-gone now max_unused [] = (tt, record { removed = refl; freed = refl }, Perm.refl [])
  remove_unused-gone now max_unused (e ∷ entries) =
      let (unused, counted, perm) = remove_unused-gone now max_unused entries in
      let s = remove_unused fails now max_unused entries in
      elim (Bool-cases (is_unused now max_unused e)) [
        | inr used ↦ rw used (
          unused,
          record { removed = counted.removed; freed = counted.freed },
          Perm.trans (Perm.cons e perm) (Perm.symm (perm_middle s.gone s.left)),
        )
        | inl old ↦ elim (Bool-cases (fails e.path)) [
          | inl bad ↦
              rw (old, bad) (tt, record { removed = refl; freed = refl }, Perm.refl (e ∷ entries))
          | inr good ↦
              rw (old, good)
                (
                  (is_unused-IsUnused now max_unused e old, unused),
                  record {
                    removed = omega (arith, counted.removed);
                    freed = omega (arith, counted.freed);
                  },
                  Perm.cons e perm,
                )
        ]
      ]

  -- Without an error the first loop leaves no entry that is unused for too long.
  pub remove_unused-AllUsed :
      (now max_unused : ℤ) (entries : List CacheEntry)
      → (remove_unused fails now max_unused entries).failed ≡ false
      → AllUsed now max_unused (remove_unused fails now max_unused entries).left
  unfolding remove_unused
  remove_unused-AllUsed now max_unused [] done = λ e m u. not-mem-nil m
  remove_unused-AllUsed now max_unused (x ∷ entries) done =
      elim (Bool-cases (is_unused now max_unused x)) [
        | inr used ↦ rw used (
            used-AllUsed now max_unused x (remove_unused fails now max_unused entries).left used
              (remove_unused-AllUsed now max_unused entries (ground arith)))
        | inl old ↦ elim (Bool-cases (fails x.path)) [
          | inl bad ↦ absurd (ground arith)
          | inr good ↦ rw (old, good) (remove_unused-AllUsed now max_unused entries (ground arith))
        ]
      ]
