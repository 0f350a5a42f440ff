-- ===== src/Testdata/Cleaned.antt =====
-- internal/hnieoj/testdata/cleanup.go: a cleanup as a whole.
use mathlib.Core.List.Perm
use mathlib.Core.List.{Perm, append_assoc, append-nil}
use native.Mathlib.Decide.{ℕ_discrete}
use go_judge.Prelude.{
  ◌+◌, ◌≡◌, inl, inr, refl, sym, subst, ◌∙◌, ap, Bytes, Bool, true, false, List, [], ◌++◌, arith,
  length-append, Bool-cases,
}
use go_judge.Prelude.Int.{ℤ, pos, leb_ℤ, ltb_ℤ}
use go_judge.Testdata.{
  CacheEntry, Sweep, total_size, remove_unused, evict, evict_after, cleanup_cache, joined,
}
use go_judge.Testdata.Swept.{
  AllUnused, AllUsed, AllUsed-perm, remove_unused-AllUsed, AllOlder, AllNeeded, IsSorted, IsCounted,
  IsEvicted, evict-IsEvicted, remove_unused-gone, sorted-AllOlder, total_size-foldr,
  total_size-append,
}

-- The entries that a cleanup removes: those unused for too long, then the oldest of the others, each
-- while the cache was too large; and it fits in the end.
pub record IsClean (now max_bytes max_unused : ℤ) (entries : List CacheEntry) (s : Sweep)
    : Type 0 where
  pub unused : List CacheEntry
  pub evicted : List CacheEntry
  pub gone : s.gone ≡ unused ++ evicted
  pub all_unused : AllUnused now max_unused unused
  pub used : AllUsed now max_unused (evicted ++ s.left)
  pub older : AllOlder evicted s.left
  pub needed : AllNeeded max_bytes evicted s.left
  pub fits : leb_ℤ (pos (total_size s.left)) max_bytes ≡ true
  pub counted : IsCounted s
  pub whole : Perm entries (s.gone ++ s.left)

total_size-perm : {xs ys : List CacheEntry} → Perm xs ys → total_size xs ≡ total_size ys
total_size-perm {xs} {ys} p =
    total_size-foldr xs
    ∙ Perm.foldr-eq (hlevel (ℕ_discrete)) (λ (e : CacheEntry) n. e.size + n) (λ a b x. omega arith)
        p 0
    ∙ sym (total_size-foldr ys)

module _ (fails : Bytes → Bool) (now max_bytes max_unused : ℤ) (entries : List CacheEntry) where
  one_sweep :
      (s : Sweep)
      → AllUnused now max_unused s.gone
      → AllUsed now max_unused s.left
      → IsCounted s
      → Perm entries (s.gone ++ s.left)
      → leb_ℤ (pos (total_size s.left)) max_bytes ≡ true
      → IsClean now max_bytes max_unused entries s
  one_sweep s unused used counted perm fits = record {
    unused = s.gone;
    evicted = [];
    gone = sym (append-nil s.gone);
    all_unused = unused;
    used = used;
    older = tt;
    needed = tt;
    fits = fits;
    counted = counted;
    whole = perm;
  }

  two_sweeps :
      (s t : Sweep) (sorted : List CacheEntry)
      → AllUnused now max_unused s.gone
      → AllUsed now max_unused s.left
      → IsCounted s
      → Perm entries (s.gone ++ s.left)
      → Perm s.left sorted
      → IsSorted sorted
      → IsEvicted fails max_bytes sorted t
      → IsClean now max_bytes max_unused entries (joined fails s t)
  two_sweeps s t sorted unused used counted perm same order h = record {
    unused = s.gone;
    evicted = t.gone;
    gone = refl;
    all_unused = unused;
    used =
        subst (λ l. AllUsed now max_unused l) h.whole
          (AllUsed-perm now max_unused s.left sorted same used);
    older = sorted-AllOlder t.gone t.left (subst IsSorted h.whole order);
    needed = h.needed;
    fits = h.fits;
    counted = record {
      removed = omega (arith, counted.removed, h.counted.removed, length-append s.gone t.gone);
      freed = omega (arith, counted.freed, h.counted.freed, total_size-append s.gone t.gone);
    };
    whole =
        subst (λ l. Perm entries l) (sym (append_assoc s.gone t.gone t.left))
          (Perm.trans perm (Perm.append_left s.gone (subst (λ l. Perm s.left l) h.whole same)));
  }

  module _ (sort : List CacheEntry → List CacheEntry) where
    evict_after-IsClean :
        (s : Sweep)
        → AllUnused now max_unused s.gone
        → (s.failed ≡ false → AllUsed now max_unused s.left)
        → IsCounted s
        → Perm entries (s.gone ++ s.left)
        → ltb_ℤ (pos 0) max_bytes ≡ true
        → Perm s.left (sort s.left)
        → IsSorted (sort s.left)
        → (evict_after fails sort max_bytes s).failed ≡ false
        → IsClean now max_bytes max_unused entries (evict_after fails sort max_bytes s)
    unfolding evict_after
    evict_after-IsClean s unused used counted perm room same order done =
        elim (Bool-cases s.failed) [
          | inl bad ↦ absurd (ground arith)
          | inr good ↦ elim (Bool-cases (leb_ℤ max_bytes (pos 0))) [
            | inl none_wanted ↦ absurd (ground arith)
            | inr some_wanted ↦ elim (Bool-cases (leb_ℤ (pos (total_size s.left)) max_bytes)) [
              | inl fits ↦
                  simp (good, some_wanted, fits) (one_sweep s unused (used good) counted perm fits)
              | inr over ↦
                  simp (good, some_wanted, over)
                    (two_sweeps s (evict fails max_bytes (pos (total_size s.left)) (sort s.left))
                      (sort s.left) unused (used good) counted perm same order
                      (evict-IsEvicted fails max_bytes (pos (total_size s.left)) (sort s.left) room
                        (ap pos (total_size-perm same)) (ground arith)))
            ]
          ]
        ]

    -- With a positive limit, and a sort that permutes the entries that the first loop leaves into
    -- the order of their last use, a cleanup without an error has removed all the entries that were
    -- unused for too long, and then the oldest of the others, each while those left were larger than
    -- the limit; what is left fits it, nothing else is removed, and the counters are the number and
    -- the size of the entries removed.
    pub cleanup_cache-IsClean :
        ltb_ℤ (pos 0) max_bytes ≡ true
        → (let rest = (remove_unused fails now max_unused entries).left in
            Perm rest (sort rest) × IsSorted (sort rest))
        → (cleanup_cache fails sort now max_bytes max_unused entries).failed ≡ false
        → IsClean now max_bytes max_unused entries
            (cleanup_cache fails sort now max_bytes max_unused entries)
    unfolding cleanup_cache
    cleanup_cache-IsClean room sorts done =
        let (unused, counted, perm) = remove_unused-gone fails now max_unused entries in
        evict_after-IsClean (remove_unused fails now max_unused entries) unused
          (remove_unused-AllUsed fails now max_unused entries) counted perm room sorts.0 sorts.1
          done
