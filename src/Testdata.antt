-- ===== src/Testdata.antt =====
-- internal/hnieoj/testdata/cleanup.go and manage.go: the cache of the problems' test data. The file
-- system and `sort.Slice` are parameters; sizes are not negative, and times are numbers.
mod Listing
mod Swept
mod Cleaned
mod Examples
use go_judge.Prelude.{
  ℕ, ◌+◌, Bytes, Bool, true, false, ◌&&◌, Option, none, some, List, [], ◌∷◌, ◌++◌, if◌then◌else◌,
}
use go_judge.Prelude.Int.{ℤ, pos, ◌-ℤ◌, leb_ℤ, ltb_ℤ}

pub record CacheEntry : Type 0 where
  pub path : Bytes
  pub last_used : ℤ
  pub size : ℕ

-- The variables `removed` and `freed`, and the entries whose directories are gone and are left.
pub record Sweep : Type 0 where
  pub removed : ℕ
  pub freed : ℕ
  pub gone : List CacheEntry
  pub left : List CacheEntry
  pub failed : Bool

pub total_size : List CacheEntry → ℕ
total_size [] = 0
total_size (e ∷ entries) = e.size + total_size entries

abbrev pub nothing_removed : List CacheEntry → Bool → Sweep
nothing_removed left failed = record {
  removed = 0;
  freed = 0;
  gone = [];
  left = left;
  failed = failed;
}

-- An entry is removed before the rest of a loop.
abbrev pub with_removed : CacheEntry → Sweep → Sweep
with_removed e s = record s { removed = s.removed + 1; freed = s.freed + e.size; gone = e ∷ s.gone }

abbrev pub with_kept : CacheEntry → Sweep → Sweep
with_kept e s = record s { left = e ∷ s.left }

-- `maxUnusedDuration > 0 && now.Sub(entry.lastUsed) > maxUnusedDuration`.
abbrev pub is_unused : ℤ → ℤ → CacheEntry → Bool
is_unused now max_unused e = ltb_ℤ (pos 0) max_unused && ltb_ℤ max_unused (now -ℤ e.last_used)

module _ (fails : Bytes → Bool) where
  -- The first loop of `cleanupCache`, where `fails` says whether `os.RemoveAll` returns an error.
  unfoldable pub remove_unused : ℤ → ℤ → List CacheEntry → Sweep
  remove_unused now max_unused [] = nothing_removed [] false
  remove_unused now max_unused (e ∷ entries) =
      let rest = remove_unused now max_unused entries in
      if is_unused now max_unused e
      then if fails e.path then nothing_removed (e ∷ entries) true else with_removed e rest
      else with_kept e rest

  -- The second loop, with the total of the entries that are left.
  unfoldable pub evict : ℤ → ℤ → List CacheEntry → Sweep
  evict max_bytes total [] = nothing_removed [] false
  evict max_bytes total (e ∷ entries) =
      let rest = evict max_bytes (total -ℤ pos e.size) entries in
      if leb_ℤ total max_bytes
      then nothing_removed (e ∷ entries) false
      else if fails e.path
      then nothing_removed (e ∷ entries) true
      else with_removed e rest

  -- Both loops together.
  abbrev pub joined : Sweep → Sweep → Sweep
  joined s t = record {
    removed = s.removed + t.removed;
    freed = s.freed + t.freed;
    gone = s.gone ++ t.gone;
    left = t.left;
    failed = t.failed;
  }

  module _ (sort : List CacheEntry → List CacheEntry) where
    -- From the end of the first loop on.
    unfoldable pub evict_after : ℤ → Sweep → Sweep
    unfolding evict total_size
    evict_after max_bytes s =
        if s.failed
        then s
        else if leb_ℤ max_bytes (pos 0)
        then s
        else if leb_ℤ (pos (total_size s.left)) max_bytes
        then s
        else joined s (evict max_bytes (pos (total_size s.left)) (sort s.left))

    -- `cleanupCache`, from the entries of the directory on.
    unfoldable pub cleanup_cache : ℤ → ℤ → ℤ → List CacheEntry → Sweep
    unfolding remove_unused evict_after
    cleanup_cache now max_bytes max_unused entries =
        evict_after max_bytes (remove_unused now max_unused entries)
