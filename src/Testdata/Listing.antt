-- ===== src/Testdata/Listing.antt =====
-- internal/hnieoj/testdata/cleanup.go and manage.go: the entries of the cache and their list.
use go_judge.Prelude.{ℕ, ◌+◌, Bytes, Option, none, some, List, [], ◌∷◌}
use go_judge.Prelude.Int.{ℤ}
use go_judge.Testdata.{CacheEntry}

-- What `filepath.WalkDir` shows: an error or a directory, or a file with its size, if `Info` gives it.
pub data Walked : Type 0 where
  no_file : Walked
  file : Option ℕ → Walked

pub directory_size : List Walked → ℕ
directory_size [] = 0
directory_size (Walked.no_file ∷ rest) = directory_size rest
directory_size (Walked.file none ∷ rest) = directory_size rest
directory_size (Walked.file (some n) ∷ rest) = n + directory_size rest

-- The times of `last-used`, of `data-version`, of the directory, and now.
pub resolve_last_used : Option ℤ → Option ℤ → Option ℤ → ℤ → ℤ
resolve_last_used (some t) version root now = t
resolve_last_used none (some t) root now = t
resolve_last_used none none (some t) now = t
resolve_last_used none none none now = now

-- What `ReadDir` and the calls for one directory show.
pub record Directory : Type 0 where
  pub path : Bytes
  pub marker : Option ℤ
  pub version_file : Option ℤ
  pub root : Option ℤ
  pub walked : List Walked

-- `collectCacheEntries`; an entry of the directory that is no directory is `none`.
pub collect_cache_entries : ℤ → List (Option Directory) → List CacheEntry
unfolding directory_size resolve_last_used
collect_cache_entries now [] = []
collect_cache_entries now (none ∷ rest) = collect_cache_entries now rest
collect_cache_entries now (some d ∷ rest) =
    record {
      path = d.path;
      last_used = resolve_last_used (d.marker) (d.version_file) (d.root) now;
      size = directory_size d.walked;
    }
    ∷ collect_cache_entries now rest

pub record CacheInfo : Type 0 where
  pub problem_id : ℤ
  pub version : ℤ
  pub size_bytes : ℕ
  pub last_used : ℤ

abbrev with_info : Option ℤ → ℤ → CacheEntry → List CacheInfo → List CacheInfo
with_info none version e rest = rest
with_info (some id) version e rest =
    record { problem_id = id; version = version; size_bytes = e.size; last_used = e.last_used }
    ∷ rest

-- The loop of `ListCache`: `parse` reads the last part of a path as a number, `version_at` the
-- version of the data.
pub list_cache : (Bytes → Option ℤ) → (Bytes → ℤ) → List CacheEntry → List CacheInfo
list_cache parse version_at [] = []
list_cache parse version_at (e ∷ rest) =
    with_info (parse e.path) (version_at e.path) e (list_cache parse version_at rest)
