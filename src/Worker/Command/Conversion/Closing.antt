-- ===== src/Worker/Command/Conversion/Closing.antt =====
-- worker/worker.go: which files `convertResult` closes.
use go_judge.Prelude.{
  ℕ, ◌+◌, ◌≡◌, refl, Bytes, bytes_eq, bytes_eq_iff, Bool, true, false, Option, none, some, [], ◌∷◌,
  ◌==◌, if◌then◌else◌, arith,
}
use go_judge.Prelude.Dict.{Dict, insert, has, lookup, total, total-insert, has-insert, IsUnique}
use go_judge.Prelude.Count.{count, count-append}
use go_judge.Envexec.Results.{ExecResult}
use go_judge.Worker.Command.{Cmd}
use go_judge.Worker.Command.Conversion.{
  Sorted, cached_set, sort_file, sort_files, close_rest, convert_result,
}

-- How many of the files of a map are this one.
abbrev pub holds : ℕ → Dict ℕ → ℕ
holds x m = total (λ b. if b == x then 1 else 0) m

-- A name that is not in the map is neither kept nor looked at again.
close_rest-insert_kept :
    (name : Bytes) (b : ℕ) (kept : Dict ℕ) (added : Dict (Unit {0})) (m : Dict ℕ)
    → has name m ≡ false
    → close_rest (insert name b kept) added m ≡ close_rest kept added m
unfolding close_rest has lookup
close_rest-insert_kept name b kept added [] h = refl
close_rest-insert_kept name b kept added ((i, x) ∷ m) h = ground (
  arith,
  bytes_eq_iff name i,
  bytes_eq_iff i name,
  has-insert name i b kept,
  close_rest-insert_kept name b kept added m,
)

close_rest-insert_added :
    (name : Bytes) (kept : Dict ℕ) (added : Dict (Unit {0})) (m : Dict ℕ)
    → has name m ≡ false
    → close_rest kept (insert name tt added) m ≡ close_rest kept added m
unfolding close_rest has lookup
close_rest-insert_added name kept added [] h = refl
close_rest-insert_added name kept added ((i, x) ∷ m) h = ground (
  arith,
  bytes_eq_iff name i,
  bytes_eq_iff i name,
  has-insert name i tt added,
  close_rest-insert_added name kept added m,
)

close_rest_all : (x : ℕ) (m : Dict ℕ) → count x (close_rest [] [] m) ≡ holds x m
unfolding close_rest total has lookup
close_rest_all x [] = refl
close_rest_all x ((i, b) ∷ m) = omega (arith, close_rest_all x m)

-- How often a file is kept, closed in the loop, or closed afterwards.
abbrev places : ℕ → Sorted → Dict ℕ → ℕ
places x s m = holds x s.files + count x s.closed + count x (close_rest s.files s.added m)

places_step :
    (c : Bool) (o : Option Bytes) (x : ℕ) (i : Bytes) (b : ℕ) (s : Sorted) (m : Dict ℕ)
    → has i m ≡ false
    → has i s.files ≡ false
    → has i s.added ≡ false
    → places x s m ≡ holds x m
    → places x (sort_file c o i b s) ((i, b) ∷ m) ≡ holds x ((i, b) ∷ m)
unfolding sort_file close_rest total
places_step false o x i b s m hm hf ha ih = ground (
  arith,
  bytes_eq_iff i i,
  has-insert i i b s.files,
  close_rest-insert_kept i b s.files s.added m hm,
  total-insert (λ (k : ℕ). if k == x then 1 else 0) i b s.files hf,
)
places_step true none x i b s m hm hf ha ih = ground (arith, close_rest_all x ((i, b) ∷ m))
places_step true (some id) x i b s m hm hf ha ih = ground (
  arith,
  bytes_eq_iff i i,
  has-insert i i tt s.added,
  close_rest-insert_added i s.files s.added m hm,
)

absent_step :
    (c : Bool) (o : Option Bytes) (name i : Bytes) (b : ℕ) (s : Sorted)
    → bytes_eq i name ≡ false
    → (has name s.files ≡ false) × (has name s.added ≡ false)
    → (has name (sort_file c o i b s).files ≡ false)
      × (has name (sort_file c o i b s).added ≡ false)
unfolding sort_file
absent_step false o name i b s h ih = ground (arith, has-insert i name b s.files)
absent_step true none name i b s h ih = unfold has lookup in (refl, refl)
absent_step true (some id) name i b s h ih = ground (arith, has-insert i name tt s.added)

none_left_step :
    (c : Bool) (o : Option Bytes) (i : Bytes) (b : ℕ) (s : Sorted) (m : Dict ℕ)
    → has i m ≡ false
    → (sort_file c o i b s).failed ≡ false
    → (s.failed ≡ false → close_rest s.files s.added m ≡ [])
    → close_rest (sort_file c o i b s).files (sort_file c o i b s).added ((i, b) ∷ m) ≡ []
unfolding sort_file close_rest
none_left_step false o i b s m hm h ih = ground (
  arith,
  bytes_eq_iff i i,
  has-insert i i b s.files,
  close_rest-insert_kept i b s.files s.added m hm,
  ih,
)
none_left_step true none i b s m hm h ih = cc
none_left_step true (some id) i b s m hm h ih = ground (
  arith,
  bytes_eq_iff i i,
  has-insert i i tt s.added,
  close_rest-insert_added i s.files s.added m hm,
  ih,
)

module _ (adds : Bytes → ℕ → Option Bytes) (cached : Dict (Unit {0})) where
  abbrev sorted : Dict ℕ → Sorted
  sorted m = sort_files adds cached m

  -- The loop only handles names of the map.
  sort_files_absent :
      (name : Bytes) (m : Dict ℕ)
      → has name m ≡ false
      → (has name (sorted m).files ≡ false) × (has name (sorted m).added ≡ false)
  unfolding sort_files has lookup
  sort_files_absent name [] h = (refl, refl)
  sort_files_absent name ((i, b) ∷ m) h =
      absent_step (has i cached) (adds i b) name i b (sorted m) (ground (arith, h))
        (sort_files_absent name m (ground (arith, h)))

  -- Each file stays open for the caller, or is closed in the loop, or afterwards.
  sort_files-places : (x : ℕ) (m : Dict ℕ) → IsUnique m → places x (sorted m) m ≡ holds x m
  unfolding sort_files
  sort_files-places x [] u = unfold total close_rest in refl
  sort_files-places x ((i, b) ∷ m) u =
      let absent = sort_files_absent i m u.0 in
      places_step (has i cached) (adds i b) x i b (sorted m) m u.0 absent.0 absent.1
        (sort_files-places x m u.1)

  -- Nothing is left to close if no file failed.
  close_rest_none :
      (m : Dict ℕ)
      → IsUnique m
      → (sorted m).failed ≡ false
      → close_rest (sorted m).files (sorted m).added m ≡ []
  unfolding sort_files
  close_rest_none [] u h = unfold close_rest in refl
  close_rest_none ((i, b) ∷ m) u h =
      none_left_step (has i cached) (adds i b) i b (sorted m) m u.0 h (close_rest_none m u.1)

-- For a result without a name twice, `convertResult` keeps each file open for its caller or closes
-- it, as often in all as the result holds it, whatever the file store answers.
pub convert_result-conserves :
    (adds : Bytes → ℕ → Option Bytes) (error : Bytes) (r : ExecResult) (cmd : Cmd) (x : ℕ)
    → IsUnique r.files
    → holds x (convert_result adds error r cmd).0.files
        + count x (convert_result adds error r cmd).1
      ≡ holds x r.files
unfolding convert_result
convert_result-conserves adds error r cmd x u =
    let s : Sorted = sort_files adds (cached_set cmd.copy_out_cached) r.files in
    ground (
      arith,
      count-append x s.closed (close_rest s.files s.added r.files),
      sort_files-places adds (cached_set cmd.copy_out_cached) x r.files u,
      close_rest_none adds (cached_set cmd.copy_out_cached) r.files u,
    )
