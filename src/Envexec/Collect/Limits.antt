-- ===== src/Envexec/Collect/Limits.antt =====
-- envexec/file_collect.go: what is stored.
use go_judge.Prelude.{
  ℕ, refl, inl, inr, Bool-cases, ◌^◌, ◌<◌, ◌≤◌, ◌≡◌, Bytes, Bool, true, not, ◌&&◌, Option, none,
  some, arith,
}
use go_judge.Prelude.Result.{Result, ok, err}
use go_judge.Envexec.Collect.{
  Opened, over, stream_read, stream_stored, stream_checked, copy_out_file_stream,
}

-- What holds of a file that was copied out without an error.
pub record IsWithin (copy_out_max : ℕ) (f : Opened) : Type 0 where
  pub regular : f.is_regular ≡ true
  pub written : ℕ
  pub read : f.read ≡ ok written
  pub bounded :
      0 < copy_out_max
      → (f.size ≤ copy_out_max) × (written ≤ copy_out_max) × (copy_out_max < 2 ^ 63)

read-IsWithin :
    (copy_out_max : ℕ) (f : Opened)
    → (r : Result Bytes ℕ) → f.read ≡ r
    → f.is_regular ≡ true
    → (stream_read copy_out_max f r).error ≡ none
    → IsWithin copy_out_max f
unfolding stream_read
read-IsWithin m f (err e) er reg h = absurd (ground arith)
read-IsWithin m f (ok written) er reg h = record {
  regular = reg;
  written = written;
  read = er;
  bounded = λ pos. ground arith;
}

stored-IsWithin :
    (copy_out_max : ℕ) (f : Opened) (e : Option Bytes)
    → f.is_regular ≡ true
    → (stream_stored copy_out_max f e).error ≡ none
    → IsWithin copy_out_max f × ((stream_stored copy_out_max f e).stored ≡ some f.buffer)
unfolding stream_stored
stored-IsWithin m f (some e) reg h = absurd (ground arith)
stored-IsWithin m f none reg h =
    let w = read-IsWithin m f f.read refl reg h in (w, unfold stream_read in (rw w.read refl))

checked-IsWithin :
    (copy_out_max : ℕ) (truncate : Bool) (f : Opened) (e : Option Bytes)
    → (stream_checked copy_out_max truncate f e).error ≡ none
    → IsWithin copy_out_max f × ((stream_checked copy_out_max truncate f e).stored ≡ some f.buffer)
unfolding stream_checked
checked-IsWithin m t f (some e) h = absurd (ground arith)
checked-IsWithin m t f none h = elim (Bool-cases f.is_regular) [
  | inr r ↦ absurd (ground (arith, r, h))
  | inl r ↦ elim (Bool-cases (over f.size m && not t)) [
    | inl o ↦ absurd (ground (arith, r, o, h))
    | inr o ↦
        let w = stored-IsWithin m f f.create_error r (ground (arith, r, o, h)) in
        (w.0, ground (arith, r, o, w.1))
  ]
]

-- A file that is copied out without an error is stored. It is a regular one, and neither its size nor
-- the number of bytes read is above the limit, if there is one.
pub copy_out_file_stream_lem :
    (copy_out_max : ℕ) (truncate : Bool) (f : Opened)
    → (copy_out_file_stream copy_out_max truncate f).error ≡ none
    → IsWithin copy_out_max f
      × ((copy_out_file_stream copy_out_max truncate f).stored ≡ some f.buffer)
unfolding copy_out_file_stream
copy_out_file_stream_lem m t f h = checked-IsWithin m t f f.stat_error h
