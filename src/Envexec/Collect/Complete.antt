-- ===== src/Envexec/Collect/Complete.antt =====
-- envexec/file_collect.go: without errors, every file asked for is there.
use go_judge.Prelude.{
  ◌⊎◌, ℕ, ◌≡◌, Bytes, bytes_eq_iff, Bool, true, Option, none, some, List, [], ◌∷◌, ◌++◌, arith, inl,
  inr, Bool-cases, Option-cases, if◌then◌else◌,
}
use go_judge.Prelude.Dict.{Dict, has, has-insert}
use go_judge.Prelude.Result.{Result, ok, err}
use go_judge.Envexec.Results.{FileError, CopyOutFile, err_copy_out_open}
use go_judge.Envexec.Collect.{
  Opened, Streamed, PipeCollector, Collected, put, add_streamed, open_error, copy_out_file_stream,
  copy_out_opened, collect_pipe, collect_pipes, copy_out_and_collect,
}
use go_judge.Envexec.Collect.Limits.{copy_out_file_stream_lem}

-- The files that are not optional have an entry.
abbrev pub IsStored : List (CopyOutFile × Result Bytes Opened) → Dict ℕ → Type 0
IsStored [] files = Unit
IsStored ((n, r) ∷ rest) files =
    ((n.optional ≡ true) ⊎ (has n.name files ≡ true)) × IsStored rest files

append-no_nil : (es : List FileError) (e : FileError) → es ++ e ∷ [] ≡ [] → ⊥
append-no_nil [] e h = ground (arith, h)
append-no_nil (x ∷ es) e h = ground (arith, h)

put-has :
    (k name : Bytes) (o : Option ℕ) (files : Dict ℕ)
    → has k files ≡ true
    → has k (put name o files) ≡ true
put-has k name none files h = h
put-has k name (some f) files h = ground (arith, has-insert name k f files)

add_streamed-has :
    (k name : Bytes) (s : Streamed) (c : Collected)
    → has k c.files ≡ true
    → has k (add_streamed name s c).files ≡ true
unfolding add_streamed
add_streamed-has k name s c h = ground (arith, put-has k name s.stored c.files h)

-- An entry stays.
copy_out_opened-has :
    (m : ℕ) (t : Bool) (k : Bytes) (fs : List (CopyOutFile × Result Bytes Opened)) (c : Collected)
    → has k c.files ≡ true
    → has k (copy_out_opened m t fs c).files ≡ true
unfolding copy_out_opened
copy_out_opened-has m t k [] c h = h
copy_out_opened-has m t k ((n, err e) ∷ fs) c h =
    copy_out_opened-has m t k fs (if n.optional then c else open_error n.name e c)
      (ground (arith, h))
copy_out_opened-has m t k ((n, ok f) ∷ fs) c h =
    copy_out_opened-has m t k fs (add_streamed n.name (copy_out_file_stream m t f) c)
      (add_streamed-has k n.name (copy_out_file_stream m t f) c h)

collect_pipes-has :
    (k : Bytes) (ps : List PipeCollector) (c : Collected)
    → has k c.files ≡ true
    → has k (collect_pipes ps c).files ≡ true
unfolding collect_pipes
collect_pipes-has k [] c h = h
collect_pipes-has k (p ∷ ps) c h =
    collect_pipes-has k ps (add_streamed p.name (collect_pipe p) c)
      (add_streamed-has k p.name (collect_pipe p) c h)

collect_pipes-IsStored :
    (fs : List (CopyOutFile × Result Bytes Opened)) (ps : List PipeCollector) (c : Collected)
    → IsStored fs c.files
    → IsStored fs (collect_pipes ps c).files
collect_pipes-IsStored [] ps c h = tt
collect_pipes-IsStored ((n, r) ∷ fs) ps c h = (
  elim h.0 [ inl o ↦ inl o | inr k ↦ inr (collect_pipes-has n.name ps c k) ],
  collect_pipes-IsStored fs ps c h.1,
)

-- An error of a file stays.
add_streamed-no_error :
    (name : Bytes) (s : Streamed) (c : Collected)
    → (add_streamed name s c).file_errors ≡ []
    → (s.error ≡ none) × (c.file_errors ≡ [])
unfolding add_streamed
add_streamed-no_error name s c h = elim (Option-cases s.error) [
  | inl e ↦ (e, ground (arith, e, h))
  | inr (e, q) ↦ absurd (
      append-no_nil c.file_errors (record { name = name; kind = e.kind; message = e.message })
        (ground (arith, q, h)))
]

add_streamed-stored :
    (name : Bytes) (s : Streamed) (c : Collected) (f : ℕ)
    → s.stored ≡ some f
    → has name (add_streamed name s c).files ≡ true
unfolding add_streamed
add_streamed-stored name s c f h =
    ground (arith, h, has-insert name name f c.files, bytes_eq_iff name name)

copy_out_opened-no_error :
    (m : ℕ) (t : Bool) (fs : List (CopyOutFile × Result Bytes Opened)) (c : Collected)
    → (copy_out_opened m t fs c).file_errors ≡ []
    → (c.file_errors ≡ []) × IsStored fs (copy_out_opened m t fs c).files
unfolding copy_out_opened
copy_out_opened-no_error m t [] c h = (h, tt)
copy_out_opened-no_error m t ((n, err e) ∷ fs) c h = elim (Bool-cases n.optional) [
  | inl o ↦
      let r = copy_out_opened-no_error m t fs (if n.optional then c else open_error n.name e c) h in
      (ground (arith, o, r.0), (inl o, r.1))
  | inr o ↦
      let r = copy_out_opened-no_error m t fs (if n.optional then c else open_error n.name e c) h in
      absurd (
        append-no_nil c.file_errors
          (record { name = n.name; kind = err_copy_out_open; message = e })
          (ground (arith, o, r.0)))
]
copy_out_opened-no_error m t ((n, ok f) ∷ fs) c h =
    let s : Streamed = copy_out_file_stream m t f in
    let r = copy_out_opened-no_error m t fs (add_streamed n.name s c) h in
    let q = add_streamed-no_error n.name s c r.0 in
    let w = copy_out_file_stream_lem m t f q.0 in
    (
      q.1,
      (
        inr (
            copy_out_opened-has m t n.name fs (add_streamed n.name s c)
              (add_streamed-stored n.name s c f.buffer w.1)),
        r.1,
      ),
    )

collect_pipes-no_error :
    (ps : List PipeCollector) (c : Collected)
    → (collect_pipes ps c).file_errors ≡ []
    → c.file_errors ≡ []
unfolding collect_pipes
collect_pipes-no_error [] c h = h
collect_pipes-no_error (p ∷ ps) c h =
    (add_streamed-no_error p.name (collect_pipe p) c
      (collect_pipes-no_error ps (add_streamed p.name (collect_pipe p) c) h)).1

-- Without an error of a file or of a goroutine, every file that is not optional has an entry.
pub copy_out_and_collect-IsStored :
    (m : ℕ) (t : Bool) (batch : Option Bytes) (fs : List (CopyOutFile × Result Bytes Opened))
    (ps : List PipeCollector)
    → (copy_out_and_collect m t batch fs ps).wait_error ≡ none
    → (copy_out_and_collect m t batch fs ps).file_errors ≡ []
    → IsStored fs (copy_out_and_collect m t batch fs ps).files
unfolding copy_out_and_collect
copy_out_and_collect-IsStored m t batch [] ps w h = tt
copy_out_and_collect-IsStored m t none (f ∷ fs) ps w h =
    let c : Collected = record { files = []; file_errors = []; wait_error = none } in
    collect_pipes-IsStored (f ∷ fs) ps _
      (copy_out_opened-no_error m t (f ∷ fs) c
        (collect_pipes-no_error ps (copy_out_opened m t (f ∷ fs) c) h)).1
copy_out_and_collect-IsStored m t (some e) (f ∷ fs) ps w h = absurd (ground (arith, w))
