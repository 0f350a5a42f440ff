-- ===== src/Envexec/Descriptors.antt =====
-- envexec/file_prepare.go: the descriptors of a group, `countFd` and `prepareFds`. Of the files of a
-- command only whether there is one is kept; `max_places` is how many pointers the run-time system
-- can allot at once, from which on `make` panics.
pub mod Counting
pub mod Places
pub mod Panics
use go_judge.Prelude.{
  ℕ, ◌+◌, ◌-◌, ◌^◌, Bool, true, false, ◌&&◌, ◌||◌, not, Option, none, some, List, [], ◌∷◌, ◌++◌,
  map, ltb, if◌then◌else◌, length, get_elem?, get_or, set, replicate,
}
use go_judge.Prelude.Int.{ℤ, pos, pos_part, ltb_ℤ, leb_ℤ}
use go_judge.Prelude.Result.{Result, ok, err, ◌>>=◌}
use go_judge.Envexec.Commands.{PipeIndex, PipeMap}

-- An error that is returned, or a panic of the run-time system.
pub data Fault : Type 0 where
  failed panicked : Fault

abbrev pub max_int : ℕ
max_int = 2 ^ 63 - 1

-- The body of the inner loop of `countFd`; `p.Fd + 1` wraps at the largest `int`.
unfoldable pub count_end : List (List Bool) → PipeIndex → List ℕ → Result Fault (List ℕ)
count_end files p counts =
    let i = pos_part p.index in
    let fd = pos_part p.fd in
    if ltb_ℤ p.index (pos 0) || leb_ℤ (pos (length files)) p.index
    then err failed
    else if ltb_ℤ p.fd (pos 0)
    then err panicked
    else if get_or (get_or files i []) fd false
    then err failed
    else ok (
        if ltb fd max_int && ltb (get_or counts i 0) (fd + 1)
        then set counts i (fd + 1)
        else counts)

unfoldable pub count_ends : List (List Bool) → List PipeIndex → List ℕ → Result Fault (List ℕ)
count_ends files [] counts = ok counts
count_ends files (p ∷ ends) counts = count_end files p counts >>= count_ends files ends

-- The order of the two loops.
abbrev pub pipe_ends : List PipeMap → List PipeIndex
pipe_ends [] = []
pipe_ends (p ∷ pipes) = p.in_end ∷ (p.out_end ∷ pipe_ends pipes)

-- `countFd`.
unfoldable pub count_fd : List (List Bool) → List PipeMap → Result Fault (List ℕ)
count_fd files pipes =
    count_ends files (pipe_ends pipes) (map (λ (row : List Bool). length row) files)

-- What `prepareCmdFd` answers for a command: an error of the terminal, which comes before the call of
-- `make`, an error of a file, which comes after it, or none.
pub data CmdOpening : Type 0 where
  no_terminal no_file opened : CmdOpening

-- `prepareCmdFd` for the files of a command: `count` places, those of the files taken; `make` panics
-- for more than `max_places`.
unfoldable pub prepare_cmd_fd : ℕ → CmdOpening → List Bool → ℕ → Result Fault (List Bool)
prepare_cmd_fd max_places no_terminal row count = err failed
prepare_cmd_fd max_places no_file row count =
    if ltb max_places count then err panicked else err failed
prepare_cmd_fd max_places opened row count =
    if ltb max_places count then err panicked else ok (row ++ replicate (count - length row) false)

-- The loop over the commands, from the one with this index on.
unfoldable pub open_rows :
    ℕ → (ℕ → CmdOpening) → ℕ → List (List Bool) → List ℕ → Result Fault (List (List Bool))
open_rows max_places opens i [] counts = ok []
open_rows max_places opens i (row ∷ files) [] = ok []
open_rows max_places opens i (row ∷ files) (n ∷ counts) =
    prepare_cmd_fd max_places (opens i) row n >>= (λ (places : List Bool).
      open_rows max_places opens (i + 1) files counts
      >>= (λ (rows : List (List Bool)). ok (places ∷ rows)))

-- `files[p.Index][p.Fd] != nil`, where a negative or large index panics.
unfoldable pub is_taken : List (List Bool) → PipeIndex → Result Fault Bool
is_taken files p =
    if ltb_ℤ p.index (pos 0) || ltb_ℤ p.fd (pos 0)
    then err panicked
    else elim (get_elem? files (pos_part p.index)) [
      | none ↦ err panicked
      | some row ↦ elim (get_elem? row (pos_part p.fd)) [ none ↦ err panicked | some b ↦ ok b ]
    ]

unfoldable pub take_place : List (List Bool) → PipeIndex → List (List Bool)
take_place files p =
    let i = pos_part p.index in set files i (set (get_or files i []) (pos_part p.fd) true)

-- The loop over the pipes, where `opens` is whether `pipe` succeeds.
unfoldable pub connect_pipe :
    (PipeMap → Bool) → PipeMap → List (List Bool) → Result Fault (List (List Bool))
connect_pipe opens p files = is_taken files p.out_end >>= (λ (out_taken : Bool).
    if out_taken
    then err failed
    else is_taken files p.in_end >>= (λ (in_taken : Bool).
      if in_taken
      then err failed
      else if opens p
      then ok (take_place (take_place files p.out_end) p.in_end)
      else err failed))

unfoldable pub connect_pipes :
    (PipeMap → Bool) → List PipeMap → List (List Bool) → Result Fault (List (List Bool))
connect_pipes opens [] files = ok files
connect_pipes opens (p ∷ pipes) files = connect_pipe opens p files >>= connect_pipes opens pipes

-- The null check.
abbrev pub all_taken : List Bool → Bool
all_taken [] = true
all_taken (b ∷ row) = b && all_taken row

abbrev pub no_null : List (List Bool) → Bool
no_null [] = true
no_null (row ∷ files) = all_taken row && no_null files

unfoldable pub null_check : List (List Bool) → Result Fault (List (List Bool))
null_check files = if no_null files then ok files else err failed

-- `prepareFds`.
unfoldable pub prepare_fds :
    ℕ
    → (ℕ → CmdOpening)
    → (PipeMap → Bool)
    → List (List Bool)
    → List PipeMap
    → Result Fault (List (List Bool))
prepare_fds max_places cmd_opens opens files pipes = count_fd files pipes >>= (λ (counts : List ℕ).
    open_rows max_places cmd_opens 0 files counts
    >>= (λ (rows : List (List Bool)). connect_pipes opens pipes rows >>= null_check))
