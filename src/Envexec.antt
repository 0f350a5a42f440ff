-- ===== src/Envexec.antt =====
-- envexec/run_status.go: the statuses of a run and their names.
pub mod Names
pub mod Results
pub mod Commands
pub mod CopyIn
pub mod Collect
pub mod Run
pub mod Descriptors
mod Examples
use go_judge.Prelude.{
  ℕ, ◌+◌, Bytes, codes, Bool, Option, none, some, List, [], ◌∷◌, ◌||◌, length, get_elem?,
  if◌then◌else◌,
}
use go_judge.Prelude.Int.{ℤ, pos, pos_part, leb_ℤ, ltb_ℤ}
use go_judge.Prelude.Dict.{Dict, lookup, insert}

-- `statusToString`.
abbrev pub status_to_string : List Bytes
status_to_string =
    codes "Invalid"
    ∷ (codes "Accepted"
        ∷ (codes "Wrong Answer"
            ∷ (codes "Partially Correct"
                ∷ (codes "Memory Limit Exceeded"
                    ∷ (codes "Time Limit Exceeded"
                        ∷ (codes "Output Limit Exceeded"
                            ∷ (codes "File Error"
                                ∷ (codes "Nonzero Exit Status"
                                    ∷ (codes "Signalled"
                                        ∷ (codes "Dangerous Syscall"
                                            ∷ (codes "Judgement Failed"
                                                ∷ (codes "Invalid Interaction"
                                                    ∷ (codes "Internal Error" ∷ [])))))))))))))

-- `String`.
unfoldable pub status_string : ℤ → Bytes
status_string s =
    let names = status_to_string in
    if ltb_ℤ s (pos 0) || leb_ℤ (pos (length names)) s
    then codes "Invalid"
    else elim (get_elem? names (pos_part s)) [ none ↦ codes "Invalid" | some name ↦ name ]

-- The loop of `init`, from index `i` on.
unfoldable pub fill : ℕ → List Bytes → Dict ℤ → Dict ℤ
fill i [] m = m
fill i (name ∷ rest) m = fill (i + 1) rest (insert name (pos i) m)

-- `StringToStatus`, where `none` is an error.
unfoldable pub string_to_status : Bytes → Option ℤ
unfolding fill
string_to_status name = lookup name (fill 0 status_to_string [])
