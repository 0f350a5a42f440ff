-- ===== src/Envexec/Descriptors/Panics.antt =====
-- envexec/file_prepare.go: when the preparation of the descriptors panics.
use go_judge.Prelude.{
  zero, ◌+◌, ◌≤◌, ltb, get_or, ℕ, ◌⊎◌, ◌↔◌, subst, suc, ◌≡◌, refl, ap, ◌∙◌, arith, Bool, true,
  false, List, [], ◌∷◌, map, if◌then◌else◌, length, Bool-cases, inl, inr,
}
use go_judge.Prelude.Int.{pos_part}
use go_judge.Prelude.Result.{Result, ok, err, ◌>>=◌}
use go_judge.Envexec.Commands.{PipeIndex, PipeMap}
use go_judge.Envexec.Descriptors.{
  Fault, failed, panicked, count_ends, pipe_ends, count_fd, max_int, CmdOpening, no_terminal,
  no_file, opened, prepare_cmd_fd, open_rows, take_place, connect_pipe, connect_pipes, no_null,
  null_check, prepare_fds,
}
use go_judge.Envexec.Descriptors.Counting.{
  AllSpare, any_negative, AllBelow, AllCounted, count_ends-spare, count_ends-negative,
}
use go_judge.Envexec.Descriptors.Places.{
  opened_rows, size, size-opened_rows, size-take_place, HasPlace, AllPlaces, AllPlaces-same,
  is_taken-ok,
}

-- The code goes on or returns an error.
abbrev pub IsCalm {ℓ} : {A : Type ℓ} → Result Fault A → Type 0
IsCalm (ok a) = Unit
IsCalm (err failed) = Unit
IsCalm (err panicked) = ⊥

connect_pipe-calm :
    (opens : PipeMap → Bool) (p : PipeMap) (files : List (List Bool))
    → HasPlace files p.in_end
    → HasPlace files p.out_end
    → (connect_pipe opens p files ≡ err failed)
      ⊎ (connect_pipe opens p files ≡ ok (take_place (take_place files p.out_end) p.in_end))
unfolding connect_pipe
connect_pipe-calm opens p files i o =
    let (a, ra) = is_taken-ok files p.out_end o in
    let (b, rb) = is_taken-ok files p.in_end i in rw (ra, rb) (by_tests a b (opens p))
  where
    by_tests :
        (a b c : Bool)
        → let t : Result Fault (List (List Bool)) =
            (if a
              then err failed
              else (ok b >>= (λ (x : Bool).
                  if x
                  then err failed
                  else if c
                  then ok (take_place (take_place files p.out_end) p.in_end)
                  else err failed))) in
          (t ≡ err failed) ⊎ (t ≡ ok (take_place (take_place files p.out_end) p.in_end))
    by_tests true b c = inl refl
    by_tests false true c = inl refl
    by_tests false false true = inr refl
    by_tests false false false = inl refl

size-connected :
    (p : PipeMap) (files : List (List Bool)) (j : ℕ)
    → size (take_place (take_place files p.out_end) p.in_end) j ≡ size files j
size-connected p files j =
    size-take_place (take_place files p.out_end) p.in_end j ∙ size-take_place files p.out_end j

connect_pipes-IsCalm :
    (opens : PipeMap → Bool) (pipes : List PipeMap) (files : List (List Bool))
    → AllPlaces files (pipe_ends pipes)
    → IsCalm (connect_pipes opens pipes files >>= null_check)
unfolding connect_pipes
connect_pipes-IsCalm opens [] files a =
    unfold null_check in
    (elim (no_null files) as (λ (b : Bool). IsCalm (if b then ok files else err failed)) [
      | true ↦ tt
      | false ↦ tt
    ])
connect_pipes-IsCalm opens (p ∷ pipes) files (i, (o, rest)) =
    elim (connect_pipe-calm opens p files i o) [
      | inl e ↦ rw e tt
      | inr e ↦
          let files' : List (List Bool) = take_place (take_place files p.out_end) p.in_end in
          rw e (
            connect_pipes-IsCalm opens pipes files'
              (AllPlaces-same files files' (pipe_ends pipes) (size-connected p files) rest))
    ]

opened_rows-AllPlaces :
    (files : List (List Bool)) (counts : List ℕ) (ends : List PipeIndex)
    → length counts ≡ length files
    → AllBelow ends counts
    → AllPlaces (opened_rows files counts) ends
opened_rows-AllPlaces files counts [] e a = tt
opened_rows-AllPlaces files counts (p ∷ ends) e ((x, y, z), rest) = (
  (x, y, omega (arith, z, size-opened_rows files counts (pos_part p.index) e)),
  opened_rows-AllPlaces files counts ends e rest,
)

length-lengths :
    (files : List (List Bool)) → length (map (λ (row : List Bool). length row) files) ≡ length files
length-lengths [] = refl
length-lengths (row ∷ files) = ap suc (length-lengths files)

-- `prepareCmdFd` for all commands makes the places, or fails, if there are not too many.
open_rows-calm :
    (max_places : ℕ) (opens : ℕ → CmdOpening) (i : ℕ) (files : List (List Bool)) (counts : List ℕ)
    → ((j : ℕ) → get_or counts j 0 ≤ max_places)
    → (open_rows max_places opens i files counts ≡ err failed)
      ⊎ (open_rows max_places opens i files counts ≡ ok (opened_rows files counts))
unfolding open_rows prepare_cmd_fd
open_rows-calm max_places opens i [] counts fit = inr refl
open_rows-calm max_places opens i (row ∷ files) [] fit = inr refl
open_rows-calm max_places opens i (row ∷ files) (n ∷ counts) fit =
    by_opening (opens i) (open_rows-calm max_places opens (i + 1) files counts (λ j. fit (suc j)))
  where
    fits : ltb max_places n ≡ false
    fits = ground (arith, fit 0)

    by_opening :
        (o : CmdOpening)
        → (open_rows max_places opens (i + 1) files counts ≡ err failed)
          ⊎ (open_rows max_places opens (i + 1) files counts ≡ ok (opened_rows files counts))
        → let t : Result Fault (List (List Bool)) =
            (prepare_cmd_fd max_places o row n >>= (λ (places : List Bool).
              open_rows max_places opens (i + 1) files counts
              >>= (λ (rows : List (List Bool)). ok (places ∷ rows)))) in
          (t ≡ err failed) ⊎ (t ≡ ok (opened_rows (row ∷ files) (n ∷ counts)))
    by_opening no_terminal rest = inl refl
    by_opening no_file rest = rw fits (inl refl)
    by_opening opened (inl e) = rw (fits, e) (inl refl)
    by_opening opened (inr e) = rw (fits, e) (inr refl)

-- Each command has no more files than places can be made.
abbrev pub AllFit : ℕ → List (List Bool) → Type 0
AllFit max_places [] = Unit
AllFit max_places (row ∷ files) = (length row ≤ max_places) × AllFit max_places files

AllFit-lengths :
    (max_places : ℕ) (files : List (List Bool)) (j : ℕ)
    → AllFit max_places files
    → get_or (map (λ (row : List Bool). length row) files) j 0 ≤ max_places
AllFit-lengths max_places [] j h = omega arith
AllFit-lengths max_places (row ∷ files) zero (h, hs) = h
AllFit-lengths max_places (row ∷ files) (suc j) (h, hs) = AllFit-lengths max_places files j hs

-- For pipes whose ends are at commands that are there, each with a descriptor that is negative, or
-- free and less than the number of places that `make` can make, which is an `int` and at least the
-- number of files of each command, the preparation of the files of a group panics exactly if one of
-- the descriptors is negative.
pub prepare_fds-panics_iff :
    (max_places : ℕ) (cmd_opens : ℕ → CmdOpening) (opens : PipeMap → Bool)
    (files : List (List Bool)) (pipes : List PipeMap)
    → max_places ≤ max_int
    → AllFit max_places files
    → AllSpare max_places files (pipe_ends pipes)
    → (prepare_fds max_places cmd_opens opens files pipes ≡ err panicked)
      ↔ (any_negative (pipe_ends pipes) ≡ true)
unfolding prepare_fds count_fd
prepare_fds-panics_iff max_places cmd_opens opens files pipes whole fit spare = (
  negative_found,
  λ h.
      rw
        (count_ends-negative max_places files (pipe_ends pipes) lengths whole (length-lengths files)
          spare h)
        refl,
)
  where
    lengths : List ℕ
    lengths = map (λ (row : List Bool). length row) files

    calm :
        (c : List ℕ) × (count_ends files (pipe_ends pipes) lengths ≡ ok c)
          × AllCounted max_places (pipe_ends pipes) lengths c
        → IsCalm (prepare_fds max_places cmd_opens opens files pipes)
    calm (c, e, all) =
        elim (open_rows-calm max_places cmd_opens 0 files c
          (λ j. all.small j (AllFit-lengths max_places files j fit))) [
            | inl f ↦ rw (e, f) tt
            | inr f ↦
                rw (e, f)
                  (connect_pipes-IsCalm opens pipes (opened_rows files c) (
                    opened_rows-AllPlaces files c (pipe_ends pipes)
                      (all.same ∙ length-lengths files) all.below))
          ]

    negative_found :
        prepare_fds max_places cmd_opens opens files pipes ≡ err panicked
        → any_negative (pipe_ends pipes) ≡ true
    negative_found h = elim (Bool-cases (any_negative (pipe_ends pipes))) [
      | inl n ↦ n
      | inr n ↦ absurd (
          subst IsCalm h (
            calm (
              count_ends-spare max_places files (pipe_ends pipes) lengths whole
                (length-lengths files) spare n)))
    ]
