-- ===== src/Envexec/Descriptors/Places.antt =====
-- envexec/file_prepare.go: the places for the files of a group.
use go_judge.Prelude.{
  ◌++◌, ℕ, zero, suc, ◌-◌, ◌<◌, ◌≤◌, ◌≡◌, refl, ap, arith, Bool, true, false, some, List, [], ◌∷◌,
  length, length-append, length-set, get_elem?, get_or, set, replicate,
}
use go_judge.Prelude.Int.{pos, pos_part, ltb_ℤ}
use go_judge.Prelude.Result.{ok}
use go_judge.Envexec.Commands.{PipeIndex}
use go_judge.Envexec.Descriptors.{is_taken, take_place}

-- The places of a command.
abbrev pub size : List (List Bool) → ℕ → ℕ
size files i = length (get_or files i [])

-- The places of all commands, where each has as many as counted, at least.
abbrev pub opened_rows : List (List Bool) → List ℕ → List (List Bool)
opened_rows [] counts = []
opened_rows (row ∷ files) [] = []
opened_rows (row ∷ files) (n ∷ counts) =
    (row ++ replicate (n - length row) false) ∷ opened_rows files counts

length-replicate : (n : ℕ) (b : Bool) → length (replicate n b) ≡ n
length-replicate zero b = refl
length-replicate (suc n) b = ap suc (length-replicate n b)

pub size-opened_rows :
    (files : List (List Bool)) (counts : List ℕ) (i : ℕ)
    → length counts ≡ length files
    → get_or counts i 0 ≤ size (opened_rows files counts) i
size-opened_rows [] [] i e = omega arith
size-opened_rows [] (n ∷ counts) i e = absurd (omega (arith, e))
size-opened_rows (row ∷ files) [] i e = omega arith
size-opened_rows (row ∷ files) (n ∷ counts) zero e = omega (
  arith,
  length-append row (replicate (n - length row) false),
  length-replicate (n - length row) false,
)
size-opened_rows (row ∷ files) (n ∷ counts) (suc i) e =
    size-opened_rows files counts i (omega (arith, e))

size-set :
    (files : List (List Bool)) (i j k : ℕ) (b : Bool)
    → size (set files i (set (get_or files i []) k b)) j ≡ size files j
size-set [] i j k b = refl
size-set (row ∷ files) zero zero k b = length-set row k b
size-set (row ∷ files) zero (suc j) k b = refl
size-set (row ∷ files) (suc i) zero k b = refl
size-set (row ∷ files) (suc i) (suc j) k b = size-set files i j k b

pub size-take_place :
    (files : List (List Bool)) (p : PipeIndex) (j : ℕ) → size (take_place files p) j ≡ size files j
unfolding take_place
size-take_place files p j = size-set files (pos_part p.index) j (pos_part p.fd) true

-- Every end has a place.
abbrev pub HasPlace : List (List Bool) → PipeIndex → Type 0
HasPlace files p =
    (ltb_ℤ p.index (pos 0) ≡ false)
    × (ltb_ℤ p.fd (pos 0) ≡ false)
    × (pos_part p.fd < size files (pos_part p.index))

abbrev pub AllPlaces : List (List Bool) → List PipeIndex → Type 0
AllPlaces files [] = Unit
AllPlaces files (p ∷ ends) = HasPlace files p × AllPlaces files ends

pub AllPlaces-same :
    (files files' : List (List Bool)) (ends : List PipeIndex)
    → ((j : ℕ) → size files' j ≡ size files j)
    → AllPlaces files ends
    → AllPlaces files' ends
AllPlaces-same files files' [] e a = tt
AllPlaces-same files files' (p ∷ ends) e ((x, y, z), rest) =
    ((x, y, omega (arith, z, e (pos_part p.index))), AllPlaces-same files files' ends e rest)

get_elem?-size :
    (files : List (List Bool)) (i k : ℕ)
    → k < size files i
    → (row : List Bool) × (get_elem? files i ≡ some row) × (k < length row)
get_elem?-size [] i k h = absurd (omega (arith, h))
get_elem?-size (row ∷ files) zero k h = (row, refl, h)
get_elem?-size (row ∷ files) (suc i) k h = get_elem?-size files i k h

get_elem?-lt : (row : List Bool) (k : ℕ) → k < length row → (b : Bool) × (get_elem? row k ≡ some b)
get_elem?-lt [] k h = absurd (omega (arith, h))
get_elem?-lt (b ∷ row) zero h = (b, refl)
get_elem?-lt (b ∷ row) (suc k) h = get_elem?-lt row k (omega (arith, h))

pub is_taken-ok :
    (files : List (List Bool)) (p : PipeIndex)
    → HasPlace files p
    → (b : Bool) × (is_taken files p ≡ ok b)
unfolding is_taken
is_taken-ok files p (x, y, z) =
    let (row, r, h) = get_elem?-size files (pos_part p.index) (pos_part p.fd) z in
    let (b, t) = get_elem?-lt row (pos_part p.fd) h in (b, ground (arith, x, y, r, t))
