-- ===== src/Envexec/Names.antt =====
-- envexec/run_status.go: the names of the statuses determine them.
use go_judge.Prelude.{
  ℕ, zero, suc, ◌<◌, ◌≡◌, refl, bytes_eq, some, arith, subst, inl, inr, Bool-cases, ◌==◌,
}
use go_judge.Prelude.Int.{pos}
use go_judge.Prelude.Dict.{lookup, insert}
use go_judge.Envexec.{status_string, string_to_status, fill}

abbrev AllBelow : (ℕ → Type 0) → ℕ → Type 0
AllBelow P zero = Unit
AllBelow P (suc n) = P n × AllBelow P n

AllBelow-at : (P : ℕ → Type 0) (n s : ℕ) → AllBelow P n → s < n → P s
AllBelow-at P zero s all h = absurd (omega (arith, h))
AllBelow-at P (suc n) s all h = elim (Bool-cases (n == s)) [
  | inl same ↦ let e : n ≡ s = ground arith in subst P e all.0
  | inr other ↦ AllBelow-at P n s all.1 (ground (arith, h))
]

abbrev ReadsBack : ℕ → Type 0
ReadsBack s = string_to_status (status_string (pos s)) ≡ some (pos s)

all_read_back : AllBelow ReadsBack 14
unfolding string_to_status status_string fill lookup insert bytes_eq
all_read_back = (
  refl,
  (
    refl,
    (
      refl,
      (refl, (refl, (refl, (refl, (refl, (refl, (refl, (refl, (refl, (refl, (refl, tt))))))))))),
    ),
  ),
)

-- The name of every status reads back as that status.
pub string_to_status-status_string :
    (s : ℕ) → s < 14 → string_to_status (status_string (pos s)) ≡ some (pos s)
string_to_status-status_string s h = AllBelow-at ReadsBack 14 s all_read_back h
