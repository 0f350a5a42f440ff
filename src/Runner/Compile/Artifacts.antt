-- ===== src/Runner/Compile/Artifacts.antt =====
-- internal/hnieoj/runner/runner.go: what a compilation leaves.
use go_judge.Prelude.{
  ◌≡◌, ◌≢◌, ◌⊎◌, inl, inr, Bytes, bytes_eq, codes, is_empty, true, false, Option, none, some, List,
  [], ◌∷◌, arith, Bool-cases, Option-cases,
}
use go_judge.Prelude.Ascii.{trim_space}
use go_judge.Prelude.Result.{ok}
use go_judge.Prelude.Dict.{lookup}
use go_judge.Model.{accepted}
use go_judge.Processor.{CompileResult}
use go_judge.Runner.{SandboxResult}
use go_judge.Runner.Compile.{LanguageSpec, spec_for, compile_answer, compile_program}

-- One answer of the sandbox, whose status is `Accepted`, with this artifact of the language.
abbrev pub IsBuilt : LanguageSpec → Option (List SandboxResult) → Bytes → Type 0
IsBuilt spec none artifact = ⊥
IsBuilt spec (some []) artifact = ⊥
IsBuilt spec (some (x ∷ (y ∷ rest))) artifact = ⊥
IsBuilt spec (some (x ∷ [])) artifact =
    (bytes_eq x.status (codes "Accepted") ≡ true)
    × (lookup spec.artifact x.file_ids ≡ some artifact)
    × (is_empty artifact ≡ false)

-- What a compilation leaves for a language, by whether this is interpreted.
abbrev pub Leaves : Bytes → Option (List SandboxResult) → CompileResult → LanguageSpec → Type 0
Leaves source answers r spec =
    ((spec.interpreted ≡ true) × (r.status ≡ accepted) × (r.artifact_file_id ≡ []))
    ⊎ (((spec.interpreted ≡ false)
          × (r.status ≡ accepted)
          × (is_empty (trim_space source) ≡ false)
          × IsBuilt spec answers r.artifact_file_id)
        ⊎ ((spec.interpreted ≡ false)
            × (r.status ≢ accepted)
            × (r.artifact_file_id ≡ [])
            × ((is_empty (trim_space source) ≡ true)
                ⊎ ((artifact : Bytes) → ¬ IsBuilt spec answers artifact))))

compile_answer-artifact :
    (spec : LanguageSpec) (answers : Option (List SandboxResult)) (r : CompileResult)
    → compile_answer spec answers ≡ some r
    → ((r.status ≡ accepted) × IsBuilt spec answers r.artifact_file_id)
      ⊎ ((r.status ≢ accepted)
          × (r.artifact_file_id ≡ [])
          × ((artifact : Bytes) → ¬ IsBuilt spec answers artifact))
unfolding compile_answer
compile_answer-artifact spec none r h = cc
compile_answer-artifact spec (some []) r h = cc
compile_answer-artifact spec (some (x ∷ (y ∷ rest))) r h = cc
compile_answer-artifact spec (some (x ∷ [])) r h =
    elim (Bool-cases (bytes_eq x.status (codes "Accepted"))) [
      | inr bad ↦
          inr (λ e. ground arith, ground arith, λ artifact built. ground (arith, bad, built.0))
      | inl good ↦ elim (Option-cases (lookup spec.artifact x.file_ids)) [
        | inl missing ↦
            inr
              (λ e. ground arith, ground arith, λ artifact built. ground (arith, missing, built.1))
        | inr (id, found) ↦ elim (Bool-cases (is_empty id)) [
          | inl blank ↦ inr (
            λ e. ground arith,
            ground arith,
            λ artifact built. ground (arith, found, blank, built.1, built.2),
          )
          | inr named ↦ inl (ground arith, (good, ground arith, ground arith))
        ]
      ]
    ]

-- A compilation that ends without an error, in a language that is known, is accepted exactly if the
-- language is interpreted, or the source is not blank and there is one answer of the sandbox, whose
-- status is `Accepted`, with an artifact; then the result has this artifact. An interpreted language
-- leaves none, nor does a compilation that is not accepted.
pub compile_program-artifact :
    (language source : Bytes) (spec : LanguageSpec) (answers : Option (List SandboxResult))
    (r : CompileResult)
    → spec_for language ≡ ok spec
    → compile_program language source answers ≡ some r
    → Leaves source answers r spec
unfolding compile_program
compile_program-artifact language source spec answers r good h =
    elim (Bool-cases spec.interpreted) [
      | inl yes_it_is ↦ inl (yes_it_is, ground arith, ground arith)
      | inr compiled ↦ elim (Bool-cases (is_empty (trim_space source))) [
        | inl blank ↦ inr (inr (compiled, λ e. ground arith, ground arith, inl blank))
        | inr given ↦
            let answered : compile_answer spec answers ≡ some r = ground arith in
            elim (compile_answer-artifact spec answers r answered) [
              | inl (a, b) ↦ inr (inl (compiled, a, given, b))
              | inr (a, b, c) ↦ inr (inr (compiled, a, b, inr c))
            ]
      ]
    ]
