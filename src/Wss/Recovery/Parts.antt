-- ===== src/Wss/Recovery/Parts.antt =====
-- internal/hnieoj/wss/run.go: the parts of a key.
use go_judge.Prelude.{
  ◌≡◌, ◌≢◌, ◌⊎◌, inl, inr, ap, sym, ◌∙◌, Bytes, none, some, [], ◌∷◌, ◌++◌, ◌==◌, arith, Bool-cases,
  Option-cases,
}
use go_judge.Tasks.{key}
use go_judge.Wss.Recovery.{cut_zero, split_key}

-- Cutting a key at its zero bytes loses nothing.
cut_zero-join : (k : Bytes) (p : Bytes × Bytes) → cut_zero k ≡ some p → p.0 ++ (0 ∷ p.1) ≡ k
unfolding cut_zero
cut_zero-join [] p h = cc
cut_zero-join (b ∷ rest) p h = elim (Option-cases (cut_zero rest)) [
  | inl out ↦ ground arith
  | inr (q, found) ↦ ground (arith, cut_zero-join rest q found)
]

cut_zero-append : (xs ys : Bytes) → cut_zero (xs ++ (0 ∷ ys)) ≢ none
unfolding cut_zero
cut_zero-append [] ys = λ h. ground arith
cut_zero-append (x ∷ xs) ys = λ h. ground (arith, cut_zero-append xs ys)

-- The three parts of a key give the key again, though an identifier may hold a zero byte.
pub split_key-join :
    (k : Bytes) (p : Bytes × Bytes × Bytes) → split_key k ≡ some p → key (p.0) (p.1) (p.2) ≡ k
unfolding split_key key
split_key-join k p h = elim (Option-cases (cut_zero k)) [
  | inl out ↦ ground arith
  | inr (q, found) ↦ elim (Option-cases (cut_zero q.1)) [
    | inl out ↦ ground arith
    | inr (x, again) ↦ ground (arith, cut_zero-join k q found, cut_zero-join q.1 x again)
  ]
]

cut_zero-rest :
    (xs ys : Bytes) (q : Bytes × Bytes)
    → cut_zero (xs ++ (0 ∷ ys)) ≡ some q
    → (zs : Bytes) × ((q.1 ≡ ys) ⊎ (q.1 ≡ zs ++ (0 ∷ ys)))
unfolding cut_zero
cut_zero-rest [] ys q h = ([], inl (ground arith))
cut_zero-rest (x ∷ xs) ys q h = elim (Bool-cases (x == 0)) [
  | inl zero_byte ↦ (xs, inr (ground arith))
  | inr other ↦ elim (Option-cases (cut_zero (xs ++ (0 ∷ ys)))) [
    | inl out ↦ ([], ground arith)
    | inr (p, found) ↦
        let (zs, split) = cut_zero-rest xs ys p found in
        let same : q.1 ≡ p.1 = ground arith in
        (zs, elim split [ inl e ↦ inl (same ∙ e) | inr e ↦ inr (same ∙ e) ])
  ]
]

pub split_key-key : (s j a : Bytes) → split_key (key s j a) ≢ none
unfolding split_key key
split_key-key s j a = λ h. elim (Option-cases (cut_zero (s ++ (0 ∷ (j ++ (0 ∷ a)))))) [
  | inl out ↦ cut_zero-append s (j ++ (0 ∷ a)) out
  | inr (q, found) ↦
      let (zs, split) = cut_zero-rest s (j ++ (0 ∷ a)) q found in
      let next : cut_zero q.1 ≡ none = ground arith in
      elim split [
        | inl e ↦ cut_zero-append j a (ap cut_zero (sym e) ∙ next)
        | inr e ↦ cut_zero-append zs (j ++ (0 ∷ a)) (ap cut_zero (sym e) ∙ next)
      ]
]
