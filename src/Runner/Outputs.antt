-- ===== src/Runner/Outputs.antt =====
-- internal/hnieoj/runner/runner.go: the comparison of outputs.
use mathlib.Core.List.{append_assoc}
use go_judge.Prelude.{
  zero, suc, ◌+◌, ap, sym, ◌∙◌, is_empty, ◌&&◌, replicate, Bool-cases, inl, inr, ℕ, ◌≡◌, refl,
  Bytes, bytes_eq_refl, Bool, true, false, ◌||◌, [], ◌∷◌, ◌++◌, ◌==◌, if◌then◌else◌, arith,
}
use go_judge.Runner.{replace_crlf, trim_right, normalize_output, same_output}

-- The text with `\r\n` at the end of each line.
abbrev pub to_crlf : Bytes → Bytes
to_crlf [] = []
to_crlf (b ∷ rest) = if b == 10 then 13 ∷ (10 ∷ to_crlf rest) else b ∷ to_crlf rest

abbrev pub has_cr : Bytes → Bool
has_cr [] = false
has_cr (b ∷ rest) = b == 13 || has_cr rest

replace_crlf-plain : (s : Bytes) → has_cr s ≡ false → replace_crlf s ≡ s
unfolding replace_crlf
replace_crlf-plain [] h = refl
replace_crlf-plain (b ∷ []) h = refl
replace_crlf-plain (b ∷ (c ∷ rest)) h = ground (arith, replace_crlf-plain (c ∷ rest))

replace_crlf-cons :
    (b : ℕ) (s : Bytes) → (b == 13) ≡ false → replace_crlf (b ∷ s) ≡ b ∷ replace_crlf s
unfolding replace_crlf
replace_crlf-cons b [] h = refl
replace_crlf-cons b (c ∷ rest) h = ground arith

replace_crlf-line : (s : Bytes) → replace_crlf (13 ∷ (10 ∷ s)) ≡ replace_crlf (10 ∷ s)
unfolding replace_crlf
replace_crlf-line s = refl

replace_crlf-to_crlf : (s : Bytes) → has_cr s ≡ false → replace_crlf (to_crlf s) ≡ s
unfolding replace_crlf
replace_crlf-to_crlf [] h = refl
replace_crlf-to_crlf (b ∷ rest) h = ground (
  arith,
  replace_crlf-to_crlf rest,
  replace_crlf-line (to_crlf rest),
  replace_crlf-cons 10 (to_crlf rest),
  replace_crlf-cons b (to_crlf rest),
)

trim_right-append :
    (s : Bytes) → trim_right (λ b. b == 10) (s ++ 10 ∷ []) ≡ trim_right (λ b. b == 10) s
unfolding trim_right
trim_right-append [] = refl
trim_right-append (b ∷ rest) = rw (trim_right-append rest) refl

replace_crlf-append : (s : Bytes) → has_cr s ≡ false → replace_crlf (s ++ 10 ∷ []) ≡ s ++ 10 ∷ []
replace_crlf-append s h = replace_crlf-plain (s ++ 10 ∷ []) (no_cr s h)
  where
    no_cr : (t : Bytes) → has_cr t ≡ false → has_cr (t ++ 10 ∷ []) ≡ false
    no_cr [] e = refl
    no_cr (b ∷ rest) e = ground (arith, no_cr rest)

-- An output without carriage returns is the same as the one with `\r\n` at the end of each line, and
-- as the one with one more newline at the end, whether blanks at the ends of lines count or not.
same_output-lines :
    (s : Bytes) (remove_end_blank : Bool)
    → has_cr s ≡ false
    → (same_output (to_crlf s) s remove_end_blank ≡ true)
      × (same_output (s ++ 10 ∷ []) s remove_end_blank ≡ true)
unfolding same_output normalize_output
same_output-lines s remove_end_blank h = (
  rw (replace_crlf-to_crlf s h, replace_crlf-plain s h) (bytes_eq_refl _),
  rw (replace_crlf-append s h, replace_crlf-plain s h, trim_right-append s) (bytes_eq_refl _),
)

abbrev pub newlines : ℕ → Bytes
newlines n = replicate n 10

-- The texts are the same once newlines are added at their ends.
abbrev pub SameToNewlines : Bytes → Bytes → Type 0
SameToNewlines s t = (m : ℕ) × (n : ℕ) × (s ++ newlines m ≡ t ++ newlines n)

-- A text is its trimmed part and newlines.
trim_right-split : (s : Bytes) → (k : ℕ) × (s ≡ trim_right (λ b. b == 10) s ++ newlines k)
unfolding trim_right
trim_right-split [] = (0, refl)
trim_right-split (b ∷ rest) =
    let (k, e) = trim_right-split rest in
    let t = trim_right (λ (x : ℕ). x == 10) rest in
    elim (Bool-cases (is_empty t && b == 10)) [
      | inl cut ↦ (suc k, simp cut (last b t k (ground arith) (ground arith) e))
      | inr stays ↦ (k, simp stays (ap (λ l. b ∷ l) e))
    ]
  where
    last :
        (x : ℕ) (t : Bytes) (k : ℕ)
        → is_empty t ≡ true
        → x ≡ 10
        → rest ≡ t ++ newlines k
        → x ∷ rest ≡ newlines (suc k)
    last x [] k h ten e = rw (ten, e) refl
    last x (y ∷ t) k h ten e = absurd (ground arith)

newlines-trim_right :
    (s : Bytes) (k : ℕ) → trim_right (λ b. b == 10) (s ++ newlines k) ≡ trim_right (λ b. b == 10) s
unfolding trim_right
newlines-trim_right [] zero = refl
newlines-trim_right [] (suc k) = rw (newlines-trim_right [] k) refl
newlines-trim_right (b ∷ rest) k = rw (newlines-trim_right rest k) refl

newlines-append : (m n : ℕ) → newlines m ++ newlines n ≡ newlines (m + n)
newlines-append zero n = ap newlines (omega arith)
newlines-append (suc m) n =
    ap (λ l. 10 ∷ l) (newlines-append m n) ∙ ap newlines {x = suc (m + n)} (omega arith)

pub trim_right-same :
    (s t : Bytes) → trim_right (λ b. b == 10) s ≡ trim_right (λ b. b == 10) t → SameToNewlines s t
trim_right-same s t h =
    let (k, e) = trim_right-split s in
    let (l, f) = trim_right-split t in
    let p = trim_right (λ (b : ℕ). b == 10) s in
    let q = trim_right (λ (b : ℕ). b == 10) t in
    (
      l,
      k,
      ap (λ x. x ++ newlines l) e
          ∙ append_assoc p (newlines k) (newlines l)
          ∙ ap (λ x. p ++ x) (newlines-append k l)
          ∙ ap (λ (x : ℕ). p ++ newlines x) (omega arith)
          ∙ ap (λ x. p ++ x) (sym (newlines-append l k))
          ∙ ap (λ x. x ++ (newlines l ++ newlines k)) h
          ∙ sym (append_assoc q (newlines l) (newlines k))
          ∙ ap (λ x. x ++ newlines k) (sym f),
    )

pub same-trim_right :
    (s t : Bytes) → SameToNewlines s t → trim_right (λ b. b == 10) s ≡ trim_right (λ b. b == 10) t
same-trim_right s t (m, n, e) =
    sym (newlines-trim_right s m)
    ∙ ap (λ x. trim_right (λ b. b == 10) x) e
    ∙ newlines-trim_right t n
