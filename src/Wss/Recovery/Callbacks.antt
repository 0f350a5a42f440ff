-- ===== src/Wss/Recovery/Callbacks.antt =====
-- internal/hnieoj/tasks/registry.go: the functions that cancel an attempt, as `resume` calls them.
use go_judge.Prelude.{
  ℕ, ◌≡◌, ◌⊎◌, inl, inr, refl, sym, subst, Bytes, bytes_eq_iff, Option, none, some, List, [], ◌∷◌,
  ◌++◌, arith, Option-cases,
}
use go_judge.Prelude.Int.{ℤ}
use go_judge.Prelude.Dict.{lookup, lookup-insert}
use go_judge.Tasks.{Registry, Callback, cancels, key, resume, cancel_attempt}

abbrev pub IsCalled : Callback → List Callback → Type 0
IsCalled f [] = ⊥
IsCalled f (x ∷ xs) = (f ≡ x) ⊎ IsCalled f xs

pub IsCalled-left : (f : Callback) (xs ys : List Callback) → IsCalled f xs → IsCalled f (xs ++ ys)
IsCalled-left f [] ys h = absurd h
IsCalled-left f (x ∷ xs) ys (inl e) = inl e
IsCalled-left f (x ∷ xs) ys (inr h) = inr (IsCalled-left f xs ys h)

pub IsCalled-right : (f : Callback) (xs ys : List Callback) → IsCalled f ys → IsCalled f (xs ++ ys)
IsCalled-right f [] ys h = h
IsCalled-right f (x ∷ xs) ys h = inr (IsCalled-right f xs ys h)

-- The function that cancels the attempt in flight under this key.
abbrev pub cancel_of : Bytes → Registry → Option ℕ
cancel_of k r = elim (lookup k r.entries) [ none ↦ none | some e ↦ e.cancel ]

cancel_attempt-calls :
    (s j a : Bytes) (r : Registry) (f : ℕ)
    → cancel_of (key s j a) r ≡ some f
    → (cancel_attempt s j a r).1 ≡ cancels f ∷ []
unfolding cancel_attempt
cancel_attempt-calls s j a r f h = ground arith

pub cancel_attempt-IsCalled :
    (s j a : Bytes) (r : Registry) (k : Bytes) (f : ℕ)
    → key s j a ≡ k
    → cancel_of k r ≡ some f
    → IsCalled (cancels f) (cancel_attempt s j a r).1
cancel_attempt-IsCalled s j a r k f e h =
    rw (cancel_attempt-calls s j a r f (subst (λ t. cancel_of t r ≡ some f) (sym e) h)) (inl refl)

pub resume-cancel_of :
    (s j a : Bytes) (lease epoch : ℤ) (r : Registry) (k : Bytes)
    → cancel_of k (resume s j a lease epoch r).0 ≡ cancel_of k r
unfolding resume
resume-cancel_of s j a lease epoch r k = elim (Option-cases (lookup (key s j a) r.entries)) [
  | inl out ↦ ground arith
  | inr (e, found) ↦ ground (
    arith,
    bytes_eq_iff (key s j a) k,
    lookup-insert (key s j a) k
        (record e { attempt = record (e.attempt) { lease_until = lease; epoch = epoch } })
        r.entries,
  )
]
