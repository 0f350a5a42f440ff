-- ===== src/Wss/Session/Candidates.antt =====
-- internal/hnieoj/wss/run.go: which keys a connection tries.
use go_judge.Prelude.{
  ◌≢◌, ap, subst, is_empty, bytes_eq, if◌then◌else◌, ◌≤◌, ◌≡◌, ◌⊎◌, inl, inr, refl, Bytes, Bool,
  true, false, ◌||◌, Option, none, some, List, [], ◌∷◌, ◌++◌, length, arith, Bool-cases,
}
use go_judge.Wss.Session.{
  Identity, SessionError, Ending, is_rejection, is_nil, try_candidates, session, auth_candidates,
  current_candidates, pending_candidates, or_empty_candidate,
}

-- After a candidate another one is tried only if the server rejected it.
abbrev pub AllRejected : (Bytes × Bool → Ending) → List (Bytes × Bool) → Type 0
AllRejected ends [] = Unit
AllRejected ends (x ∷ rest) =
    ((rest ≡ []) ⊎ (((ends x).authenticated ≡ false) × (is_rejection (ends x).error ≡ true)))
    × AllRejected ends rest

-- The candidates tried are tried in order.
abbrev pub IsPrefix : List (Bytes × Bool) → List (Bytes × Bool) → Type 0
IsPrefix [] ys = Unit
IsPrefix (x ∷ xs) [] = ⊥
IsPrefix (x ∷ xs) (y ∷ ys) = (x ≡ y) × IsPrefix xs ys

try_candidates-tried :
    (ends : Bytes × Bool → Ending) (cancelled : Bool) (xs : List (Bytes × Bool))
    (last : Option SessionError)
    → AllRejected ends (try_candidates ends cancelled xs last).0
      × IsPrefix (try_candidates ends cancelled xs last).0 xs
unfolding try_candidates
try_candidates-tried ends cancelled [] last = (tt, tt)
try_candidates-tried ends cancelled (x ∷ []) last =
    elim (Bool-cases (is_nil (ends x).error || (ends x).authenticated)) [
      | inl a ↦ simp a ((inl refl, tt), (refl, tt))
      | inr a ↦ elim (Bool-cases (is_rejection (ends x).error)) [
        | inl r ↦ simp (a, r) ((inl refl, tt), (refl, tt))
        | inr r ↦ simp (a, r) ((inl refl, tt), (refl, tt))
      ]
    ]
try_candidates-tried ends cancelled (x ∷ y ∷ ys) last =
    let next = try_candidates-tried ends cancelled (y ∷ ys) (ends x).error in
    elim (Bool-cases (is_nil (ends x).error || (ends x).authenticated)) [
      | inl a ↦ simp a ((inl refl, tt), (refl, tt))
      | inr a ↦ elim (Bool-cases (is_rejection (ends x).error)) [
        | inr r ↦ simp (a, r) ((inl refl, tt), (refl, tt))
        | inl r ↦ elim (Bool-cases cancelled) [
          | inl c ↦ simp (a, r, c) ((inl refl, tt), (refl, tt))
          | inr c ↦ simp (a, r, c) ((inr (ground (arith, a), refl), next.0), (refl, next.1))
        ]
      ]
    ]

length-auth_candidates : (i : Identity) → length (auth_candidates i) ≤ 2
unfolding auth_candidates
length-auth_candidates i = by_keys i.current_key_id i.pending_key_id
  where
    by_keys :
        (current : Bytes) (pending : Option Bytes)
        → length
            (or_empty_candidate (current_candidates current ++ pending_candidates current pending))
          ≤ 2
    by_keys current none = ground arith
    by_keys current (some id) = ground arith

-- The current key, if the node has one, is tried first, and after it only the pending one.
abbrev pub IsCurrentFirst : Identity → List (Bytes × Bool) → Type 0
IsCurrentFirst i tried =
    (i.current_key_id ≡ [])
    ⊎ ((tried ≡ (i.current_key_id, false) ∷ [])
        ⊎ ((id : Bytes) × (i.pending_key_id ≡ some id)
            × (tried ≡ (i.current_key_id, false) ∷ ((id, true) ∷ []))))

after_current :
    (x y : Bytes × Bool) (tried : List (Bytes × Bool))
    → tried ≢ []
    → IsPrefix tried (x ∷ (y ∷ []))
    → (tried ≡ x ∷ []) ⊎ (tried ≡ x ∷ (y ∷ []))
after_current x y [] n h = absurd (n refl)
after_current x y (a ∷ []) n (e, _) = inl (ap (λ t. t ∷ []) e)
after_current x y (a ∷ (b ∷ [])) n (e, (f, _)) = inr (rw (e, f) refl)
after_current x y (a ∷ (b ∷ (c ∷ rest))) n (e, (f, h)) = absurd h

only_current :
    (x : Bytes × Bool) (tried : List (Bytes × Bool))
    → tried ≢ []
    → IsPrefix tried (x ∷ [])
    → tried ≡ x ∷ []
only_current x [] n h = absurd (n refl)
only_current x (a ∷ []) n (e, _) = ap (λ t. t ∷ []) e
only_current x (a ∷ (b ∷ rest)) n (e, h) = absurd h

IsPrefix-current :
    (i : Identity) (tried : List (Bytes × Bool))
    → tried ≢ []
    → IsPrefix tried (auth_candidates i)
    → IsCurrentFirst i tried
unfolding auth_candidates
IsPrefix-current i tried n h = by_keys i.current_key_id i.pending_key_id h
  where
    by_keys :
        (current : Bytes) (pending : Option Bytes)
        → IsPrefix tried
            (or_empty_candidate (current_candidates current ++ pending_candidates current pending))
        → (current ≡ [])
          ⊎ ((tried ≡ (current, false) ∷ [])
              ⊎ ((id : Bytes) × (pending ≡ some id)
                  × (tried ≡ (current, false) ∷ ((id, true) ∷ []))))
    by_keys [] pending p = inl refl
    by_keys (b ∷ bs) none p = inr (inl (only_current (b ∷ bs, false) tried n p))
    by_keys (b ∷ bs) (some id) p = elim (Bool-cases (is_empty id || bytes_eq id (b ∷ bs))) [
      | inl same ↦ inr (
          inl (
            only_current (b ∷ bs, false) tried n
              (subst
                (λ (t : Bool).
                  IsPrefix tried ((b ∷ bs, false) ∷ (if t then [] else (id, true) ∷ [])))
                same p)))
      | inr other ↦
          elim (after_current (b ∷ bs, false) (id, true) tried n
            (subst
              (λ (t : Bool). IsPrefix tried ((b ∷ bs, false) ∷ (if t then [] else (id, true) ∷ [])))
              other p)) [ inl e ↦ inr (inl e) | inr e ↦ inr (inr (id, refl, e)) ]
    ]

try_candidates-no_nil :
    (ends : Bytes × Bool → Ending) (cancelled : Bool) (xs : List (Bytes × Bool))
    (last : Option SessionError)
    → xs ≢ []
    → (try_candidates ends cancelled xs last).0 ≢ []
unfolding try_candidates
try_candidates-no_nil ends cancelled [] last n = λ h. n refl
try_candidates-no_nil ends cancelled (x ∷ xs) last n = λ h. ground arith

auth_candidates-no_nil : (i : Identity) → auth_candidates i ≢ []
unfolding auth_candidates
auth_candidates-no_nil i =
    no_nil
      (current_candidates i.current_key_id ++ pending_candidates i.current_key_id i.pending_key_id)
  where
    no_nil : (xs : List (Bytes × Bool)) → or_empty_candidate xs ≢ []
    no_nil [] = λ h. ground arith
    no_nil (x ∷ xs) = λ h. ground arith

-- A connection tries the current key first, if the node has one, and after it at most the pending
-- one, among two candidates at most. It goes on to the second one only if it was not authenticated
-- with the first one and the server rejected that.
pub session-AllRejected :
    (i : Identity) (ends : Bytes × Bool → Ending) (cancelled : Bool)
    → AllRejected ends (session i ends cancelled).0
      × IsPrefix (session i ends cancelled).0 (auth_candidates i)
      × IsCurrentFirst i (session i ends cancelled).0
      × (length (auth_candidates i) ≤ 2)
unfolding session
session-AllRejected i ends cancelled =
    let tried = try_candidates-tried ends cancelled (auth_candidates i) none in
    let some_tried =
      try_candidates-no_nil ends cancelled (auth_candidates i) none (auth_candidates-no_nil i) in
    (tried.0, tried.1, IsPrefix-current i _ some_tried tried.1, length-auth_candidates i)
