-- ===== src/EnvPool/Lending.antt =====
-- env/pool/interface.go: where the environments are while some are lent.
use go_judge.Prelude.{
  ℕ, ◌+◌, ◌≡◌, refl, ap, Bool, true, false, Option, none, some, List, [], ◌∷◌, if◌then◌else◌, arith,
}
use go_judge.Prelude.Count.{count, made_below}
use go_judge.EnvPool.{EnvPool, get_env, put_env}

-- Every environment built is in the pool, destroyed or lent, and only one of these.
pub record Lends (lent : List ℕ) (p : EnvPool) : Type 0 where
  pub placed : (e : ℕ) → count e p.env + count e p.destroyed + count e lent ≡ made_below e p.next

-- What `Get` lends.
abbrev pub lent_by : Option ℕ → List ℕ → List ℕ
lent_by none lent = lent
lent_by (some e) lent = e ∷ lent

taken-Lends :
    (x : ℕ) (rest lent : List ℕ) (p : EnvPool)
    → p.env ≡ x ∷ rest
    → Lends lent p
    → Lends (x ∷ lent) (record p { env = rest })
taken-Lends x rest lent p e l = record { placed = λ k. ground (arith, l.placed k, ap (count k) e) }

built-Lends :
    (lent : List ℕ) (p : EnvPool)
    → Lends lent p
    → Lends (p.next ∷ lent) (record p { next = p.next + 1 })
built-Lends lent p l = record { placed = λ k. ground (arith, l.placed k) }

pub get_env-Lends :
    (builds : Bool) (lent : List ℕ) (p : EnvPool)
    → Lends lent p
    → Lends (lent_by (get_env builds p).1 lent) (get_env builds p).0
unfolding get_env
get_env-Lends builds lent p l = go p.env builds refl
  where
    go :
        (xs : List ℕ) (b : Bool)
        → p.env ≡ xs
        → let r : EnvPool × Option ℕ = elim xs [
          | e ∷ rest ↦ (record p { env = rest }, some e)
          | [] ↦ if b then (record p { next = p.next + 1 }, some p.next) else (p, none)
        ] in
          Lends (lent_by r.1 lent) r.0
    go (x ∷ rest) b e = taken-Lends x rest lent p e l
    go [] true e = built-Lends lent p l
    go [] false e = l

pub put_env-Lends :
    (resets : Bool) (e : ℕ) (lent : List ℕ) (p : EnvPool)
    → Lends (e ∷ lent) p
    → Lends lent (put_env resets e p)
unfolding put_env
put_env-Lends true e lent p l = record { placed = λ x. omega (arith, l.placed x) }
put_env-Lends false e lent p l = record { placed = λ x. omega (arith, l.placed x) }
