-- ===== src/EnvPool.antt =====
-- env/pool/interface.go: the pool of environments. An environment is known by the number of its
-- building, and the end of the slice `p.env` is the head of the list.
pub mod Lending
use go_judge.Prelude.{ℕ, ◌+◌, Bool, Option, none, some, List, [], ◌∷◌, ◌++◌, if◌then◌else◌}

pub record EnvPool : Type 0 where
  pub env : List ℕ
  pub destroyed : List ℕ
  pub next : ℕ

-- `Get`, where `builds` is whether the builder succeeds.
unfoldable pub get_env : Bool → EnvPool → EnvPool × Option ℕ
get_env builds p = elim p.env [
  | e ∷ rest ↦ (record p { env = rest }, some e)
  | [] ↦ if builds then (record p { next = p.next + 1 }, some p.next) else (p, none)
]

-- `Put`, where `resets` is whether `Reset` succeeds.
unfoldable pub put_env : Bool → ℕ → EnvPool → EnvPool
put_env resets e p =
    if resets then record p { env = e ∷ p.env } else record p { destroyed = e ∷ p.destroyed }

-- `Destroy`, which leaves the slice as it is.
unfoldable pub destroy_all : EnvPool → EnvPool
destroy_all p = record p { destroyed = p.env ++ p.destroyed }
