-- ===== src/Worker/Pool/Progress.antt =====
-- worker/worker.go: the loops come to rest, and then nothing waits.
use go_judge.Prelude.{
  ℕ, zero, suc, ◌+◌, ◌-◌, ◌*◌, ◌<◌, ◌≡◌, ◌⊎◌, inl, inr, ap, sym, ◌∙◌, true, false, [], ◌∷◌, length,
  length-append, arith, List-cases,
}
use mathlib.Core.Bool.{true≢false}
use go_judge.Worker.Pool.Sound.{count_sent, IsSound, LoopStep-IsSound}
use go_judge.Prelude.Count.{count, made_below}
use go_judge.Worker.Pool.{
  Pool, take_request, finish, finish_direct, LoopStep, takes, finishes, finishes_direct, leaves,
  LoopSteps, rests, goes,
}

-- What the loops and goroutines have left to do.
abbrev pub work : Pool → ℕ
work p = 3 * length p.queue + 2 * length p.busy + length p.direct + p.idle

-- Each step of a loop or of a goroutine of `Execute` leaves less work, so without new calls they come
-- to rest.
pub LoopStep-work : {p q : Pool} → LoopStep p q → work q < work p
unfolding take_request finish finish_direct
LoopStep-work (takes true id rest idle e i) = omega (arith, ap (length {A = ℕ}) e)
LoopStep-work (takes false id rest idle e i) = omega (arith, ap (length {A = ℕ}) e, i)
LoopStep-work (finishes id before after e) =
    omega
      (arith, ap (length {A = ℕ}) e, length-append before (id ∷ after), length-append before after)
LoopStep-work (finishes_direct id before after e) =
    omega
      (arith, ap (length {A = ℕ}) e, length-append before (id ∷ after), length-append before after)
LoopStep-work (leaves idle stop i) = omega (arith, i)

-- While a loop is left, either something can go on or nothing waits and nothing is executed.
pub moves :
    (p : Pool)
    → 0 < p.idle + length p.busy
    → ((q : Pool) × LoopStep p q) ⊎ ((p.queue ≡ []) × (p.busy ≡ []) × (p.direct ≡ []))
moves p alive = elim (List-cases p.busy) [
  | inr (id, rest, b) ↦ inl (finish id [] rest p, finishes id [] rest b)
  | inl b ↦ elim (List-cases p.direct) [
    | inr (id, rest, d) ↦ inl (finish_direct id [] rest p, finishes_direct id [] rest d)
    | inl d ↦ elim (List-cases p.queue) [
      | inl q ↦ inr (q, b, d)
      | inr (id, rest, q) ↦
          let i : p.idle ≡ suc (p.idle - 1) = omega (arith, alive, ap (length {A = ℕ}) b) in
          inl (take_request false id rest (p.idle - 1) p, takes false id rest (p.idle - 1) q i)
    ]
  ]
]

-- Every request made has its answer.
abbrev pub IsServed : Pool → Type 0
IsServed p = (id : ℕ) → count_sent id p.sent ≡ made_below id p.next

-- A pool that is open and has loops.
abbrev pub IsOpen : Pool → Type 0
IsOpen p = (p.is_stopping ≡ false) × (0 < p.idle + length p.busy)

LoopStep-IsOpen : {p q : Pool} → LoopStep p q → IsOpen p → IsOpen q
unfolding take_request finish finish_direct
LoopStep-IsOpen (takes true id rest idle e i) o = o
LoopStep-IsOpen (takes false id rest idle e i) (o, alive) = (o, omega (arith, alive))
LoopStep-IsOpen (finishes id before after e) (o, alive) = (o, omega arith)
LoopStep-IsOpen (finishes_direct id before after e) o = o
LoopStep-IsOpen (leaves idle stop i) (o, alive) = absurd (true≢false (sym stop ∙ o))

LoopSteps-IsOpen : {p q : Pool} → LoopSteps p q → IsOpen p → IsOpen q
LoopSteps-IsOpen rests o = o
LoopSteps-IsOpen (goes step rest) o = LoopSteps-IsOpen rest (LoopStep-IsOpen step o)

LoopSteps-IsSound : {p q : Pool} → LoopSteps p q → IsSound p → IsSound q
LoopSteps-IsSound rests s = s
LoopSteps-IsSound (goes step rest) s = LoopSteps-IsSound rest (LoopStep-IsSound step s)

idle-IsServed :
    (p : Pool) → IsSound p → (p.queue ≡ []) × (p.busy ≡ []) × (p.direct ≡ []) → IsServed p
idle-IsServed p s (q, b, d) =
    λ id. omega (arith, s.once id, ap (count id) q, ap (count id) b, ap (count id) d)

moves-IsServed : (p : Pool) → IsSound p → IsOpen p → IsServed p ⊎ ((q : Pool) × LoopStep p q)
moves-IsServed p s (o, alive) = elim (moves p alive) [
  | inl step ↦ inr step
  | inr empty ↦ inl (idle-IsServed p s empty)
]

serve :
    (fuel : ℕ) (p : Pool)
    → work p < fuel
    → IsSound p
    → IsOpen p
    → (q : Pool) × LoopSteps p q × IsServed q
serve zero p w s o = absurd (omega (arith, w))
serve (suc fuel) p w s (o, alive) = elim (moves p alive) [
  | inr empty ↦ (p, rests, idle-IsServed p s empty)
  | inl (q, step) ↦
      let (r, rest, served) =
        serve fuel q (omega (arith, w, LoopStep-work step)) (LoopStep-IsSound step s)
          (LoopStep-IsOpen step (o, alive)) in
      (r, goes step rest, served)
]

-- In a sound pool that is not shut down and has a loop, wherever the loops and goroutines have got to
-- by themselves, either every request made has its one answer or one of them can go on, and they can
-- go on to a state in which every request made has its one answer.
pub loops-IsServed :
    (p q : Pool)
    → IsSound p
    → IsOpen p
    → LoopSteps p q
    → (IsServed q ⊎ ((r : Pool) × LoopStep q r)) × ((r : Pool) × LoopSteps q r × IsServed r)
loops-IsServed p q s o steps =
    let sound = LoopSteps-IsSound steps s in
    let alive = LoopSteps-IsOpen steps o in
    (moves-IsServed q sound alive, serve (work q + 1) q (omega arith) sound alive)
