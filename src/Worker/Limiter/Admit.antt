-- ===== src/Worker/Limiter/Admit.antt =====
-- The loop of `admitLocked` (limiter.go): what it wakes, keeps and counts.
use skill_issues.Prelude.{
  ℕ, suc, ◌+◌, ◌≤◌, ◌<◌, max, ◌≡◌, refl, ap, List, [], ◌∷◌, ◌++◌, arith, Bool-cases, inl, inr, ltb,
  length, length-append,
}
use skill_issues.Worker.Limiter.{admit_loop}

pub used-admit_loop :
    (limit used : ℕ) (ws : List ℕ)
    → (admit_loop limit used ws).used ≡ used + length (admit_loop limit used ws).woken
unfolding admit_loop
used-admit_loop limit used [] = omega arith
used-admit_loop limit used (ch ∷ ws) = ground (arith, used-admit_loop limit (suc used) ws)

-- The woken callers are the front of the queue, and the others keep their order.
pub woken-admit_loop :
    (limit used : ℕ) (ws : List ℕ)
    → (admit_loop limit used ws).woken ++ (admit_loop limit used ws).still ≡ ws
unfolding admit_loop
woken-admit_loop limit used [] = refl
woken-admit_loop limit used (ch ∷ ws) = elim (Bool-cases (ltb used limit)) [
  | inl e ↦ rw e (ap (◌∷◌ ch) (woken-admit_loop limit (suc used) ws))
  | inr e ↦ rw e
]

-- Whoever still waits finds every slot taken.
pub still-admit_loop :
    (limit used : ℕ) (ws : List ℕ)
    → 0 < length (admit_loop limit used ws).still
    → limit ≤ (admit_loop limit used ws).used
unfolding admit_loop
still-admit_loop limit used [] h = ground arith
still-admit_loop limit used (ch ∷ ws) h = ground (arith, still-admit_loop limit (suc used) ws)

pub used-admit_loop-le :
    (limit used : ℕ) (ws : List ℕ) → (admit_loop limit used ws).used ≤ max used limit
unfolding admit_loop
used-admit_loop-le limit used [] = omega arith
used-admit_loop-le limit used (ch ∷ ws) = ground (arith, used-admit_loop-le limit (suc used) ws)

-- The number woken: the free slots or the whole queue, whichever is less.
pub length-admit_loop :
    (limit used : ℕ) (ws : List ℕ)
    → length (admit_loop limit used ws).woken + length (admit_loop limit used ws).still ≡ length ws
length-admit_loop limit used ws = omega (
  arith,
  ap length (woken-admit_loop limit used ws),
  length-append (admit_loop limit used ws).woken (admit_loop limit used ws).still,
)

pub ruleset admit_laws = (used-admit_loop, still-admit_loop, used-admit_loop-le, length-admit_loop)
