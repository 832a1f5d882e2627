-- ===== src/Xp/Level.antt =====
-- LevelOf and threshold (backend/internal/xp/xp.go): where a total of XP stands on the curve.
use skill_issues.Prelude.{
  ℕ, zero, suc, ◌+◌, ◌-◌, ◌*◌, ◌/◌, ◌≤◌, ◌<◌, ◌≡◌, refl, ◌&&◌, arith, ltb, leb, if◌then◌else◌,
  Bool-cases, inl, inr,
}
use native.Mathlib.Nat.{add-zero, add-suc}
use native.Mathlib.Decide.{dec_lt}
use skill_issues.Prelude.Int.{ℤ, pos, negsuc}

pub record Level : Type 0 where
  pub level : ℕ
  pub start : ℕ
  pub next : ℕ

unfoldable pub threshold : ℕ → ℕ → ℕ
threshold l step = step * l * (l - 1) / 2

-- `for threshold(l+1, step) <= total { l++ }`, with fuel.
unfoldable pub climb : ℕ → ℕ → ℕ → ℕ → ℕ
climb zero total step l = l
climb (suc fuel) total step l =
    let higher = climb fuel total step (suc l) in
    if leb (threshold (suc l) step) total then higher else l

-- `for l > 1 && threshold(l, step) > total { l-- }`
unfoldable pub descend : ℕ → ℕ → ℕ → ℕ
descend total step zero = zero
descend total step (suc l) =
    if ltb 1 (suc l) && ltb total (threshold (suc l) step) then descend total step l else suc l

-- `if step <= 0 { step = 1 }` and `if total < 0 { total = 0 }`
abbrev pub at_least_zero : ℤ → ℕ
at_least_zero (pos n) = n
at_least_zero (negsuc n) = 0

abbrev pub step_of : ℤ → ℕ
step_of (pos zero) = 1
step_of (pos (suc n)) = suc n
step_of (negsuc n) = 1

-- `guess total step` stands for `int((1 + math.Sqrt(1 + 8*total/step)) / 2)`, in floating point.
unfoldable pub level_of : (ℕ → ℕ → ℕ) → ℤ → ℤ → Level
level_of guess total step =
    let t = at_least_zero total in
    let s = step_of step in
    let l = descend t s (climb (suc t) t s (guess t s)) in
    record { level = l; start = threshold l s; next = threshold (suc l) s }

threshold-suc : (step l : ℕ) → threshold (suc l) step ≡ step * suc l * l / 2
unfolding threshold
threshold-suc step l = let e : suc l - 1 ≡ l = omega arith in rw e

threshold-step : (step l : ℕ) → threshold (suc (suc l)) step ≡ threshold (suc l) step + step * suc l
threshold-step step l = rw (threshold-suc step l, threshold-suc step (suc l)) (omega arith)

threshold_first : (step : ℕ) → threshold 1 step ≡ 0
unfolding threshold
threshold_first step = omega arith

threshold_ge : (step l : ℕ) → 1 ≤ step → l ≤ threshold (suc l) step
threshold_ge step zero h = omega arith
threshold_ge step (suc l) h = grind (arith, threshold-step step l, threshold_ge step l h)

threshold_mono_add : (step l d : ℕ) → threshold (suc l) step ≤ threshold (suc (l + d)) step
threshold_mono_add step l zero = rw add-zero (omega arith)
threshold_mono_add step l (suc d) =
    rw add-suc (omega (arith, threshold-step step (l + d), threshold_mono_add step l d))

threshold_mono : (step l m : ℕ) → l ≤ m → threshold (suc l) step ≤ threshold (suc m) step
threshold_mono step l m h =
    let e : l + (m - l) ≡ m = omega arith in rw e at (threshold_mono_add step l (m - l))

climb-passes :
    (fuel total step l : ℕ)
    → 1 ≤ step
    → total < fuel + l
    → total < threshold (suc (climb fuel total step l)) step
unfolding climb
climb-passes zero total step l h room = omega (arith, threshold_ge step l h)
climb-passes (suc fuel) total step l h room =
    ground (arith, climb-passes fuel total step (suc l) h (omega arith))

abbrev Brackets : ℕ → ℕ → ℕ → Type 0
Brackets total step l = (1 ≤ l) × (threshold l step ≤ total) × (total < threshold (suc l) step)

descend-Brackets :
    (total step l : ℕ) → total < threshold (suc l) step → Brackets total step (descend total step l)
unfolding descend
descend-Brackets total step zero h = absurd (omega (arith, threshold_first step))
descend-Brackets total step (suc zero) h = (omega arith, omega (arith, threshold_first step), h)
descend-Brackets total step (suc (suc l)) h =
    elim (Bool-cases (ltb total (threshold (suc (suc l)) step))) [
      | inl lower ↦ ground (arith, descend-Brackets total step (suc l) (ground arith))
      | inr stay ↦ ground arith
    ]

step_of_positive : (step : ℤ) → 1 ≤ step_of step
step_of_positive (pos zero) = omega arith
step_of_positive (pos (suc n)) = omega arith
step_of_positive (negsuc n) = omega arith

-- Whatever the floating-point guess, a total of XP lies between the start of its level and the
-- start of the next one, and a level is at least 1; a negative total counts as 0, and a step that
-- is not positive as 1.
pub level_of_brackets :
    (guess : ℕ → ℕ → ℕ) (total step : ℤ)
    → let l = level_of guess total step in
      (1 ≤ l.level)
      × (l.start ≤ at_least_zero total)
      × (at_least_zero total < l.next)
      × (l.start ≡ threshold l.level (step_of step))
      × (l.next ≡ threshold (suc l.level) (step_of step))
unfolding level_of
level_of_brackets guess total step =
    let b = descend-Brackets (at_least_zero total) (step_of step) _ (
      climb-passes (suc (at_least_zero total)) (at_least_zero total) (step_of step)
        (guess (at_least_zero total) (step_of step)) (step_of_positive step) (omega arith)) in
    (b.0, b.1, b.2, refl, refl)

Brackets-mono : (t t' step l l' : ℕ) → Brackets t step l → Brackets t' step l' → t ≤ t' → l ≤ l'
Brackets-mono t t' step zero l' b b' h = omega arith
Brackets-mono t t' step (suc l) l' b b' h = elim (dec_lt l' (suc l)) [
  | yes below ↦ absurd (omega (arith, threshold_mono step l' l (omega arith)))
  | no other ↦ omega arith
]

-- More XP never means a lower level, and the level does not depend on the guess that the search
-- starts from.
pub level_of_mono :
    (guess guess' : ℕ → ℕ → ℕ) (total total' step : ℤ)
    → at_least_zero total ≤ at_least_zero total'
    → (level_of guess total step).level ≤ (level_of guess' total' step).level
unfolding level_of
level_of_mono guess guess' total total' step h =
    let b = level_of_brackets guess total step in
    let b' = level_of_brackets guess' total' step in
    Brackets-mono (at_least_zero total) (at_least_zero total') (step_of step) _ _ (b.0, b.1, b.2)
      (b'.0, b'.1, b'.2) h
