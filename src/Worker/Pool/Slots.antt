-- ===== src/Worker/Pool/Slots.antt =====
-- The limiter inside a pool (backend/internal/worker/pool.go): the dispatcher is the only one that
-- waits on it, and what is in use is what the dispatcher and the jobs' goroutines hold.
use skill_issues.Prelude.{
  ℕ, suc, ◌+◌, ◌≡◌, refl, sym, ap, lt→ltb, subst, Bool, true, false, inl, inr, [], ◌∷◌, ◌++◌, arith,
  ltb, ◌==◌, ==_refl, if◌then◌else◌, if_cases, contains, Bool-cases,
}
use skill_issues.Prelude.Int.{ℤ}
use skill_issues.Worker.Limiter.{
  Limiter, acquire, release, set_limit, abandon, at_least_one, admit_loop, admit_locked, give_back,
}
use skill_issues.Worker.Pool.{Dispatcher, idle, waiting, granted, stopped, wake}
use skill_issues.Worker.Pool.Steps.{held_slot, queued}

-- The limiter's side of a dispatcher, with `n` slots held by others.
abbrev pub Holds : Limiter → Dispatcher → ℕ → Type 0
Holds l d n = (l.in_use ≡ held_slot d + n) × (l.waiters ≡ queued d)

-- A queue of none admits nobody.
admit_none : (l : Limiter) → l.waiters ≡ [] → admit_locked l ≡ (l, [])
unfolding admit_locked admit_loop
admit_none l empty =
    subst (λ ws. admit_locked (record l { waiters = ws }) ≡ (record l { waiters = ws }, []))
      (sym empty) refl

admit_one :
    (l : Limiter) (j : ℕ)
    → l.waiters ≡ j ∷ []
    → admit_locked l ≡ (
        if ltb l.in_use l.limit
        then (record l { in_use = suc l.in_use; waiters = [] }, j ∷ [])
        else (l, []))
unfolding admit_locked admit_loop
admit_one l j one =
    subst
      (λ ws. admit_locked (record l { waiters = ws }) ≡ (
        if ltb l.in_use l.limit
        then (record l { in_use = suc l.in_use; waiters = [] }, j ∷ [])
        else (record l { waiters = ws }, [])))
      (sym one)
      (elim (Bool-cases (ltb l.in_use l.limit)) [ inl room ↦ rw room | inr full ↦ rw full ])

-- Whoever `admit_locked` wakes, the dispatcher takes note of it.
admit_locked-Holds :
    (l : Limiter) (d : Dispatcher) (n : ℕ)
    → Holds l d n
    → Holds (admit_locked l).0 (wake (admit_locked l).1 d) n
admit_locked-Holds l idle n h = rw (admit_none l h.1) h
admit_locked-Holds l (waiting j) n h = elim (Bool-cases (ltb l.in_use l.limit)) [
  | inl room ↦ rw (admit_one l j h.1, room, ==_refl j) (omega (arith, h.0), refl)
  | inr full ↦ rw (admit_one l j h.1, full) h
]
admit_locked-Holds l (granted j) n h = rw (admit_none l h.1) h
admit_locked-Holds l stopped n h = rw (admit_none l h.1) h

give_back-Holds :
    (l : Limiter) (d : Dispatcher) (n : ℕ) → Holds l d (suc n) → Holds (give_back l) d n
give_back-Holds l d n h = rw (lt→ltb 0 l.in_use (omega (arith, h.0))) (omega (arith, h.0), h.1)

pub release-Holds :
    (l : Limiter) (d : Dispatcher) (n : ℕ)
    → Holds l d (suc n)
    → Holds (release l).0 (wake (release l).1 d) n
unfolding release
release-Holds l d n h = admit_locked-Holds (give_back l) d n (give_back-Holds l d n h)

wake_nil : (d : Dispatcher) → wake [] d ≡ d
wake_nil idle = refl
wake_nil (waiting j) = refl
wake_nil (granted j) = refl
wake_nil stopped = refl

pub set_limit-Holds :
    (l : Limiter) (d : Dispatcher) (n : ℕ) (limit : ℤ)
    → Holds l d n
    → Holds (set_limit l limit).0 (wake (set_limit l limit).1 d) n
unfolding set_limit
set_limit-Holds l d n limit h = elim (Bool-cases (l.limit == at_least_one limit)) [
  | inl same ↦ rw (same, wake_nil d) h
  | inr other ↦ rw other (admit_locked-Holds (record l { limit = at_least_one limit }) d n h)
]

-- A parked dispatcher leaves the queue; one that was handed a slot gives it back.
pub abandon-waiting :
    (l : Limiter) (j n : ℕ) → Holds l (waiting j) n → Holds (abandon l j).0 stopped n
unfolding abandon
abandon-waiting l j n h = rw (h.1, ==_refl j) (h.0, refl)

abandon_gone :
    (l : Limiter) (j : ℕ) → contains l.waiters j ≡ false → abandon l j ≡ admit_locked (give_back l)
unfolding abandon
abandon_gone l j gone = rw gone refl

pub abandon-granted :
    (l : Limiter) (j n : ℕ) → Holds l (granted j) n → Holds (abandon l j).0 stopped n
abandon-granted l j n h =
    subst (λ r. Holds r.0 stopped n)
      (sym (abandon_gone l j (subst (λ ws. contains ws j ≡ false) (sym h.1) refl)))
      (admit_locked-Holds (give_back l) stopped n
        (give_back-Holds l stopped n (omega (arith, h.0), h.1)))

pub acquire-granted :
    (l : Limiter) (j n : ℕ)
    → (acquire l j).1 ≡ true
    → Holds l idle n
    → Holds (acquire l j).0 idle (suc n)
unfolding acquire
acquire-granted l j n =
    if_cases (λ (r : Limiter × Bool). r.1 ≡ true → Holds l idle n → Holds r.0 idle (suc n))
      (ltb l.in_use l.limit) (record l { in_use = l.in_use + 1 }, true)
      (record l { waiters = l.waiters ++ (j ∷ []) }, false)
      (λ room given h. (omega (arith, h.0), h.1)) (λ full given h. ground (arith, given))

pub acquire-parked :
    (l : Limiter) (j n : ℕ)
    → (acquire l j).1 ≡ false
    → Holds l idle n
    → Holds (acquire l j).0 (waiting j) n
unfolding acquire
acquire-parked l j n =
    if_cases (λ (r : Limiter × Bool). r.1 ≡ false → Holds l idle n → Holds r.0 (waiting j) n)
      (ltb l.in_use l.limit) (record l { in_use = l.in_use + 1 }, true)
      (record l { waiters = l.waiters ++ (j ∷ []) }, false) (λ room given h. ground (arith, given))
      (λ full given h. (h.0, ap (λ ws. ws ++ (j ∷ [])) h.1))
