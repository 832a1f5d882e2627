-- ===== src/Worker/Pool/Sound.antt =====
-- A pool's accounts (backend/internal/worker/pool.go), and the steps of its dispatcher and of its
-- jobs' goroutines, which keep them.
use skill_issues.Prelude.{
  ℕ, suc, ◌+◌, ◌-◌, ◌<◌, ◌≡◌, refl, sym, ap, ◌∙◌, subst, Bool, true, inl, inr, List, [], ◌∷◌, arith,
  ◌==◌, if_cases, length, length-remove, contains, Bool-cases,
}
use skill_issues.Prelude.Int.{ℤ, pos}
use skill_issues.Worker.Limiter.{Limiter, acquire, release, set_limit, at_least_one}
use skill_issues.Worker.Pool.{
  Pool, Dispatcher, idle, waiting, granted, stopped, Outcome, succeeded, returned_error, panicked,
  set_concurrency, take_from, spawn, give_up_waiting, begin_job, run_job, leave, release_slot, wake,
}
use skill_issues.Worker.Pool.Steps.{held, held_slot, queued, goroutines, Ended, Accounts}
use skill_issues.Worker.Pool.Slots.{
  Holds, acquire-granted, acquire-parked, release-Holds, set_limit-Holds, abandon-waiting,
  abandon-granted,
}

abbrev pub IsSound : Pool → Type 0
IsSound p =
    Holds p.limiter p.dispatcher (goroutines p)
    × (Accounts p × Ended p.dispatcher p.cancelled p.closed p.jobs)

pub held-wake : (ws : List ℕ) (d : Dispatcher) → held (wake ws d) ≡ held d
held-wake ws idle = refl
held-wake ws (waiting j) = elim (Bool-cases (contains ws j)) [
  | inl hit ↦ rw hit
  | inr miss ↦ rw miss
]
held-wake ws (granted j) = refl
held-wake ws stopped = refl

-- A step that wakes the dispatcher does not end it.
pub Ended-wake :
    (ws : List ℕ) (d : Dispatcher) (cancelled closed : Bool) (jobs : List ℕ)
    → Ended d cancelled closed jobs
    → Ended (wake ws d) cancelled closed jobs
Ended-wake ws idle cancelled closed jobs h = tt
Ended-wake ws (waiting j) cancelled closed jobs h = elim (Bool-cases (contains ws j)) [
  | inl hit ↦ rw hit tt
  | inr miss ↦ rw miss tt
]
Ended-wake ws (granted j) cancelled closed jobs h = tt
Ended-wake ws stopped cancelled closed jobs h = h

pub Holds-count : (l : Limiter) (d : Dispatcher) (m n : ℕ) → m ≡ n → Holds l d m → Holds l d n
Holds-count l d m n e h = (omega (arith, h.0), h.1)

pub begins-IsSound :
    (p : Pool) (j : ℕ) → contains p.spawned j ≡ true → IsSound p → IsSound (begin_job p j)
begins-IsSound p j h ((used, queue), ((active, (jobs, (room, lost))), ended)) = (
  (omega (arith, used, length-remove j p.spawned h), queue),
  (
    (omega (arith, active), (omega (arith, jobs, length-remove j p.spawned h), (room, lost))),
    ended,
  ),
)

pub runs-IsSound :
    (p : Pool) (j : ℕ) (o : Outcome)
    → contains p.running j ≡ true
    → IsSound p
    → IsSound (run_job p j o)
unfolding run_job
runs-IsSound p j succeeded h ((used, queue), ((active, (jobs, (room, lost))), ended)) = (
  (omega (arith, used, length-remove j p.running h), queue),
  (
    (
      omega (arith, active, length-remove j p.running h),
      (omega (arith, jobs, length-remove j p.running h), (room, lost)),
    ),
    ended,
  ),
)
runs-IsSound p j returned_error h ((used, queue), ((active, (jobs, (room, lost))), ended)) = (
  (omega (arith, used, length-remove j p.running h), queue),
  (
    (
      omega (arith, active, length-remove j p.running h),
      (omega (arith, jobs, length-remove j p.running h), (room, lost)),
    ),
    ended,
  ),
)
runs-IsSound p j panicked h ((used, queue), ((active, (jobs, (room, lost))), ended)) = (
  (omega (arith, used, length-remove j p.running h), queue),
  (
    (
      omega (arith, active, length-remove j p.running h),
      (omega (arith, jobs, length-remove j p.running h), (room, lost)),
    ),
    ended,
  ),
)

pub leaves-IsSound : (p : Pool) → 0 < p.reported → IsSound p → IsSound (leave p)
leaves-IsSound p h ((used, queue), ((active, (jobs, rest)), ended)) =
    ((omega (arith, used), queue), ((omega (arith, active), (omega (arith, jobs), rest)), ended))

pub releases-IsSound : (p : Pool) → 0 < p.releasing → IsSound p → IsSound (release_slot p)
unfolding release_slot
releases-IsSound p h ((used, queue), ((active, (jobs, rest)), ended)) = (
  release-Holds p.limiter p.dispatcher
      (length p.spawned + length p.running + p.reported + (p.releasing - 1))
      (omega (arith, used), queue),
  (
    (active, (omega (arith, jobs, held-wake (release p.limiter).1 p.dispatcher), rest)),
    Ended-wake (release p.limiter).1 p.dispatcher p.cancelled p.closed p.jobs ended,
  ),
)

pub resizes-IsSound : (p : Pool) (n : ℤ) → IsSound p → IsSound (set_concurrency p n)
unfolding set_concurrency
resizes-IsSound p n s = elim (Bool-cases (p.limiter.limit == at_least_one n)) [
  | inl same ↦ rw same s
  | inr other ↦
      let changed = set_limit p.limiter (pos (at_least_one n)) in
      rw other (
        set_limit-Holds p.limiter p.dispatcher (goroutines p) (pos (at_least_one n)) s.0,
        (
          (s.1.0.0, (omega (arith, s.1.0.1.0, held-wake changed.1 p.dispatcher), s.1.0.1.1)),
          Ended-wake changed.1 p.dispatcher p.cancelled p.closed p.jobs s.1.1,
        ),
      )
]

pub takes-IsSound :
    (p : Pool) (js : List ℕ)
    → p.jobs ≡ js
    → p.dispatcher ≡ idle
    → IsSound p
    → IsSound (take_from p js)
unfolding take_from
takes-IsSound p [] e h s =
    if_cases IsSound p.closed (record p { dispatcher = stopped }) p
      (λ shut. (
        (omega (arith, s.0.0, ap held_slot h), s.0.1 ∙ ap queued h),
        ((s.1.0.0, (omega (arith, s.1.0.1.0, ap held h), s.1.0.1.1)), inr (shut, e)),
      ))
      (λ live. s)
takes-IsSound p (j ∷ js) e h s =
    let asked = acquire p.limiter j in
    let idle_slots = subst (λ d. Holds p.limiter d (goroutines p)) h s.0 in
    if_cases IsSound asked.1 (record p { jobs = js; limiter = asked.0; spawned = j ∷ p.spawned })
      (record p { jobs = js; limiter = asked.0; dispatcher = waiting j })
      (λ given. (
        subst
            (λ d.
              Holds asked.0 d
                (suc (length p.spawned) + length p.running + p.reported + p.releasing))
            (sym h)
            (Holds-count asked.0 idle (suc (goroutines p))
              (suc (length p.spawned) + length p.running + p.reported + p.releasing) (omega arith)
              (acquire-granted p.limiter j (goroutines p) given idle_slots)),
        (
          (
            s.1.0.0,
            (
              omega (arith, s.1.0.1.0, ap length e),
              (omega (arith, s.1.0.1.1.0, ap length e), s.1.0.1.1.1),
            ),
          ),
          subst (λ d. Ended d p.cancelled p.closed js) (sym h) tt,
        ),
      ))
      (λ parked. (
        acquire-parked p.limiter j (goroutines p) parked idle_slots,
        (
          (
            s.1.0.0,
            (
              omega (arith, s.1.0.1.0, ap length e, ap held h),
              (omega (arith, s.1.0.1.1.0, ap length e), s.1.0.1.1.1),
            ),
          ),
          tt,
        ),
      ))

pub spawns-IsSound : (p : Pool) (j : ℕ) → p.dispatcher ≡ granted j → IsSound p → IsSound (spawn p j)
spawns-IsSound p j h ((used, queue), ((active, (jobs, rest)), ended)) = (
  (omega (arith, used, ap held_slot h), queue ∙ ap queued h),
  ((active, (omega (arith, jobs, ap held h), rest)), tt),
)

pub parked-IsSound :
    (p : Pool) (j : ℕ)
    → p.dispatcher ≡ waiting j
    → p.cancelled ≡ true
    → IsSound p
    → IsSound (give_up_waiting p j)
unfolding give_up_waiting
parked-IsSound p j h c ((used, queue), ((active, (jobs, (room, lost))), ended)) = (
  abandon-waiting p.limiter j (goroutines p)
      (subst (λ d. Holds p.limiter d (goroutines p)) h (used, queue)),
  ((active, (omega (arith, jobs, ap held h), (room, inr c))), inl c),
)

pub granted-IsSound :
    (p : Pool) (j : ℕ)
    → p.dispatcher ≡ granted j
    → p.cancelled ≡ true
    → IsSound p
    → IsSound (give_up_waiting p j)
unfolding give_up_waiting
granted-IsSound p j h c ((used, queue), ((active, (jobs, (room, lost))), ended)) = (
  abandon-granted p.limiter j (goroutines p)
      (subst (λ d. Holds p.limiter d (goroutines p)) h (used, queue)),
  ((active, (omega (arith, jobs, ap held h), (room, inr c))), inl c),
)
