-- ===== src/Worker/Pool/Accounting.antt =====
-- What the counters of a pool (backend/internal/worker/pool.go) say about its jobs, in every state
-- that its goroutines can reach.
use skill_issues.Prelude.{
  ℕ, ◌+◌, ◌<◌, ◌≡◌, refl, ap, ◌∙◌, subst, Bool, true, false, ◌⊎◌, inl, inr, List, [], ◌∷◌, ◌++◌,
  arith, ltb, ltb→lt, ==_iff, if◌then◌else◌, if_cases, some, none, Option, length, length-append,
}
use skill_issues.Prelude.Int.{ℤ}
use skill_issues.Worker.Limiter.{new_limiter}
use skill_issues.Worker.Pool.{
  Pool, Dispatcher, idle, waiting, granted, stopped, new_pool, Result, accepted, queue_full,
  pool_closed, crashed, check_open, submit_send, submit_wait, Ready, pool_done, caller_done,
  timer_fired, send_ready, enqueue, drop_call, count_submitted, shutdown, drained, none_left,
}
use skill_issues.Worker.Pool.Steps.{
  Step, takes, resizes, sees_cancel, spawns, abandons_parked, abandons_granted, begins, runs,
  leaves, releases, checks, sends, waits, counts, shuts_down, is_cancelled, Reach, CanTake, here,
  next, held, held_slot, queued, goroutines, Ended,
}
use skill_issues.Worker.Pool.Sound.{
  IsSound, begins-IsSound, runs-IsSound, leaves-IsSound, releases-IsSound, resizes-IsSound,
  takes-IsSound, spawns-IsSound, parked-IsSound, granted-IsSound,
}

cancelled-IsSound :
    (p : Pool)
    → p.dispatcher ≡ idle
    → p.cancelled ≡ true
    → IsSound p
    → IsSound (record p { dispatcher = stopped })
cancelled-IsSound p h c ((used, queue), ((active, (jobs, rest)), ended)) = (
  (omega (arith, used, ap held_slot h), queue ∙ ap queued h),
  ((active, (omega (arith, jobs, ap held h), rest)), inl c),
)

checks-IsSound : (p : Pool) (j : ℕ) → IsSound p → IsSound (check_open p j).0
unfolding check_open
checks-IsSound p j s =
    if_cases (λ (r : Pool × Option Result). IsSound r.0) p.closed (p, some pool_closed)
      (record p { submitting = j ∷ p.submitting }, none) (λ shut. s) (λ live. s)

-- A job is sent on an open channel only, so a dispatcher that has returned was cancelled.
Ended-enqueue :
    (d : Dispatcher) (cancelled closed : Bool) (jobs more : List ℕ)
    → closed ≡ false
    → Ended d cancelled closed jobs
    → Ended d cancelled closed more
Ended-enqueue idle cancelled closed jobs more live h = tt
Ended-enqueue (waiting j) cancelled closed jobs more live h = tt
Ended-enqueue (granted j) cancelled closed jobs more live h = tt
Ended-enqueue stopped cancelled closed jobs more live (inl c) = inl c
Ended-enqueue stopped cancelled closed jobs more live (inr h) = ground (arith, live, h.0)

enqueue-IsSound :
    (p : Pool) (j : ℕ)
    → p.closed ≡ false
    → ltb (length p.jobs) p.queue_cap ≡ true
    → IsSound p
    → IsSound (enqueue p j)
enqueue-IsSound p j live room (slots, ((active, (jobs, (bound, lost))), ended)) =
    let longer = length-append p.jobs (j ∷ []) in
    (
      slots,
      (
        (
          active,
          (
            omega (arith, jobs, longer),
            (omega (arith, longer, ltb→lt (length p.jobs) p.queue_cap room), lost),
          ),
        ),
        Ended-enqueue p.dispatcher p.cancelled p.closed p.jobs (p.jobs ++ (j ∷ [])) live ended,
      ),
    )

sends-IsSound : (p : Pool) (j : ℕ) → IsSound p → IsSound (submit_send p j).0
unfolding submit_send
sends-IsSound p j s =
    if_cases (λ (r : Pool × Result). IsSound r.0) p.closed (drop_call p j, crashed)
      (if ltb (length p.jobs) p.queue_cap
        then (enqueue p j, accepted)
        else (drop_call p j, queue_full))
      (λ shut. s)
      (λ live.
        if_cases (λ (r : Pool × Result). IsSound r.0) (ltb (length p.jobs) p.queue_cap)
          (enqueue p j, accepted) (drop_call p j, queue_full)
          (λ room. enqueue-IsSound p j live room s) (λ full. s))

waits-IsSound :
    (p : Pool) (j : ℕ) (c : Ready) → CanTake p c → IsSound p → IsSound (submit_wait p j c).0
unfolding submit_wait
waits-IsSound p j pool_done ok s = s
waits-IsSound p j caller_done ok s = s
waits-IsSound p j timer_fired ok s = s
waits-IsSound p j send_ready ok s =
    if_cases (λ (r : Pool × Result). IsSound r.0) p.closed (drop_call p j, crashed)
      (enqueue p j, accepted) (λ shut. s)
      (λ live. elim ok [
        | inl shut ↦ ground (arith, live, shut)
        | inr room ↦ enqueue-IsSound p j live room s
      ])

counts-IsSound : (p : Pool) → 0 < p.counting → IsSound p → IsSound (count_submitted p)
counts-IsSound p h (slots, ((active, (jobs, rest)), ended)) =
    (slots, ((active, (omega (arith, jobs), rest)), ended))

Ended-shutdown :
    (d : Dispatcher) (cancelled closed : Bool) (jobs : List ℕ)
    → Ended d cancelled closed jobs
    → Ended d cancelled true jobs
Ended-shutdown idle cancelled closed jobs h = tt
Ended-shutdown (waiting j) cancelled closed jobs h = tt
Ended-shutdown (granted j) cancelled closed jobs h = tt
Ended-shutdown stopped cancelled closed jobs (inl c) = inl c
Ended-shutdown stopped cancelled closed jobs (inr h) = inr (refl, h.1)

shuts-IsSound : (p : Pool) → IsSound p → IsSound (shutdown p)
unfolding shutdown
shuts-IsSound p s =
    if_cases IsSound p.closed p (record p { closed = true }) (λ shut. s)
      (λ live. (s.0, (s.1.0, Ended-shutdown p.dispatcher p.cancelled p.closed p.jobs s.1.1)))

Ended-cancel :
    (d : Dispatcher) (cancelled closed : Bool) (jobs : List ℕ)
    → Ended d cancelled closed jobs
    → Ended d true closed jobs
Ended-cancel idle cancelled closed jobs h = tt
Ended-cancel (waiting j) cancelled closed jobs h = tt
Ended-cancel (granted j) cancelled closed jobs h = tt
Ended-cancel stopped cancelled closed jobs h = inl refl

-- Every step keeps the accounts, from the pool that is made.
Step-IsSound : {p q : Pool} → Step p q → IsSound p → IsSound q
Step-IsSound {p} (resizes n) s = resizes-IsSound p n s
Step-IsSound {p} (takes h) s = takes-IsSound p p.jobs refl h s
Step-IsSound {p} (sees_cancel h c) s = cancelled-IsSound p h c s
Step-IsSound {p} (spawns j h) s = spawns-IsSound p j h s
Step-IsSound {p} (abandons_parked j h c) s = parked-IsSound p j h c s
Step-IsSound {p} (abandons_granted j h c) s = granted-IsSound p j h c s
Step-IsSound {p} (begins j h) s = begins-IsSound p j h s
Step-IsSound {p} (runs j o h) s = runs-IsSound p j o h s
Step-IsSound {p} (leaves h) s = leaves-IsSound p h s
Step-IsSound {p} (releases h) s = releases-IsSound p h s
Step-IsSound {p} (checks j) s = checks-IsSound p j s
Step-IsSound {p} (sends j h) s = sends-IsSound p j s
Step-IsSound {p} (waits j c h ok) s = waits-IsSound p j c ok s
Step-IsSound {p} (counts h) s = counts-IsSound p h s
Step-IsSound {p} shuts_down s = shuts-IsSound p s
Step-IsSound {p} is_cancelled s = (
  s.0,
  (
    (s.1.0.0, (s.1.0.1.0, (s.1.0.1.1.0, inr refl))),
    Ended-cancel p.dispatcher p.cancelled p.closed p.jobs s.1.1,
  ),
)

new_pool-IsSound : (concurrency queue_cap : ℤ) → IsSound (new_pool concurrency queue_cap)
unfolding new_pool new_limiter
new_pool-IsSound concurrency queue_cap =
    ((refl, refl), ((refl, (refl, (omega arith, inl refl))), tt))

pub Reach-IsSound : {p q : Pool} → Reach p q → IsSound p → IsSound q
Reach-IsSound here s = s
Reach-IsSound (next r st) s = Step-IsSound st (Reach-IsSound r s)

-- In every state that a pool and its callers reach, in any order of their steps: the active workers
-- are the jobs that run or have just reported; each job that was sent is queued, held by the
-- dispatcher, started, run, completed, failed, or was given up by a cancelled pool, and is counted
-- exactly once; the queue is within its capacity; and the slots in use are those of the started
-- jobs and of the dispatcher.
pub pool-IsSound :
    (concurrency queue_cap : ℤ) (p : Pool) → Reach (new_pool concurrency queue_cap) p → IsSound p
pool-IsSound concurrency queue_cap p r = Reach-IsSound r (new_pool-IsSound concurrency queue_cap)

none_left-shape : (d : Dispatcher) (n : ℕ) → none_left d n ≡ true → (d ≡ stopped) × (n ≡ 0)
none_left-shape stopped n h = (refl, (==_iff n 0).0 h)
none_left-shape idle n h = ground arith
none_left-shape (waiting j) n h = ground arith
none_left-shape (granted j) n h = ground arith

Ended-kept :
    (cancelled closed : Bool) (jobs : List ℕ)
    → cancelled ≡ false
    → Ended stopped cancelled closed jobs
    → (closed ≡ true) × (jobs ≡ [])
Ended-kept cancelled closed jobs kept (inl c) = ground (arith, kept, c)
Ended-kept cancelled closed jobs kept (inr h) = h

never_lost :
    (lost : ℕ) (cancelled : Bool) → cancelled ≡ false → (lost ≡ 0) ⊎ (cancelled ≡ true) → lost ≡ 0
never_lost lost cancelled kept (inl h) = h
never_lost lost cancelled kept (inr c) = ground (arith, kept, c)

-- A shutdown that ends cleanly loses no job: when the dispatcher and all goroutines are gone and
-- the pool's context was never cancelled, the pool is closed, its queue is empty, and every job
-- that a caller sent has completed or failed. No slot of the limiter stays in use.
pub drained_complete :
    (concurrency queue_cap : ℤ) (p : Pool)
    → Reach (new_pool concurrency queue_cap) p
    → drained p ≡ true
    → p.cancelled ≡ false
    → (p.closed ≡ true)
      × ((p.jobs ≡ [])
          × ((p.submitted + p.counting ≡ p.completed + p.failed)
              × ((p.active_workers ≡ 0) × (p.limiter.in_use ≡ 0))))
drained_complete concurrency queue_cap p r gone kept =
    let ((used, queue), ((active, (jobs, (room, lost))), ended)) =
      pool-IsSound concurrency queue_cap p r in
    let (at_end, empty) = none_left-shape p.dispatcher (goroutines p) gone in
    let finished =
      Ended-kept p.cancelled p.closed p.jobs kept
        (subst (λ d. Ended d p.cancelled p.closed p.jobs) at_end ended) in
    (
      finished.0,
      (
        finished.1,
        (
          omega (
            arith,
            jobs,
            empty,
            ap held at_end,
            ap length finished.1,
            never_lost p.lost p.cancelled kept lost,
          ),
          (omega (arith, active, empty), omega (arith, used, empty, ap held_slot at_end)),
        ),
      ),
    )
