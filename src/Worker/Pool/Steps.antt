-- ===== src/Worker/Pool/Steps.antt =====
-- The goroutines of a pool (backend/internal/worker/pool.go) as a step relation: its callers, its
-- dispatcher and the goroutines of its jobs, interleaved in any order.
use skill_issues.Prelude.{
  ℕ, ◌+◌, ◌≤◌, ◌<◌, ◌≡◌, Bool, true, ◌⊎◌, List, [], ◌∷◌, ltb, length, contains,
}
use skill_issues.Prelude.Int.{ℤ}
use skill_issues.Worker.Pool.{
  Pool, Dispatcher, idle, waiting, granted, stopped, Outcome, set_concurrency, take_job, spawn,
  give_up_waiting, begin_job, run_job, leave, release_slot, check_open, submit_send, submit_wait,
  Ready, pool_done, caller_done, timer_fired, send_ready, count_submitted, shutdown, cancel,
}

-- When the select of `SubmitWait` can take a case: a closed channel takes no job, and sending
-- on it panics.
abbrev pub CanTake : Pool → Ready → Type 0
CanTake p pool_done = p.cancelled ≡ true
CanTake p caller_done = Unit
CanTake p timer_fired = Unit
CanTake p send_ready = (p.closed ≡ true) ⊎ (ltb (length p.jobs) p.queue_cap ≡ true)

-- A step is taken where its goroutine stands there.
pub data Step (p : Pool) : Pool → Type 0 where
  resizes : (n : ℤ) → Step p (set_concurrency p n)
  takes : p.dispatcher ≡ idle → Step p (take_job p)
  sees_cancel :
      p.dispatcher ≡ idle → p.cancelled ≡ true → Step p (record p { dispatcher = stopped })
  spawns : (j : ℕ) → p.dispatcher ≡ granted j → Step p (spawn p j)
  abandons_parked :
      (j : ℕ) → p.dispatcher ≡ waiting j → p.cancelled ≡ true → Step p (give_up_waiting p j)
  abandons_granted :
      (j : ℕ) → p.dispatcher ≡ granted j → p.cancelled ≡ true → Step p (give_up_waiting p j)
  begins : (j : ℕ) → contains p.spawned j ≡ true → Step p (begin_job p j)
  runs : (j : ℕ) (o : Outcome) → contains p.running j ≡ true → Step p (run_job p j o)
  leaves : 0 < p.reported → Step p (leave p)
  releases : 0 < p.releasing → Step p (release_slot p)
  checks : (j : ℕ) → Step p (check_open p j).0
  sends : (j : ℕ) → contains p.submitting j ≡ true → Step p (submit_send p j).0
  waits :
      (j : ℕ) (c : Ready)
      → contains p.submitting j ≡ true
      → CanTake p c
      → Step p (submit_wait p j c).0
  counts : 0 < p.counting → Step p (count_submitted p)
  shuts_down : Step p (shutdown p)
  is_cancelled : Step p (cancel p)

pub data Reach (p : Pool) : Pool → Type 0 where
  here : Reach p p
  next : {q r : Pool} → Reach p q → Step q r → Reach p r

-- The job that the dispatcher holds, the slot that it holds, and what it left in the limiter's queue.
abbrev pub held : Dispatcher → ℕ
held idle = 0
held (waiting j) = 1
held (granted j) = 1
held stopped = 0

abbrev pub held_slot : Dispatcher → ℕ
held_slot idle = 0
held_slot (waiting j) = 0
held_slot (granted j) = 1
held_slot stopped = 0

abbrev pub queued : Dispatcher → List ℕ
queued idle = []
queued (waiting j) = j ∷ []
queued (granted j) = []
queued stopped = []

-- The goroutines of jobs, each of which holds a slot.
abbrev pub goroutines : Pool → ℕ
goroutines p = length p.spawned + length p.running + p.reported + p.releasing

-- Every job that was sent is somewhere.
abbrev pub accounted : Pool → ℕ
accounted p =
    length p.jobs
    + held p.dispatcher
    + length p.spawned
    + length p.running
    + p.completed
    + p.failed
    + p.lost

-- Why the dispatcher has returned: a cancelled context, or a closed and empty channel.
abbrev pub Ended : Dispatcher → Bool → Bool → List ℕ → Type 0
Ended stopped cancelled closed jobs = (cancelled ≡ true) ⊎ ((closed ≡ true) × (jobs ≡ []))
Ended idle cancelled closed jobs = Unit
Ended (waiting j) cancelled closed jobs = Unit
Ended (granted j) cancelled closed jobs = Unit

abbrev pub Accounts : Pool → Type 0
Accounts p =
    (p.active_workers ≡ length p.running + p.reported)
    × ((p.submitted + p.counting ≡ accounted p)
        × ((length p.jobs ≤ p.queue_cap) × ((p.lost ≡ 0) ⊎ (p.cancelled ≡ true))))
