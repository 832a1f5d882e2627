-- ===== src/Worker/Pool.antt =====
-- backend/internal/worker/pool.go. A job is its number. A pool's state is what its fields, its
-- channel and its goroutines hold; a function is one atomic step of one of them, up to the next
-- point at which another goroutine can come in between.
pub mod Accounting
mod Slots
pub mod Sound
pub mod Steps
use skill_issues.Prelude.{
  ℕ, suc, ◌+◌, ◌-◌, ◌*◌, Bool, true, false, Option, none, some, List, [], ◌∷◌, ◌++◌, ltb, ◌==◌,
  if◌then◌else◌, length, contains, remove,
}
use skill_issues.Prelude.Int.{ℤ, pos, negsuc}
use skill_issues.Worker.Limiter.{
  Limiter, new_limiter, acquire, release, set_limit, abandon, at_least_one,
}

-- Where `dispatch` stands: at its select, parked in `Acquire` with a job, past it with a slot that
-- was handed over, or returned.
pub data Dispatcher : Type 0 where
  idle : Dispatcher
  waiting : ℕ → Dispatcher
  granted : ℕ → Dispatcher
  stopped : Dispatcher

-- A job's goroutine is `spawned`, then `running` (counted as active), then it has `reported` its
-- outcome, then it is `releasing` (no longer active). `submitting` callers have passed the check
-- of `closed`; `counting` ones have sent their job and not yet counted it. `lost` counts the jobs
-- that `dispatch` took and returned without starting.
pub record Pool : Type 0 where
  pub limiter : Limiter
  pub queue_cap : ℕ
  pub jobs : List ℕ
  pub closed : Bool
  pub cancelled : Bool
  pub submitting : List ℕ
  pub counting : ℕ
  pub submitted : ℕ
  pub completed : ℕ
  pub failed : ℕ
  pub active_workers : ℕ
  pub dispatcher : Dispatcher
  pub spawned : List ℕ
  pub running : List ℕ
  pub reported : ℕ
  pub releasing : ℕ
  pub lost : ℕ

abbrev pub queue_cap_of : ℤ → ℤ → ℕ
queue_cap_of concurrency (pos n) = if ltb 0 n then n else at_least_one concurrency * 4
queue_cap_of concurrency (negsuc n) = at_least_one concurrency * 4

unfoldable pub new_pool : ℤ → ℤ → Pool
new_pool concurrency queue_cap = record {
  limiter = new_limiter concurrency;
  queue_cap = queue_cap_of concurrency queue_cap;
  jobs = [];
  closed = false;
  cancelled = false;
  submitting = [];
  counting = 0;
  submitted = 0;
  completed = 0;
  failed = 0;
  active_workers = 0;
  dispatcher = idle;
  spawned = [];
  running = [];
  reported = 0;
  releasing = 0;
  lost = 0;
}

-- What a closed channel does to the parked dispatcher.
abbrev pub wake : List ℕ → Dispatcher → Dispatcher
wake woken (waiting j) = if contains woken j then granted j else waiting j
wake woken d = d

-- `SetConcurrency`.
unfoldable pub set_concurrency : Pool → ℤ → Pool
unfolding set_limit
set_concurrency p n =
    if p.limiter.limit == at_least_one n
    then p
    else (let changed = set_limit p.limiter (pos (at_least_one n)) in
        record p { limiter = changed.0; dispatcher = wake changed.1 p.dispatcher })

-- The select of `dispatch` takes a job, and `Acquire` grants a slot or parks; a closed and empty
-- channel ends it.
unfoldable pub take_from : Pool → List ℕ → Pool
unfolding acquire
take_from p [] = if p.closed then record p { dispatcher = stopped } else p
take_from p (j ∷ js) =
    let asked = acquire p.limiter j in
    if asked.1
    then record p { jobs = js; limiter = asked.0; spawned = j ∷ p.spawned }
    else record p { jobs = js; limiter = asked.0; dispatcher = waiting j }

abbrev pub take_job : Pool → Pool
take_job p = take_from p p.jobs

-- `Acquire` returns with the slot that it was handed, and the job's goroutine starts.
abbrev pub spawn : Pool → ℕ → Pool
spawn p j = record p { dispatcher = idle; spawned = j ∷ p.spawned }

-- `ctx.Done()` in `Acquire`: the dispatcher returns, and the job that it holds is not started.
unfoldable pub give_up_waiting : Pool → ℕ → Pool
unfolding abandon
give_up_waiting p j = record p {
  limiter = (abandon p.limiter j).0;
  dispatcher = stopped;
  lost = suc p.lost;
}

-- A job's goroutine: `activeWorkers.Add(1)`.
abbrev pub begin_job : Pool → ℕ → Pool
begin_job p j = record p {
  spawned = remove j p.spawned;
  running = j ∷ p.running;
  active_workers = suc p.active_workers;
}

pub data Outcome : Type 0 where
  succeeded : Outcome
  returned_error : Outcome
  panicked : Outcome

-- `runJob` counts the outcome; a panic is recovered and counts as a failure.
unfoldable pub run_job : Pool → ℕ → Outcome → Pool
run_job p j succeeded = record p {
  running = remove j p.running;
  reported = suc p.reported;
  completed = suc p.completed;
}
run_job p j returned_error = record p {
  running = remove j p.running;
  reported = suc p.reported;
  failed = suc p.failed;
}
run_job p j panicked = record p {
  running = remove j p.running;
  reported = suc p.reported;
  failed = suc p.failed;
}

-- `activeWorkers.Add(-1)`.
abbrev pub leave : Pool → Pool
leave p = record p {
  reported = p.reported - 1;
  releasing = suc p.releasing;
  active_workers = p.active_workers - 1;
}

-- The deferred `limiter.Release()` and `wg.Done()`.
unfoldable pub release_slot : Pool → Pool
unfolding release
release_slot p =
    let freed = release p.limiter in
    record p {
      limiter = freed.0;
      dispatcher = wake freed.1 p.dispatcher;
      releasing = p.releasing - 1;
    }

pub data Result : Type 0 where
  accepted : Result
  queue_full : Result
  pool_closed : Result
  caller_cancelled : Result
  crashed : Result

-- The read-locked check of `Submit` and `SubmitWait`: `none` where the call goes on.
unfoldable pub check_open : Pool → ℕ → Pool × Option Result
check_open p j =
    if p.closed then (p, some pool_closed) else (record p { submitting = j ∷ p.submitting }, none)

abbrev pub enqueue : Pool → ℕ → Pool
enqueue p j = record p {
  submitting = remove j p.submitting;
  jobs = p.jobs ++ (j ∷ []);
  counting = suc p.counting;
}

abbrev pub drop_call : Pool → ℕ → Pool
drop_call p j = record p { submitting = remove j p.submitting }

-- The select of `Submit`. A send on a closed channel panics, in a select too.
unfoldable pub submit_send : Pool → ℕ → Pool × Result
submit_send p j =
    if p.closed
    then (drop_call p j, crashed)
    else if ltb (length p.jobs) p.queue_cap
    then (enqueue p j, accepted)
    else (drop_call p j, queue_full)

-- Which case the select of `SubmitWait` takes.
pub data Ready : Type 0 where
  pool_done : Ready
  caller_done : Ready
  timer_fired : Ready
  send_ready : Ready

unfoldable pub submit_wait : Pool → ℕ → Ready → Pool × Result
submit_wait p j pool_done = (drop_call p j, pool_closed)
submit_wait p j caller_done = (drop_call p j, caller_cancelled)
submit_wait p j timer_fired = (drop_call p j, queue_full)
submit_wait p j send_ready = if p.closed then (drop_call p j, crashed) else (enqueue p j, accepted)

-- `submitted.Add(1)`.
abbrev pub count_submitted : Pool → Pool
count_submitted p = record p { counting = p.counting - 1; submitted = suc p.submitted }

-- The locked part of `Shutdown`: the first call closes the channel.
unfoldable pub shutdown : Pool → Pool
shutdown p = if p.closed then p else record p { closed = true }

-- `p.cancel()`.
abbrev pub cancel : Pool → Pool
cancel p = record p { cancelled = true }

-- What `wg` counts is gone: the dispatcher and every job's goroutine.
abbrev pub none_left : Dispatcher → ℕ → Bool
none_left stopped n = n == 0
none_left idle n = false
none_left (waiting j) n = false
none_left (granted j) n = false

abbrev pub drained : Pool → Bool
drained p = none_left p.dispatcher (length p.spawned + length p.running + p.reported + p.releasing)

pub record PoolStats : Type 0 where
  pub concurrency : ℕ
  pub queue_capacity : ℕ
  pub queue_length : ℕ
  pub jobs_submitted : ℕ
  pub jobs_completed : ℕ
  pub jobs_failed : ℕ
  pub active : ℕ

unfoldable pub stats : Pool → PoolStats
stats p = record {
  concurrency = p.limiter.limit;
  queue_capacity = p.queue_cap;
  queue_length = length p.jobs;
  jobs_submitted = p.submitted;
  jobs_completed = p.completed;
  jobs_failed = p.failed;
  active = p.active_workers;
}
