-- ===== src/Examples/Pool.antt =====
-- Runs of the worker pool: one job through to a clean shutdown, and a submission that a shutdown
-- overtakes between its check and its send.
use skill_issues.Prelude.{◌+◌, ◌≡◌, refl, [], true, false, arith}
use skill_issues.Prelude.Int.{pos}
use skill_issues.Worker.Limiter.{new_limiter, acquire, release, admit_locked, admit_loop}
use skill_issues.Worker.Pool.{
  Pool, new_pool, stopped, succeeded, check_open, submit_send, crashed, take_from, run_job,
  release_slot, shutdown,
}
use skill_issues.Worker.Pool.Steps.{
  takes, begins, runs, leaves, releases, checks, sends, counts, shuts_down, Reach, here, next,
}
use skill_issues.Worker.Pool.Sound.{IsSound}
use skill_issues.Worker.Pool.Accounting.{pool-IsSound, drained_complete}

abbrev finished : Pool
finished = record {
  limiter = record { limit = 1; in_use = 0; waiters = [] };
  queue_cap = 1;
  jobs = [];
  closed = true;
  cancelled = false;
  submitting = [];
  counting = 0;
  submitted = 1;
  completed = 1;
  failed = 0;
  active_workers = 0;
  dispatcher = stopped;
  spawned = [];
  running = [];
  reported = 0;
  releasing = 0;
  lost = 0;
}

one_job : Reach (new_pool (pos 1) (pos 1)) finished
unfolding new_pool new_limiter check_open submit_send take_from acquire run_job release_slot release
    admit_locked admit_loop shutdown
one_job =
    next
      (next
        (next
          (next
            (next
              (next
                (next (next (next (next here (checks 7)) (sends 7 refl)) (counts (omega arith)))
                  (takes refl))
                (begins 7 refl))
              (runs 7 succeeded refl))
            (leaves (omega arith)))
          (releases (omega arith)))
        shuts_down)
      (takes refl)

pool-IsSound_example : IsSound finished
pool-IsSound_example = pool-IsSound (pos 1) (pos 1) finished one_job

drained_complete_example :
    (finished.closed ≡ true)
    × ((finished.jobs ≡ [])
        × ((finished.submitted + finished.counting ≡ finished.completed + finished.failed)
            × ((finished.active_workers ≡ 0) × (finished.limiter.in_use ≡ 0))))
drained_complete_example = drained_complete (pos 1) (pos 1) finished one_job refl refl

-- A send after a shutdown that came in after the check is a send on a closed channel.
overtaken : (submit_send (shutdown (check_open (new_pool (pos 1) (pos 1)) 7).0) 7).1 ≡ crashed
unfolding new_pool new_limiter check_open submit_send shutdown
overtaken = refl
