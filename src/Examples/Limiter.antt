-- ===== src/Examples/Limiter.antt =====
-- Runs of the limiter (backend/internal/worker/limiter.go).
use skill_issues.Prelude.{◌+◌, length, ◌≤◌, ◌≡◌, refl, [], ◌∷◌, ◌++◌, arith}
use skill_issues.Prelude.Int.{pos}
use skill_issues.Worker.Limiter.{Limiter, new_limiter, release, set_limit}
use skill_issues.Worker.Limiter.System.{
  System, start, Reach, IsSound, enters, finishes, cancels, resizes, enter, finish, cancel, resize,
  reachable-IsSound,
}
use skill_issues.Worker.Limiter.Fairness.{
  wakes_in_order, release_times, release_times-wakes, ReachWithin, ReachWithin-running,
}

-- One slot: caller 1 runs, 2 and 3 wait, 2 is woken and gives up, which hands the slot to 3.
abbrev crowded : System
crowded = cancel (finish (enter (enter (enter (start (pos 1)) 1) 2) 3) 1) 2

crowded_woken : crowded.woken ≡ 3 ∷ []
unfolding enter finish cancel new_limiter
crowded_woken = refl

Reach-crowded : Reach (start (pos 1)) crowded
unfolding enter finish cancel new_limiter
Reach-crowded =
    Reach.next
      (Reach.next (Reach.next (Reach.next (Reach.next Reach.here (enters 1)) (enters 2)) (enters 3))
        (finishes 1 refl))
      (cancels 2 refl)

reachable-IsSound_example : IsSound crowded
reachable-IsSound_example = reachable-IsSound (pos 1) Reach-crowded

abbrev full : Limiter
full = record { limit = 2; in_use = 2; waiters = 5 ∷ 6 ∷ 7 ∷ [] }

release_times-wakes_example : release_times 2 full ≡ (record full { waiters = 7 ∷ [] }, 5 ∷ 6 ∷ [])
release_times-wakes_example = release_times-wakes 2 full (omega arith) refl (omega arith)

-- The limit rises from 1 to 3 while caller 1 runs, and 2 comes in; then it falls to 1.
abbrev grown : System
grown = resize (enter (resize (enter (start (pos 1)) 1) (pos 3)) 2) (pos 1)

grown_within : ReachWithin 3 (start (pos 1)) grown
unfolding enter resize new_limiter
grown_within =
    ReachWithin.next
      (ReachWithin.next
        (ReachWithin.next (ReachWithin.next ReachWithin.here (enters 1) (omega arith))
          (resizes (pos 3)) (omega arith))
        (enters 2) (omega arith))
      (resizes (pos 1)) (omega arith)

grown_running : grown.running ≡ 2 ∷ 1 ∷ []
unfolding enter resize new_limiter
grown_running = refl

ReachWithin-running_example : length grown.running + length grown.woken ≤ 3
ReachWithin-running_example = ReachWithin-running (pos 1) grown_within

wakes_in_order_example :
    ((release full).1 ++ (release full).0.waiters ≡ 5 ∷ 6 ∷ 7 ∷ [])
    × ((set_limit full (pos 4)).1 ++ (set_limit full (pos 4)).0.waiters ≡ 5 ∷ 6 ∷ 7 ∷ [])
wakes_in_order_example = wakes_in_order full (pos 4)
