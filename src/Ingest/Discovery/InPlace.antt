-- ===== src/Ingest/Discovery/InPlace.antt =====
-- The statements that write a discovery window in its place (backend/internal/ingest/discovery.go).
use skill_issues.Prelude.{
  ℕ, ◌<◌, ◌≡◌, refl, ap, ◌∙◌, true, false, ◌&&◌, Option, none, some, List, [], ◌∷◌, map, ◌==◌,
  if◌then◌else◌, keep, any, All, arith, if_cases,
}
use skill_issues.Prelude.Time.{Time}
use skill_issues.Prelude.Text.{Text}
use skill_issues.Ingest.Queue.{Status, pending, running, done, failed, is_running, has_lapsed}
use skill_issues.Ingest.Discovery.{
  Sweep, Window, Tables, update_windows, is_done, is_failed, close_sweep, complete_sweeps,
}
use skill_issues.Ingest.Discovery.Windows.{
  DiscoveryWindow, SearchedPage, window_written, window_lost, tables_after, fence_window,
  exec_window, set_released, set_failed, set_page, free_window, reclaim_windows, retry_failed_sweep,
  can_reopen, reopen, set_reopened, lease_window,
}
use skill_issues.Ingest.Discovery.Tiling.{
  IsSwept, IsTiled, KeepsPlace, open-IsSwept, running-done, fenced-running, leaf_count,
}

pub free_window-KeepsPlace : (st : Status) → KeepsPlace (free_window st)
free_window-KeepsPlace st = record {
  keeps_id = λ w. refl;
  keeps_sweep = λ w. refl;
  keeps_from = λ w. refl;
  keeps_to = λ w. refl;
  keeps_split = λ w. refl;
}

pub set_reopened-KeepsPlace : (now : Time) → KeepsPlace (set_reopened now)
set_reopened-KeepsPlace now = record {
  keeps_id = λ w. refl;
  keeps_sweep = λ w. refl;
  keeps_from = λ w. refl;
  keeps_to = λ w. refl;
  keeps_split = λ w. refl;
}

pub lease_window-KeepsPlace :
    (owner : ℕ) (until_at : Time) → KeepsPlace (lease_window owner until_at)
lease_window-KeepsPlace owner until_at = record {
  keeps_id = λ w. refl;
  keeps_sweep = λ w. refl;
  keeps_from = λ w. refl;
  keeps_to = λ w. refl;
  keeps_split = λ w. refl;
}

pub set_released-KeepsPlace : (now retry : ℕ) → KeepsPlace (set_released now retry)
set_released-KeepsPlace now retry = record {
  keeps_id = λ w. refl;
  keeps_sweep = λ w. refl;
  keeps_from = λ w. refl;
  keeps_to = λ w. refl;
  keeps_split = λ w. refl;
}

pub set_page-KeepsPlace :
    (now : Time) (p : SearchedPage) (next : Option Text) → KeepsPlace (set_page now p next)
set_page-KeepsPlace now p none = record {
  keeps_id = λ w. refl;
  keeps_sweep = λ w. refl;
  keeps_from = λ w. refl;
  keeps_to = λ w. refl;
  keeps_split = λ w. refl;
}
set_page-KeepsPlace now p (some c) = record {
  keeps_id = λ w. refl;
  keeps_sweep = λ w. refl;
  keeps_from = λ w. refl;
  keeps_to = λ w. refl;
  keeps_split = λ w. refl;
}

pub set_failed-KeepsPlace :
    (now : Time) (win : DiscoveryWindow) (class detail : Text) (base max : ℕ)
    → KeepsPlace (set_failed now win class detail base max)
set_failed-KeepsPlace now win class detail base max = record {
  keeps_id = λ w. ground arith;
  keeps_sweep = λ w. ground arith;
  keeps_from = λ w. ground arith;
  keeps_to = λ w. ground arith;
  keeps_split = λ w. ground arith;
}

pub exec_window-IsSwept :
    (win : DiscoveryWindow) (set : Window → Window) (t : Tables)
    → KeepsPlace set
    → IsSwept t
    → IsSwept (tables_after t (exec_window win set t))
unfolding exec_window
exec_window-IsSwept win set t k h =
    if_cases (λ x. IsSwept (tables_after t x)) (any (fence_window win) t.windows)
      (window_written (record t { windows = update_windows (fence_window win) set t.windows }))
      window_lost
      (λ _.
        open-IsSwept (fence_window win) set k t
          (λ w f. running-done w.status (fenced-running win w f)) h)
      (λ _. h)

pub reclaim_windows-IsSwept :
    (now : Time) (t : Tables) → IsSwept t → IsSwept (reclaim_windows now t)
unfolding reclaim_windows
reclaim_windows-IsSwept now t h =
    open-IsSwept (λ (w : Window). is_running w.status && has_lapsed now w.lease_expires_at)
      (free_window pending) (free_window-KeepsPlace pending) t
      (λ w m. running-done w.status (ground (arith, m))) h

pub failed-done : (s : Status) → is_failed s ≡ true → is_done s ≡ false
failed-done pending f = refl
failed-done running f = refl
failed-done failed f = refl
failed-done done f = ground (arith, f)

-- An update of the sweeps that leaves their ids and ranges.
module _ (set : Sweep → Sweep) (same_id : (s : Sweep) → (set s).id ≡ s.id)
    (same_from : (s : Sweep) → (set s).pushed_from ≡ s.pushed_from)
    (same_to : (s : Sweep) → (set s).pushed_to ≡ s.pushed_to) where
  sweeps-fresh :
      (n : ℕ) (ss : List Sweep)
      → All (λ (s : Sweep). s.id < n) ss
      → All (λ (s : Sweep). s.id < n) (map set ss)
  sweeps-fresh n [] h = tt
  sweeps-fresh n (s ∷ ss) h = (omega (arith, h.0, same_id s), sweeps-fresh n ss h.1)

  sweeps-IsTiled :
      (ws : List Window) (ss : List Sweep) → All (IsTiled ws) ss → All (IsTiled ws) (map set ss)
  sweeps-IsTiled ws [] h = tt
  sweeps-IsTiled ws (s ∷ ss) h = (
    (λ m. ap (λ i. leaf_count i m ws) (same_id s) ∙ ground (arith, h.0 m, same_from s, same_to s)),
    sweeps-IsTiled ws ss h.1,
  )

  pub sweeps-IsSwept : (t : Tables) → IsSwept t → IsSwept (record t { sweeps = map set t.sweeps })
  sweeps-IsSwept t h = record {
    fresh = h.fresh;
    distinct = h.distinct;
    placed = h.placed;
    sweeps_fresh = sweeps-fresh t.next_sweep t.sweeps h.sweeps_fresh;
    tiled = sweeps-IsTiled t.windows t.sweeps h.tiled;
  }

pub complete_sweeps-IsSwept :
    (now : Time) (t : Tables) → IsSwept t → IsSwept (complete_sweeps now t)
unfolding complete_sweeps
complete_sweeps-IsSwept now t h =
    sweeps-IsSwept (close_sweep now t.windows) (λ s. ground arith) (λ s. ground arith)
      (λ s. ground arith) t h

pub retry_failed_sweep-IsSwept :
    (now : Time) (retry_after : ℕ) (t : Tables)
    → IsSwept t
    → IsSwept (retry_failed_sweep now retry_after t)
unfolding retry_failed_sweep
retry_failed_sweep-IsSwept now retry_after t h =
    let reopened = keep (can_reopen now retry_after t.sweeps) t.sweeps in
    let set = λ (s : Sweep). if can_reopen now retry_after t.sweeps s then reopen s else s in
    open-IsSwept
      (λ (w : Window). any (λ (s : Sweep). s.id == w.sweep_id) reopened && is_failed w.status)
      (set_reopened now) (set_reopened-KeepsPlace now) (record t { sweeps = map set t.sweeps })
      (λ w m. failed-done w.status (ground (arith, m)))
      (sweeps-IsSwept set
        (λ s.
          if_cases (λ (x : Sweep). x.id ≡ s.id) (can_reopen now retry_after t.sweeps s) (reopen s) s
            (λ _. refl) (λ _. refl))
        (λ s.
          if_cases (λ (x : Sweep). x.pushed_from ≡ s.pushed_from)
            (can_reopen now retry_after t.sweeps s) (reopen s) s (λ _. refl) (λ _. refl))
        (λ s.
          if_cases (λ (x : Sweep). x.pushed_to ≡ s.pushed_to)
            (can_reopen now retry_after t.sweeps s) (reopen s) s (λ _. refl) (λ _. refl))
        t h)
