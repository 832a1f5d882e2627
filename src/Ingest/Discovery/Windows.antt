-- ===== src/Ingest/Discovery/Windows.antt =====
-- The statements on a sweep's windows (backend/internal/ingest/discovery.go).
use skill_issues.Prelude.{
  ℕ, suc, ◌+◌, ◌-◌, ◌/◌, ◌%◌, Bool, true, false, not, ◌&&◌, ◌||◌, Option, none, some, List, [], ◌∷◌,
  ◌++◌, map, ltb, leb, ◌==◌, if◌then◌else◌, keep, any, take, contains,
}
use skill_issues.Prelude.Int.{ℤ, pos_part}
use skill_issues.Prelude.Sort.{sort_stable}
use skill_issues.Prelude.Text.{Text}
use skill_issues.Prelude.Time.{Time}
use skill_issues.Ingest.Queue.{
  Status, pending, running, done, failed, is_pending, is_running, owned_by, is_due, has_lapsed,
}
use skill_issues.Ingest.Queue.Writes.{moved, backoff}
use skill_issues.Ingest.Discovery.{
  Sweep, Window, Tables, new_window, update_windows, any_running, is_failed,
}

-- `DiscoveryWindow`, but for the star floor that it takes from its sweep.
pub record DiscoveryWindow : Type 0 where
  pub id : ℕ
  pub sweep_id : ℕ
  pub pushed_from : Time
  pub pushed_to : Time
  pub cursor : Option Text
  pub pages_done : ℕ
  pub attempt_count : ℕ
  pub lease_owner : ℕ

abbrev pub window_of : ℕ → Window → DiscoveryWindow
window_of owner w = record {
  id = w.id;
  sweep_id = w.sweep_id;
  pushed_from = w.pushed_from;
  pushed_to = w.pushed_to;
  cursor = w.cursor;
  pages_done = w.pages_done;
  attempt_count = w.attempt_count;
  lease_owner = owner;
}

abbrev pub sweep_runs : List Sweep → ℕ → Bool
sweep_runs sweeps id = any (λ (s : Sweep). s.id == id && is_running s.status) sweeps

abbrev pub retry_before : Window → Window → Option Time → Option Time → Bool
retry_before a b none none = ltb a.id b.id
retry_before a b none (some t) = true
retry_before a b (some s) none = false
retry_before a b (some s) (some t) = if ltb s t then true else s == t && ltb a.id b.id

abbrev pub window_before : Window → Window → Bool
window_before a b = retry_before a b a.next_retry_at b.next_retry_at

unfoldable pub select_windows : Time → ℕ → (Window → Bool) → Tables → List Window
select_windows now limit locked t = take limit (
    sort_stable window_before (
      keep
        (λ (w : Window).
          is_pending w.status
          && (is_due now w.next_retry_at && (sweep_runs t.sweeps w.sweep_id && not (locked w))))
        t.windows))

abbrev pub lease_window : ℕ → Time → Window → Window
lease_window owner until_at w = record w {
  status = running;
  lease_owner = some owner;
  lease_expires_at = some until_at;
}

-- `ClaimDiscoveryWindows`: a limit of 0 or less claims none.
unfoldable pub claim_windows :
    Time → ℤ → ℕ → ℕ → (Window → Bool) → Tables → Tables × List DiscoveryWindow
unfolding select_windows
claim_windows now limit owner lease_time locked t =
    let claimed = select_windows now (pos_part limit) locked t in
    let ids = map (λ (w : Window). w.id) claimed in
    (
      record t {
        windows =
            update_windows (λ (w : Window). contains ids w.id)
              (lease_window owner (now + lease_time)) t.windows;
      },
      map (window_of owner) claimed,
    )

pub data WindowWritten : Type 0 where
  window_written : Tables → WindowWritten
  window_lost : WindowWritten

abbrev pub tables_after : Tables → WindowWritten → Tables
tables_after t (window_written u) = u
tables_after t window_lost = t

-- `fenceWindow`
abbrev pub fence_window : DiscoveryWindow → Window → Bool
fence_window win w =
    w.id == win.id && (is_running w.status && owned_by w.lease_owner win.lease_owner)

unfoldable pub exec_window : DiscoveryWindow → (Window → Window) → Tables → WindowWritten
exec_window win set t =
    if any (fence_window win) t.windows
    then window_written (record t { windows = update_windows (fence_window win) set t.windows })
    else window_lost

abbrev pub free_window : Status → Window → Window
free_window st w = record w { status = st; lease_owner = none; lease_expires_at = none }

abbrev pub set_released : Time → ℕ → Window → Window
set_released now retry_after w = record (free_window pending w) {
  next_retry_at = some (now + retry_after);
}

abbrev pub set_window_failure : ℕ → Text → Text → Status → Window → Window
set_window_failure attempt class detail st w = record (free_window st w) {
  attempt_count = attempt;
  last_error_class = some class;
  last_error_detail = some detail;
}

-- The row of `FailDiscoveryWindow`.
abbrev pub set_failed : Time → DiscoveryWindow → Text → Text → ℕ → ℕ → Window → Window
set_failed now win class detail backoff_base max_attempts w =
    let attempt = suc win.attempt_count in
    if leb max_attempts attempt
    then set_window_failure attempt class detail failed w
    else record (set_window_failure attempt class detail pending w) {
      next_retry_at = some (moved now (backoff backoff_base attempt));
    }

-- A page of the search, as `processDiscoveryWindow` writes it.
pub record SearchedPage : Type 0 where
  pub end_cursor : Option Text
  pub shown : ℕ
  pub count : Option ℕ
  pub is_truncated : Bool

abbrev pub or_old {ℓ} : {A : Type ℓ} → Option A → Option A → Option A
or_old none old = old
or_old (some a) old = some a

-- A page with a next one has an end cursor.
abbrev pub set_page : Time → SearchedPage → Option Text → Window → Window
set_page now p none w = record (free_window done w) {
  pages_done = suc w.pages_done;
  repos_seen = w.repos_seen + p.shown;
  repository_count = or_old p.count w.repository_count;
  truncated = w.truncated || p.is_truncated;
  attempt_count = 0;
  next_retry_at = none;
}
set_page now p (some cursor) w = record (free_window pending w) {
  cursor = some cursor;
  pages_done = suc w.pages_done;
  repos_seen = w.repos_seen + p.shown;
  repository_count = or_old p.count w.repository_count;
  truncated = w.truncated || p.is_truncated;
  attempt_count = 0;
  next_retry_at = some now;
}

abbrev pub set_split : ℕ → Window → Window
set_split count w = record (free_window done w) {
  is_split = true;
  repository_count = some count;
  next_retry_at = none;
}

abbrev pub second : ℕ
second = 1000000000

-- `splitPoint`
unfoldable pub split_point : DiscoveryWindow → ℕ → Option Time
split_point win min_span =
    let span = win.pushed_to - win.pushed_from in
    let half = win.pushed_from + span / 2 in
    let mid = half - half % second in
    if leb span min_span
    then none
    else (if not (ltb win.pushed_from mid) || not (ltb mid win.pushed_to) then none else some mid)

abbrev pub add_halves : Time → DiscoveryWindow → Time → Tables → Tables
add_halves now win mid t = record t {
  windows =
      t.windows
      ++ (new_window t.next_window win.sweep_id now win.pushed_from mid
          ∷ new_window (suc t.next_window) win.sweep_id now mid win.pushed_to
          ∷ []);
  next_window = suc (suc t.next_window);
}

abbrev pub then_halves : Time → DiscoveryWindow → Time → WindowWritten → WindowWritten
then_halves now win mid (window_written t) = window_written (add_halves now win mid t)
then_halves now win mid window_lost = window_lost

-- `splitWindowTx`
unfoldable pub split_window : Time → DiscoveryWindow → Time → ℕ → Tables → WindowWritten
unfolding exec_window
split_window now win mid count t = then_halves now win mid (exec_window win (set_split count) t)

-- `ReclaimExpiredDiscoveryLeases`
unfoldable pub reclaim_windows : Time → Tables → Tables
reclaim_windows now t = record t {
  windows =
      update_windows (λ (w : Window). is_running w.status && has_lapsed now w.lease_expires_at)
        (free_window pending) t.windows;
}

-- `RetryFailedSweep`: the latest sweep, when it failed long enough ago and none runs.
abbrev pub latest_id : List Sweep → ℕ
latest_id [] = 0
latest_id (s ∷ ss) = let m = latest_id ss in if ltb m s.id then s.id else m

abbrev pub ended_before : Time → ℕ → Option Time → Bool
ended_before now retry_after none = false
ended_before now retry_after (some t) = ltb (t + retry_after) now

abbrev pub can_reopen : Time → ℕ → List Sweep → Sweep → Bool
can_reopen now retry_after sweeps s =
    s.id == latest_id sweeps
    && (is_failed s.status
        && (ended_before now retry_after s.completed_at && not (any_running sweeps)))

abbrev pub reopen : Sweep → Sweep
reopen s = record s { status = running; completed_at = none }

abbrev pub set_reopened : Time → Window → Window
set_reopened now w = record (free_window pending w) { attempt_count = 0; next_retry_at = some now }

unfoldable pub retry_failed_sweep : Time → ℕ → Tables → Tables
retry_failed_sweep now retry_after t =
    let reopened = keep (can_reopen now retry_after t.sweeps) t.sweeps in
    record t {
      sweeps = map (λ s. if can_reopen now retry_after t.sweeps s then reopen s else s) t.sweeps;
      windows =
          update_windows
            (λ (w : Window). any (λ (s : Sweep). s.id == w.sweep_id) reopened && is_failed w.status)
            (set_reopened now) t.windows;
    }
