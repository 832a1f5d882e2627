-- ===== src/Ingest/Discovery/Reach.antt =====
-- What happens to the discovery tables, as a step relation: each statement, or transaction, of
-- backend/internal/ingest/discovery.go is one step, in any order. A worker writes with a window that
-- it was given, however long ago.
use skill_issues.Prelude.{
  ℕ, suc, ◌+◌, ◌-◌, ◌*◌, ◌≤◌, ◌≡◌, refl, Bool, not, ◌&&◌, Option, some, List, [], ◌∷◌, ◌++◌, map,
  ltb, ◌==◌, any, contains, All, All-append, All-map, arith, if_cases,
}
use skill_issues.Prelude.Int.{ℤ, pos_part}
use skill_issues.Prelude.Time.{Time, day_ns}
use skill_issues.Prelude.Text.{Text}
use skill_issues.Ingest.Queue.{pending, is_running, has_lapsed}
use skill_issues.Ingest.Discovery.{
  SweepKind, SweepParams, Window, Tables, Started, start_sweep, complete_sweeps, sweep_range,
  watermark, series, any_running, count_windows, update_windows, new_window,
}
use skill_issues.Ingest.Discovery.Windows.{
  DiscoveryWindow, SearchedPage, tables_after, exec_window, set_released, set_failed, set_page,
  claim_windows, select_windows, split_point, split_window, reclaim_windows, retry_failed_sweep,
  lease_window, fence_window, set_split, then_halves, window_written, window_lost, free_window,
  set_reopened, window_of,
}
use skill_issues.Ingest.Discovery.Tiling.{
  IsSwept, IsTiled, window_ids, AgreesWith, KeepsPlace, update-IsSwept,
}
use skill_issues.Ingest.Discovery.Split.{split_window-IsSwept}
use skill_issues.Ingest.Discovery.Start.{tables_started, series-above, start_sweep-IsSwept}
use skill_issues.Ingest.Discovery.InPlace.{
  set_released-KeepsPlace, set_page-KeepsPlace, set_failed-KeepsPlace, exec_window-IsSwept,
  reclaim_windows-IsSwept, complete_sweeps-IsSwept, retry_failed_sweep-IsSwept,
  free_window-KeepsPlace, set_reopened-KeepsPlace, lease_window-KeepsPlace,
}
use skill_issues.Ingest.Discovery.Held.{
  IsHeld, AgreesWith-update, AgreesWith-other, selected-IsHeld, selected-IsOpenIf,
}

-- The tables, and the windows that workers were given.
pub record Run : Type 0 where
  pub tables : Tables
  pub given : List DiscoveryWindow

abbrev pub with_tables : Run → Tables → Run
with_tables r t = record r { tables = t }

pub data IsGiven (win : DiscoveryWindow) : List DiscoveryWindow → Type 0 where
  at_head : (wins : List DiscoveryWindow) → IsGiven win (win ∷ wins)
  in_tail :
      (w : DiscoveryWindow) {wins : List DiscoveryWindow}
      → IsGiven win wins
      → IsGiven win (w ∷ wins)

-- What a worker ends its window with, but for a split.
pub data WindowWrite : Type 0 where
  releases_window : ℕ → WindowWrite
  fails_window : Text → Text → ℕ → ℕ → WindowWrite
  writes_page : SearchedPage → Option Text → WindowWrite

abbrev pub write_row : Time → DiscoveryWindow → WindowWrite → Window → Window
write_row now win (releases_window retry_after) w = set_released now retry_after w
write_row now win (fails_window class detail base max_attempts) w =
    set_failed now win class detail base max_attempts w
write_row now win (writes_page p cursor) w = set_page now p cursor w

abbrev pub given_after : Run → Tables × List DiscoveryWindow → Run
given_after r c = record { tables = c.0; given = c.1 ++ r.given }

pub data Step (r : Run) : Run → Type 0 where
  starts :
      (now : Time) (kind : SweepKind) (p : SweepParams)
      → Step r (with_tables r (tables_started r.tables (start_sweep now kind p r.tables)))
  claims :
      (now : Time) (limit : ℤ) (owner lease_time : ℕ) (locked : Window → Bool)
      → Step r (given_after r (claim_windows now limit owner lease_time locked r.tables))
  writes :
      (now : Time) (win : DiscoveryWindow) (f : WindowWrite)
      → Step r
          (with_tables r (tables_after r.tables (exec_window win (write_row now win f) r.tables)))
  splits :
      (now : Time) (win : DiscoveryWindow) (mid : Time) (min_span count : ℕ)
      → IsGiven win r.given
      → split_point win min_span ≡ some mid
      → Step r (with_tables r (tables_after r.tables (split_window now win mid count r.tables)))
  reclaims : (now : Time) → Step r (with_tables r (reclaim_windows now r.tables))
  completes : (now : Time) → Step r (with_tables r (complete_sweeps now r.tables))
  retries :
      (now : Time) (retry_after : ℕ)
      → Step r (with_tables r (retry_failed_sweep now retry_after r.tables))

pub data Reach (r : Run) : Run → Type 0 where
  here : Reach r r
  next : {s u : Run} → Reach r s → Step s u → Reach r u

-- The tables are swept, and each window that was given out agrees with them.
abbrev pub IsRun : Run → Type 0
IsRun r = IsSwept r.tables × All (IsHeld r.tables) r.given

pub given-holds :
    (P : DiscoveryWindow → Type 0) {win : DiscoveryWindow} {wins : List DiscoveryWindow}
    → IsGiven win wins
    → All P wins
    → P win
given-holds P (at_head wins) h = h.0
given-holds P (in_tail w m) h = given-holds P m h.1

-- An update in place keeps what workers hold.
module _ (matches : Window → Bool) (set : Window → Window) where
  IsHeld-update :
      (t : Tables) (wins : List DiscoveryWindow)
      → ((w : Window) → (set w).id ≡ w.id)
      → ((w : Window) → (set w).sweep_id ≡ w.sweep_id)
      → ((w : Window) → (set w).pushed_from ≡ w.pushed_from)
      → ((w : Window) → (set w).pushed_to ≡ w.pushed_to)
      → All (IsHeld t) wins
      → All (IsHeld (record t { windows = update_windows matches set t.windows })) wins
  IsHeld-update t wins i s f g h =
      All-map (IsHeld t) (IsHeld (record t { windows = update_windows matches set t.windows }))
        (λ win k. (AgreesWith-update matches set i s f g win t.windows k.0, k.1)) wins h

  IsHeld-kept :
      (t : Tables) (wins : List DiscoveryWindow)
      → KeepsPlace set
      → All (IsHeld t) wins
      → All (IsHeld (record t { windows = update_windows matches set t.windows })) wins
  IsHeld-kept t wins k = IsHeld-update t wins k.keeps_id k.keeps_sweep k.keeps_from k.keeps_to

-- New rows with new ids keep it too.
IsHeld-append :
    (t : Tables) (ws : List Window) (n : ℕ) (wins : List DiscoveryWindow)
    → t.next_window ≤ n
    → All (λ i. t.next_window ≤ i) (window_ids ws)
    → All (IsHeld t) wins
    → All (IsHeld (record t { windows = t.windows ++ ws; next_window = n })) wins
IsHeld-append t ws n wins l a h =
    All-map (IsHeld t) (IsHeld (record t { windows = t.windows ++ ws; next_window = n }))
      (λ win k. (
        All-append (AgreesWith win) t.windows ws k.0 (AgreesWith-other win t.next_window ws k.1 a),
        omega (arith, k.1, l),
      ))
      wins h

started-IsHeld :
    (now : Time) (kind : SweepKind) (p : SweepParams) (t : Tables) (wins : List DiscoveryWindow)
    → All (IsHeld t) wins
    → All (IsHeld (tables_started t (start_sweep now kind p t))) wins
unfolding start_sweep
started-IsHeld now kind p t wins h =
    let r = sweep_range kind (watermark t.sweeps) (now - p.pushed_within_days * day_ns) in
    let ws = series (suc (now - r.1)) t.next_window t.next_sweep p.window now r.1 now in
    let after = λ (x : Started). All (IsHeld (tables_started t x)) wins in
    if_cases after (p.window == 0) _ _ (λ _. h)
      (λ _.
        if_cases after (not (ltb r.1 now)) _ _ (λ _. h)
          (λ _.
            if_cases after (any_running t.sweeps) _ _ (λ _. h)
              (λ _.
                IsHeld-append t ws (t.next_window + count_windows ws) wins (omega arith)
                  (series-above (suc (now - r.1)) t.next_window t.next_sweep p.window now r.1 now)
                  h)))

split-IsHeld :
    (now : Time) (win : DiscoveryWindow) (mid : Time) (count : ℕ) (t : Tables)
    (wins : List DiscoveryWindow)
    → All (IsHeld t) wins
    → All (IsHeld (tables_after t (split_window now win mid count t))) wins
unfolding split_window exec_window
split-IsHeld now win mid count t wins h =
    let u = record t { windows = update_windows (fence_window win) (set_split count) t.windows } in
    let halves =
      new_window t.next_window win.sweep_id now win.pushed_from mid
      ∷ new_window (suc t.next_window) win.sweep_id now mid win.pushed_to
      ∷ [] in
    if_cases (λ x. All (IsHeld (tables_after t (then_halves now win mid x))) wins)
      (any (fence_window win) t.windows) (window_written u) window_lost
      (λ _.
        IsHeld-append u halves (suc (suc t.next_window)) wins (omega arith)
          (omega arith, (omega arith, tt))
          (IsHeld-update (fence_window win) (set_split count) t wins (λ w. refl) (λ w. refl)
            (λ w. refl) (λ w. refl) h))
      (λ _. h)

written-IsHeld :
    (win : DiscoveryWindow) (set : Window → Window) (t : Tables) (wins : List DiscoveryWindow)
    → KeepsPlace set
    → All (IsHeld t) wins
    → All (IsHeld (tables_after t (exec_window win set t))) wins
unfolding exec_window
written-IsHeld win set t wins k h =
    if_cases (λ x. All (IsHeld (tables_after t x)) wins) (any (fence_window win) t.windows)
      (window_written (record t { windows = update_windows (fence_window win) set t.windows }))
      window_lost (λ _. IsHeld-kept (fence_window win) set t wins k h) (λ _. h)

pub write_row-KeepsPlace :
    (now : Time) (win : DiscoveryWindow) (f : WindowWrite) → KeepsPlace (write_row now win f)
write_row-KeepsPlace now win (releases_window retry_after) = set_released-KeepsPlace now retry_after
write_row-KeepsPlace now win (fails_window class detail base max_attempts) =
    set_failed-KeepsPlace now win class detail base max_attempts
write_row-KeepsPlace now win (writes_page p cursor) = set_page-KeepsPlace now p cursor

pub Step-IsRun : {r s : Run} → IsRun r → Step r s → IsRun s
unfolding claim_windows reclaim_windows complete_sweeps retry_failed_sweep
Step-IsRun {r} h (starts now kind p) =
    (start_sweep-IsSwept now kind p r.tables h.0, started-IsHeld now kind p r.tables r.given h.1)
Step-IsRun {r} h (claims now limit owner lease_time locked) =
    let t = r.tables in
    let selected = select_windows now (pos_part limit) locked t in
    let matches = λ (w : Window). contains (map (λ (x : Window). x.id) selected) w.id in
    let set = lease_window owner (now + lease_time) in
    let k = lease_window-KeepsPlace owner (now + lease_time) in
    (
      update-IsSwept matches set k t
          (selected-IsOpenIf now (pos_part limit) locked t h.0.distinct h.0.fresh) h.0,
      IsHeld-kept matches set t (map (window_of owner) selected ++ r.given) k (
          All-append (IsHeld t) (map (window_of owner) selected) r.given
            (selected-IsHeld now (pos_part limit) locked t owner h.0.distinct h.0.fresh) h.1),
    )
Step-IsRun {r} h (writes now win f) =
    let k = write_row-KeepsPlace now win f in
    (
      exec_window-IsSwept win (write_row now win f) r.tables k h.0,
      written-IsHeld win (write_row now win f) r.tables r.given k h.1,
    )
Step-IsRun {r} h (splits now win mid min_span count m e) = (
  split_window-IsSwept now win mid count r.tables min_span e h.0
      (given-holds (IsHeld r.tables) m h.1).0,
  split-IsHeld now win mid count r.tables r.given h.1,
)
Step-IsRun {r} h (reclaims now) = (
  reclaim_windows-IsSwept now r.tables h.0,
  IsHeld-kept (λ (w : Window). is_running w.status && has_lapsed now w.lease_expires_at)
      (free_window pending) r.tables r.given (free_window-KeepsPlace pending) h.1,
)
Step-IsRun {r} h (completes now) = (complete_sweeps-IsSwept now r.tables h.0, h.1)
Step-IsRun {r} h (retries now retry_after) = (
  retry_failed_sweep-IsSwept now retry_after r.tables h.0,
  IsHeld-kept _ (set_reopened now) r.tables r.given (set_reopened-KeepsPlace now) h.1,
)

Reach-IsRun : {r s : Run} → IsRun r → Reach r s → IsRun s
Reach-IsRun h here = h
Reach-IsRun h (next q st) = Step-IsRun (Reach-IsRun h q) st

-- No sweep and no window yet; the ids to come are any.
abbrev pub empty_run : ℕ → ℕ → Run
empty_run sweep window = record {
  tables = record { sweeps = []; windows = []; next_sweep = sweep; next_window = window };
  given = [];
}

pub empty_run-IsRun : (sweep window : ℕ) → IsRun (empty_run sweep window)
empty_run-IsRun sweep window =
    (record { fresh = tt; distinct = tt; placed = tt; sweeps_fresh = tt; tiled = tt }, tt)

-- In every reachable run, a moment of a sweep's range lies in exactly one of the sweep's windows that
-- are not split, and a moment outside of it in none.
pub Reach-IsTiled :
    {s : Run} (sweep window : ℕ)
    → Reach (empty_run sweep window) s
    → All (IsTiled s.tables.windows) s.tables.sweeps
Reach-IsTiled sweep window q = (Reach-IsRun (empty_run-IsRun sweep window) q).0.tiled
