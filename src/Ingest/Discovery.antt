-- ===== src/Ingest/Discovery.antt =====
-- The Discovery Sweeper's tables (backend/internal/ingest/discovery.go): a sweep searches a range of
-- push times, cut in windows that are leased and fenced like the crawl queue's jobs.
pub mod Windows
pub mod Tiling
pub mod Split
pub mod InPlace
pub mod Held
pub mod Reach
pub mod Searched
pub mod Start
use skill_issues.Prelude.{
  ℕ, zero, suc, ◌+◌, ◌-◌, ◌*◌, ◌/◌, ◌%◌, min, max, Bool, true, false, not, ◌&&◌, ◌||◌, Option, none,
  some, List, [], ◌∷◌, ◌++◌, map, ltb, leb, ◌==◌, if◌then◌else◌, keep, any,
}
use skill_issues.Prelude.Text.{Text}
use skill_issues.Prelude.Time.{Time, day_ns}
use skill_issues.Ingest.Queue.{Status, pending, running, done, failed, is_running, owned_by}

pub data SweepKind : Type 0 where
  full_sweep incremental : SweepKind

pub record Sweep : Type 0 where
  pub id : ℕ
  pub kind : SweepKind
  pub pushed_from : Time
  pub pushed_to : Time
  pub min_stars : ℕ
  pub status : Status
  pub started_at : Time
  pub completed_at : Option Time

pub record Window : Type 0 where
  pub id : ℕ
  pub sweep_id : ℕ
  pub pushed_from : Time
  pub pushed_to : Time
  pub cursor : Option Text
  pub pages_done : ℕ
  pub repos_seen : ℕ
  pub repository_count : Option ℕ
  pub truncated : Bool
  pub is_split : Bool
  pub attempt_count : ℕ
  pub status : Status
  pub lease_owner : Option ℕ
  pub lease_expires_at : Option Time
  pub next_retry_at : Option Time
  pub last_error_class : Option Text
  pub last_error_detail : Option Text

pub record Tables : Type 0 where
  pub sweeps : List Sweep
  pub windows : List Window
  pub next_sweep : ℕ
  pub next_window : ℕ

pub record SweepParams : Type 0 where
  pub sweep_stars : ℕ
  pub pushed_within_days : ℕ
  pub window : ℕ

abbrev pub new_window : ℕ → ℕ → Time → Time → Time → Window
new_window id sweep now from to = record {
  id = id;
  sweep_id = sweep;
  pushed_from = from;
  pushed_to = to;
  cursor = none;
  pages_done = 0;
  repos_seen = 0;
  repository_count = none;
  truncated = false;
  is_split = false;
  attempt_count = 0;
  status = pending;
  lease_owner = none;
  lease_expires_at = none;
  next_retry_at = some now;
  last_error_class = none;
  last_error_detail = none;
}

-- generate_series from `from` below `to`; `fuel` bounds the number of windows.
abbrev pub series : ℕ → ℕ → ℕ → ℕ → Time → Time → Time → List Window
series zero id sweep step now from to = []
series (suc fuel) id sweep step now from to =
    let rest = series fuel (suc id) sweep step now (from + step) to in
    if ltb from to then new_window id sweep now from (min (from + step) to) ∷ rest else []

abbrev pub is_done : Status → Bool
is_done done = true
is_done pending = false
is_done running = false
is_done failed = false

abbrev pub is_failed : Status → Bool
is_failed failed = true
is_failed pending = false
is_failed running = false
is_failed done = false

abbrev pub later_of : Option Time → Time → Option Time
later_of none t = some t
later_of (some s) t = some (max s t)

-- `SELECT max(pushed_to) FROM discovery_sweeps WHERE status = 'done'`
abbrev pub watermark : List Sweep → Option Time
watermark [] = none
watermark (s ∷ ss) = if is_done s.status then later_of (watermark ss) s.pushed_to else watermark ss

abbrev pub any_running : List Sweep → Bool
any_running sweeps = any (λ (s : Sweep). is_running s.status) sweeps

-- The kind that is started, and where its range begins.
abbrev pub sweep_range : SweepKind → Option Time → Time → SweepKind × Time
sweep_range full_sweep mark from = (full_sweep, from)
sweep_range incremental none from = (full_sweep, from)
sweep_range incremental (some t) from = (incremental, if ltb from t then t else from)

pub data Started : Type 0 where
  started : Tables → Started
  bad_window empty_range sweep_running : Started

abbrev pub count_windows : List Window → ℕ
count_windows [] = 0
count_windows (w ∷ ws) = suc (count_windows ws)

-- `StartSweep`
unfoldable pub start_sweep : Time → SweepKind → SweepParams → Tables → Started
start_sweep now kind p t =
    let earliest = now - p.pushed_within_days * day_ns in
    let (started_kind, from) = sweep_range kind (watermark t.sweeps) earliest in
    let windows = series (suc (now - from)) t.next_window t.next_sweep p.window now from now in
    if p.window == 0
    then bad_window
    else (if not (ltb from now)
        then empty_range
        else (if any_running t.sweeps
            then sweep_running
            else started (record {
              sweeps =
                  t.sweeps
                  ++ (record {
                    id = t.next_sweep;
                    kind = started_kind;
                    pushed_from = from;
                    pushed_to = now;
                    min_stars = p.sweep_stars;
                    status = running;
                    started_at = now;
                    completed_at = none;
                  }
                      ∷ []);
              windows = t.windows ++ windows;
              next_sweep = suc t.next_sweep;
              next_window = t.next_window + count_windows windows;
            })))

abbrev pub update_windows : (Window → Bool) → (Window → Window) → List Window → List Window
update_windows matches set ws = map (λ w. if matches w then set w else w) ws

-- `CompleteSweeps`
abbrev pub has_open : ℕ → List Window → Bool
has_open sweep ws =
    any (λ (w : Window). w.sweep_id == sweep && not (is_done w.status || is_failed w.status)) ws

abbrev pub has_failed : ℕ → List Window → Bool
has_failed sweep ws = any (λ (w : Window). w.sweep_id == sweep && is_failed w.status) ws

abbrev pub close_sweep : Time → List Window → Sweep → Sweep
close_sweep now ws s =
    if is_running s.status && not (has_open s.id ws)
    then record s { status = if has_failed s.id ws then failed else done; completed_at = some now }
    else s

unfoldable pub complete_sweeps : Time → Tables → Tables
complete_sweeps now t = record t { sweeps = map (close_sweep now t.windows) t.sweeps }

-- `DueSweep`: which sweep should start now.
abbrev pub has_passed : Time → ℕ → Option Time → Bool
has_passed now every none = true
has_passed now every (some t) = leb (t + every) now

abbrev pub is_full : SweepKind → Bool
is_full full_sweep = true
is_full incremental = false

abbrev pub last_started : (Sweep → Bool) → List Sweep → Option Time
last_started p [] = none
last_started p (s ∷ ss) =
    if p s then later_of (last_started p ss) s.started_at else last_started p ss

unfoldable pub due_sweep : Time → ℕ → ℕ → List Sweep → Option SweepKind
due_sweep now full_every incremental_every sweeps =
    if any_running sweeps
    then none
    else (if has_passed now full_every (last_started (λ (s : Sweep). is_full s.kind) sweeps)
        then some full_sweep
        else (if ltb 0 incremental_every
              && has_passed now incremental_every (last_started (λ s. true) sweeps)
            then some incremental
            else none))
