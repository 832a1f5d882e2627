-- ===== src/Examples/Discovery.antt =====
-- Witnesses and tests on the Discovery Sweeper (backend/internal/ingest/discovery.go).
use skill_issues.Prelude.{
  ℕ, ◌&&◌, ◌≡◌, refl, Bool, true, false, none, some, List, [], ◌∷◌, map, All,
}
use skill_issues.Prelude.Int.{pos}
use skill_issues.Prelude.Sort.{sort_stable, insert_by}
use skill_issues.Ingest.Discovery.{
  full_sweep, Sweep, SweepParams, Window, start_sweep, complete_sweeps, is_done,
}
use skill_issues.Ingest.Discovery.Windows.{
  DiscoveryWindow, claim_windows, select_windows, split_point, split_window, tables_after,
  exec_window,
}
use skill_issues.Ingest.Discovery.Tiling.{IsTiled}
use skill_issues.Ingest.Discovery.Start.{tables_started}
use skill_issues.Ingest.Discovery.Reach.{
  Run, Reach, starts, claims, splits, writes, completes, WindowWrite, writes_page, write_row,
  empty_run, at_head, given_after, with_tables, Reach-IsTiled,
}
use skill_issues.Ingest.Discovery.Searched.{open_in, Reach-IsSearched}

-- Three seconds into the epoch, in one window.
abbrev params : SweepParams
params = record { sweep_stars = 50; pushed_within_days = 1; window = 3600000000000 }

abbrev swept : Run
swept = with_tables (empty_run 1 1) (
    tables_started (empty_run 1 1).tables
      (start_sweep 3000000000 full_sweep params (empty_run 1 1).tables))

abbrev unlocked : Window → Bool
unlocked w = false

abbrev claimed : Run
claimed = given_after swept (claim_windows 3000000001 (pos 1) 7 60 unlocked swept.tables)

abbrev whole : DiscoveryWindow
whole = record {
  id = 1;
  sweep_id = 1;
  pushed_from = 0;
  pushed_to = 3000000000;
  cursor = none;
  pages_done = 0;
  attempt_count = 0;
  lease_owner = 7;
}

claimed_window : claimed.given ≡ whole ∷ []
unfolding start_sweep claim_windows select_windows sort_stable insert_by
claimed_window = refl

halved_at : split_point whole 1000000000 ≡ some 1000000000
unfolding split_point
halved_at = refl

abbrev halved : Run
halved =
    with_tables claimed
      (tables_after claimed.tables (split_window 3000000002 whole 1000000000 1500 claimed.tables))

abbrev places : List Window → List (ℕ × (ℕ × Bool))
places ws = map {B = ℕ × (ℕ × Bool)} (λ (w : Window). (w.pushed_from, (w.pushed_to, w.is_split))) ws

halved_windows :
    places halved.tables.windows
    ≡ (0, (3000000000, true)) ∷ (0, (1000000000, false)) ∷ (1000000000, (3000000000, false)) ∷ []
unfolding start_sweep claim_windows select_windows sort_stable insert_by split_window exec_window
halved_windows = refl

halved_run : Reach (empty_run 1 1) halved
unfolding start_sweep claim_windows select_windows sort_stable insert_by
halved_run =
    Reach.next
      (Reach.next (Reach.next Reach.here (starts 3000000000 full_sweep params))
        (claims 3000000001 (pos 1) 7 60 unlocked))
      (splits 3000000002 whole 1000000000 1000000000 1500 (at_head []) halved_at)

Reach-IsTiled_example : All (IsTiled halved.tables.windows) halved.tables.sweeps
Reach-IsTiled_example = Reach-IsTiled 1 1 halved_run

-- Both halves are claimed and searched in one page each, and the sweep is closed.
abbrev both : Run
both = given_after halved (claim_windows 3000000003 (pos 2) 7 60 unlocked halved.tables)

abbrev early : DiscoveryWindow
early = record whole { id = 2; pushed_to = 1000000000 }

abbrev late : DiscoveryWindow
late = record whole { id = 3; pushed_from = 1000000000 }

both_given : both.given ≡ early ∷ late ∷ whole ∷ []
unfolding start_sweep claim_windows select_windows sort_stable insert_by split_window exec_window
both_given = refl

abbrev page : WindowWrite
page =
    writes_page (record { end_cursor = none; shown = 40; count = some 40; is_truncated = false })
      none

abbrev write_at : Run → ℕ → DiscoveryWindow → Run
write_at r now win =
    with_tables r (tables_after r.tables (exec_window win (write_row now win page) r.tables))

abbrev closed : Run
closed =
    let read = write_at (write_at both 3000000004 early) 3000000005 late in
    with_tables read (complete_sweeps 3000000006 read.tables)

closed_sweep : map {B = Bool} (λ (s : Sweep). is_done s.status) closed.tables.sweeps ≡ true ∷ []
unfolding start_sweep claim_windows select_windows sort_stable insert_by split_window exec_window
    complete_sweeps
closed_sweep = refl

closed_run : Reach (empty_run 1 1) closed
closed_run =
    Reach.next
      (Reach.next
        (Reach.next (Reach.next halved_run (claims 3000000003 (pos 2) 7 60 unlocked))
          (writes 3000000004 early page))
        (writes 3000000005 late page))
      (completes 3000000006)

Reach-IsSearched_example :
    All
      (λ (x : Sweep). (is_done x.status && open_in x.id closed.tables.windows) ≡ false)
      closed.tables.sweeps
Reach-IsSearched_example = Reach-IsSearched 1 1 closed_run
