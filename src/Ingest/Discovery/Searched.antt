-- ===== src/Ingest/Discovery/Searched.antt =====
-- The windows of the sweeps that are done (backend/internal/ingest/discovery.go).
use skill_issues.Prelude.{
  ℕ, zero, suc, ◌+◌, ◌-◌, ◌*◌, ◌<◌, ◌≡◌, refl, sym, ap, ◌∙◌, Bool, true, false, not, ◌&&◌, ◌||◌,
  List, [], ◌∷◌, ◌++◌, map, ltb, ◌==◌, if◌then◌else◌, any, contains, keep, All, All-append, All-map,
  All-both, arith, Bool-cases, inl, inr, if_cases,
}
use skill_issues.Prelude.Int.{pos_part}
use skill_issues.Prelude.Time.{Time, day_ns}
use skill_issues.Ingest.Queue.{pending, is_running, has_lapsed}
use skill_issues.Ingest.Discovery.{
  Sweep, SweepKind, SweepParams, Window, Tables, Started, start_sweep, sweep_range, watermark,
  series, any_running, update_windows, new_window, is_done, is_failed, close_sweep, complete_sweeps,
  has_open, has_failed,
}
use skill_issues.Ingest.Discovery.Windows.{
  DiscoveryWindow, tables_after, exec_window, fence_window, split_window, set_split, then_halves,
  window_written, window_lost, claim_windows, select_windows, lease_window, reclaim_windows,
  free_window, retry_failed_sweep, can_reopen, reopen, set_reopened,
}
use skill_issues.Ingest.Discovery.Tiling.{
  IsSwept, IsOpenIf, KeepsPlace, AgreesWith, everywhere, running-done, fenced-running, fenced-id,
}
use skill_issues.Ingest.Discovery.Start.{tables_started}
use skill_issues.Ingest.Discovery.InPlace.{failed-done}
use skill_issues.Ingest.Discovery.Held.{IsHeld, selected-IsOpenIf}
use skill_issues.Ingest.Discovery.Reach.{
  Run, Step, Reach, starts, claims, writes, splits, reclaims, completes, retries, IsRun, Step-IsRun,
  empty_run, empty_run-IsRun, given-holds, write_row, write_row-KeepsPlace,
}

-- A window of the sweep has not been searched to its end.
abbrev pub open_in : ℕ → List Window → Bool
open_in sweep [] = false
open_in sweep (w ∷ ws) = (w.sweep_id == sweep && not (is_done w.status)) || open_in sweep ws

abbrev pub IsSearched : List Window → Sweep → Type 0
IsSearched ws s = (is_done s.status && open_in s.id ws) ≡ false

open_in-append :
    (sweep : ℕ) (xs ys : List Window)
    → open_in sweep (xs ++ ys) ≡ (open_in sweep xs || open_in sweep ys)
open_in-append sweep [] ys = refl
open_in-append sweep (x ∷ xs) ys = ground (arith, open_in-append sweep xs ys)

module _ (matches : Window → Bool) (set : Window → Window)
    (same_sweep : (w : Window) → (set w).sweep_id ≡ w.sweep_id) where
  open_in-update :
      (sweep : ℕ) (ws : List Window)
      → All (IsOpenIf matches) ws
      → open_in sweep ws ≡ false
      → open_in sweep (update_windows matches set ws) ≡ false
  open_in-update sweep [] o h = refl
  open_in-update sweep (w ∷ ws) o h = elim (Bool-cases (matches w)) [
    | inl m ↦ ground (arith, m, o.0 m, same_sweep w, h, open_in-update sweep ws o.1)
    | inr m ↦ ground (arith, m, h, open_in-update sweep ws o.1)
  ]

  IsSearched-update :
      (ws : List Window) (ss : List Sweep)
      → All (IsOpenIf matches) ws
      → All (IsSearched ws) ss
      → All (IsSearched (update_windows matches set ws)) ss
  IsSearched-update ws ss o h =
      All-map (IsSearched ws) (IsSearched (update_windows matches set ws))
        (λ s k. ground (arith, k, open_in-update s.id ws o)) ss h

-- New windows of other sweeps than those that are done.
IsSearched-append :
    (ws new : List Window) (s : Sweep)
    → IsSearched ws s
    → IsSearched new s
    → IsSearched (ws ++ new) s
IsSearched-append ws new s h k = ground (arith, h, k, open_in-append s.id ws new)

series-open_in :
    (fuel id sweep step now from to other : ℕ)
    → other < sweep
    → open_in other (series fuel id sweep step now from to) ≡ false
series-open_in zero id sweep step now from to other h = refl
series-open_in (suc fuel) id sweep step now from to other h =
    let rest = series-open_in fuel (suc id) sweep step now (from + step) to other h in
    ground (arith, rest, h)

started-IsSearched :
    (now : Time) (kind : SweepKind) (p : SweepParams) (t : Tables)
    → IsSwept t
    → All (IsSearched t.windows) t.sweeps
    → All
        (IsSearched (tables_started t (start_sweep now kind p t)).windows)
        (tables_started t (start_sweep now kind p t)).sweeps
unfolding start_sweep
started-IsSearched now kind p t w h =
    let r = sweep_range kind (watermark t.sweeps) (now - p.pushed_within_days * day_ns) in
    let ws = series (suc (now - r.1)) t.next_window t.next_sweep p.window now r.1 now in
    let after =
      λ (x : Started). All (IsSearched (tables_started t x).windows) (tables_started t x).sweeps in
    if_cases after (p.window == 0) _ _ (λ _. h)
      (λ _.
        if_cases after (not (ltb r.1 now)) _ _ (λ _. h)
          (λ _.
            if_cases after (any_running t.sweeps) _ _ (λ _. h)
              (λ _.
                All-append (IsSearched (t.windows ++ ws)) t.sweeps _
                  (All-both (IsSearched t.windows) (λ (s : Sweep). s.id < t.next_sweep)
                    (IsSearched (t.windows ++ ws))
                    (λ s k l. IsSearched-append t.windows ws s k (
                      ground (
                        arith,
                        series-open_in (suc (now - r.1)) t.next_window t.next_sweep p.window now r.1
                            now s.id l,
                      )))
                    t.sweeps h w.sweeps_fresh)
                  (refl, tt))))

module _ (win : DiscoveryWindow) where
  fence-IsOpenIf : (ws : List Window) → All (IsOpenIf (fence_window win)) ws
  fence-IsOpenIf ws =
      everywhere (IsOpenIf (fence_window win)) ws
        (λ w f. running-done w.status (fenced-running win w f))

  -- The lease is on a window of its sweep that is not done.
  fenced-open_in :
      (ws : List Window)
      → All (AgreesWith win) ws
      → any (fence_window win) ws ≡ true
      → open_in win.sweep_id ws ≡ true
  fenced-open_in [] a f = ground (arith, f)
  fenced-open_in (w ∷ ws) a f = elim (Bool-cases (fence_window win w)) [
    | inl e ↦
        ground (arith, (a.0 (fenced-id win w e)).0, running-done w.status (fenced-running win w e))
    | inr e ↦ ground (arith, e, f, fenced-open_in ws a.1)
  ]

  written-IsSearched :
      (set : Window → Window) (t : Tables)
      → KeepsPlace set
      → All (IsSearched t.windows) t.sweeps
      → All
          (IsSearched (tables_after t (exec_window win set t)).windows)
          (tables_after t (exec_window win set t)).sweeps
  unfolding exec_window
  written-IsSearched set t k h =
      if_cases (λ x. All (IsSearched (tables_after t x).windows) (tables_after t x).sweeps)
        (any (fence_window win) t.windows)
        (window_written (record t { windows = update_windows (fence_window win) set t.windows }))
        window_lost
        (λ _.
          IsSearched-update (fence_window win) set k.keeps_sweep t.windows t.sweeps
            (fence-IsOpenIf t.windows) h)
        (λ _. h)

  split-IsSearched :
      (now mid : Time) (count : ℕ) (t : Tables)
      → All (AgreesWith win) t.windows
      → All (IsSearched t.windows) t.sweeps
      → All
          (IsSearched (tables_after t (split_window now win mid count t)).windows)
          (tables_after t (split_window now win mid count t)).sweeps
  unfolding split_window exec_window
  split-IsSearched now mid count t a h =
      let ws = update_windows (fence_window win) (set_split count) t.windows in
      let u = record t { windows = ws } in
      let halves =
        new_window t.next_window win.sweep_id now win.pushed_from mid
        ∷ new_window (suc t.next_window) win.sweep_id now mid win.pushed_to
        ∷ [] in
      if_cases
        (λ x.
          All (IsSearched (tables_after t (then_halves now win mid x)).windows)
            (tables_after t (then_halves now win mid x)).sweeps)
        (any (fence_window win) t.windows) (window_written u) window_lost
        (λ f.
          All-both (IsSearched t.windows) (IsSearched ws) (IsSearched (ws ++ halves))
            (λ s old k.
              IsSearched-append ws halves s k
                (halves_closed s now mid t old (fenced-open_in t.windows a f)))
            t.sweeps h
            (IsSearched-update (fence_window win) (set_split count) (λ w. refl) t.windows t.sweeps
              (fence-IsOpenIf t.windows) h))
        (λ _. h)
    where
      halves_closed :
          (s : Sweep) (now mid : Time) (t : Tables)
          → IsSearched t.windows s
          → open_in win.sweep_id t.windows ≡ true
          → IsSearched
              (new_window t.next_window win.sweep_id now win.pushed_from mid
                ∷ new_window (suc t.next_window) win.sweep_id now mid win.pushed_to
                ∷ [])
              s
      halves_closed s now mid t old waits = elim (Bool-cases (win.sweep_id == s.id)) [
        | inl e ↦
            let same : win.sweep_id ≡ s.id = ground (arith, e) in
            let live : open_in s.id t.windows ≡ true =
              sym (ap (λ i. open_in i t.windows) same) ∙ waits in
            ground (arith, old, live)
        | inr e ↦ ground (arith, e)
      ]

-- A sweep is closed as done when none of its windows is open or failed.
closed-open_in :
    (sweep : ℕ) (ws : List Window)
    → has_open sweep ws ≡ false
    → has_failed sweep ws ≡ false
    → open_in sweep ws ≡ false
closed-open_in sweep [] o f = refl
closed-open_in sweep (w ∷ ws) o f = ground (arith, o, f, closed-open_in sweep ws)

closed-IsSearched :
    (now : Time) (ws : List Window) (s : Sweep)
    → IsSearched ws s
    → IsSearched ws (close_sweep now ws s)
closed-IsSearched now ws s h = elim (Bool-cases (has_failed s.id ws)) [
  | inl f ↦ ground (arith, f, h)
  | inr f ↦ ground (arith, f, h, closed-open_in s.id ws)
]

IsSearched-map :
    (set : Sweep → Sweep) (ws : List Window) (ss : List Sweep)
    → ((s : Sweep) → IsSearched ws s → IsSearched ws (set s))
    → All (IsSearched ws) ss
    → All (IsSearched ws) (map set ss)
IsSearched-map set ws [] f h = tt
IsSearched-map set ws (s ∷ ss) f h = (f s h.0, IsSearched-map set ws ss f h.1)

abbrev IsWatched : Run → Type 0
IsWatched r = IsRun r × All (IsSearched r.tables.windows) r.tables.sweeps

IsSearched-step :
    {r s : Run} → IsWatched r → Step r s → All (IsSearched s.tables.windows) s.tables.sweeps
unfolding claim_windows reclaim_windows complete_sweeps retry_failed_sweep
IsSearched-step {r} h (starts now kind p) = started-IsSearched now kind p r.tables h.0.0 h.1
IsSearched-step {r} h (claims now limit owner lease_time locked) =
    let t = r.tables in
    let selected = select_windows now (pos_part limit) locked t in
    IsSearched-update (λ (w : Window). contains (map (λ (x : Window). x.id) selected) w.id)
      (lease_window owner (now + lease_time)) (λ w. refl) t.windows t.sweeps
      (selected-IsOpenIf now (pos_part limit) locked t h.0.0.distinct h.0.0.fresh) h.1
IsSearched-step {r} h (writes now win f) =
    written-IsSearched win (write_row now win f) r.tables (write_row-KeepsPlace now win f) h.1
IsSearched-step {r} h (splits now win mid min_span count m e) =
    split-IsSearched win now mid count r.tables (given-holds (IsHeld r.tables) m h.0.1).0 h.1
IsSearched-step {r} h (reclaims now) =
    IsSearched-update (λ (w : Window). is_running w.status && has_lapsed now w.lease_expires_at)
      (free_window pending) (λ w. refl) r.tables.windows r.tables.sweeps
      (everywhere _ r.tables.windows (λ w m. running-done w.status (ground (arith, m)))) h.1
IsSearched-step {r} h (completes now) =
    IsSearched-map (close_sweep now r.tables.windows) r.tables.windows r.tables.sweeps
      (closed-IsSearched now r.tables.windows) h.1
IsSearched-step {r} h (retries now retry_after) =
    let t = r.tables in
    let reopened = keep (can_reopen now retry_after t.sweeps) t.sweeps in
    let set = λ (s : Sweep). if can_reopen now retry_after t.sweeps s then reopen s else s in
    IsSearched-update
      (λ (w : Window). any (λ (s : Sweep). s.id == w.sweep_id) reopened && is_failed w.status)
      (set_reopened now) (λ w. refl) t.windows (map set t.sweeps)
      (everywhere _ t.windows (λ w m. failed-done w.status (ground (arith, m))))
      (IsSearched-map set t.windows t.sweeps
        (λ s k.
          if_cases (IsSearched t.windows) (can_reopen now retry_after t.sweeps s) (reopen s) s
            (λ _. refl) (λ _. k))
        h.1)

Reach-IsWatched : {r s : Run} → IsWatched r → Reach r s → IsWatched s
Reach-IsWatched h Reach.here = h
Reach-IsWatched h (Reach.next q st) =
    let w = Reach-IsWatched h q in (Step-IsRun w.0 st, IsSearched-step w st)

-- In every reachable run, a sweep that is done has no window that is not done.
pub Reach-IsSearched :
    {s : Run} (sweep window : ℕ)
    → Reach (empty_run sweep window) s
    → All
        (λ (x : Sweep). (is_done x.status && open_in x.id s.tables.windows) ≡ false)
        s.tables.sweeps
Reach-IsSearched sweep window q = (Reach-IsWatched (empty_run-IsRun sweep window, tt) q).1
