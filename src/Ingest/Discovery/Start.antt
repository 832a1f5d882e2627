-- ===== src/Ingest/Discovery/Start.antt =====
-- A started sweep's windows tile its range (backend/internal/ingest/discovery.go).
use skill_issues.Prelude.{
  ℕ, zero, suc, ◌+◌, ◌-◌, ◌*◌, ◌≤◌, ◌<◌, ◌≡◌, refl, sym, ap, ◌∙◌, subst, min, true, false, not,
  none, List, [], ◌∷◌, ◌++◌, ltb, leb, ◌==◌, AreDistinct, All, All-append, All-map, All-both, arith,
  Bool-cases, inl, inr, if_cases,
}
use skill_issues.Prelude.Time.{Time, day_ns}
use skill_issues.Ingest.Queue.{running}
use skill_issues.Ingest.Discovery.{
  Sweep, SweepKind, SweepParams, sweep_range, watermark, any_running, Window, Tables, Started,
  started, bad_window, empty_range, sweep_running, start_sweep, new_window, series, count_windows,
}
use skill_issues.Ingest.Discovery.Tiling.{
  IsSwept, IsTiled, IsPlaced, leaf, leaf_count, window_ids, spans, one_if,
}
use skill_issues.Ingest.Discovery.Split.{
  absent-above, leaf_count-append, distinct-append, window_ids-append,
}

spans-cut :
    (from mid to t : ℕ)
    → from ≤ mid
    → mid ≤ to
    → one_if (spans from mid t) + one_if (spans mid to t) ≡ one_if (spans from to t)
spans-cut from mid to t h k = ground (arith, h, k)

spans-none : (from to t : ℕ) → to ≤ from → one_if (spans from to t) ≡ 0
spans-none from to t h = ground (arith, h)

min_first : (a b : ℕ) → leb a b ≡ true → a ≡ min a b
min_first a b e = ground (arith, e)

min_second : (a b : ℕ) → leb a b ≡ false → b ≡ min a b
min_second a b e = ground (arith, e)

-- A step that leaves the range leaves nothing of it.
spans-step :
    (from step to t : ℕ)
    → from < to
    → one_if (spans from (min (from + step) to) t) + one_if (spans (from + step) to t)
      ≡ one_if (spans from to t)
spans-step from step to t h = elim (Bool-cases (leb (from + step) to)) [
  | inl e ↦
      subst
        (λ m.
          one_if (spans from m t) + one_if (spans (from + step) to t) ≡ one_if (spans from to t))
        (min_first (from + step) to e)
        (spans-cut from (from + step) to t (omega arith) (ground (arith, e)))
  | inr e ↦
      subst
        (λ m.
          one_if (spans from m t) + one_if (spans (from + step) to t) ≡ one_if (spans from to t))
        (min_second (from + step) to e)
        (omega (arith, spans-none (from + step) to t (ground (arith, e))))
]

new_window-leaf :
    (id sweep now from to : ℕ) (t : Time)
    → leaf sweep t (new_window id sweep now from to) ≡ one_if (spans from to t)
new_window-leaf id sweep now from to t = ground arith

-- With fuel for every step, a series of windows holds each moment of its range once.
series-leaf :
    (fuel id sweep step now from to : ℕ) (t : Time)
    → 0 < step
    → to < from + fuel
    → leaf_count sweep t (series fuel id sweep step now from to) ≡ one_if (spans from to t)
series-leaf zero id sweep step now from to t p f = sym (spans-none from to t (omega (arith, f)))
series-leaf (suc fuel) id sweep step now from to t p f =
    let rest = series fuel (suc id) sweep step now (from + step) to in
    let m = min (from + step) to in
    if_cases (λ ws. leaf_count sweep t ws ≡ one_if (spans from to t)) (ltb from to)
      (new_window id sweep now from m ∷ rest) []
      (λ e. omega (
        arith,
        new_window-leaf id sweep now from m t,
        series-leaf fuel (suc id) sweep step now (from + step) to t p (omega (arith, f, p)),
        spans-step from step to t (ground (arith, e)),
      ))
      (λ e. sym (spans-none from to t (ground (arith, e))))

series-other :
    (fuel id sweep step now from to other : ℕ) (t : Time)
    → other < sweep
    → leaf_count other t (series fuel id sweep step now from to) ≡ 0
series-other zero id sweep step now from to other t h = refl
series-other (suc fuel) id sweep step now from to other t h =
    let rest = series-other fuel (suc id) sweep step now (from + step) to other t h in
    ground (arith, rest, h)

series-IsPlaced :
    (fuel id sweep step now from to n : ℕ)
    → sweep < n
    → All (IsPlaced n) (series fuel id sweep step now from to)
series-IsPlaced zero id sweep step now from to n h = tt
series-IsPlaced (suc fuel) id sweep step now from to n h =
    if_cases (All (IsPlaced n)) (ltb from to)
      (new_window id sweep now from (min (from + step) to)
        ∷ series fuel (suc id) sweep step now (from + step) to)
      [] (λ _. ((h, λ e. e), series-IsPlaced fuel (suc id) sweep step now (from + step) to n h))
      (λ _. tt)

-- The ids of a series run from its first, as many as it has windows.
abbrev ids_from : ℕ → ℕ → List ℕ
ids_from id zero = []
ids_from id (suc n) = id ∷ ids_from (suc id) n

series-ids :
    (fuel id sweep step now from to : ℕ)
    → window_ids (series fuel id sweep step now from to)
      ≡ ids_from id (count_windows (series fuel id sweep step now from to))
series-ids zero id sweep step now from to = refl
series-ids (suc fuel) id sweep step now from to =
    if_cases (λ ws. window_ids ws ≡ ids_from id (count_windows ws)) (ltb from to)
      (new_window id sweep now from (min (from + step) to)
        ∷ series fuel (suc id) sweep step now (from + step) to)
      [] (λ _. ap (λ l. id ∷ l) (series-ids fuel (suc id) sweep step now (from + step) to))
      (λ _. refl)

ids_from-above : (k id n : ℕ) → k ≤ id → All (λ i. k ≤ i) (ids_from id n)
ids_from-above k id zero h = tt
ids_from-above k id (suc n) h = (h, ids_from-above k (suc id) n (omega (arith, h)))

ids_from-below : (id n : ℕ) → All (λ i. i < id + n) (ids_from id n)
ids_from-below id zero = tt
ids_from-below id (suc n) = (
  omega arith,
  All-map (λ i. i < suc id + n) (λ i. i < id + suc n) (λ i p. omega (arith, p))
      (ids_from (suc id) n) (ids_from-below (suc id) n),
)

pub series-above :
    (fuel id sweep step now from to : ℕ)
    → All (λ i. id ≤ i) (window_ids (series fuel id sweep step now from to))
series-above fuel id sweep step now from to =
    let ws = series fuel id sweep step now from to in
    subst (All (λ i. id ≤ i)) (sym (series-ids fuel id sweep step now from to))
      (ids_from-above id id (count_windows ws) (omega arith))

ids_from-distinct : (id n : ℕ) → AreDistinct (ids_from id n)
ids_from-distinct id zero = tt
ids_from-distinct id (suc n) = (
  absent-above (suc id) id (ids_from (suc id) n) (omega arith)
      (ids_from-above (suc id) (suc id) n (omega arith)),
  ids_from-distinct (suc id) n,
)

-- No window is of a sweep that is still to come.
fresh-leaf : (n : ℕ) (t : Time) (ws : List Window) → All (IsPlaced n) ws → leaf_count n t ws ≡ 0
fresh-leaf n t [] h = refl
fresh-leaf n t (w ∷ ws) h = ground (arith, h.0.0, fresh-leaf n t ws h.1)

module _ (now : Time) (started_kind : SweepKind) (from : Time) (p : SweepParams) (t : Tables) where
  -- The tables with a sweep of [`from`, `now`) begun.
  begun : Tables
  begun =
      let windows = series (suc (now - from)) t.next_window t.next_sweep p.window now from now in
      record {
        sweeps =
            t.sweeps
            ++ (record {
              id = t.next_sweep;
              kind = started_kind;
              pushed_from = from;
              pushed_to = now;
              min_stars = p.sweep_stars;
              status = running;
              started_at = now;
              completed_at = none;
            }
                ∷ []);
        windows = t.windows ++ windows;
        next_sweep = suc t.next_sweep;
        next_window = t.next_window + count_windows windows;
      }

  begun-IsSwept : 0 < p.window → from < now → IsSwept t → IsSwept begun
  unfolding begun
  begun-IsSwept st f h =
      let ws = series (suc (now - from)) t.next_window t.next_sweep p.window now from now in
      let n = t.next_window in
      let c = count_windows ws in
      let all =
        window_ids-append t.windows ws
        ∙ ap (λ l. window_ids t.windows ++ l)
            (series-ids (suc (now - from)) n t.next_sweep p.window now from now) in
      record {
        fresh = subst (All (λ i. i < n + c)) (sym all) (
            All-append (λ i. i < n + c) (window_ids t.windows) (ids_from n c)
              (All-map (λ i. i < n) (λ i. i < n + c) (λ i l. omega (arith, l))
                (window_ids t.windows) h.fresh)
              (ids_from-below n c));
        distinct = subst AreDistinct (sym all) (
            distinct-append n (window_ids t.windows) (ids_from n c) h.distinct
              (ids_from-distinct n c) h.fresh (ids_from-above n n c (omega arith)));
        placed =
            All-append (IsPlaced (suc t.next_sweep)) t.windows ws
              (All-map (IsPlaced t.next_sweep) (IsPlaced (suc t.next_sweep))
                (λ w k. (omega (arith, k.0), k.1)) t.windows h.placed)
              (series-IsPlaced (suc (now - from)) n t.next_sweep p.window now from now
                (suc t.next_sweep) (omega arith));
        sweeps_fresh =
            All-append (λ (s : Sweep). s.id < suc t.next_sweep) t.sweeps _
              (All-map (λ (s : Sweep). s.id < t.next_sweep) (λ (s : Sweep). s.id < suc t.next_sweep)
                (λ s l. omega (arith, l)) t.sweeps h.sweeps_fresh)
              (omega arith, tt);
        tiled =
            All-append (IsTiled (t.windows ++ ws)) t.sweeps _
              (All-both (IsTiled t.windows) (λ (s : Sweep). s.id < t.next_sweep)
                (IsTiled (t.windows ++ ws))
                (λ s k l m.
                  leaf_count-append s.id m t.windows ws
                  ∙ omega (
                    arith,
                    k m,
                    series-other (suc (now - from)) n t.next_sweep p.window now from now s.id m l,
                  ))
                t.sweeps h.tiled h.sweeps_fresh)
              (
                (λ m.
                    leaf_count-append t.next_sweep m t.windows ws
                    ∙ omega (
                      arith,
                      fresh-leaf t.next_sweep m t.windows h.placed,
                      series-leaf (suc (now - from)) n t.next_sweep p.window now from now m st
                          (omega (arith, f)),
                    )),
                tt,
              );
      }

-- The tables after `StartSweep`: a refusal leaves them.
abbrev pub tables_started : Tables → Started → Tables
tables_started t (started u) = u
tables_started t bad_window = t
tables_started t empty_range = t
tables_started t sweep_running = t

pub start_sweep-IsSwept :
    (now : Time) (kind : SweepKind) (p : SweepParams) (t : Tables)
    → IsSwept t
    → IsSwept (tables_started t (start_sweep now kind p t))
unfolding start_sweep begun
start_sweep-IsSwept now kind p t h =
    let r = sweep_range kind (watermark t.sweeps) (now - p.pushed_within_days * day_ns) in
    let after = λ (x : Started). IsSwept (tables_started t x) in
    if_cases after (p.window == 0) _ _ (λ _. h)
      (λ w.
        if_cases after (not (ltb r.1 now)) _ _ (λ _. h)
          (λ f.
            if_cases after (any_running t.sweeps) _ _ (λ _. h)
              (λ _. begun-IsSwept now r.0 r.1 p t (ground (arith, w)) (ground (arith, f)) h)))
