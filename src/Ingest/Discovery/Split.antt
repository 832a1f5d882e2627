-- ===== src/Ingest/Discovery/Split.antt =====
-- A split of a discovery window keeps the tiling of its sweep (backend/internal/ingest/discovery.go).
use skill_issues.Prelude.{
  ℕ, suc, ◌+◌, ◌≤◌, ◌<◌, ◌≡◌, refl, sym, ap, ◌∙◌, subst, true, false, some, List, [], ◌∷◌, ◌++◌,
  if◌then◌else◌, any, contains, contains-append, AreDistinct, All, All-append, All-map, arith,
  Bool-cases, inl, inr, if_cases,
}
use skill_issues.Prelude.Time.{Time}
use skill_issues.Ingest.Discovery.{Window, Tables, new_window, update_windows}
use skill_issues.Ingest.Discovery.Windows.{
  DiscoveryWindow, window_written, window_lost, fence_window, exec_window, set_split, split_point,
  split_window, tables_after, then_halves, add_halves,
}
use skill_issues.Ingest.Discovery.Tiling.{
  IsSwept, IsTiled, IsPlaced, AgreesWith, leaf_count, range_leaf, window_ids, split_count,
  fenced-id,
}

split_point-inside :
    (win : DiscoveryWindow) (min_span mid : ℕ)
    → split_point win min_span ≡ some mid
    → (win.pushed_from < mid) × (mid < win.pushed_to)
unfolding split_point
split_point-inside win min_span mid h = (ground (arith, h), ground (arith, h))

pub leaf_count-append :
    (sweep : ℕ) (t : Time) (xs ys : List Window)
    → leaf_count sweep t (xs ++ ys) ≡ leaf_count sweep t xs + leaf_count sweep t ys
leaf_count-append sweep t [] ys = omega arith
leaf_count-append sweep t (x ∷ xs) ys = omega (arith, leaf_count-append sweep t xs ys)

module _ (now : Time) (win : DiscoveryWindow) (mid : Time) where
  halves-leaf :
      (sweep : ℕ) (t : Time) (id : ℕ)
      → win.pushed_from < mid
      → mid < win.pushed_to
      → leaf_count sweep t (
          new_window id win.sweep_id now win.pushed_from mid
          ∷ new_window (suc id) win.sweep_id now mid win.pushed_to
          ∷ [])
        ≡ range_leaf win sweep t
  halves-leaf sweep t id l r = ground arith

-- Ids below a bound and ids from it on are distinct together.
pub absent-above : (n x : ℕ) (ys : List ℕ) → x < n → All (λ y. n ≤ y) ys → contains ys x ≡ false
absent-above n x [] h k = refl
absent-above n x (y ∷ ys) h k = ground (arith, h, k.0, absent-above n x ys h k.1)

pub distinct-append :
    (n : ℕ) (xs ys : List ℕ)
    → AreDistinct xs
    → AreDistinct ys
    → All (λ x. x < n) xs
    → All (λ y. n ≤ y) ys
    → AreDistinct (xs ++ ys)
distinct-append n [] ys d e h k = e
distinct-append n (x ∷ xs) ys d e h k = (
  contains-append xs ys x ∙ ground (arith, d.0, absent-above n x ys h.0 k),
  distinct-append n xs ys d.1 e h.1 k,
)

pub window_ids-append :
    (xs ys : List Window) → window_ids (xs ++ ys) ≡ window_ids xs ++ window_ids ys
window_ids-append [] ys = refl
window_ids-append (x ∷ xs) ys = ap (λ l. x.id ∷ l) (window_ids-append xs ys)

module _ (win : DiscoveryWindow) (count : ℕ) where
  window_ids-split :
      (ws : List Window)
      → window_ids (update_windows (fence_window win) (set_split count) ws) ≡ window_ids ws
  window_ids-split [] = refl
  window_ids-split (w ∷ ws) = grind (arith, window_ids-split ws)

  IsPlaced-split :
      (n : ℕ) (ws : List Window)
      → All (IsPlaced n) ws
      → All (IsPlaced n) (update_windows (fence_window win) (set_split count) ws)
  IsPlaced-split n [] h = tt
  IsPlaced-split n (w ∷ ws) h = (
    if_cases (IsPlaced n) (fence_window win w) (set_split count w) w (λ _. (h.0.0, λ _. refl))
        (λ _. h.0),
    IsPlaced-split n ws h.1,
  )

  -- A lease on a window is on one of a sweep that the tables know.
  fenced-known :
      (n : ℕ) (ws : List Window)
      → All (IsPlaced n) ws
      → All (AgreesWith win) ws
      → any (fence_window win) ws ≡ true
      → win.sweep_id < n
  fenced-known n [] p a f = ground (arith, f)
  fenced-known n (w ∷ ws) p a f = elim (Bool-cases (fence_window win w)) [
    | inl e ↦ omega (arith, p.0.0, (a.0 (fenced-id win w e)).0)
    | inr e ↦ ground (arith, e, f, fenced-known n ws p.1 a.1)
  ]

module _ (now : Time) (win : DiscoveryWindow) (mid : Time) (count : ℕ) (t : Tables) where
  halved : Tables
  halved =
      add_halves now win mid
        (record t { windows = update_windows (fence_window win) (set_split count) t.windows })

  halved-leaf_count :
      IsSwept t
      → All (AgreesWith win) t.windows
      → any (fence_window win) t.windows ≡ true
      → win.pushed_from < mid
      → mid < win.pushed_to
      → (sweep : ℕ) (m : Time) → leaf_count sweep m halved.windows ≡ leaf_count sweep m t.windows
  unfolding halved
  halved-leaf_count h a f l r sweep m =
      let ws = update_windows (fence_window win) (set_split count) t.windows in
      leaf_count-append sweep m ws (
        new_window t.next_window win.sweep_id now win.pushed_from mid
        ∷ new_window (suc t.next_window) win.sweep_id now mid win.pushed_to
        ∷ [])
      ∙ (ap (λ k. leaf_count sweep m ws + k) (halves-leaf now win mid sweep m t.next_window l r)
          ∙ split_count win count t.next_sweep sweep m t.windows h.distinct h.placed a f)

  halved-IsSwept :
      IsSwept t
      → All (AgreesWith win) t.windows
      → any (fence_window win) t.windows ≡ true
      → win.pushed_from < mid
      → mid < win.pushed_to
      → IsSwept halved
  unfolding halved
  halved-IsSwept h a f l r =
      let ws = update_windows (fence_window win) (set_split count) t.windows in
      let n = t.next_window in
      let halves =
        new_window n win.sweep_id now win.pushed_from mid
        ∷ new_window (suc n) win.sweep_id now mid win.pushed_to
        ∷ [] in
      let same = window_ids-split win count t.windows in
      let all = window_ids-append ws halves ∙ ap (λ l. l ++ (n ∷ suc n ∷ [])) same in
      let known = fenced-known win count t.next_sweep t.windows h.placed a f in
      record {
        fresh = subst (All (λ i. i < suc (suc n))) (sym all) (
            All-append (λ i. i < suc (suc n)) (window_ids t.windows) (n ∷ suc n ∷ [])
              (All-map (λ i. i < n) (λ i. i < suc (suc n)) (λ i p. omega (arith, p))
                (window_ids t.windows) h.fresh)
              (omega arith, (omega arith, tt)));
        distinct = subst AreDistinct (sym all) (
            distinct-append n (window_ids t.windows) (n ∷ suc n ∷ []) h.distinct
              (ground arith, (refl, tt)) h.fresh (omega arith, (omega arith, tt)));
        placed =
            All-append (IsPlaced t.next_sweep) ws halves
              (IsPlaced-split win count t.next_sweep t.windows h.placed)
              ((known, λ e. e), ((known, λ e. e), tt));
        sweeps_fresh = h.sweeps_fresh;
        tiled =
            All-map (IsTiled t.windows) (IsTiled (ws ++ halves))
              (λ s f' m. halved-leaf_count h a f l r s.id m ∙ f' m) t.sweeps h.tiled;
      }

  -- A split keeps the tables swept.
  pub split_window-IsSwept :
      (min_span : ℕ)
      → split_point win min_span ≡ some mid
      → IsSwept t
      → All (AgreesWith win) t.windows
      → IsSwept (tables_after t (split_window now win mid count t))
  unfolding split_window exec_window halved
  split_window-IsSwept min_span e h a =
      let inside = split_point-inside win min_span mid e in
      let w =
        window_written
          (record t { windows = update_windows (fence_window win) (set_split count) t.windows }) in
      elim (Bool-cases (any (fence_window win) t.windows)) [
        | inl f ↦
            subst
              (λ b.
                IsSwept (tables_after t (then_halves now win mid (if b then w else window_lost))))
              (sym f) (halved-IsSwept h a f inside.0 inside.1)
        | inr f ↦
            subst
              (λ b.
                IsSwept (tables_after t (then_halves now win mid (if b then w else window_lost))))
              (sym f) h
      ]
