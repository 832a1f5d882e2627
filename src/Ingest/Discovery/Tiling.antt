-- ===== src/Ingest/Discovery/Tiling.antt =====
-- A sweep's windows that are not split cover its range once (backend/internal/ingest/discovery.go).
use skill_issues.Prelude.{
  ℕ, ◌+◌, ◌<◌, ◌≡◌, refl, sym, ◌∙◌, subst, Bool, true, false, not, ◌&&◌, List, [], ◌∷◌, map, ltb,
  leb, ◌==◌, if◌then◌else◌, any, contains, AreDistinct, All, All-map, arith, Bool-cases, inl, inr,
  if_cases,
}
use skill_issues.Prelude.Time.{Time}
use skill_issues.Ingest.Queue.{Status, pending, running, done, failed, is_running}
use skill_issues.Ingest.Discovery.{Sweep, Window, Tables, is_done, update_windows}
use skill_issues.Ingest.Discovery.Windows.{DiscoveryWindow, fence_window, set_split}

abbrev pub spans : Time → Time → Time → Bool
spans from to t = leb from t && ltb t to

abbrev pub one_if : Bool → ℕ
one_if b = if b then 1 else 0

-- How many of a sweep's windows that are not split hold a moment.
abbrev pub leaf : ℕ → Time → Window → ℕ
leaf sweep t w =
    one_if ((w.sweep_id == sweep && not w.is_split) && spans w.pushed_from w.pushed_to t)

abbrev pub leaf_count : ℕ → Time → List Window → ℕ
leaf_count sweep t [] = 0
leaf_count sweep t (w ∷ ws) = leaf sweep t w + leaf_count sweep t ws

abbrev pub window_ids : List Window → List ℕ
window_ids ws = map (λ (w : Window). w.id) ws

abbrev pub IsTiled : List Window → Sweep → Type 0
IsTiled ws s = (t : Time) → leaf_count s.id t ws ≡ one_if (spans s.pushed_from s.pushed_to t)

abbrev pub IsPlaced : ℕ → Window → Type 0
IsPlaced next_sweep w = (w.sweep_id < next_sweep) × (w.is_split ≡ true → is_done w.status ≡ true)

pub record IsSwept (t : Tables) : Type 0 where
  pub fresh : All (λ i. i < t.next_window) (window_ids t.windows)
  pub distinct : AreDistinct (window_ids t.windows)
  pub placed : All (IsPlaced t.next_sweep) t.windows
  pub sweeps_fresh : All (λ (s : Sweep). s.id < t.next_sweep) t.sweeps
  pub tiled : All (IsTiled t.windows) t.sweeps

-- The columns of a window's place are as they were.
pub record KeepsPlace (set : Window → Window) : Type 0 where
  pub keeps_id : (w : Window) → (set w).id ≡ w.id
  pub keeps_sweep : (w : Window) → (set w).sweep_id ≡ w.sweep_id
  pub keeps_from : (w : Window) → (set w).pushed_from ≡ w.pushed_from
  pub keeps_to : (w : Window) → (set w).pushed_to ≡ w.pushed_to
  pub keeps_split : (w : Window) → (set w).is_split ≡ w.is_split

-- A window that matches is not done.
abbrev pub IsOpenIf : (Window → Bool) → Window → Type 0
IsOpenIf matches w = matches w ≡ true → is_done w.status ≡ false

pub everywhere : (P : Window → Type 0) (ws : List Window) → ((w : Window) → P w) → All P ws
everywhere P [] h = tt
everywhere P (w ∷ ws) h = (h w, everywhere P ws h)

module _ (matches : Window → Bool) (set : Window → Window) (p : KeepsPlace set) where
  window_ids-update :
      (ws : List Window) → window_ids (update_windows matches set ws) ≡ window_ids ws
  window_ids-update [] = refl
  window_ids-update (w ∷ ws) = grind (arith, p.keeps_id w, window_ids-update ws)

  leaf_count-update :
      (sweep : ℕ) (t : Time) (ws : List Window)
      → leaf_count sweep t (update_windows matches set ws) ≡ leaf_count sweep t ws
  leaf_count-update sweep t [] = refl
  leaf_count-update sweep t (w ∷ ws) = ground (
    arith,
    p.keeps_sweep w,
    p.keeps_from w,
    p.keeps_to w,
    p.keeps_split w,
    leaf_count-update sweep t ws,
  )

  IsPlaced-update :
      (n : ℕ) (ws : List Window)
      → All (IsOpenIf matches) ws
      → All (IsPlaced n) ws
      → All (IsPlaced n) (update_windows matches set ws)
  IsPlaced-update n [] o h = tt
  IsPlaced-update n (w ∷ ws) o h = (
    if_cases (IsPlaced n) (matches w) (set w) w
        (λ m. (
          omega (arith, h.0.0, p.keeps_sweep w),
          (λ s. ground (arith, s, p.keeps_split w, o.0 m, h.0.1)),
        ))
        (λ _. h.0),
    IsPlaced-update n ws o.1 h.1,
  )

  pub update-IsSwept :
      (t : Tables)
      → All (IsOpenIf matches) t.windows
      → IsSwept t
      → IsSwept (record t { windows = update_windows matches set t.windows })
  update-IsSwept t o h =
      let e = window_ids-update t.windows in
      record {
        fresh = subst (All (λ i. i < t.next_window)) (sym e) h.fresh;
        distinct = subst AreDistinct (sym e) h.distinct;
        placed = IsPlaced-update t.next_sweep t.windows o h.placed;
        sweeps_fresh = h.sweeps_fresh;
        tiled =
            All-map (IsTiled t.windows) (IsTiled (update_windows matches set t.windows))
              (λ s f m. leaf_count-update s.id m t.windows ∙ f m) t.sweeps h.tiled;
      }

  -- An update that matches no window that is done.
  pub open-IsSwept :
      (t : Tables)
      → ((w : Window) → IsOpenIf matches w)
      → IsSwept t
      → IsSwept (record t { windows = update_windows matches set t.windows })
  open-IsSwept t o h = update-IsSwept t (everywhere (IsOpenIf matches) t.windows o) h

-- What a worker knows of its window is so in the table.
abbrev pub AgreesWith : DiscoveryWindow → Window → Type 0
AgreesWith win w =
    w.id ≡ win.id
    → (w.sweep_id ≡ win.sweep_id)
      × ((w.pushed_from ≡ win.pushed_from) × (w.pushed_to ≡ win.pushed_to))

abbrev pub range_leaf : DiscoveryWindow → ℕ → Time → ℕ
range_leaf win sweep t = one_if (win.sweep_id == sweep && spans win.pushed_from win.pushed_to t)

pub running-done : (s : Status) → is_running s ≡ true → is_done s ≡ false
running-done pending r = ground (arith, r)
running-done running r = refl
running-done done r = ground (arith, r)
running-done failed r = refl

module _ (win : DiscoveryWindow) where
  pub fenced-id : (w : Window) → fence_window win w ≡ true → w.id ≡ win.id
  fenced-id w f = ground (arith, f)

  pub fenced-running : (w : Window) → fence_window win w ≡ true → is_running w.status ≡ true
  fenced-running w f = ground (arith, f)

  fenced-not_split :
      (n : ℕ) (w : Window) → IsPlaced n w → fence_window win w ≡ true → w.is_split ≡ false
  fenced-not_split n w p f =
      let d = running-done w.status (fenced-running w f) in
      elim (Bool-cases w.is_split) [ inl s ↦ ground (arith, d, s, p.1 s) | inr s ↦ s ]

  -- The row of the lease counts as the range that its worker knows.
  fenced-leaf :
      (n sweep : ℕ) (t : Time) (w : Window)
      → IsPlaced n w
      → AgreesWith win w
      → fence_window win w ≡ true
      → leaf sweep t w ≡ range_leaf win sweep t
  fenced-leaf n sweep t w p a f =
      let g = a (fenced-id w f) in ground (arith, g.0, g.1.0, g.1.1, fenced-not_split n w p f)

module _ (win : DiscoveryWindow) (count : ℕ) where
  unmatched :
      (sweep : ℕ) (t : Time) (ws : List Window)
      → contains (window_ids ws) win.id ≡ false
      → leaf_count sweep t (update_windows (fence_window win) (set_split count) ws)
        ≡ leaf_count sweep t ws
  unmatched sweep t [] h = refl
  unmatched sweep t (w ∷ ws) h = ground (arith, h, unmatched sweep t ws)

  -- The split takes the one row of the lease out of the count.
  pub split_count :
      (n sweep : ℕ) (t : Time) (ws : List Window)
      → AreDistinct (window_ids ws)
      → All (IsPlaced n) ws
      → All (AgreesWith win) ws
      → any (fence_window win) ws ≡ true
      → leaf_count sweep t (update_windows (fence_window win) (set_split count) ws)
          + range_leaf win sweep t
        ≡ leaf_count sweep t ws
  split_count n sweep t [] d p a f = ground (arith, f)
  split_count n sweep t (w ∷ ws) d p a f = elim (Bool-cases (fence_window win w)) [
    | inl e ↦ ground (
      arith,
      e,
      fenced-leaf win n sweep t w p.0 a.0 e,
      unmatched sweep t ws
          (subst (λ i. contains (window_ids ws) i ≡ false) (fenced-id win w e) d.0),
    )
    | inr e ↦ ground (arith, e, f, split_count n sweep t ws d.1 p.1 a.1)
  ]
