-- ===== src/Ingest/Discovery/Held.antt =====
-- What a worker holds of its discovery window stays so (backend/internal/ingest/discovery.go).
use skill_issues.Prelude.{
  ℕ, ◌≤◌, ◌<◌, ◌≡◌, refl, sym, ap, ◌∙◌, Bool, true, false, not, ◌&&◌, List, [], ◌∷◌, map, ◌==◌,
  keep, contains, AreDistinct, All, All-map, All-both, All-take, All-keep, All-keep_test, arith,
  Bool-cases, inl, inr, if_cases,
}
use skill_issues.Prelude.Sort.{sort_stable, All-sort_stable}
use skill_issues.Prelude.Time.{Time}
use skill_issues.Ingest.Queue.{Status, pending, running, done, failed, is_pending, is_due}
use skill_issues.Ingest.Discovery.{is_done, Window, Tables, update_windows}
use skill_issues.Ingest.Discovery.Windows.{
  DiscoveryWindow, window_of, window_before, select_windows, sweep_runs,
}
use skill_issues.Ingest.Discovery.Tiling.{IsOpenIf, AgreesWith, window_ids}

-- The worker's copy of a window agrees with the table, and its id has been given out.
abbrev pub IsHeld : Tables → DiscoveryWindow → Type 0
IsHeld t win = All (AgreesWith win) t.windows × (win.id < t.next_window)

module _ (matches : Window → Bool) (set : Window → Window)
    (same_id : (w : Window) → (set w).id ≡ w.id)
    (same_sweep : (w : Window) → (set w).sweep_id ≡ w.sweep_id)
    (same_from : (w : Window) → (set w).pushed_from ≡ w.pushed_from)
    (same_to : (w : Window) → (set w).pushed_to ≡ w.pushed_to) where
  pub AgreesWith-update :
      (win : DiscoveryWindow) (ws : List Window)
      → All (AgreesWith win) ws
      → All (AgreesWith win) (update_windows matches set ws)
  AgreesWith-update win [] h = tt
  AgreesWith-update win (w ∷ ws) h = (
    if_cases (AgreesWith win) (matches w) (set w) w
        (λ _ e.
          let a = h.0 (sym (same_id w) ∙ e) in
          (same_sweep w ∙ a.0, (same_from w ∙ a.1.0, same_to w ∙ a.1.1)))
        (λ _. h.0),
    AgreesWith-update win ws h.1,
  )

-- A window of another id agrees with anything.
pub AgreesWith-other :
    (win : DiscoveryWindow) (n : ℕ) (ws : List Window)
    → win.id < n
    → All (λ i. n ≤ i) (window_ids ws)
    → All (AgreesWith win) ws
AgreesWith-other win n [] l h = tt
AgreesWith-other win n (w ∷ ws) l h =
    ((λ e. omega (arith, l, h.0, e)), AgreesWith-other win n ws l h.1)

-- A row that has the id of `x` is `x`.
abbrev IsTheOne : Window → Window → Type 0
IsTheOne x w = w.id ≡ x.id → w ≡ x

one-absent :
    (x : Window) (ws : List Window) → contains (window_ids ws) x.id ≡ false → All (IsTheOne x) ws
one-absent x [] h = tt
one-absent x (w ∷ ws) h = ((λ e. ground (arith, e, h)), one-absent x ws (ground (arith, h)))

present-differs :
    (i : ℕ) (ws : List Window)
    → contains (window_ids ws) i ≡ false
    → All (λ (w : Window). (w.id == i) ≡ false) ws
present-differs i [] h = tt
present-differs i (w ∷ ws) h = (ground (arith, h), present-differs i ws (ground (arith, h)))

own-rows : (ws : List Window) → AreDistinct (window_ids ws) → All (λ x. All (IsTheOne x) ws) ws
own-rows [] d = tt
own-rows (w ∷ ws) d = (
  ((λ _. refl), one-absent w ws d.0),
  All-both (λ x. All (IsTheOne x) ws) (λ (x : Window). (x.id == w.id) ≡ false)
      (λ x. All (IsTheOne x) (w ∷ ws)) (λ x a n. ((λ e. ground (arith, n, e)), a)) ws
      (own-rows ws d.1) (present-differs w.id ws d.0),
)

pub pending-done : (s : Status) → is_pending s ≡ true → is_done s ≡ false
pending-done pending f = refl
pending-done running f = refl
pending-done failed f = refl
pending-done done f = ground (arith, f)

-- What a claim takes: a pending row, and the only one of its id.
abbrev pub IsTaken : Tables → Window → Type 0
IsTaken t x = (is_pending x.status ≡ true) × (All (IsTheOne x) t.windows × (x.id < t.next_window))

taken-IsOpenIf :
    (xs : List Window) (w : Window)
    → All (λ (x : Window). (is_pending x.status ≡ true) × IsTheOne x w) xs
    → IsOpenIf (λ (w : Window). contains (map (λ (x : Window). x.id) xs) w.id) w
taken-IsOpenIf [] w h m = ground (arith, m)
taken-IsOpenIf (x ∷ xs) w h m = elim (Bool-cases (x.id == w.id)) [
  | inl e ↦
      ap (λ (v : Window). is_done v.status) (h.0.1 (ground (arith, e)))
      ∙ pending-done x.status h.0.0
  | inr e ↦ taken-IsOpenIf xs w h.1 (ground (arith, m, e))
]

every-IsOpenIf :
    (xs ws : List Window)
    → All (λ (x : Window). (is_pending x.status ≡ true) × All (IsTheOne x) ws) xs
    → All (IsOpenIf (λ (w : Window). contains (map (λ (x : Window). x.id) xs) w.id)) ws
every-IsOpenIf xs [] h = tt
every-IsOpenIf xs (w ∷ ws) h = (
  taken-IsOpenIf xs w (
      All-map (λ (x : Window). (is_pending x.status ≡ true) × All (IsTheOne x) (w ∷ ws))
        (λ (x : Window). (is_pending x.status ≡ true) × IsTheOne x w) (λ x k. (k.0, k.1.0)) xs h),
  every-IsOpenIf xs ws (
      All-map (λ (x : Window). (is_pending x.status ≡ true) × All (IsTheOne x) (w ∷ ws))
        (λ (x : Window). (is_pending x.status ≡ true) × All (IsTheOne x) ws) (λ x k. (k.0, k.1.1))
        xs h),
)

own-below :
    (n : ℕ) (ws : List Window)
    → All (λ i. i < n) (window_ids ws)
    → All (λ (w : Window). w.id < n) ws
own-below n [] h = tt
own-below n (w ∷ ws) h = (h.0, own-below n ws h.1)

-- The row of a worker's copy agrees with it.
taken-AgreesWith :
    (owner : ℕ) (x : Window) (ws : List Window)
    → All (IsTheOne x) ws
    → All (AgreesWith (window_of owner x)) ws
taken-AgreesWith owner x ws h =
    All-map (IsTheOne x) (AgreesWith (window_of owner x))
      (λ w same e.
        let q = same e in
        (
          ap (λ (v : Window). v.sweep_id) q,
          (ap (λ (v : Window). v.pushed_from) q, ap (λ (v : Window). v.pushed_to) q),
        ))
      ws h

All-windows :
    (owner : ℕ) (P : DiscoveryWindow → Type 0) (ws : List Window)
    → All (λ w. P (window_of owner w)) ws
    → All P (map (window_of owner) ws)
All-windows owner P [] h = tt
All-windows owner P (w ∷ ws) h = (h.0, All-windows owner P ws h.1)

module _ (now : Time) (limit : ℕ) (locked : Window → Bool) (t : Tables) where
  selected-IsTaken :
      AreDistinct (window_ids t.windows)
      → All (λ i. i < t.next_window) (window_ids t.windows)
      → All (IsTaken t) (select_windows now limit locked t)
  unfolding select_windows
  selected-IsTaken d f =
      let takes = λ (w : Window).
        is_pending w.status
        && (is_due now w.next_retry_at && (sweep_runs t.sweeps w.sweep_id && not (locked w))) in
      let Alone = λ (w : Window). All (IsTheOne w) t.windows × (w.id < t.next_window) in
      All-take (IsTaken t) limit (sort_stable window_before (keep takes t.windows)) (
        All-sort_stable window_before (IsTaken t) (keep takes t.windows) (
          All-both (λ w. takes w ≡ true) Alone (IsTaken t) (λ w m k. (ground (arith, m), k))
            (keep takes t.windows) (All-keep_test takes t.windows)
            (All-keep Alone takes t.windows (
              All-both (λ w. All (IsTheOne w) t.windows) (λ (w : Window). w.id < t.next_window)
                Alone (λ w a l. (a, l)) t.windows (own-rows t.windows d)
                (own-below t.next_window t.windows f)))))

  -- The windows that a claim hands out agree with the table.
  pub selected-IsHeld :
      (owner : ℕ)
      → AreDistinct (window_ids t.windows)
      → All (λ i. i < t.next_window) (window_ids t.windows)
      → All (IsHeld t) (map (window_of owner) (select_windows now limit locked t))
  selected-IsHeld owner d f = All-windows owner (IsHeld t) (select_windows now limit locked t) (
      All-map (IsTaken t) (λ w. IsHeld t (window_of owner w))
        (λ w k. (taken-AgreesWith owner w t.windows k.1.0, k.1.1))
        (select_windows now limit locked t) (selected-IsTaken d f))

  -- A claim matches no window that is done.
  pub selected-IsOpenIf :
      AreDistinct (window_ids t.windows)
      → All (λ i. i < t.next_window) (window_ids t.windows)
      → All
          (IsOpenIf (λ (w : Window).
            contains (map (λ (x : Window). x.id) (select_windows now limit locked t)) w.id))
          t.windows
  selected-IsOpenIf d f = every-IsOpenIf (select_windows now limit locked t) t.windows (
      All-map (IsTaken t)
        (λ (x : Window). (is_pending x.status ≡ true) × All (IsTheOne x) t.windows)
        (λ x k. (k.0, k.1.0)) (select_windows now limit locked t) (selected-IsTaken d f))
