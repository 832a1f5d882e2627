-- ===== src/Ingest/Budget/Telemetry.antt =====
-- The lanes read one counter (backend/internal/ingest/budget.go): what one lane's response reported
-- stops the others too.
use skill_issues.Prelude.{
  ℕ, ◌≤◌, ◌<◌, min, max, ◌≡◌, refl, ap, subst, sym, ==_refl, Bool, true, false, Option, none, some,
  ◌↔◌, List, arith, leb, leb→le, le→leb, if_cases, Bool-cases, inl, inr,
}
use skill_issues.Prelude.Text.{Text}
use skill_issues.Prelude.Time.{Time}
use skill_issues.Ingest.Budget.Upserts.{
  of_identity, upsert_cases, covers, covers-max_left, covers-max_right,
}
use skill_issues.Ingest.Budget.{
  Lane, crawler, interactive, Row, RateLimit, has_key, upsert, empty_row, set_telemetry,
  update_budget, max_of, min_of, if_some, latest, same_value, min_remaining, max_limit,
  max_secondary, is_before, lane_floor, decide, can_proceed,
}

-- No later than `t`, or NULL.
abbrev pub at_most : ℕ → Option ℕ → Bool
at_most t none = true
at_most t (some m) = leb m t

at_most-max_of :
    (t : ℕ) (a b : Option ℕ)
    → (at_most t (max_of a b) ≡ true) ↔ ((at_most t a ≡ true) × (at_most t b ≡ true))
at_most-max_of t none b = ((λ h. (refl, h)), (λ h. h.1))
at_most-max_of t (some a) none = ((λ h. (h, refl)), (λ h. h.0))
at_most-max_of t (some a) (some b) = (
  (λ h. (
    le→leb a t (omega (arith, leb→le (max a b) t h)),
    le→leb b t (omega (arith, leb→le (max a b) t h)),
  )),
  (λ h. le→leb (max a b) t (omega (arith, leb→le a t h.0, leb→le b t h.1))),
)

exactly : (t : ℕ) (o : Option ℕ) → covers t o ≡ true → at_most t o ≡ true → o ≡ some t
exactly t none c h = ground (arith, c)
exactly t (some m) c h = ap some (omega (arith, leb→le t m c, leb→le m t h))

-- A value that is there and at most `n`.
abbrev below : ℕ → Option ℕ → Bool
below n none = false
below n (some m) = leb m n

below-min_left : (n : ℕ) (b : Option ℕ) → below n (min_of (some n) b) ≡ true
below-min_left n none = le→leb n n (omega arith)
below-min_left n (some m) = le→leb (min n m) n (omega arith)

below-min_right : (n : ℕ) (a b : Option ℕ) → below n b ≡ true → below n (min_of a b) ≡ true
below-min_right n none b h = h
below-min_right n (some a) (some m) h = le→leb (min a m) n (omega (arith, leb→le m n h))
below-min_right n (some a) none h = ground (arith, h)

lane_floor_ge :
    (lane : Lane) (limit : Option ℕ) (floor percent : ℕ)
    → floor ≤ lane_floor lane limit floor percent
lane_floor_ge crawler (some l) floor percent = omega arith
lane_floor_ge crawler none floor percent = omega arith
lane_floor_ge interactive limit floor percent = omega arith

stopped_at :
    (now t floor percent : ℕ) (lane : Lane) (remaining limit secondary : Option ℕ) (n : ℕ)
    → now < t
    → n < floor
    → below n remaining ≡ true
    → decide now lane floor percent remaining limit (some t) secondary ≡ false
stopped_at now t floor percent lane none limit secondary n early low h = ground (arith, h)
stopped_at now t floor percent lane (some m) limit secondary n early low h =
    elim (Bool-cases (is_before now secondary)) [
      | inl paused ↦ rw paused
      | inr going ↦ rw going (ground (arith, lane_floor_ge lane limit floor percent, leb→le m n h))
    ]

-- What a response reports of the newest window, whichever lane it came on.
module _ (rl : RateLimit) (t : Time) (window : rl.resets ≡ some t) where
  abbrev telemetry : Lane → Text → List Row → List Row
  telemetry lane identity =
      upsert (has_key lane identity) (set_telemetry rl) (set_telemetry rl (empty_row lane identity))

  covers-latest :
      (lane : Lane) (identity : Text) (rows : List Row)
      → covers t (latest (of_identity identity (telemetry lane identity rows))) ≡ true
  covers-latest lane identity =
      upsert_cases (λ xs ys. covers t (latest ys) ≡ true) lane identity (set_telemetry rl)
        (λ r. refl) (λ r rs. rw window (covers-max_left t (latest rs)))
        (rw window (covers-max_left t none))
        (λ r xs ys h. covers-max_right t (if_some r.remaining r.reset_at) (latest ys) h)

  at_most-latest :
      (lane : Lane) (identity : Text) (rows : List Row)
      → at_most t (latest (of_identity identity rows)) ≡ true
      → at_most t (latest (of_identity identity (telemetry lane identity rows))) ≡ true
  at_most-latest lane identity =
      upsert_cases (λ xs ys. at_most t (latest xs) ≡ true → at_most t (latest ys) ≡ true) lane
        identity (set_telemetry rl) (λ r. refl)
        (λ r rs h. rw window (
          (at_most-max_of t (some t) (latest rs)).1 (
            le→leb t t (omega arith),
            ((at_most-max_of t (if_some r.remaining r.reset_at) (latest rs)).0 h).1,
          )))
        (λ h. rw window (le→leb t t (omega arith)))
        (λ r xs ys ih h.
          let parts = (at_most-max_of t (if_some r.remaining r.reset_at) (latest xs)).0 h in
          (at_most-max_of t (if_some r.remaining r.reset_at) (latest ys)).1 (parts.0, ih parts.1))

  below-min_remaining :
      (lane : Lane) (identity : Text) (rows : List Row)
      → below rl.left (min_remaining (some t) (of_identity identity (telemetry lane identity rows)))
        ≡ true
  below-min_remaining lane identity =
      upsert_cases (λ xs ys. below rl.left (min_remaining (some t) ys) ≡ true) lane identity
        (set_telemetry rl) (λ r. refl)
        (λ r rs. rw (window, ==_refl t) (below-min_left rl.left (min_remaining (some t) rs)))
        (rw (window, ==_refl t) (below-min_left rl.left none))
        (λ r xs ys ih.
          if_cases (λ o. below rl.left o ≡ true) (same_value r.reset_at (some t))
            (min_of r.remaining (min_remaining (some t) ys)) (min_remaining (some t) ys)
            (λ same. below-min_right rl.left r.remaining (min_remaining (some t) ys) ih)
            (λ other. ih))

-- On the rows as one update leaves them: when the response on any lane reported fewer points left than
-- the floor, in a window that has not reset yet and that no row's window was later than, no lane
-- of that identity may proceed at that floor.
pub can_proceed-update_budget :
    (now t : Time) (reporting lane : Lane) (identity : Text) (floor percent : ℕ) (rl : RateLimit)
    (rows : List Row)
    → rl.resets ≡ some t
    → at_most t (latest (of_identity identity rows)) ≡ true
    → now < t
    → rl.left < floor
    → can_proceed now lane identity floor percent (update_budget reporting identity rl rows) ≡ false
unfolding can_proceed update_budget
can_proceed-update_budget now t reporting lane identity floor percent rl rows window newest early
      low =
    let budget = of_identity identity (update_budget reporting identity rl rows) in
    let is_window =
      exactly t (latest budget) (covers-latest rl t window reporting identity rows)
        (at_most-latest rl t window reporting identity rows newest) in
    subst
      (λ w.
        decide now lane floor percent (min_remaining w budget) (max_limit w budget) w
          (max_secondary budget)
        ≡ false)
      (sym is_window)
      (stopped_at now t floor percent lane (min_remaining (some t) budget)
        (max_limit (some t) budget) (max_secondary budget) rl.left early low
        (below-min_remaining rl t window reporting identity rows))
