-- ===== src/Ingest/Budget/Lanes.antt =====
-- What the lanes of one budget owe to one another (backend/internal/ingest/budget.go).
use skill_issues.Prelude.{
  ℕ, ◌+◌, ◌*◌, ◌/◌, ◌≤◌, ◌<◌, ◌≡◌, refl, Bool, true, false, Option, none, some, List, arith, leb,
  leb→le, le→leb, lt→ltb, if◌then◌else◌,
}
use skill_issues.Prelude.Text.{Text}
use skill_issues.Prelude.Time.{Time}
use skill_issues.Ingest.Budget.Upserts.{
  of_identity, upsert_cases, covers, covers-max_left, covers-max_right,
}
use skill_issues.Ingest.Budget.{
  Lane, crawler, interactive, Row, has_key, upsert, empty_row, set_pause, mark_secondary_limit,
  latest, min_remaining, max_limit, max_secondary, is_before, is_past, decide, can_proceed,
}

gate_mono :
    (paused past : Bool) (low high remaining : ℕ)
    → low ≤ high
    → (if paused then false else if past then true else leb high remaining) ≡ true
    → (if paused then false else if past then true else leb low remaining) ≡ true
gate_mono true past low high remaining le h = h
gate_mono false true low high remaining le h = h
gate_mono false false low high remaining le h =
    le→leb low remaining (omega (arith, le, leb→le high remaining h))

decide_mono :
    (now : Time) (low high percent : ℕ) (remaining limit : Option ℕ)
    (reset_at secondary : Option Time)
    → low ≤ high
    → decide now crawler high percent remaining limit reset_at secondary ≡ true
    → decide now interactive low percent remaining limit reset_at secondary ≡ true
decide_mono now low high percent none limit reset_at secondary le h = h
decide_mono now low high percent (some r) none reset_at secondary le h =
    gate_mono (is_before now secondary) (is_past now reset_at) low high r le h
decide_mono now low high percent (some r) (some l) reset_at secondary le h =
    gate_mono (is_before now secondary) (is_past now reset_at) low (high + l * percent / 100) r
      (omega (arith, le)) h

-- On the same rows at the same time, wherever the crawler may proceed at some floor, interactive work
-- with that floor or a lower one may proceed too.
pub can_proceed-crawler :
    (now : Time) (identity : Text) (low high percent : ℕ) (rows : List Row)
    → low ≤ high
    → can_proceed now crawler identity high percent rows ≡ true
    → can_proceed now interactive identity low percent rows ≡ true
unfolding can_proceed
can_proceed-crawler now identity low high percent rows le h =
    let budget = of_identity identity rows in
    let window = latest budget in
    decide_mono now low high percent (min_remaining window budget) (max_limit window budget) window
      (max_secondary budget) le h

covers-mark :
    (lane : Lane) (identity : Text) (t : Time) (rows : List Row)
    → covers t (
        max_secondary (
          of_identity identity (
            upsert
              (has_key lane identity)
              (set_pause t)
              (set_pause t (empty_row lane identity))
              rows)))
      ≡ true
covers-mark lane identity t =
    upsert_cases (λ xs ys. covers t (max_secondary ys) ≡ true) lane identity (set_pause t)
      (λ r. refl) (λ r rs. covers-max_left t (max_secondary rs)) (covers-max_left t none)
      (λ r xs ys h. covers-max_right t r.secondary_until (max_secondary ys) h)

blocked :
    (now t : Time) (lane : Lane) (floor percent : ℕ) (remaining limit : Option ℕ)
    (window secondary : Option Time)
    → now < t
    → covers t secondary ≡ true
    → decide now lane floor percent remaining limit window secondary ≡ false
blocked now t lane floor percent none limit window (some m) lt h =
    rw (lt→ltb now m (omega (arith, lt, leb→le t m h)))
blocked now t lane floor percent (some r) limit window (some m) lt h =
    rw (lt→ltb now m (omega (arith, lt, leb→le t m h)))
blocked now t lane floor percent none limit window none lt h = cc
blocked now t lane floor percent (some r) limit window none lt h = cc

-- On the rows as one mark of a secondary limit leaves them, and at any time before the one marked, no
-- lane of that identity may proceed, whatever the point budget is and whatever the rows held.
pub can_proceed-mark_secondary_limit :
    (now until_at : Time) (marked lane : Lane) (identity : Text) (floor percent : ℕ)
    (rows : List Row)
    → now < until_at
    → can_proceed now lane identity floor percent
        (mark_secondary_limit marked identity until_at rows)
      ≡ false
unfolding can_proceed mark_secondary_limit
can_proceed-mark_secondary_limit now until_at marked lane identity floor percent rows lt =
    let after = mark_secondary_limit marked identity until_at rows in
    let budget = of_identity identity after in
    let window = latest budget in
    blocked now until_at lane floor percent (min_remaining window budget) (max_limit window budget)
      window (max_secondary budget) lt (covers-mark marked identity until_at rows)
