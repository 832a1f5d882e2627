-- ===== src/Ingest/Budget.antt =====
-- backend/internal/ingest/budget.go. The table `github_budget` is its rows; the statements are the
-- functions that they compute. NULL is `none`, and an aggregate ignores it. Points are natural
-- numbers, as GitHub sends them, and so are the floors and the percentage (their settings are
-- bounded below by 0).
pub mod Lanes
pub mod Telemetry
mod Upserts
use skill_issues.Prelude.{
  ℕ, ◌+◌, ◌*◌, ◌/◌, min, max, Bool, true, false, ◌&&◌, Option, none, some, List, [], ◌∷◌, ltb, leb,
  ◌==◌, if◌then◌else◌, keep,
}
use skill_issues.Prelude.Text.{Text, text_eq}
use skill_issues.Prelude.Time.{Time}

pub data Lane : Type 0 where
  crawler : Lane
  interactive : Lane

abbrev pub lane_eq : Lane → Lane → Bool
lane_eq crawler crawler = true
lane_eq interactive interactive = true
lane_eq crawler interactive = false
lane_eq interactive crawler = false

pub record Row : Type 0 where
  pub identity : Text
  pub lane : Lane
  pub rate_limit : Option ℕ
  pub remaining : Option ℕ
  pub reset_at : Option Time
  pub secondary_until : Option Time

-- What a GraphQL response reports; a zero reset time is `none`.
pub record RateLimit : Type 0 where
  pub limit : ℕ
  pub left : ℕ
  pub resets : Option Time

abbrev pub has_key : Lane → Text → Row → Bool
has_key lane identity r = text_eq r.identity identity && lane_eq r.lane lane

-- INSERT … ON CONFLICT (identity, lane) DO UPDATE.
abbrev pub upsert : (Row → Bool) → (Row → Row) → Row → List Row → List Row
upsert conflicts set new [] = new ∷ []
upsert conflicts set new (r ∷ rs) =
    if conflicts r then set r ∷ rs else r ∷ upsert conflicts set new rs

abbrev pub empty_row : Lane → Text → Row
empty_row lane identity = record {
  identity = identity;
  lane = lane;
  rate_limit = none;
  remaining = none;
  reset_at = none;
  secondary_until = none;
}

abbrev pub set_telemetry : RateLimit → Row → Row
set_telemetry rl r = record r {
  rate_limit = some rl.limit;
  remaining = some rl.left;
  reset_at = rl.resets;
}

unfoldable pub update_budget : Lane → Text → RateLimit → List Row → List Row
update_budget lane identity rl =
    upsert (has_key lane identity) (set_telemetry rl) (set_telemetry rl (empty_row lane identity))

abbrev pub set_pause : Time → Row → Row
set_pause until_at r = record r { secondary_until = some until_at }

unfoldable pub mark_secondary_limit : Lane → Text → Time → List Row → List Row
mark_secondary_limit lane identity until_at =
    upsert (has_key lane identity) (set_pause until_at)
      (set_pause until_at (empty_row lane identity))

-- max and min of two values, of which either may be NULL.
abbrev pub max_of : Option ℕ → Option ℕ → Option ℕ
max_of none b = b
max_of (some a) none = some a
max_of (some a) (some b) = some (max a b)

abbrev pub min_of : Option ℕ → Option ℕ → Option ℕ
min_of none b = b
min_of (some a) none = some a
min_of (some a) (some b) = some (min a b)

abbrev pub if_some : Option ℕ → Option ℕ → Option ℕ
if_some none b = none
if_some (some a) b = b

-- max(reset_at) where remaining is not null.
abbrev pub latest : List Row → Option Time
latest [] = none
latest (r ∷ rs) = max_of (if_some r.remaining r.reset_at) (latest rs)

-- IS NOT DISTINCT FROM.
abbrev pub same_value : Option ℕ → Option ℕ → Bool
same_value none none = true
same_value (some a) (some b) = a == b
same_value none (some b) = false
same_value (some a) none = false

abbrev pub min_remaining : Option Time → List Row → Option ℕ
min_remaining window [] = none
min_remaining window (r ∷ rs) =
    let rest = min_remaining window rs in
    if same_value r.reset_at window then min_of r.remaining rest else rest

abbrev pub max_limit : Option Time → List Row → Option ℕ
max_limit window [] = none
max_limit window (r ∷ rs) =
    let rest = max_limit window rs in
    if same_value r.reset_at window then max_of r.rate_limit rest else rest

abbrev pub max_secondary : List Row → Option Time
max_secondary [] = none
max_secondary (r ∷ rs) = max_of r.secondary_until (max_secondary rs)

-- `t != nil && now.Before(*t)`
abbrev pub is_before : Time → Option Time → Bool
is_before now none = false
is_before now (some t) = ltb now t

-- `t != nil && !now.Before(*t)`
abbrev pub is_past : Time → Option Time → Bool
is_past now none = false
is_past now (some t) = leb t now

abbrev pub lane_floor : Lane → Option ℕ → ℕ → ℕ → ℕ
lane_floor crawler (some limit) floor percent = floor + limit * percent / 100
lane_floor crawler none floor percent = floor
lane_floor interactive limit floor percent = floor

-- The decision on what the query returns.
abbrev pub decide : Time → Lane → ℕ → ℕ → Option ℕ → Option ℕ → Option Time → Option Time → Bool
decide now lane floor percent none limit reset_at secondary =
    if is_before now secondary then false else true
decide now lane floor percent (some remaining) limit reset_at secondary =
    if is_before now secondary
    then false
    else if is_past now reset_at
    then true
    else leb (lane_floor lane limit floor percent) remaining

unfoldable pub can_proceed : Time → Lane → Text → ℕ → ℕ → List Row → Bool
can_proceed now lane identity floor percent rows =
    let budget = keep (λ r. text_eq r.identity identity) rows in
    let window = latest budget in
    decide now lane floor percent (min_remaining window budget) (max_limit window budget) window
      (max_secondary budget)
