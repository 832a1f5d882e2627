-- ===== src/Xp/Summary.antt =====
-- `Summarise` (backend/internal/xp/summary.go). A week is its number since the zero time, so the
-- Monday that `monday` answers and the week are the same thing. `guess` is the parameter of
-- `level_of`.
pub mod Told
pub mod Streaks
use skill_issues.Prelude.{
  ℕ, zero, suc, ◌+◌, max, Bool, true, false, not, ◌&&◌, ◌||◌, Option, none, some, List, [], ◌∷◌,
  ◌++◌, map, ltb, leb, ◌==◌, if◌then◌else◌, length, contains, keep,
}
use skill_issues.Prelude.Int.{ℤ, pos, ◌+ℤ◌, ltb_ℤ}
use skill_issues.Prelude.Sort.{sort_stable}
use skill_issues.Prelude.Text.{Text, ascii, text_eq, is_empty}
use skill_issues.Prelude.Time.{Time, week_of}
use skill_issues.Xp.{merged, backfill, Difficulty, advanced, source_eq}
use skill_issues.Xp.Level.{Level, level_of}
use skill_issues.Xp.Quests.{Event, earned_before, add_language, add_repo}

-- What the walk over the merges has counted.
pub record Walk : Type 0 where
  pub merges : ℕ
  pub repos : List ℕ
  pub languages : List Text
  pub backlog : Bool
  pub advanced_fix : Bool
  pub docs : Bool
  pub streak : ℕ
  pub best_streak : ℕ
  pub total : ℤ

pub record BadgeDef : Type 0 where
  pub key : Text
  pub reach : Walk → Bool

pub record Badge : Type 0 where
  pub key : Text
  pub earned_at : Time

module _ (guess : ℕ → ℕ → ℕ) (step : ℤ) where
  abbrev pub level_at : ℕ → Walk → Bool
  level_at n w = leb n (level_of guess w.total step).level

  -- `badgeDefs`, in display order.
  abbrev pub badge_defs : List BadgeDef
  badge_defs =
      record { key = ascii "first_merge"; reach = λ w. leb 1 w.merges }
      ∷ record { key = ascii "merges_5"; reach = λ w. leb 5 w.merges }
      ∷ record { key = ascii "merges_10"; reach = λ w. leb 10 w.merges }
      ∷ record { key = ascii "merges_25"; reach = λ w. leb 25 w.merges }
      ∷ record { key = ascii "merges_50"; reach = λ w. leb 50 w.merges }
      ∷ record { key = ascii "merges_100"; reach = λ w. leb 100 w.merges }
      ∷ record { key = ascii "repos_3"; reach = λ w. leb 3 (length w.repos) }
      ∷ record { key = ascii "repos_10"; reach = λ w. leb 10 (length w.repos) }
      ∷ record { key = ascii "languages_3"; reach = λ w. leb 3 (length w.languages) }
      ∷ record { key = ascii "languages_5"; reach = λ w. leb 5 (length w.languages) }
      ∷ record { key = ascii "docs_fix"; reach = λ w. w.docs }
      ∷ record { key = ascii "backlog_hero"; reach = λ w. w.backlog }
      ∷ record { key = ascii "advanced_fix"; reach = λ w. w.advanced_fix }
      ∷ record { key = ascii "streak_4"; reach = λ w. leb 4 w.best_streak }
      ∷ record { key = ascii "streak_12"; reach = λ w. leb 12 w.best_streak }
      ∷ record { key = ascii "level_5"; reach = level_at 5 }
      ∷ record { key = ascii "level_10"; reach = level_at 10 }
      ∷ record { key = ascii "level_20"; reach = level_at 20 }
      ∷ []

-- `BadgeKeys`; the keys do not depend on the parameters.
unfoldable pub badge_keys : List Text
badge_keys = map (λ (d : BadgeDef). d.key) (badge_defs (λ total step. 0) (pos 0))

abbrev pub start_of_walk : Walk
start_of_walk = record {
  merges = 0;
  repos = [];
  languages = [];
  backlog = false;
  advanced_fix = false;
  docs = false;
  streak = 0;
  best_streak = 0;
  total = pos 0;
}

-- `reached[key]`: the badge is in the list.
abbrev pub is_reached : List Badge → Text → Bool
is_reached [] key = false
is_reached (b ∷ bs) key = if text_eq b.key key then true else is_reached bs key

abbrev pub earn : Walk → Time → BadgeDef → List Badge → List Badge
earn w now d badges =
    if not (is_reached badges d.key) && d.reach w
    then badges ++ (record { key = d.key; earned_at = now } ∷ [])
    else badges

unfoldable pub earn_all : Walk → Time → List BadgeDef → List Badge → List Badge
earn_all w now [] badges = badges
earn_all w now (d ∷ ds) badges = earn_all w now ds (earn w now d badges)

-- XP by language, in the order in which the languages came.
pub record LanguageXp : Type 0 where
  pub language : Text
  pub xp : ℤ

abbrev pub add_xp : Text → ℤ → List LanguageXp → List LanguageXp
add_xp language amount [] = record { language = language; xp = amount } ∷ []
add_xp language amount (l ∷ ls) =
    let rest = add_xp language amount ls in
    if text_eq l.language language then record l { xp = l.xp +ℤ amount } ∷ ls else l ∷ rest

pub record SummaryState : Type 0 where
  pub walk : Walk
  pub by_language : List LanguageXp
  pub last_week : Option ℕ
  pub weeks : List ℕ
  pub badges : List Badge

abbrev pub start_summary : SummaryState
start_summary = record {
  walk = start_of_walk;
  by_language = [];
  last_week = none;
  weeks = [];
  badges = [];
}

abbrev pub follows : ℕ → Option ℕ → Bool
follows week none = false
follows week (some last) = week == suc last

abbrev pub is_advanced : Option Difficulty → Bool
is_advanced (some advanced) = true
is_advanced _ = false

-- A merge counts, and the first of its week makes the streak longer or starts one.
abbrev pub count_streak : ℕ → SummaryState → SummaryState
count_streak week s =
    if contains s.weeks week
    then s
    else (let streak = if follows week s.last_week then suc s.walk.streak else 1 in
        record s {
          walk = record s.walk { streak = streak; best_streak = max s.walk.best_streak streak };
          last_week = some week;
          weeks = week ∷ s.weeks;
        })

abbrev pub count_details : Event → Walk → Walk
count_details e w =
    let d = e.detail in
    record w {
      merges = suc w.merges;
      repos = add_repo d.repository_id w.repos;
      languages = add_language d.language w.languages;
      backlog = w.backlog || ltb 0 d.backlog;
      advanced_fix = w.advanced_fix || is_advanced d.difficulty;
      docs = w.docs || d.docs;
    }

abbrev pub is_a_merge : Event → Bool
is_a_merge e = source_eq e.source merged || source_eq e.source backfill

abbrev pub add_amount : Event → SummaryState → SummaryState
add_amount e s = record s {
  walk = record s.walk { total = s.walk.total +ℤ e.amount };
  by_language =
      if is_empty e.detail.language
      then s.by_language
      else add_xp e.detail.language e.amount s.by_language;
}

-- What one row adds but for the badges.
unfoldable pub count_event : Event → SummaryState → SummaryState
count_event e s =
    let paid = add_amount e s in
    if is_a_merge e
    then count_streak (week_of e.earned_at) (record paid { walk = count_details e paid.walk })
    else paid

unfoldable pub summary_step : List BadgeDef → Event → SummaryState → SummaryState
unfolding count_event earn_all
summary_step defs e s =
    let t = count_event e s in record t { badges = earn_all t.walk e.earned_at defs t.badges }

unfoldable pub walk_ledger : List BadgeDef → List Event → SummaryState → SummaryState
unfolding summary_step
walk_ledger defs [] s = s
walk_ledger defs (e ∷ es) s = walk_ledger defs es (summary_step defs e s)

pub record Streak : Type 0 where
  pub current : ℕ
  pub best : ℕ
  pub this_week : Bool

abbrev pub is_current : ℕ → Option ℕ → Bool
is_current this none = false
is_current this (some last) = last == this || suc last == this

abbrev pub streak_of : Time → SummaryState → Streak
streak_of now s = record {
  current = if is_current (week_of now) s.last_week then s.walk.streak else 0;
  best = s.walk.best_streak;
  this_week = contains s.weeks (week_of now);
}

pub record LanguageLevel : Type 0 where
  pub language : Text
  pub xp : ℤ
  pub level : Level

abbrev pub text_before : Text → Text → Bool
text_before [] [] = false
text_before [] (b ∷ t) = true
text_before (a ∷ s) [] = false
text_before (a ∷ s) (b ∷ t) = if ltb a b then true else if a == b then text_before s t else false

abbrev pub language_before : LanguageXp → LanguageXp → Bool
language_before a b =
    if ltb_ℤ b.xp a.xp
    then true
    else if ltb_ℤ a.xp b.xp
    then false
    else text_before a.language b.language

abbrev pub has_xp : LanguageXp → Bool
has_xp l = ltb_ℤ (pos 0) l.xp

pub record Summary : Type 0 where
  pub total : ℤ
  pub level : Level
  pub merges : ℕ
  pub languages : List LanguageLevel
  pub streak : Streak
  pub badges : List Badge

abbrev pub ledger_state : (ℕ → ℕ → ℕ) → List Event → ℤ → SummaryState
ledger_state guess events step =
    walk_ledger (badge_defs guess step) (sort_stable earned_before events) start_summary

unfoldable pub summarise : (ℕ → ℕ → ℕ) → List Event → ℤ → Time → Summary
unfolding walk_ledger
summarise guess events step now =
    let s = ledger_state guess events step in
    record {
      total = s.walk.total;
      level = level_of guess s.walk.total step;
      merges = s.walk.merges;
      languages =
          map
            (λ (l : LanguageXp). record {
              language = l.language;
              xp = l.xp;
              level = level_of guess l.xp step;
            })
            (sort_stable language_before (keep has_xp s.by_language));
      streak = streak_of now s;
      badges = s.badges;
    }
