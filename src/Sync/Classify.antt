-- ===== src/Sync/Classify.antt =====
-- `ClassifyLabels` (backend/internal/sync/classify.go).
pub mod Order
use skill_issues.Prelude.{ℕ, Bool, true, false, ◌||◌, List, [], ◌∷◌, if◌then◌else◌, any}
use skill_issues.Prelude.Text.{
  Text, ascii, is_empty, to_lower, trim_space, has_prefix, contains_elem,
}

pub data Difficulty : Type 0 where
  beginner intermediate advanced unclassified : Difficulty

pub record Classified : Type 0 where
  pub has_valid : Bool
  pub difficulty : Difficulty
  pub score : ℕ

abbrev pub beginner_labels : List Text
beginner_labels =
    ascii "good first issue"
    ∷ ascii "beginner-friendly"
    ∷ ascii "easy"
    ∷ ascii "starter"
    ∷ ascii "starter-bug"
    ∷ ascii "first-timers-only"
    ∷ ascii "newbie"
    ∷ ascii "up-for-grabs"
    ∷ ascii "low-hanging-fruit"
    ∷ ascii "bitesize"
    ∷ ascii "trivial"
    ∷ ascii "easy-fix"
    ∷ ascii "good-for-beginner"
    ∷ ascii "documentation"
    ∷ ascii "docs"
    ∷ ascii "typo"
    ∷ ascii "good-first-pr"
    ∷ []

abbrev pub intermediate_labels : List Text
intermediate_labels =
    ascii "help wanted"
    ∷ ascii "contributions-welcome"
    ∷ ascii "seeking-contributors"
    ∷ ascii "medium"
    ∷ ascii "intermediate"
    ∷ ascii "size/m"
    ∷ ascii "effort/medium"
    ∷ ascii "difficulty/medium"
    ∷ ascii "enhancement"
    ∷ ascii "feature"
    ∷ ascii "refactoring"
    ∷ ascii "unit-test"
    ∷ []

abbrev pub advanced_labels : List Text
advanced_labels =
    ascii "hard"
    ∷ ascii "advanced"
    ∷ ascii "complex"
    ∷ ascii "size/l"
    ∷ ascii "size/xl"
    ∷ ascii "difficulty/hard"
    ∷ ascii "breaking-change"
    ∷ ascii "architecture"
    ∷ ascii "security"
    ∷ ascii "performance"
    ∷ ascii "optimization"
    ∷ ascii "critical"
    ∷ ascii "high-priority"
    ∷ ascii "blocker"
    ∷ ascii "p1"
    ∷ []

abbrev pub starts_with_any : Text → List Text → Bool
starts_with_any s prefixes = any (has_prefix s) prefixes

abbrev pub is_beginner : Text → Bool
is_beginner l =
    contains_elem beginner_labels l
    || starts_with_any l (
        ascii "difficulty/easy"
        ∷ ascii "difficulty/beginner"
        ∷ ascii "size/small"
        ∷ ascii "size/xs"
        ∷ ascii "effort/low"
        ∷ ascii "exp/beginner"
        ∷ [])

abbrev pub is_intermediate : Text → Bool
is_intermediate l =
    contains_elem intermediate_labels l
    || starts_with_any l (
        ascii "difficulty/medium"
        ∷ ascii "size/m"
        ∷ ascii "effort/medium"
        ∷ ascii "exp/intermediate"
        ∷ [])

abbrev pub is_advanced : Text → Bool
is_advanced l =
    contains_elem advanced_labels l
    || starts_with_any l (
        ascii "difficulty/hard"
        ∷ ascii "difficulty/expert"
        ∷ ascii "size/l"
        ∷ ascii "size/xl"
        ∷ ascii "effort/high"
        ∷ ascii "exp/expert"
        ∷ [])

-- The labels in lower case and trimmed, without the empty ones.
unfoldable pub normalized : List Text → List Text
unfolding to_lower trim_space
normalized [] = []
normalized (l ∷ ls) =
    let rest = normalized ls in
    let trimmed = trim_space (to_lower l) in if is_empty trimmed then rest else trimmed ∷ rest

abbrev pub classify_by : Bool → Bool → Bool → Classified
classify_by true _ _ = record { has_valid = true; difficulty = beginner; score = 2 }
classify_by false true _ = record { has_valid = true; difficulty = intermediate; score = 5 }
classify_by false false true = record { has_valid = true; difficulty = advanced; score = 8 }
classify_by false false false = record { has_valid = false; difficulty = unclassified; score = 0 }

unfoldable pub classify_labels : List Text → Classified
unfolding normalized
classify_labels labels =
    let ls = normalized labels in
    classify_by (any is_beginner ls) (any is_intermediate ls) (any is_advanced ls)
