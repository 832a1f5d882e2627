-- ===== src/Recommendation/Score.antt =====
-- `ScoreCandidates` (backend/internal/recommendation/score.go). A set of strings is the list of its
-- elements, each once. The reasons are the values that the source's sentences stand for.
pub mod Ranked
use skill_issues.Prelude.{
  ℕ, zero, ◌+◌, ◌-◌, ◌*◌, Bool, true, false, not, ◌&&◌, ◌||◌, Option, none, some, List, [], ◌∷◌,
  ◌++◌, map, ltb, leb, if◌then◌else◌, length, take, keep, any,
}
use skill_issues.Prelude.Int.{ℤ, pos, negsuc}
use skill_issues.Prelude.Sort.{sort_stable}
use skill_issues.Prelude.Text.{
  Text, ascii, text_eq, is_empty, to_lower, trim_space, has_prefix, contains_elem,
}

pub record Candidate : Type 0 where
  pub id : ℕ
  pub repository : Text
  pub language : Text
  pub technologies : List Text
  pub required_skills : List Text
  pub learning_tags : List Text
  pub difficulty_score : Option ℤ
  pub stars : ℕ

pub record FullProfile : Type 0 where
  pub username : Text
  pub preferred_languages : List Text
  pub demonstrated_skills : List Text
  pub interests : List Text
  pub target_level : Text

-- The keys of the set that a loop of `set[strings.ToLower(strings.TrimSpace(x))] = true` builds.
unfoldable pub set_of : List Text → List Text
unfolding to_lower trim_space
set_of [] = []
set_of (x ∷ xs) =
    let rest = set_of xs in
    let key = to_lower (trim_space x) in if contains_elem rest key then rest else key ∷ rest

-- The target level in lower case, as `TargetDifficultyMap` has it in upper case.
abbrev pub target_of : Text → ℕ
target_of level =
    if text_eq level (ascii "beginner")
    then 1
    else if text_eq level (ascii "intermediate")
    then 3
    else if text_eq level (ascii "advanced")
    then 5
    else 3

unfoldable pub target_difficulty : FullProfile → ℕ
unfolding to_lower trim_space
target_difficulty u = target_of (to_lower (trim_space u.target_level))

abbrev pub lower_in : List Text → List Text → Bool
lower_in preferred names = any (λ t. contains_elem preferred (to_lower t)) names

abbrev pub is_user_repo : FullProfile → Candidate → Bool
is_user_repo u c =
    not (is_empty (to_lower u.username))
    && has_prefix (to_lower c.repository) (to_lower u.username ++ ascii "/")

abbrev pub language_match : List Text → Candidate → Bool
language_match preferred c =
    not (is_empty c.language) && contains_elem preferred (to_lower c.language)

-- The filter of the loop over the candidates: each list is read where the ones before did not match.
unfoldable pub is_preferred : FullProfile → List Text → Candidate → Bool
unfolding to_lower
is_preferred u preferred c =
    is_user_repo u c
    || (language_match preferred c
        || (lower_in preferred c.technologies
            || (lower_in preferred c.required_skills || lower_in preferred c.learning_tags)))

abbrev pub or_all : List Candidate → List Candidate → List Candidate
or_all [] candidates = candidates
or_all (c ∷ cs) candidates = c ∷ cs

unfoldable pub pool_of : FullProfile → List Text → List Candidate → List Candidate
unfolding is_preferred
pool_of u [] candidates = candidates
pool_of u (p ∷ ps) candidates = or_all (keep (is_preferred u (p ∷ ps)) candidates) candidates

-- How many elements of one set the other holds.
abbrev pub overlap : List Text → List Text → ℕ
overlap xs ys = length (keep (λ x. contains_elem ys x) xs)

-- `if diffScore <= 0 { diffScore = 1 }`, with 0 for a missing one.
abbrev pub difficulty_of : Option ℤ → ℕ
difficulty_of none = 1
difficulty_of (some (pos zero)) = 1
difficulty_of (some (pos n)) = n
difficulty_of (some (negsuc n)) = 1

-- `max(0, 5 - |difficulty - target|)`
abbrev pub difficulty_fit : ℕ → ℕ → ℕ
difficulty_fit difficulty target =
    5 - (if ltb difficulty target then target - difficulty else difficulty - target)

pub data Why : Type 0 where
  uses_language : Text → Why
  matches_technologies : Why
  builds_on_skills : Why
  matches_interests : Why
  stretches_level : Why
  starting_point : Why

pub record Scored : Type 0 where
  pub item : Candidate
  pub score : ℕ
  pub why : List Why

abbrev pub when : Bool → Why → List Why
when b w = if b then w ∷ [] else []

abbrev pub or_starting_point : List Why → List Why
or_starting_point [] = starting_point ∷ []
or_starting_point (w ∷ ws) = w ∷ ws

unfoldable pub tech_match : List Text → Candidate → Bool
unfolding set_of
tech_match preferred c =
    any
      (λ k.
        contains_elem (set_of c.technologies) k
        || (contains_elem (set_of c.required_skills) k || contains_elem (set_of c.learning_tags) k))
      preferred

unfoldable pub score_item : FullProfile → List Text → Candidate → Scored
unfolding set_of target_difficulty tech_match to_lower
score_item u preferred c =
    let by_language = language_match preferred c in
    let by_tech = tech_match preferred c in
    let skill_match = overlap (set_of u.demonstrated_skills) (set_of c.required_skills) * 2 in
    let interest_match = overlap (set_of u.interests) (set_of c.learning_tags) in
    let difficulty = difficulty_of c.difficulty_score in
    let target = target_difficulty u in
    record {
      item = c;
      score =
          (if by_language then 15 else 0)
          + (if by_tech then 8 else 0)
          + skill_match
          + interest_match
          + difficulty_fit difficulty target;
      why = or_starting_point (
          when by_language (uses_language c.language)
          ++ (when (by_tech && not by_language) matches_technologies
              ++ (when (ltb 0 skill_match) builds_on_skills
                  ++ (when (ltb 0 interest_match) matches_interests
                      ++ when (leb target difficulty) stretches_level))));
    }

-- `scored[i].RecommendationScore > scored[j].RecommendationScore`
abbrev pub scores_more : Scored → Scored → Bool
scores_more a b = ltb b.score a.score

abbrev pub limit_of_three : ℤ → ℕ
limit_of_three (pos zero) = 3
limit_of_three (pos n) = n
limit_of_three (negsuc n) = 3

unfoldable pub scored_pool : FullProfile → List Candidate → List Scored
unfolding score_item pool_of set_of
scored_pool u candidates =
    let preferred = set_of u.preferred_languages in
    map (score_item u preferred) (pool_of u preferred candidates)

unfoldable pub score_candidates : FullProfile → List Candidate → ℤ → List Scored
unfolding scored_pool
score_candidates u candidates limit =
    take (limit_of_three limit) (sort_stable scores_more (scored_pool u candidates))
