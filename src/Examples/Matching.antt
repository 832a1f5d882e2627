-- ===== src/Examples/Matching.antt =====
-- Labels in two orders, and a Go developer's recommendation among three candidates.
use skill_issues.Prelude.{
  ℕ, ◌≡◌, ◌<◌, refl, some, List, [], ◌∷◌, ◌++◌, true, map, min, arith, length,
}
use mathlib.Core.List.{Perm}
use mathlib.Core.List.Perm
use skill_issues.Prelude.Int.{ℤ, pos, negsuc}
use skill_issues.Prelude.Sort.{sort_stable, insert_by, IsSorted}
use skill_issues.Prelude.Text.{Text, ascii, to_lower, trim_space}
use skill_issues.Sync.Classify.{classify_labels, normalized, beginner}
use skill_issues.Sync.Metadata.{extract_metadata, label_names, add_skill}
use skill_issues.Sync.Classify.Order.{classify_labels-perm}
use skill_issues.Recommendation.Score.{
  Candidate, FullProfile, Scored, scores_more, score_candidates, scored_pool, set_of, pool_of,
  is_preferred, score_item, target_difficulty, tech_match,
}
use skill_issues.Recommendation.Score.Ranked.{
  OutScores, score_candidates-IsSorted, score_candidates-found,
}

abbrev labels : List Text
labels = ascii "security" ∷ ascii " Good First Issue " ∷ []

easiest : classify_labels labels ≡ record { has_valid = true; difficulty = beginner; score = 2 }
unfolding classify_labels normalized to_lower trim_space
easiest = refl

classify_labels-perm_example :
    classify_labels labels ≡ classify_labels (ascii " Good First Issue " ∷ ascii "security" ∷ [])
classify_labels-perm_example =
    classify_labels-perm labels (ascii " Good First Issue " ∷ ascii "security" ∷ [])
      (Perm.swap (ascii " Good First Issue ") (ascii "security") [])

abbrev go_developer : FullProfile
go_developer = record {
  username = ascii "gopher";
  preferred_languages = ascii "Go" ∷ [];
  demonstrated_skills = ascii "REST APIs" ∷ [];
  interests = [];
  target_level = ascii "Beginner";
}

abbrev candidate : ℕ → Text → ℤ → Candidate
candidate id language difficulty = record {
  id = id;
  repository = ascii "org/repo";
  language = language;
  technologies = [];
  required_skills = [];
  learning_tags = [];
  difficulty_score = some difficulty;
  stars = 10;
}

abbrev candidates : List Candidate
candidates =
    candidate 1 (ascii "Go") (pos 5)
    ∷ candidate 2 (ascii "Rust") (pos 1)
    ∷ candidate 3 (ascii "Go") (pos 2)
    ∷ []

go_first :
    map (λ (s : Scored). s.item.id) (score_candidates go_developer candidates (pos 2)) ≡ 3 ∷ 1 ∷ []
unfolding score_candidates scored_pool set_of pool_of is_preferred score_item target_difficulty
    tech_match sort_stable insert_by to_lower trim_space
go_first = refl

score_candidates-IsSorted_example :
    IsSorted scores_more (score_candidates go_developer candidates (pos 2))
    × ((length (score_candidates go_developer candidates (pos 2))
          ≡ min 2 (length (scored_pool go_developer candidates)))
        × ((rest : List Scored) × (Perm
                (score_candidates go_developer candidates (pos 2) ++ rest)
                (scored_pool go_developer candidates)
              × OutScores (score_candidates go_developer candidates (pos 2)) rest)))
score_candidates-IsSorted_example = score_candidates-IsSorted go_developer candidates (pos 2)

score_candidates-found_example : 0 < length (score_candidates go_developer candidates (negsuc 0))
score_candidates-found_example =
    score_candidates-found go_developer candidates (negsuc 0) (omega arith)

documented :
    (extract_metadata (ascii " API docs " ∷ ascii " " ∷ []) (ascii "Go")).skills
    ≡ ascii "Go" ∷ ascii "REST APIs" ∷ ascii "Technical Writing" ∷ []
unfolding extract_metadata label_names add_skill to_lower trim_space
documented = refl
