-- ===== src/Sync/Metadata.antt =====
-- `ExtractMetadata` (backend/internal/sync/classify.go).
use skill_issues.Prelude.{Bool, List, [], ◌∷◌, ◌++◌, take, if◌then◌else◌, any}
use skill_issues.Prelude.Text.{
  Text, ascii, is_empty, to_lower, trim_space, contains_elem, contains_text,
}
use skill_issues.Sync.Classify.{Classified, classify_labels}

pub record Metadata : Type 0 where
  pub classified : Classified
  pub skills : List Text
  pub technologies : List Text
  pub tags : List Text

-- The labels trimmed, without the empty ones.
unfoldable pub label_names : List Text → List Text
unfolding trim_space
label_names [] = []
label_names (l ∷ ls) =
    let rest = label_names ls in
    let trimmed = trim_space l in if is_empty trimmed then rest else trimmed ∷ rest

-- strings.Join(names, " ")
abbrev pub join_spaces : List Text → Text
join_spaces [] = []
join_spaces (s ∷ []) = s
join_spaces (s ∷ t ∷ ts) = s ++ (b' ' ∷ join_spaces (t ∷ ts))

abbrev pub contains_any : Text → List Text → Bool
contains_any target keywords = any (contains_text target) keywords

-- `addSkill`
unfoldable pub add_skill : Text → List Text → List Text
unfolding trim_space
add_skill s skills =
    let trimmed = trim_space s in
    if is_empty trimmed
    then skills
    else if contains_elem skills trimmed
    then skills
    else skills ++ (trimmed ∷ [])

abbrev pub add_skill_if : Bool → Text → List Text → List Text
add_skill_if b s skills = if b then add_skill s skills else skills

abbrev pub tags_of : List Text → List Text
tags_of [] = ascii "open source" ∷ ascii "software development" ∷ []
tags_of (n ∷ ns) = take 5 (n ∷ ns)

unfoldable pub extract_metadata : List Text → Text → Metadata
unfolding label_names add_skill to_lower
extract_metadata labels repo_language =
    let names = label_names labels in
    let text = to_lower (join_spaces names) in
    let known = if is_empty repo_language then [] else add_skill repo_language [] in
    let about_api = contains_any text (ascii "api" ∷ ascii "http" ∷ ascii "rest" ∷ []) in
    let about_docs = contains_any text (ascii "docs" ∷ ascii "documentation" ∷ []) in
    record {
      classified = classify_labels labels;
      skills =
          add_skill_if about_docs (ascii "Technical Writing")
            (add_skill_if about_api (ascii "REST APIs") known);
      technologies = if is_empty repo_language then [] else repo_language ∷ [];
      tags = tags_of names;
    }
