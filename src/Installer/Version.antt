-- ===== src/Installer/Version.antt =====
-- `ParseVersion` and `Compare` (installer/version.go). Of a comparison the sign is kept.
pub mod Order
use skill_issues.Prelude.{
  ℕ, zero, suc, ◌+◌, ◌-◌, ◌*◌, Bool, true, false, ◌&&◌, Option, none, some, List, [], ◌∷◌, ltb, leb,
  ◌==◌, if◌then◌else◌,
}
use skill_issues.Prelude.Text.{Text, is_empty, trim_space, text_eq}

pub record Version : Type 0 where
  pub major : ℕ
  pub minor : ℕ
  pub patch : ℕ
  pub pre : Text

-- strings.Cut: what stands before the first separator, and after it.
unfoldable pub cut : ℕ → Text → Text × Text
cut sep [] = ([], [])
cut sep (c ∷ s) = let rest = cut sep s in if c == sep then ([], s) else (c ∷ rest.0, rest.1)

-- strings.Split on one byte.
unfoldable pub split : ℕ → Text → List Text
split sep [] = [] ∷ []
split sep (c ∷ s) = let rest = split sep s in if c == sep then [] ∷ rest else put_first c rest
  where
    put_first : ℕ → List Text → List Text
    put_first c [] = (c ∷ []) ∷ []
    put_first c (t ∷ ts) = (c ∷ t) ∷ ts

abbrev pub without_v : Text → Text
without_v [] = []
without_v (c ∷ s) = if c == b'v' then s else c ∷ s

-- The core of a version, and its pre-release.
unfoldable pub parts_of : Text → List Text × Text
unfolding cut split trim_space
parts_of s =
    let halves = cut b'-' (without_v (trim_space s)) in (split b'.' (cut b'+' halves.0).0, halves.1)

-- `atoi` stands for strconv.Atoi, on which a negative number is refused as an error is.
unfoldable pub parse_version : (Text → Option ℕ) → Text → Option Version
unfolding parts_of
parse_version atoi s =
    let parts = parts_of s in
    elim parts.0 [
      | a ∷ b ∷ c ∷ [] ↦ elim (atoi a) [
        | none ↦ none
        | some x ↦ elim (atoi b) [
          | none ↦ none
          | some y ↦ elim (atoi c) [
            | none ↦ none
            | some z ↦ some (record { major = x; minor = y; patch = z; pre = parts.1 })
          ]
        ]
      ]
      | _ ↦ none
    ]

pub data Age : Type 0 where
  older same newer : Age

abbrev pub compare_numbers : ℕ → ℕ → Age
compare_numbers a b = if ltb a b then older else if ltb b a then newer else same

-- strings.Compare
abbrev pub compare_texts : Text → Text → Age
compare_texts [] [] = same
compare_texts [] (b ∷ t) = older
compare_texts (a ∷ s) [] = newer
compare_texts (a ∷ s) (b ∷ t) =
    if ltb a b then older else if ltb b a then newer else compare_texts s t

abbrev pub compare_pre : Text → Text → Age
compare_pre [] [] = same
compare_pre [] (b ∷ t) = newer
compare_pre (a ∷ s) [] = older
compare_pre (a ∷ s) (b ∷ t) = compare_texts (a ∷ s) (b ∷ t)

-- The first difference that is not zero decides.
abbrev pub or_next : Age → Age → Age
or_next older next = older
or_next newer next = newer
or_next same next = next

unfoldable pub compare_versions : Version → Version → Age
compare_versions a b = or_next (compare_numbers a.major b.major) (
    or_next (compare_numbers a.minor b.minor)
      (or_next (compare_numbers a.patch b.patch) (compare_pre a.pre b.pre)))
