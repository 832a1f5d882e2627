-- ===== src/Installer/Version/Order.antt =====
-- Two versions compared in the two orders (installer/version.go).
use skill_issues.Prelude.{ℕ, ◌≡◌, refl, [], ◌∷◌, arith}
use skill_issues.Prelude.Text.{Text}
use skill_issues.Installer.Version.{
  Version, Age, older, same, newer, compare_numbers, compare_texts, compare_pre, or_next,
  compare_versions,
}

abbrev pub turned : Age → Age
turned older = newer
turned same = same
turned newer = older

numbers_turned : (a b : ℕ) → compare_numbers b a ≡ turned (compare_numbers a b)
numbers_turned a b = ground arith

texts_turned : (s t : Text) → compare_texts t s ≡ turned (compare_texts s t)
texts_turned [] [] = refl
texts_turned [] (b ∷ t) = refl
texts_turned (a ∷ s) [] = refl
texts_turned (a ∷ s) (b ∷ t) = ground (arith, texts_turned s t)

pre_turned : (s t : Text) → compare_pre t s ≡ turned (compare_pre s t)
pre_turned [] [] = refl
pre_turned [] (b ∷ t) = refl
pre_turned (a ∷ s) [] = refl
pre_turned (a ∷ s) (b ∷ t) = texts_turned (a ∷ s) (b ∷ t)

or_next-turned : (a b : Age) → or_next (turned a) (turned b) ≡ turned (or_next a b)
or_next-turned older b = refl
or_next-turned same b = refl
or_next-turned newer b = refl

-- Comparing two versions the other way round turns the answer: older becomes newer, newer becomes
-- older, and same stays.
pub compare_versions-turned : (a b : Version) → compare_versions b a ≡ turned (compare_versions a b)
unfolding compare_versions
compare_versions-turned a b = rw (
  numbers_turned a.major b.major,
  numbers_turned a.minor b.minor,
  numbers_turned a.patch b.patch,
  pre_turned a.pre b.pre,
  or_next-turned,
  or_next-turned,
  or_next-turned,
)
