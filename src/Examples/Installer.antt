-- ===== src/Examples/Installer.antt =====
-- Versions that the installer reads and compares.
use skill_issues.Prelude.{ℕ, ◌≡◌, refl, Option, none, some, [], ◌∷◌, ◌-◌}
use skill_issues.Prelude.Text.{Text, ascii}
use skill_issues.Installer.Version.{
  Version, parse_version, parts_of, cut, split, compare_versions, older,
}
use skill_issues.Installer.Version.Order.{turned, compare_versions-turned}

-- One digit.
abbrev atoi : Text → Option ℕ
atoi (c ∷ []) = some (c - b'0')
atoi _ = none

abbrev release : Version
release = record { major = 1; minor = 5; patch = 0; pre = [] }

abbrev candidate : Version
candidate = record { major = 1; minor = 5; patch = 0; pre = ascii "rc.1" }

tagged : parse_version atoi (ascii "v1.5.0-rc.1") ≡ some candidate
unfolding parse_version parts_of cut split skill_issues.Prelude.Text.trim_space
tagged = refl

-- Build metadata after a pre-release stays in it, so it does order.
with_build :
    parse_version atoi (ascii "1.5.0-rc.1+b7")
    ≡ some (record { major = 1; minor = 5; patch = 0; pre = ascii "rc.1+b7" })
unfolding parse_version parts_of cut split skill_issues.Prelude.Text.trim_space
with_build = refl

candidate_first : compare_versions candidate release ≡ older
unfolding compare_versions
candidate_first = refl

compare_versions-turned_example :
    compare_versions release candidate ≡ turned (compare_versions candidate release)
compare_versions-turned_example = compare_versions-turned candidate release
