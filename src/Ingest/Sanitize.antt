-- ===== src/Ingest/Sanitize.antt =====
-- `SanitizeText`, `SanitizeSlice` and `SanitizeOptional` (backend/internal/ingest/sanitize.go).
use skill_issues.Prelude.{
  ◌≡◌, refl, sym, ap, ◌∙◌, false, not, Option, none, some, List, [], ◌∷◌, map, arith, ◌==◌,
  if◌then◌else◌, keep, contains, All, Bool-cases, inl, inr,
}
use skill_issues.Prelude.Text.{Text}

-- strings.ReplaceAll(s, "\x00", "")
abbrev pub without_nul : Text → Text
without_nul s = keep (λ c. not (c == 0)) s

unfoldable pub sanitize_text : Text → Text
sanitize_text s = if contains s 0 then without_nul s else s

unfoldable pub sanitize_slice : List Text → List Text
unfolding sanitize_text
sanitize_slice = map sanitize_text

unfoldable pub sanitize_optional : Option Text → Option Text
unfolding sanitize_text
sanitize_optional none = none
sanitize_optional (some s) = some (sanitize_text s)

contains-without_nul : (s : Text) → contains (without_nul s) 0 ≡ false
contains-without_nul [] = refl
contains-without_nul (c ∷ s) = elim (Bool-cases (c == 0)) [
  | inl nul ↦ rw nul (contains-without_nul s)
  | inr other ↦ rw other (rw other (contains-without_nul s))
]

keep_all : (s : Text) → contains s 0 ≡ false → without_nul s ≡ s
keep_all [] h = refl
keep_all (c ∷ s) h = elim (Bool-cases (c == 0)) [
  | inl nul ↦ ground (arith, h, nul)
  | inr other ↦ rw other (ap (◌∷◌ c) (keep_all s (sym (rw other) ∙ h)))
]

-- The fast path changes nothing.
sanitize_text-without_nul : (s : Text) → sanitize_text s ≡ without_nul s
unfolding sanitize_text
sanitize_text-without_nul s = elim (Bool-cases (contains s 0)) [
  | inl nul ↦ rw nul
  | inr clean ↦ rw clean (sym (keep_all s clean))
]

contains-sanitize_text : (s : Text) → contains (sanitize_text s) 0 ≡ false
contains-sanitize_text s = rw (sanitize_text-without_nul s) (contains-without_nul s)

sanitize_text-sanitize_text : (s : Text) → sanitize_text (sanitize_text s) ≡ sanitize_text s
sanitize_text-sanitize_text s =
    sanitize_text-without_nul (sanitize_text s)
    ∙ keep_all (sanitize_text s) (contains-sanitize_text s)

-- What is stored of a list of texts has no NUL byte in any of them, and sanitising it once more
-- changes nothing.
pub sanitize_slice-clean :
    (ss : List Text)
    → All (λ s. contains s 0 ≡ false) (sanitize_slice ss)
      × (sanitize_slice (sanitize_slice ss) ≡ sanitize_slice ss)
unfolding sanitize_slice
sanitize_slice-clean [] = (tt, refl)
sanitize_slice-clean (s ∷ ss) =
    let rest = sanitize_slice-clean ss in
    (
      (contains-sanitize_text s, rest.0),
      ap (λ t. t ∷ sanitize_slice (sanitize_slice ss)) (sanitize_text-sanitize_text s)
          ∙ ap (λ ts. sanitize_text s ∷ ts) rest.1,
    )
