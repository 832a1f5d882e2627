-- ===== src/Sync/Classify/Order.antt =====
-- What the order of an issue's labels and further labels change
-- (backend/internal/sync/classify.go).
use skill_issues.Prelude.{
  ◌≡◌, refl, ap, ◌∙◌, Bool, true, false, List, [], ◌∷◌, if◌then◌else◌, any, Bool-cases, inl, inr,
}
use mathlib.Core.List.{Perm, Permᴰ}
use mathlib.Core.Bool.{Bool-set}
use Prim.{∥∥₁_rec}
use skill_issues.Prelude.Text.{Text, is_empty, to_lower, trim_space}
use skill_issues.Sync.Classify.{
  is_beginner, is_intermediate, is_advanced, normalized, classify_labels,
}

-- Whether a label counts as one of a kind.
abbrev counts : (Text → Bool) → Text → Bool
counts f l = let trimmed = trim_space (to_lower l) in if is_empty trimmed then false else f trimmed

any-counts : (f : Text → Bool) (ls : List Text) → any f (normalized ls) ≡ any (counts f) ls
unfolding normalized
any-counts f [] = refl
any-counts f (l ∷ ls) = elim (Bool-cases (is_empty (trim_space (to_lower l)))) [
  | inl empty ↦ rw empty (any-counts f ls)
  | inr full ↦ rw (full, any-counts f ls)
]

swap_tests :
    (a b c : Bool)
    → (if a then true else if b then true else c) ≡ (if b then true else if a then true else c)
swap_tests true true c = refl
swap_tests true false c = refl
swap_tests false true c = refl
swap_tests false false c = refl

any-permd : (f : Text → Bool) {xs ys : List Text} → Permᴰ xs ys → any f xs ≡ any f ys
any-permd f Permᴰ.nil = refl
any-permd f (Permᴰ.cons {b = b} {l₁ = xs} e d) =
    ap (λ x. if f x then true else any f xs) e ∙ ap (λ r. if f b then true else r) (any-permd f d)
any-permd f (Permᴰ.swap {a = a} {b = b} {b' = b'} {l = l} e d) =
    swap_tests (f a) (f b) (any f l)
    ∙ ap (λ x. if f b then true else if f x then true else any f l) e
    ∙ ap (λ x. if f x then true else if f b' then true else any f l) d
any-permd f (Permᴰ.trans d e) = any-permd f d ∙ any-permd f e

any-perm : (f : Text → Bool) (xs ys : List Text) → Perm xs ys → any f xs ≡ any f ys
any-perm f xs ys = ∥∥₁_rec (Bool-set (any f xs) (any f ys)) (any-permd f)

-- The order in which an issue's labels come does not change what they say of its difficulty.
pub classify_labels-perm :
    (xs ys : List Text) → Perm xs ys → classify_labels xs ≡ classify_labels ys
unfolding classify_labels
classify_labels-perm xs ys p = rw (
  any-counts is_beginner xs,
  any-counts is_beginner ys,
  any-counts is_intermediate xs,
  any-counts is_intermediate ys,
  any-counts is_advanced xs,
  any-counts is_advanced ys,
  any-perm (counts is_beginner) xs ys p,
  any-perm (counts is_intermediate) xs ys p,
  any-perm (counts is_advanced) xs ys p,
)
