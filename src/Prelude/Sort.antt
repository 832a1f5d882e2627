-- ===== src/Prelude/Sort.antt =====
-- Go's sort.SliceStable, which the sources call with a `less` of their own: a stable sort of a
-- list is unique, so insertion behind the elements that are not greater computes it.
use skill_issues.Prelude.Tests.{if◌then◌else◌, Bool-cases}
use skill_issues.Prelude.Lists.{length, All, All-map}
use Prim.Native.Nat.{suc}
use mathlib.Core.Path.{◌≡◌, refl, ap, ◌∙◌}
use mathlib.Core.Logic.{inl, inr}
use mathlib.Core.Bool.{Bool, true, false}
use mathlib.Core.List.{List, [], ◌∷◌, Perm}
use mathlib.Core.List.Perm
use native.Mathlib.Omega.{arith}

module _ {ℓ} {A : Type ℓ} (less : A → A → Bool) where
  -- `x` stands before `y` unless `y` is strictly less: equal elements keep their order.
  unfoldable pub insert_by : A → List A → List A
  insert_by x [] = x ∷ []
  insert_by x (y ∷ ys) = if less y x then y ∷ insert_by x ys else x ∷ y ∷ ys

  unfoldable pub sort_stable : List A → List A
  unfolding insert_by
  sort_stable [] = []
  sort_stable (x ∷ xs) = insert_by x (sort_stable xs)

  -- No element is strictly less than one that stands before it.
  abbrev pub IsSorted : List A → Type 0
  IsSorted [] = Unit
  IsSorted (x ∷ xs) = All (λ y. less y x ≡ false) xs × IsSorted xs

  pub insert_by-perm : (x : A) (ys : List A) → Perm (insert_by x ys) (x ∷ ys)
  unfolding insert_by
  insert_by-perm x [] = Perm.refl (x ∷ [])
  insert_by-perm x (y ∷ ys) = elim (Bool-cases (less y x)) [
    | inl e ↦ rw e (Perm.trans (Perm.cons y (insert_by-perm x ys)) (Perm.swap x y ys))
    | inr e ↦ rw e (Perm.refl (x ∷ y ∷ ys))
  ]

  pub sort_stable-perm : (xs : List A) → Perm (sort_stable xs) xs
  unfolding sort_stable
  sort_stable-perm [] = Perm.refl []
  sort_stable-perm (x ∷ xs) =
      Perm.trans (insert_by-perm x (sort_stable xs)) (Perm.cons x (sort_stable-perm xs))

  pub length-insert_by : (x : A) (ys : List A) → length (insert_by x ys) ≡ suc (length ys)
  unfolding insert_by
  length-insert_by x [] = refl
  length-insert_by x (y ∷ ys) = ground (arith, length-insert_by x ys)

  pub length-sort_stable : (xs : List A) → length (sort_stable xs) ≡ length xs
  unfolding sort_stable
  length-sort_stable [] = refl
  length-sort_stable (x ∷ xs) = length-insert_by x (sort_stable xs) ∙ ap suc (length-sort_stable xs)

  pub All-insert_by {κ} :
      (P : A → Type κ) (x : A) (ys : List A) → P x → All P ys → All P (insert_by x ys)
  unfolding insert_by
  All-insert_by P x [] p h = (p, tt)
  All-insert_by P x (y ∷ ys) p h = elim (Bool-cases (less y x)) [
    | inl e ↦ rw e (h.0, All-insert_by P x ys p h.1)
    | inr e ↦ rw e (p, h)
  ]

  pub All-sort_stable {κ} : (P : A → Type κ) (xs : List A) → All P xs → All P (sort_stable xs)
  unfolding sort_stable
  All-sort_stable P [] h = tt
  All-sort_stable P (x ∷ xs) h = All-insert_by P x (sort_stable xs) h.0 (All-sort_stable P xs h.1)

  All-of-insert_by {κ} :
      (P : A → Type κ) (x : A) (ys : List A) → All P (insert_by x ys) → P x × All P ys
  unfolding insert_by
  All-of-insert_by P x [] h = h
  All-of-insert_by P x (y ∷ ys) h = elim (Bool-cases (less y x)) [
    | inl e ↦
        let all : All P (y ∷ insert_by x ys) = rw (e, insert_by) at h in
        let (px, rest) = All-of-insert_by P x ys all.1 in (px, (all.0, rest))
    | inr e ↦ let all : All P (x ∷ y ∷ ys) = rw (e, insert_by) at h in all
  ]

  -- What holds of the sorted list's elements holds of the list's.
  pub All-of-sort_stable {κ} : (P : A → Type κ) (xs : List A) → All P (sort_stable xs) → All P xs
  unfolding sort_stable
  All-of-sort_stable P [] h = tt
  All-of-sort_stable P (x ∷ xs) h =
      let (px, rest) = All-of-insert_by P x (sort_stable xs) h in (px, All-of-sort_stable P xs rest)

  -- `less` is asymmetric, and not being less is transitive: a strict weak order.
  module _ (asym : (a b : A) → less a b ≡ true → less b a ≡ false)
      (trans : (a b c : A) → less b a ≡ false → less c b ≡ false → less c a ≡ false) where
    insert_by-IsSorted : (x : A) (ys : List A) → IsSorted ys → IsSorted (insert_by x ys)
    unfolding insert_by
    insert_by-IsSorted x [] h = (tt, tt)
    insert_by-IsSorted x (y ∷ ys) h = elim (Bool-cases (less y x)) [
      | inl e ↦
          rw e (
            All-insert_by (λ z. less z y ≡ false) x ys (asym y x e) h.0,
            insert_by-IsSorted x ys h.1,
          )
      | inr e ↦ rw e (
        (
          e,
          All-map (λ z. less z y ≡ false) (λ z. less z x ≡ false) (λ z q. trans x y z e q) ys h.0,
        ),
        h,
      )
    ]

    pub sort_stable-IsSorted : (xs : List A) → IsSorted (sort_stable xs)
    unfolding sort_stable
    sort_stable-IsSorted [] = tt
    sort_stable-IsSorted (x ∷ xs) = insert_by-IsSorted x (sort_stable xs) (sort_stable-IsSorted xs)
