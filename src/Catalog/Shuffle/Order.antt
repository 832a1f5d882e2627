-- ===== src/Catalog/Shuffle/Order.antt =====
-- What is left of the shuffled order after a position (backend/internal/issue/shuffle.go).
use skill_issues.Prelude.{
  ℕ, zero, suc, ◌<◌, ◌≡◌, refl, sym, ap, ◌∙◌, subst, Bool, true, false, none, some, List, [], ◌∷◌,
  ◌++◌, keep, take, drop, length, All, All-keep, All-map, Bool-cases, inl, inr, arith, if_cases,
}
use skill_issues.Catalog.Shuffle.{Slot, Position, at_slot, is_after, last_position}

-- The order of an index on (shuffle_key, id), whose ids are distinct.
abbrev pub IsOrdered : List Slot → Type 0
IsOrdered [] = Unit
IsOrdered (s ∷ ss) = All (λ t. is_after (at_slot s) t ≡ true) ss × IsOrdered ss

pub is_after_trans :
    (pos : Position) (s t : Slot)
    → is_after pos s ≡ true
    → is_after (at_slot s) t ≡ true
    → is_after pos t ≡ true
is_after_trans none s t h k = refl
is_after_trans (some (key, repo)) s t h k = ground (arith, h, k)

is_after_asym : (s t : Slot) → is_after (at_slot s) t ≡ true → is_after (at_slot t) s ≡ false
is_after_asym s t h = ground (arith, h)

is_after_irrefl : (s : Slot) → is_after (at_slot s) s ≡ false
is_after_irrefl s = ground arith

keep-skip :
    (p : Slot → Bool) (x : Slot) (xs : List Slot) → p x ≡ false → keep p (x ∷ xs) ≡ keep p xs
keep-skip p x xs h = rw h refl

keep-All : (p : Slot → Bool) (xs : List Slot) → All (λ s. p s ≡ true) xs → keep p xs ≡ xs
keep-All p [] h = refl
keep-All p (x ∷ xs) h = rw (h.0) (ap (λ r. x ∷ r) (keep-All p xs h.1))

All-head :
    (P : Slot → Type 0) (xs : List Slot) (s : Slot) (ss : List Slot) → xs ≡ s ∷ ss → All P xs → P s
All-head P xs s ss e h = (subst (All P) e h).0

abbrev head_or : Slot → List Slot → Slot
head_or d [] = d
head_or d (s ∷ ss) = s

abbrev tail_of : List Slot → List Slot
tail_of [] = []
tail_of (s ∷ ss) = ss

-- After the first slot that is left, the rest is left.
pub left-step :
    (index : List Slot) (pos : Position) (s : Slot) (ss : List Slot)
    → IsOrdered index
    → keep (is_after pos) index ≡ s ∷ ss
    → keep (is_after (at_slot s)) index ≡ ss
left-step [] pos s ss o e = ground (arith, ap length e)
left-step (y ∷ ys) pos s ss o e = elim (Bool-cases (is_after pos y)) [
  | inl a ↦
      let e' : y ∷ keep (is_after pos) ys ≡ s ∷ ss = sym (rw a) ∙ e in
      let same : y ≡ s = ap (head_or y) e' in
      let all : keep (is_after pos) ys ≡ ys = keep-All (is_after pos) ys (
        All-map (λ t. is_after (at_slot y) t ≡ true) (λ t. is_after pos t ≡ true)
          (λ t. is_after_trans pos y t a) ys o.0) in
      let tail : ys ≡ ss = sym all ∙ ap tail_of e' in
      subst (λ z. keep (is_after (at_slot z)) (y ∷ ys) ≡ ss) same
        (keep-skip (is_after (at_slot y)) y ys (is_after_irrefl y)
          ∙ (keep-All (is_after (at_slot y)) ys o.0 ∙ tail))
  | inr a ↦
      let e' : keep (is_after pos) ys ≡ s ∷ ss = sym (rw a) ∙ e in
      let below : is_after (at_slot s) y ≡ false = is_after_asym y s (
        All-head (λ t. is_after (at_slot y) t ≡ true) (keep (is_after pos) ys) s ss e'
          (All-keep (λ t. is_after (at_slot y) t ≡ true) (is_after pos) ys o.0)) in
      keep-skip (is_after (at_slot s)) y ys below ∙ left-step ys pos s ss o.1 e'
]

-- After a run of the slots that are left, the rest is left.
pub left-run :
    (index : List Slot) (pos : Position) (run ss : List Slot)
    → IsOrdered index
    → keep (is_after pos) index ≡ run ++ ss
    → keep (is_after (last_position pos run)) index ≡ ss
left-run index pos [] ss o e = e
left-run index pos (s ∷ run) ss o e =
    left-run index (at_slot s) run ss o (left-step index pos s (run ++ ss) o e)

pub keep-IsOrdered : (p : Slot → Bool) (xs : List Slot) → IsOrdered xs → IsOrdered (keep p xs)
keep-IsOrdered p [] o = tt
keep-IsOrdered p (x ∷ xs) o =
    if_cases IsOrdered (p x) (x ∷ keep p xs) (keep p xs)
      (λ _. (All-keep (λ t. is_after (at_slot x) t ≡ true) p xs o.0, keep-IsOrdered p xs o.1))
      (λ _. keep-IsOrdered p xs o.1)

pub keep_comm : (p q : Slot → Bool) (xs : List Slot) → keep p (keep q xs) ≡ keep q (keep p xs)
keep_comm p q [] = refl
keep_comm p q (x ∷ xs) = grind (arith, keep_comm p q xs)

pub drop_short : (n : ℕ) (xs : List Slot) → length (take n xs) < n → drop n xs ≡ []
drop_short zero xs h = ground (arith, h)
drop_short (suc n) [] h = refl
drop_short (suc n) (x ∷ xs) h = drop_short n xs (omega (arith, h))

-- Everything is after the top.
pub keep-top : (xs : List Slot) → keep (is_after none) xs ≡ xs
keep-top [] = refl
keep-top (x ∷ xs) = ap (λ r. x ∷ r) (keep-top xs)
