-- ===== src/Search/Interleave/Steps.antt =====
-- The cases of one round and of the loop of rounds of `interleave` (search_categories.go).
use skill_issues.Prelude.{
  ℕ, suc, ◌≡◌, refl, true, false, List, [], ◌∷◌, contains, Bool-cases, inl, inr, arith, ◌⊎◌, sym,
  subst,
}
use skill_issues.Search.Interleave.{
  Category, SearchHit, Round, Merged, then_listed, skip_seen, round, rounds,
}

List-cases {ℓ} : {A : Type ℓ} (xs : List A) → (xs ≡ []) ⊎ ((x : A) × (ys : List A) × (xs ≡ x ∷ ys))
List-cases [] = inl refl
List-cases (x ∷ xs) = inr (x, xs, refl)

-- A round over `c ∷ cs` that finds nothing new in `c`, and one that takes `x` from it.
abbrev pub without_hit : List ℕ → Category → List Category → Round
without_hit seen c cs = let r = round seen cs in record r { left = record c { ids = [] } ∷ r.left }

abbrev pub with_hit : List ℕ → Category → List Category → ℕ → List ℕ → Round
with_hit seen c cs x xs =
    let r = round (x ∷ seen) cs in
    record {
      hits = record { id = x; category = c.number } ∷ r.hits;
      seen = r.seen;
      left = record c { ids = xs } ∷ r.left;
    }

round-nothing :
    (seen : List ℕ) (c : Category) (cs : List Category)
    → skip_seen seen c.ids ≡ []
    → round seen (c ∷ cs) ≡ without_hit seen c cs
unfolding round
round-nothing seen c cs e = rw (e, round)

round-takes :
    (seen : List ℕ) (c : Category) (cs : List Category) (x : ℕ) (xs : List ℕ)
    → skip_seen seen c.ids ≡ x ∷ xs
    → round seen (c ∷ cs) ≡ with_hit seen c cs x xs
unfolding round
round-takes seen c cs x xs e = rw (e, round)

pub round_cases {ℓ} :
    (P : Round → Type ℓ) (seen : List ℕ) (c : Category) (cs : List Category)
    → (skip_seen seen c.ids ≡ [] → P (without_hit seen c cs))
    → ((x : ℕ) (xs : List ℕ) → skip_seen seen c.ids ≡ x ∷ xs → P (with_hit seen c cs x xs))
    → P (round seen (c ∷ cs))
round_cases P seen c cs nothing takes = elim (List-cases (skip_seen seen c.ids)) [
  | inl e ↦ subst P (sym (round-nothing seen c cs e)) (nothing e)
  | inr (x, xs, e) ↦ subst P (sym (round-takes seen c cs x xs e)) (takes x xs e)
]

rounds-stops :
    (fuel : ℕ) (seen : List ℕ) (cats : List Category)
    → (round seen cats).hits ≡ []
    → rounds (suc fuel) seen cats ≡ record { listed = []; ended = true }
unfolding rounds
rounds-stops fuel seen cats e = rw (e, rounds)

rounds-goes_on :
    (fuel : ℕ) (seen : List ℕ) (cats : List Category) (h : SearchHit) (hs : List SearchHit)
    → (round seen cats).hits ≡ h ∷ hs
    → rounds (suc fuel) seen cats
      ≡ then_listed
          (round seen cats).hits
          (rounds fuel (round seen cats).seen (round seen cats).left)
unfolding rounds
rounds-goes_on fuel seen cats h hs e = rw (e, rounds)

pub rounds_cases {ℓ} :
    (P : Merged → Type ℓ) (fuel : ℕ) (seen : List ℕ) (cats : List Category)
    → ((round seen cats).hits ≡ [] → P (record { listed = []; ended = true }))
    → ((h : SearchHit) (hs : List SearchHit)
        → (round seen cats).hits ≡ h ∷ hs
        → P (
            then_listed
              (round seen cats).hits
              (rounds fuel (round seen cats).seen (round seen cats).left)))
    → P (rounds (suc fuel) seen cats)
rounds_cases P fuel seen cats stops goes_on = elim (List-cases (round seen cats).hits) [
  | inl e ↦ subst P (sym (rounds-stops fuel seen cats e)) (stops e)
  | inr (h, hs, e) ↦ subst P (sym (rounds-goes_on fuel seen cats h hs e)) (goes_on h hs e)
]

pub skip_seen-head :
    (seen ids : List ℕ) (x : ℕ) (xs : List ℕ)
    → skip_seen seen ids ≡ x ∷ xs
    → contains seen x ≡ false
skip_seen-head seen [] x xs h = cc
skip_seen-head seen (y ∷ ys) x xs h = elim (Bool-cases (contains seen y)) [
  | inl old ↦ skip_seen-head seen ys x xs (rw old at h)
  | inr new ↦ ground arith
]
