-- ===== src/Search/Interleave/Complete.antt =====
-- What `interleave` (search_categories.go) lists: every issue that a category found, each under a
-- category that found it.
use skill_issues.Prelude.{
  ℕ, zero, suc, ◌+◌, ◌≤◌, ◌<◌, ◌≡◌, refl, Bool, true, false, ◌&&◌, ◌||◌, inl, inr, List, [], ◌∷◌,
  ◌++◌, arith, ◌==◌, if◌then◌else◌, contains, All, All-append, All-map, length, ap, Bool-cases,
}
use skill_issues.Search.Interleave.{
  Category, SearchHit, Round, Merged, merge_rounds, skip_seen, round, rounds, interleave, hit_ids,
  total, holds,
}
use skill_issues.Search.Interleave.Steps.{round_cases, rounds_cases}

-- What is skipped has been seen.
skip_seen-keeps :
    (seen ids : List ℕ) (id : ℕ)
    → contains ids id ≡ true
    → (contains seen id || contains (skip_seen seen ids) id) ≡ true
skip_seen-keeps seen [] id h = ground arith
skip_seen-keeps seen (x ∷ xs) id h = ground (arith, skip_seen-keeps seen xs id)

length-skip_seen : (seen ids : List ℕ) → length (skip_seen seen ids) ≤ length ids
length-skip_seen seen [] = omega arith
length-skip_seen seen (x ∷ xs) = ground (arith, length-skip_seen seen xs)

seen-round :
    (seen : List ℕ) (cats : List Category) (id : ℕ)
    → contains (round seen cats).seen id
      ≡ (contains seen id || contains (hit_ids (round seen cats).hits) id)
seen-round seen [] id = unfold round in ground arith
seen-round seen (c ∷ cs) id =
    round_cases
      (λ (r : Round). contains r.seen id ≡ (contains seen id || contains (hit_ids r.hits) id)) seen
      c cs (λ e. seen-round seen cs id) (λ x xs e. ground (arith, seen-round (x ∷ seen) cs id))

-- A round leaves an id where it was, or has seen it.
round-keeps :
    (seen : List ℕ) (cats : List Category) (id : ℕ)
    → holds cats id ≡ true
    → (contains (round seen cats).seen id || holds (round seen cats).left id) ≡ true
round-keeps seen [] id h = ground arith
round-keeps seen (c ∷ cs) id h =
    round_cases (λ (r : Round). (contains r.seen id || holds r.left id) ≡ true) seen c cs
      (λ e. ground (
        arith,
        skip_seen-keeps seen c.ids id,
        ap (λ l. contains l id) e,
        seen-round seen cs id,
        round-keeps seen cs id,
      ))
      (λ x xs e. ground (
        arith,
        skip_seen-keeps seen c.ids id,
        ap (λ l. contains l id) e,
        seen-round (x ∷ seen) cs id,
        round-keeps (x ∷ seen) cs id,
      ))

-- Each hit uses up an id of a category.
total-round :
    (seen : List ℕ) (cats : List Category)
    → total (round seen cats).left + length (round seen cats).hits ≤ total cats
total-round seen [] = unfold round in omega arith
total-round seen (c ∷ cs) =
    round_cases (λ (r : Round). total r.left + length r.hits ≤ total (c ∷ cs)) seen c cs
      (λ e. omega (arith, total-round seen cs))
      (λ x xs e. omega (arith, total-round (x ∷ seen) cs, length-skip_seen seen c.ids, ap length e))

-- A round with no hit leaves nothing.
round-empty :
    (seen : List ℕ) (cats : List Category) (id : ℕ)
    → (round seen cats).hits ≡ []
    → holds (round seen cats).left id ≡ false
round-empty seen [] id = unfold round in λ h. refl
round-empty seen (c ∷ cs) id =
    round_cases (λ (r : Round). r.hits ≡ [] → holds r.left id ≡ false) seen c cs
      (λ e h. round-empty seen cs id h) (λ x xs e h. cc)

hit_ids-append :
    (hs ks : List SearchHit) (id : ℕ)
    → contains (hit_ids (hs ++ ks)) id ≡ (contains (hit_ids hs) id || contains (hit_ids ks) id)
hit_ids-append [] ks id = refl
hit_ids-append (h ∷ hs) ks id = ground (arith, hit_ids-append hs ks id)

rounds_complete :
    (fuel : ℕ) (seen : List ℕ) (cats : List Category) (id : ℕ)
    → total cats < fuel
    → holds cats id ≡ true
    → (contains seen id || contains (hit_ids (rounds fuel seen cats).listed) id) ≡ true
rounds_complete zero seen cats id room h = absurd (omega arith)
rounds_complete (suc fuel) seen cats id room h =
    rounds_cases (λ (m : Merged). (contains seen id || contains (hit_ids m.listed) id) ≡ true) fuel
      seen cats
      (λ e. ground (
        arith,
        round-keeps seen cats id h,
        seen-round seen cats id,
        round-empty seen cats id e,
        ap (λ l. contains (hit_ids l) id) e,
      ))
      (λ k ks e. elim (Bool-cases (holds (round seen cats).left id)) [
        | inl held ↦ ground (
          arith,
          seen-round seen cats id,
          hit_ids-append (round seen cats).hits
              (rounds fuel (round seen cats).seen (round seen cats).left).listed id,
          rounds_complete fuel (round seen cats).seen (round seen cats).left id
              (omega (arith, total-round seen cats, ap length e)) held,
        )
        | inr gone ↦ ground (
          arith,
          seen-round seen cats id,
          round-keeps seen cats id h,
          hit_ids-append (round seen cats).hits
              (rounds fuel (round seen cats).seen (round seen cats).left).listed id,
        )
      ])

-- Category `n` found the issue.
abbrev pub offers : List Category → ℕ → ℕ → Bool
offers [] n id = false
offers (c ∷ cs) n id = if c.number == n && contains c.ids id then true else offers cs n id

abbrev IsOffered : List Category → SearchHit → Type 0
IsOffered found h = offers found h.category h.id ≡ true

skip_seen-contains :
    (seen ids : List ℕ) (id : ℕ) → contains (skip_seen seen ids) id ≡ true → contains ids id ≡ true
skip_seen-contains seen [] id h = h
skip_seen-contains seen (x ∷ xs) id h = ground (arith, skip_seen-contains seen xs id)

IsOffered-cons :
    (c : Category) (cs : List Category) (h : SearchHit) → IsOffered cs h → IsOffered (c ∷ cs) h
IsOffered-cons c cs h o = ground arith

round-IsOffered :
    (seen : List ℕ) (cats : List Category) → All (IsOffered cats) (round seen cats).hits
round-IsOffered seen [] = unfold round in tt
round-IsOffered seen (c ∷ cs) =
    round_cases (λ (r : Round). All (IsOffered (c ∷ cs)) r.hits) seen c cs
      (λ e.
        All-map (IsOffered cs) (IsOffered (c ∷ cs)) (IsOffered-cons c cs) _
          (round-IsOffered seen cs))
      (λ x xs e. (
        ground (arith, skip_seen-contains seen c.ids x, ap (λ l. contains l x) e),
        All-map (IsOffered cs) (IsOffered (c ∷ cs)) (IsOffered-cons c cs) _
            (round-IsOffered (x ∷ seen) cs),
      ))

-- What is left was there before.
left-offers :
    (seen : List ℕ) (cats : List Category) (n id : ℕ)
    → offers (round seen cats).left n id ≡ true
    → offers cats n id ≡ true
left-offers seen [] n id = unfold round in λ h. h
left-offers seen (c ∷ cs) n id =
    round_cases (λ (r : Round). offers r.left n id ≡ true → offers (c ∷ cs) n id ≡ true) seen c cs
      (λ e h. ground (arith, left-offers seen cs n id))
      (λ x xs e h. ground (
        arith,
        left-offers (x ∷ seen) cs n id,
        skip_seen-contains seen c.ids id,
        ap (λ l. contains l id) e,
      ))

rounds-IsOffered :
    (fuel : ℕ) (seen : List ℕ) (cats : List Category)
    → All (IsOffered cats) (rounds fuel seen cats).listed
rounds-IsOffered zero seen cats = unfold rounds in tt
rounds-IsOffered (suc fuel) seen cats =
    let r = round seen cats in
    rounds_cases (λ (m : Merged). All (IsOffered cats) m.listed) fuel seen cats (λ e. tt)
      (λ h hs e. All-append (IsOffered cats) (round seen cats).hits _ (round-IsOffered seen cats) (
        All-map (IsOffered r.left) (IsOffered cats) (λ k o. left-offers seen cats k.category k.id o)
          _ (rounds-IsOffered fuel r.seen r.left)))

-- Every round but the last takes an id, so the loop stops by its test before the fuel is spent.
rounds_end :
    (fuel : ℕ) (seen : List ℕ) (cats : List Category)
    → total cats < fuel
    → (rounds fuel seen cats).ended ≡ true
rounds_end zero seen cats room = absurd (omega arith)
rounds_end (suc fuel) seen cats room =
    rounds_cases (λ (m : Merged). m.ended ≡ true) fuel seen cats (λ e. refl)
      (λ h hs e.
        rounds_end fuel (round seen cats).seen (round seen cats).left
          (omega (arith, total-round seen cats, ap length e)))

-- The loop of the merged search ends by its own test within one round more than the categories hold
-- ids. What it lists has every issue that some category found, and each issue that it lists stands
-- under a category that found it.
pub interleave_complete :
    (found : List Category)
    → ((merge_rounds found).ended ≡ true)
      × ((id : ℕ) → holds found id ≡ true → contains (hit_ids (interleave found)) id ≡ true)
      × All (λ (h : SearchHit). offers found h.category h.id ≡ true) (interleave found)
unfolding interleave merge_rounds
interleave_complete found = (
  rounds_end (suc (total found)) [] found (omega arith),
  λ id h. rounds_complete (suc (total found)) [] found id (omega arith) h,
  rounds-IsOffered (suc (total found)) [] found,
)
