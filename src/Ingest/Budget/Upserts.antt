-- ===== src/Ingest/Budget/Upserts.antt =====
-- The upserts of backend/internal/ingest/budget.go, as the rows of one identity see them.
use skill_issues.Prelude.{
  ℕ, max, ◌≡◌, sym, subst, Bool, true, false, Option, none, some, List, [], ◌∷◌, arith, leb, leb→le,
  le→leb, if_cases, keep, Bool-cases, inl, inr,
}
use skill_issues.Prelude.Text.{Text, text_eq, text_eq_refl}
use skill_issues.Ingest.Budget.{Lane, Row, has_key, upsert, empty_row, max_of}

abbrev pub of_identity : Text → List Row → List Row
of_identity identity = keep (λ r. text_eq r.identity identity)

-- An upsert for an identity changes one of its rows, or adds one: what holds of the rows before and
-- after, by recursion on the table.
module _ {ℓ} (Q : List Row → List Row → Type ℓ) (lane : Lane) (identity : Text) (set : Row → Row)
    (keeps : (r : Row) → (set r).identity ≡ r.identity) where
  abbrev changed : List Row → List Row
  changed = upsert (has_key lane identity) set (set (empty_row lane identity))

  abbrev mine : Row → Bool
  mine r = text_eq r.identity identity

  mine-set : (r : Row) → mine r ≡ true → mine (set r) ≡ true
  mine-set r h = rw (keeps r) h

  own_row :
      (r : Row) (rs : List Row)
      → mine r ≡ true
      → of_identity identity (r ∷ rs) ≡ r ∷ of_identity identity rs
  own_row r rs own = rw own

  foreign_row :
      (r : Row) (rs : List Row)
      → mine r ≡ false
      → of_identity identity (r ∷ rs) ≡ of_identity identity rs
  foreign_row r rs foreign = rw foreign

  pub upsert_cases :
      ((r : Row) (rs : List Row) → Q (r ∷ rs) (set r ∷ rs))
      → Q [] (set (empty_row lane identity) ∷ [])
      → ((r : Row) (xs ys : List Row) → Q xs ys → Q (r ∷ xs) (r ∷ ys))
      → (rows : List Row) → Q (of_identity identity rows) (of_identity identity (changed rows))
  upsert_cases hit new skip [] = rw (mine-set (empty_row lane identity) (text_eq_refl identity)) new
  upsert_cases hit new skip (r ∷ rs) =
      let rest = changed rs in
      let later = upsert_cases hit new skip rs in
      elim (Bool-cases (mine r)) [
        | inl own ↦
            subst (λ xs. Q xs (of_identity identity (changed (r ∷ rs)))) (sym (own_row r rs own))
              (if_cases (λ ys. Q (r ∷ of_identity identity rs) (of_identity identity ys))
                (has_key lane identity r) (set r ∷ rs) (r ∷ rest)
                (λ same.
                  subst (Q (r ∷ of_identity identity rs))
                    (sym (own_row (set r) rs (mine-set r own))) (hit r (of_identity identity rs)))
                (λ other.
                  subst (Q (r ∷ of_identity identity rs)) (sym (own_row r rest own))
                    (skip r (of_identity identity rs) (of_identity identity rest) later)))
        | inr foreign ↦
            subst (λ xs. Q xs (of_identity identity (changed (r ∷ rs))))
              (sym (foreign_row r rs foreign))
              (if_cases (λ ys. Q (of_identity identity rs) (of_identity identity ys))
                (has_key lane identity r) (set r ∷ rs) (r ∷ rest)
                (λ same. ground (arith, same, foreign))
                (λ other.
                  subst (Q (of_identity identity rs)) (sym (foreign_row r rest foreign)) later))
      ]

-- Whether a pause, if any, holds until `t` or longer.
abbrev pub covers : ℕ → Option ℕ → Bool
covers t none = false
covers t (some m) = leb t m

pub covers-max_left : (t : ℕ) (b : Option ℕ) → covers t (max_of (some t) b) ≡ true
covers-max_left t none = le→leb t t (omega arith)
covers-max_left t (some m) = le→leb t (max t m) (omega arith)

pub covers-max_right : (t : ℕ) (a b : Option ℕ) → covers t b ≡ true → covers t (max_of a b) ≡ true
covers-max_right t none b h = h
covers-max_right t (some a) (some m) h = le→leb t (max a m) (omega (arith, leb→le t m h))
covers-max_right t (some a) none h = cc
