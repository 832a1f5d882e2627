-- ===== src/Catalog/Pick/Fresh.antt =====
-- What a pick returns (backend/internal/issue/pick.go).
use skill_issues.Prelude.{
  ℕ, zero, suc, ◌≤◌, ◌<◌, ◌≡◌, refl, sym, ◌∙◌, Bool, false, not, ◌&&◌, Option, none, some, List, [],
  ◌∷◌, ◌++◌, arith, ltb, leb, ◌==◌, if◌then◌else◌, if_cases, length, length-append, contains,
  contains-append, Bool-cases, inl, inr, All, All-append,
}
use skill_issues.Prelude.Int.{ℤ}
use skill_issues.Catalog.Pick.{
  Cursor, Page, Picked, take_new, Next, finished, goes_on, next_of, pick_pages, pick_from,
}

-- No id is in the list twice.
abbrev pub AreDistinct : List ℕ → Type 0
AreDistinct [] = Unit
AreDistinct (x ∷ xs) = (contains xs x ≡ false) × AreDistinct xs

-- At most `n` ids, each once, none of them excluded before; all of them are excluded from now on.
abbrev pub IsPick : ℕ → List ℕ → Picked → Type 0
IsPick n before p =
    (length p.out ≤ n)
    × (AreDistinct p.out
        × (All (λ x. contains before x ≡ false) p.out
            × ((x : ℕ)
                → contains p.exclude x ≡ false
                → (contains before x ≡ false) × (contains p.out x ≡ false))))

contains_last :
    (xs : List ℕ) (x y : ℕ)
    → (y == x) ≡ false
    → contains xs x ≡ false
    → contains (xs ++ (y ∷ [])) x ≡ false
contains_last xs x y other h = contains-append xs (y ∷ []) x ∙ rw (h, other)

AreDistinct-append :
    (xs : List ℕ) (x : ℕ) → contains xs x ≡ false → AreDistinct xs → AreDistinct (xs ++ (x ∷ []))
AreDistinct-append [] x h d = (refl, tt)
AreDistinct-append (y ∷ ys) x h d = elim (Bool-cases (y == x)) [
  | inl same ↦ ground (arith, h, same)
  | inr other ↦ (
    contains_last ys y x (ground (arith, other)) d.0,
    AreDistinct-append ys x (sym (rw other) ∙ h) d.1,
  )
]

take_one-IsPick :
    (n : ℕ) (before : List ℕ) (x : ℕ) (p : Picked)
    → (length p.out < n)
    → contains p.exclude x ≡ false
    → IsPick n before p
    → IsPick n before (record { out = p.out ++ (x ∷ []); exclude = x ∷ p.exclude })
take_one-IsPick n before x p room new (bound, (distinct, (fresh, covered))) = (
  omega (arith, room, length-append p.out (x ∷ [])),
  (
    AreDistinct-append p.out x (covered x new).1 distinct,
    (
      All-append (λ y. contains before y ≡ false) p.out (x ∷ []) fresh ((covered x new).0, tt),
      (λ y h. elim (Bool-cases (x == y)) [
        | inl same ↦ ground (arith, h, same)
        | inr other ↦
            let old = covered y (sym (rw other) ∙ h) in (old.0, contains_last p.out y x other old.1)
      ]),
    ),
  ),
)

take_new-IsPick :
    (n : ℕ) (before : List ℕ) (ids : List ℕ) (p : Picked)
    → IsPick n before p
    → IsPick n before (take_new n ids p)
unfolding take_new
take_new-IsPick n before [] p h = h
take_new-IsPick n before (x ∷ xs) p h =
    let q =
      if ltb (length p.out) n && not (contains p.exclude x)
      then record { out = p.out ++ (x ∷ []); exclude = x ∷ p.exclude }
      else p in
    take_new-IsPick n before xs q (
      if_cases (IsPick n before) (ltb (length p.out) n && not (contains p.exclude x))
        (record { out = p.out ++ (x ∷ []); exclude = x ∷ p.exclude }) p
        (λ taken. take_one-IsPick n before x p (ground (arith, taken)) (ground (arith, taken)) h)
        (λ passed. h))

-- A failed query, or a walk that ends in a pick.
abbrev pub PickOrError : ℕ → List ℕ → Option Picked → Type 0
PickOrError n before none = Unit
PickOrError n before (some p) = IsPick n before p

module _ (browse : Option Cursor → Option Page) (n : ℕ) (start : ℤ) (before : List ℕ) where
  goes_on-IsPick :
      (pages : ℕ) (step : Next) (q : Picked)
      → IsPick n before q
      → ((c : Option Cursor) (w : Bool)
          → PickOrError n before (pick_pages browse n start pages c w q))
      → PickOrError n before
          (elim step [ finished ↦ some q | goes_on c w ↦ pick_pages browse n start pages c w q ])
  goes_on-IsPick pages finished q h more = h
  goes_on-IsPick pages (goes_on c w) q h more = more c w

  after_page :
      (pages : ℕ) (wrapped : Bool) (p : Picked) (page : Option Page)
      → IsPick n before p
      → ((c : Option Cursor) (w : Bool) (q : Picked)
          → IsPick n before q
          → PickOrError n before (pick_pages browse n start pages c w q))
      → PickOrError n before (elim page [
        | none ↦ none
        | some page ↦
            let q = take_new n page.ids p in
            elim (next_of start wrapped page.next) [
              | finished ↦ some q
              | goes_on c w ↦ pick_pages browse n start pages c w q
            ]
      ])
  after_page pages wrapped p none h more = tt
  after_page pages wrapped p (some page) h more =
      let q = take_new n page.ids p in
      let picked = take_new-IsPick n before page.ids p h in
      goes_on-IsPick pages (next_of start wrapped page.next) q picked (λ c w. more c w q picked)

  pick_pages-IsPick :
      (pages : ℕ) (after : Option Cursor) (wrapped : Bool) (p : Picked)
      → IsPick n before p
      → PickOrError n before (pick_pages browse n start pages after wrapped p)
  unfolding pick_pages
  pick_pages-IsPick zero after wrapped p h = h
  pick_pages-IsPick (suc pages) after wrapped p h = elim (Bool-cases (leb n (length p.out))) [
    | inl enough ↦ rw enough h
    | inr short ↦ rw short (
        after_page pages wrapped p (browse after) h
          (λ c w q picked. pick_pages-IsPick pages c w q picked))
  ]

-- Whatever the query answers, and from whatever point the walk begins, a pick that does not fail has at
-- most the number of issues asked for, none of them twice and none of the excluded ones.
pub pick_from-IsPick :
    (browse : Option Cursor → Option Page) (n : ℕ) (start : ℤ) (max_pages : ℕ) (exclude : List ℕ)
    → PickOrError n exclude (pick_from browse n start max_pages exclude)
unfolding pick_from
pick_from-IsPick browse n start max_pages exclude =
    pick_pages-IsPick browse n start exclude max_pages (some (record { key = start; id = 0 })) false
      (record { out = []; exclude = exclude }) (omega arith, (tt, (tt, (λ x h. (h, refl)))))
