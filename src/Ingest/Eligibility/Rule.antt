-- ===== src/Ingest/Eligibility/Rule.antt =====
-- The rule, stated at once (backend/internal/ingest/eligibility.go).
use skill_issues.Prelude.{
  ℕ, ◌*◌, ◌≤◌, ◌<◌, ◌≡◌, refl, ap, sym, ◌∙◌, ◌↔◌, Bool, true, false, ◌&&◌, not, Option, none, some,
  List, [], ◌∷◌, ◌++◌, arith, ltb, length,
}
use skill_issues.Prelude.Int.{ℤ, pos, negsuc, pos_part}
use skill_issues.Prelude.Text.{Text}
use skill_issues.Prelude.Time.{day_ns}
use skill_issues.Ingest.Eligibility.{
  RepoFacts, Reason, reason_if, has_no_issues, has_no_language, is_stale, reasons, no_reason,
  eligible,
}

none_of :
    (b : Bool) (r : Reason) (rs : List Reason)
    → no_reason (reason_if b r ++ rs) ≡ (not b && no_reason rs)
none_of true r rs = refl
none_of false r rs = refl

none_alone : (b : Bool) (r : Reason) → no_reason (reason_if b r) ≡ not b
none_alone true r = refl
none_alone false r = refl

and_iff : (a b : Bool) → ((a && b) ≡ true) ↔ ((a ≡ true) × (b ≡ true))
and_iff true b = ((λ h. (refl, h)), (λ h. h.1))
and_iff false b = ((λ h. ground (arith, h)), (λ h. h.0))

not_iff : (b : Bool) → (not b ≡ true) ↔ (b ≡ false)
not_iff true = ((λ h. ground (arith, h)), (λ h. ground (arith, h)))
not_iff false = ((λ h. refl), (λ h. refl))

has_no_issues_iff : (n : ℤ) → (has_no_issues n ≡ false) ↔ (0 < pos_part n)
has_no_issues_iff (pos n) = ((λ h. ground (arith, h)), (λ h. ground (arith, h)))
has_no_issues_iff (negsuc n) = ((λ h. ground (arith, h)), (λ h. ground (arith, h)))

abbrev text_of : Option Text → Text
text_of none = []
text_of (some t) = t

abbrev ago_of : Option ℕ → ℕ
ago_of none = 0
ago_of (some n) = n

-- A main language is known and has a name.
abbrev pub HasLanguage : Option Text → Type 0
HasLanguage o = (l : Text) × ((o ≡ some l) × (0 < length l))

has_no_language_iff : (o : Option Text) → (has_no_language o ≡ false) ↔ HasLanguage o
has_no_language_iff none = ((λ h. ground (arith, h)), (λ h. ground (arith, h.1.0)))
has_no_language_iff (some []) = (
  (λ h. ground (arith, h)),
  (λ h. ground (arith, ap text_of h.1.0, h.1.1, ap length (ap text_of h.1.0))),
)
has_no_language_iff (some (c ∷ l)) = ((λ h. (c ∷ l, (refl, omega arith))), (λ h. refl))

abbrev pub IsFresh : ℕ → Option ℕ → Type 0
IsFresh days o = (ago : ℕ) × ((o ≡ some ago) × (ago ≤ days * day_ns))

is_stale_iff : (days : ℕ) (o : Option ℕ) → (is_stale days o ≡ false) ↔ IsFresh days o
is_stale_iff days none = ((λ h. ground (arith, h)), (λ h. ground (arith, h.1.0)))
is_stale_iff days (some ago) =
    ((λ h. (ago, (refl, ground (arith, h)))), (λ h. ground (arith, ap ago_of h.1.0, h.1.1)))

-- What the crawler takes, said at once.
abbrev pub IsEligible : RepoFacts → ℕ → ℕ → Type 0
IsEligible f min_stars days =
    (f.is_fork ≡ false)
    × ((f.is_archived ≡ false)
        × ((0 < pos_part f.issue_count)
            × (HasLanguage f.primary_language
                × (IsFresh days f.pushed_ago × (min_stars ≤ f.stars)))))

no_reason-reasons :
    (f : RepoFacts) (min_stars days : ℕ)
    → no_reason (reasons f min_stars days) ≡ (
        not f.is_fork
        && (not f.is_archived
            && (not (has_no_issues f.issue_count)
                && (not (has_no_language f.primary_language)
                    && (not (is_stale days f.pushed_ago) && not (ltb f.stars min_stars))))))
unfolding reasons
no_reason-reasons f min_stars days = rw (none_of, none_of, none_of, none_of, none_of, none_alone)

-- A repository is taken exactly when it is no fork and not archived, has ever had an issue, has a
-- main language with a name, was pushed to within the given days, and has at least the given stars.
pub eligible-IsEligible :
    (f : RepoFacts) (min_stars days : ℕ)
    → ((eligible f min_stars days).0 ≡ true) ↔ IsEligible f min_stars days
unfolding eligible
eligible-IsEligible f min_stars days =
    let told = no_reason-reasons f min_stars days in
    (
      (λ h.
          let a = (and_iff (not f.is_fork) _).0 (sym told ∙ h) in
          let b = (and_iff (not f.is_archived) _).0 a.1 in
          let c = (and_iff (not (has_no_issues f.issue_count)) _).0 b.1 in
          let d = (and_iff (not (has_no_language f.primary_language)) _).0 c.1 in
          let e = (and_iff (not (is_stale days f.pushed_ago)) _).0 d.1 in
          (
            (not_iff f.is_fork).0 a.0,
            (
              (not_iff f.is_archived).0 b.0,
              (
                (has_no_issues_iff f.issue_count).0 ((not_iff (has_no_issues f.issue_count)).0 c.0),
                (
                  (has_no_language_iff f.primary_language).0
                      ((not_iff (has_no_language f.primary_language)).0 d.0),
                  (
                    (is_stale_iff days f.pushed_ago).0
                        ((not_iff (is_stale days f.pushed_ago)).0 e.0),
                    ground (arith, e.1),
                  ),
                ),
              ),
            ),
          )),
      (λ h.
          told
          ∙ rw
              (
                h.0,
                h.1.0,
                (has_no_issues_iff f.issue_count).1 h.1.1.0,
                (has_no_language_iff f.primary_language).1 h.1.1.1.0,
                (is_stale_iff days f.pushed_ago).1 h.1.1.1.1.0,
              )
              (ground (arith, h.1.1.1.1.1))),
    )
