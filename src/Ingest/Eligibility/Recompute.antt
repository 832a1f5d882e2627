-- ===== src/Ingest/Eligibility/Recompute.antt =====
-- `RecomputeEligibility` (backend/internal/ingest/queue.go): the rule of `Eligible` once more, as SQL on
-- the stored rows.
use skill_issues.Prelude.{
  ℕ, ◌+◌, ◌-◌, ◌*◌, ◌≡◌, refl, sym, ap, ◌∙◌, Bool, true, false, not, ◌&&◌, ◌||◌, Option, none, some,
  List, [], ◌∷◌, ◌++◌, map, ltb, if◌then◌else◌, if_cases, any, arith,
}
use skill_issues.Prelude.Int.{ℤ, pos}
use skill_issues.Prelude.Text.{Text, ascii, text_eq, text_eq_sound, is_empty, to_lower}
use skill_issues.Prelude.Time.{Time, day_ns}
use skill_issues.Ingest.Eligibility.{
  RepoFacts, Reason, fork, archived, no_issues, no_primary_language, stale, below_star_floor,
  reason_if, has_no_issues, has_no_language, is_stale, reasons, no_reason, eligible,
}

pub record StoredRepo : Type 0 where
  pub id : ℕ
  pub full_name : Text
  pub is_archived : Bool
  pub issue_count : Option ℤ
  pub language : Option Text
  pub pushed_at : Option Time
  pub stars : Option ℕ
  pub is_eligible : Bool
  pub eligibility_reason : Option Text

abbrev pub text_if : Bool → Text → List Text
text_if b t = if b then t ∷ [] else []

-- array_to_string(…, ';')
abbrev pub join_reasons : List Text → Text
join_reasons [] = []
join_reasons (t ∷ []) = t
join_reasons (t ∷ u ∷ ts) = t ++ (b';' ∷ join_reasons (u ∷ ts))

-- `r.issue_count IS NOT NULL AND r.issue_count <= 0`
abbrev pub counts_no_issues : Option ℤ → Bool
counts_no_issues none = false
counts_no_issues (some n) = has_no_issues n

-- `r.pushed_at IS NULL OR r.pushed_at < now() - …`
abbrev pub pushed_before : Time → ℕ → Option Time → Bool
pushed_before now days none = true
pushed_before now days (some t) = ltb (t + days * day_ns) now

abbrev pub stars_of : Option ℕ → ℕ
stars_of none = 0
stars_of (some n) = n

abbrev pub is_listed : List Text → Text → Bool
is_listed excluded name = any (λ x. text_eq (to_lower x) (to_lower name)) excluded

unfoldable pub judged_reasons : Time → ℕ → ℕ → List Text → StoredRepo → List Text
judged_reasons now min_stars days excluded r =
    text_if (is_listed excluded r.full_name) (ascii "excluded")
    ++ (text_if r.is_archived (ascii "archived")
        ++ (text_if (counts_no_issues r.issue_count) (ascii "no_issues")
            ++ (text_if (has_no_language r.language) (ascii "no_primary_language")
                ++ (text_if (pushed_before now days r.pushed_at) (ascii "stale")
                    ++ text_if (ltb (stars_of r.stars) min_stars) (ascii "below_star_floor")))))

-- Verdicts that the recompute leaves alone.
abbrev pub is_final : Option Text → Bool
is_final none = false
is_final (some t) = text_eq t (ascii "not_found") || text_eq t (ascii "duplicate")

abbrev pub same_bool : Bool → Bool → Bool
same_bool true b = b
same_bool false b = not b

abbrev pub same_reason : Option Text → Text → Bool
same_reason none t = false
same_reason (some s) t = text_eq s t

-- A row is written only when a column would change.
unfoldable pub judge_row : Time → ℕ → ℕ → List Text → StoredRepo → StoredRepo
unfolding judged_reasons
judge_row now min_stars days excluded r =
    let reason = join_reasons (judged_reasons now min_stars days excluded r) in
    if is_final r.eligibility_reason
    then r
    else (if same_bool r.is_eligible (is_empty reason) && same_reason r.eligibility_reason reason
        then r
        else record r { is_eligible = is_empty reason; eligibility_reason = some reason })

unfoldable pub recompute_eligibility : Time → ℕ → ℕ → List Text → List StoredRepo → List StoredRepo
unfolding judge_row
recompute_eligibility now min_stars days excluded rows =
    map (judge_row now min_stars days excluded) rows

-- The names that `Eligible` joins.
abbrev pub reason_text : Reason → Text
reason_text fork = ascii "is_fork"
reason_text archived = ascii "archived"
reason_text no_issues = ascii "no_issues"
reason_text no_primary_language = ascii "no_primary_language"
reason_text stale = ascii "stale"
reason_text below_star_floor = ascii "below_star_floor"

-- A stored row as the facts of `Eligible`: no fork is stored, and a count that is not known is no
-- verdict.
abbrev pub known_count : Option ℤ → ℤ
known_count none = pos 1
known_count (some n) = n

abbrev pub ago : Time → Option Time → Option ℕ
ago now none = none
ago now (some t) = some (now - t)

abbrev pub facts_of : Time → StoredRepo → RepoFacts
facts_of now r = record {
  is_fork = false;
  is_archived = r.is_archived;
  issue_count = known_count r.issue_count;
  primary_language = r.language;
  pushed_ago = ago now r.pushed_at;
  stars = stars_of r.stars;
}

texts-reason_if :
    (b : Bool) (r : Reason) → map reason_text (reason_if b r) ≡ text_if b (reason_text r)
texts-reason_if true r = refl
texts-reason_if false r = refl

one_more :
    (b : Bool) (r : Reason) (rs : List Reason) (ts : List Text)
    → map reason_text rs ≡ ts
    → map reason_text (reason_if b r ++ rs) ≡ text_if b (reason_text r) ++ ts
one_more true r rs ts h = ap (λ x. reason_text r ∷ x) h
one_more false r rs ts h = h

one_more' :
    (b c : Bool) (r : Reason) (rs : List Reason) (ts : List Text)
    → b ≡ c
    → map reason_text rs ≡ ts
    → map reason_text (reason_if b r ++ rs) ≡ text_if c (reason_text r) ++ ts
one_more' b c r rs ts e h = one_more b r rs ts h ∙ ap (λ x. text_if x (reason_text r) ++ ts) e

counts_same : (o : Option ℤ) → has_no_issues (known_count o) ≡ counts_no_issues o
counts_same none = refl
counts_same (some n) = refl

stale_same :
    (now : Time) (days : ℕ) (o : Option Time) → is_stale days (ago now o) ≡ pushed_before now days o
stale_same now days none = refl
stale_same now days (some t) = ground arith

-- The SQL's list is that of `Eligible`, behind the exclusion.
judged_same :
    (now : Time) (min_stars days : ℕ) (excluded : List Text) (r : StoredRepo)
    → judged_reasons now min_stars days excluded r
      ≡ text_if (is_listed excluded r.full_name) (ascii "excluded")
        ++ map reason_text (reasons (facts_of now r) min_stars days)
unfolding judged_reasons reasons
judged_same now min_stars days excluded r =
    let f = facts_of now r in
    let low = ltb (stars_of r.stars) min_stars in
    ap (λ ts. text_if (is_listed excluded r.full_name) (ascii "excluded") ++ ts)
      (sym (
        one_more r.is_archived archived _ _ (
          one_more' (has_no_issues f.issue_count) (counts_no_issues r.issue_count) no_issues _ _
            (counts_same r.issue_count)
            (one_more (has_no_language r.language) no_primary_language _ _ (
              one_more' (is_stale days f.pushed_ago) (pushed_before now days r.pushed_at) stale _ _
                (stale_same now days r.pushed_at) (texts-reason_if low below_star_floor))))))

join_empty :
    (t : Text) (ts : List Text) → is_empty t ≡ false → is_empty (join_reasons (t ∷ ts)) ≡ false
join_empty t [] h = h
join_empty [] (u ∷ ts) h = ground (arith, h)
join_empty (c ∷ t) (u ∷ ts) h = refl

name_given : (r : Reason) → is_empty (reason_text r) ≡ false
name_given fork = refl
name_given archived = refl
name_given no_issues = refl
name_given no_primary_language = refl
name_given stale = refl
name_given below_star_floor = refl

-- The joined names are empty exactly when there is no reason.
empty_reasons :
    (listed : Bool) (rs : List Reason)
    → is_empty (join_reasons (text_if listed (ascii "excluded") ++ map reason_text rs))
      ≡ not listed && no_reason rs
empty_reasons true rs = join_empty (ascii "excluded") (map reason_text rs) refl
empty_reasons false [] = refl
empty_reasons false (r ∷ rs) = join_empty (reason_text r) (map reason_text rs) (name_given r)

same_columns :
    (a b : Bool) (o : Option Text) (t : Text)
    → (same_bool a b && same_reason o t) ≡ true
    → (a ≡ b) × (o ≡ some t)
same_columns true true none t h = ground (arith, h)
same_columns false false none t h = ground (arith, h)
same_columns true true (some s) t h = (refl, ap some (text_eq_sound s t h))
same_columns false false (some s) t h = (refl, ap some (text_eq_sound s t h))
same_columns true false o t h = ground (arith, h)
same_columns false true o t h = ground (arith, h)

-- Both columns, after a row is judged, written or not.
written_row :
    (r : StoredRepo) (eligible_now : Bool) (reason : Text)
    → let row =
        if same_bool r.is_eligible eligible_now && same_reason r.eligibility_reason reason
        then r
        else record r { is_eligible = eligible_now; eligibility_reason = some reason } in
      (row.is_eligible ≡ eligible_now) × (row.eligibility_reason ≡ some reason)
written_row r eligible_now reason =
    if_cases
      (λ (row : StoredRepo).
        (row.is_eligible ≡ eligible_now) × (row.eligibility_reason ≡ some reason))
      (same_bool r.is_eligible eligible_now && same_reason r.eligibility_reason reason) r
      (record r { is_eligible = eligible_now; eligibility_reason = some reason })
      (λ t. same_columns r.is_eligible eligible_now r.eligibility_reason reason t)
      (λ _. (refl, refl))

-- What holds of a judged row, and of a final one as it was.
final_or_judged :
    (final : Bool) (r judged : StoredRepo) (b : Bool) (t : Text)
    → (judged.is_eligible ≡ b) × (judged.eligibility_reason ≡ some t)
    → let row = if final then r else judged in
      (row.is_eligible ≡ (if final then r.is_eligible else b))
      × (row.eligibility_reason ≡ (if final then r.eligibility_reason else some t))
final_or_judged true r judged b t h = (refl, refl)
final_or_judged false r judged b t h = h

module _ (now : Time) (min_stars days : ℕ) (excluded : List Text) (r : StoredRepo) where
  abbrev listed : Bool
  listed = is_listed excluded r.full_name

  abbrev told : Bool × List Reason
  told = eligible (facts_of now r) min_stars days

  -- The recompute judges a stored row as `Eligible` judges its facts, and joins the same names, except
  -- that a name on the exclusion list is one reason more, and that a row which GitHub rejected or which
  -- is a duplicate stays as it is. A stored row is no fork, and a count of issues that is not known is
  -- no reason.
  pub judge_row-eligible :
      let row = judge_row now min_stars days excluded r in
      (row.is_eligible
        ≡ (if is_final r.eligibility_reason then r.is_eligible else not listed && told.0))
      × (row.eligibility_reason ≡ (
          if is_final r.eligibility_reason
          then r.eligibility_reason
          else some (join_reasons (text_if listed (ascii "excluded") ++ map reason_text told.1))))
  unfolding judge_row eligible
  judge_row-eligible =
      let reason = join_reasons (judged_reasons now min_stars days excluded r) in
      let same = judged_same now min_stars days excluded r in
      final_or_judged (is_final r.eligibility_reason) r
        (if same_bool r.is_eligible (is_empty reason) && same_reason r.eligibility_reason reason
          then r
          else record r { is_eligible = is_empty reason; eligibility_reason = some reason })
        (not listed && told.0)
        (join_reasons (text_if listed (ascii "excluded") ++ map reason_text told.1))
        (let (a, b) = written_row r (is_empty reason) reason in
          (
            a ∙ (ap (λ ts. is_empty (join_reasons ts)) same ∙ empty_reasons listed told.1),
            b ∙ ap (λ ts. some (join_reasons ts)) same,
          ))
