-- ===== src/Xp/Summary/Told.antt =====
-- What a profile's badges and streak owe to the ledger (backend/internal/xp/summary.go).
use skill_issues.Prelude.{
  ℕ, ◌<◌, ◌≡◌, refl, sym, ◌∙◌, subst, Bool, true, false, not, ◌&&◌, ◌||◌, List, [], ◌∷◌, ◌++◌,
  arith, if_cases, length, All, contains, Bool-cases, inl, inr,
}
use skill_issues.Prelude.Int.{ℤ}
use skill_issues.Prelude.Sort.{sort_stable, length-sort_stable}
use skill_issues.Prelude.Text.{Text, text_eq, text_eq_refl, text_eq_sound}
use skill_issues.Prelude.Time.{Time, week_of}
use skill_issues.Xp.Quests.{Event, earned_before}
use skill_issues.Xp.Summary.{
  Walk, BadgeDef, Badge, is_reached, earn, earn_all, SummaryState, start_summary, count_streak,
  count_details, add_amount, is_a_merge, count_event, summary_step, walk_ledger, badge_defs,
  ledger_state, summarise,
}

is_reached-append :
    (bs cs : List Badge) (k : Text) → is_reached (bs ++ cs) k ≡ (is_reached bs k || is_reached cs k)
is_reached-append [] cs k = refl
is_reached-append (b ∷ bs) cs k = elim (Bool-cases (text_eq b.key k)) [
  | inl hit ↦ rw hit
  | inr miss ↦ rw miss (is_reached-append bs cs k)
]

or_last : (b : Bool) → (b || true) ≡ true
or_last true = refl
or_last false = refl

already_there : (b r : Bool) → r ≡ true → (not b && r) ≡ false → b ≡ true
already_there true r e h = refl
already_there false r e h = ground (arith, e, h)

not_there : (b r : Bool) → (not b && r) ≡ true → b ≡ false
not_there true r h = ground (arith, h)
not_there false r h = refl

-- A badge stays, and one whose condition holds is earned.
earn-keeps :
    (w : Walk) (now : Time) (d : BadgeDef) (bs : List Badge) (k : Text)
    → is_reached bs k ≡ true
    → is_reached (earn w now d bs) k ≡ true
earn-keeps w now d bs k h =
    if_cases (λ xs. is_reached xs k ≡ true) (not (is_reached bs d.key) && d.reach w)
      (bs ++ (record { key = d.key; earned_at = now } ∷ [])) bs
      (λ new. is_reached-append bs (record { key = d.key; earned_at = now } ∷ []) k ∙ rw h)
      (λ old. h)

earn-told :
    (w : Walk) (now : Time) (d : BadgeDef) (bs : List Badge)
    → d.reach w ≡ true
    → is_reached (earn w now d bs) d.key ≡ true
earn-told w now d bs r =
    if_cases (λ xs. is_reached xs d.key ≡ true) (not (is_reached bs d.key) && d.reach w)
      (bs ++ (record { key = d.key; earned_at = now } ∷ [])) bs
      (λ new.
        is_reached-append bs (record { key = d.key; earned_at = now } ∷ []) d.key
        ∙ rw (text_eq_refl d.key) (or_last (is_reached bs d.key)))
      (λ old. already_there (is_reached bs d.key) (d.reach w) r old)

earn_all-keeps :
    (w : Walk) (now : Time) (ds : List BadgeDef) (bs : List Badge) (k : Text)
    → is_reached bs k ≡ true
    → is_reached (earn_all w now ds bs) k ≡ true
unfolding earn_all
earn_all-keeps w now [] bs k h = h
earn_all-keeps w now (d ∷ ds) bs k h =
    earn_all-keeps w now ds (earn w now d bs) k (earn-keeps w now d bs k h)

-- Every badge whose condition holds on the walk is in the list.
abbrev pub AllEarned : List BadgeDef → Walk → List Badge → Type 0
AllEarned ds w bs = All (λ (d : BadgeDef). d.reach w ≡ true → is_reached bs d.key ≡ true) ds

earn_all-AllEarned :
    (w : Walk) (now : Time) (ds : List BadgeDef) (bs : List Badge)
    → AllEarned ds w (earn_all w now ds bs)
unfolding earn_all
earn_all-AllEarned w now [] bs = tt
earn_all-AllEarned w now (d ∷ ds) bs = (
  (λ r. earn_all-keeps w now ds (earn w now d bs) d.key (earn-told w now d bs r)),
  earn_all-AllEarned w now ds (earn w now d bs),
)

-- No badge is in the list twice.
abbrev pub AreDistinct : List Badge → Type 0
AreDistinct [] = Unit
AreDistinct (b ∷ bs) = (is_reached bs b.key ≡ false) × AreDistinct bs

text_eq-false : (s t : Text) → text_eq s t ≡ false → text_eq t s ≡ false
text_eq-false s t h = elim (Bool-cases (text_eq t s)) [
  | inl same ↦
      ground
        (arith, h, subst (λ x. text_eq s x ≡ true) (sym (text_eq_sound t s same)) (text_eq_refl s))
  | inr other ↦ other
]

AreDistinct-append :
    (bs : List Badge) (b : Badge)
    → is_reached bs b.key ≡ false
    → AreDistinct bs
    → AreDistinct (bs ++ (b ∷ []))
AreDistinct-append [] b h d = (refl, tt)
AreDistinct-append (c ∷ cs) b h d = elim (Bool-cases (text_eq c.key b.key)) [
  | inl hit ↦ ground (arith, h, hit)
  | inr miss ↦ (
    is_reached-append cs (b ∷ []) c.key ∙ rw (d.0, text_eq-false c.key b.key miss),
    AreDistinct-append cs b (sym (rw miss) ∙ h) d.1,
  )
]

earn_all-AreDistinct :
    (w : Walk) (now : Time) (ds : List BadgeDef) (bs : List Badge)
    → AreDistinct bs
    → AreDistinct (earn_all w now ds bs)
unfolding earn_all
earn_all-AreDistinct w now [] bs h = h
earn_all-AreDistinct w now (d ∷ ds) bs h = earn_all-AreDistinct w now ds (earn w now d bs) (
    if_cases AreDistinct (not (is_reached bs d.key) && d.reach w)
      (bs ++ (record { key = d.key; earned_at = now } ∷ [])) bs
      (λ new.
        AreDistinct-append bs (record { key = d.key; earned_at = now })
          (not_there (is_reached bs d.key) (d.reach w) new) h)
      (λ old. h))

count_streak-badges : (week : ℕ) (s : SummaryState) → (count_streak week s).badges ≡ s.badges
count_streak-badges week s = elim (Bool-cases (contains s.weeks week)) [
  | inl seen ↦ rw seen
  | inr fresh ↦ rw fresh
]

count_event-badges : (e : Event) (s : SummaryState) → (count_event e s).badges ≡ s.badges
unfolding count_event
count_event-badges e s =
    let paid = add_amount e s in
    if_cases (λ (t : SummaryState). t.badges ≡ s.badges) (is_a_merge e)
      (count_streak (week_of e.earned_at) (record paid { walk = count_details e paid.walk })) paid
      (λ merge.
        count_streak-badges (week_of e.earned_at)
          (record paid { walk = count_details e paid.walk }))
      (λ other. refl)

walk_ledger-AreDistinct :
    (ds : List BadgeDef) (es : List Event) (s : SummaryState)
    → AreDistinct s.badges
    → AreDistinct (walk_ledger ds es s).badges
unfolding walk_ledger summary_step
walk_ledger-AreDistinct ds [] s h = h
walk_ledger-AreDistinct ds (e ∷ es) s h =
    let t = count_event e s in
    walk_ledger-AreDistinct ds es (summary_step ds e s) (
      earn_all-AreDistinct t.walk e.earned_at ds t.badges
        (subst AreDistinct (sym (count_event-badges e s)) h))

walk_ledger-AllEarned :
    (ds : List BadgeDef) (e : Event) (es : List Event) (s : SummaryState)
    → AllEarned ds (walk_ledger ds (e ∷ es) s).walk (walk_ledger ds (e ∷ es) s).badges
unfolding walk_ledger summary_step
walk_ledger-AllEarned ds e [] s =
    let t = count_event e s in earn_all-AllEarned t.walk e.earned_at ds t.badges
walk_ledger-AllEarned ds e (f ∷ es) s = walk_ledger-AllEarned ds f es (summary_step ds e s)

ledger_told :
    (ds : List BadgeDef) (es : List Event) (s : SummaryState)
    → 0 < length es
    → AllEarned ds (walk_ledger ds es s).walk (walk_ledger ds es s).badges
ledger_told ds [] s h = ground (arith, h)
ledger_told ds (e ∷ es) s h = walk_ledger-AllEarned ds e es s

-- A ledger with a row in it, in whatever order: every badge whose condition the whole ledger meets is
-- on the profile, and no badge is on it twice.
pub summarise-badges :
    (guess : ℕ → ℕ → ℕ) (events : List Event) (step : ℤ) (now : Time)
    → 0 < length events
    → AllEarned
        (badge_defs guess step)
        (ledger_state guess events step).walk
        (summarise guess events step now).badges
      × AreDistinct (summarise guess events step now).badges
unfolding summarise
summarise-badges guess events step now h = (
  ledger_told (badge_defs guess step) (sort_stable earned_before events) start_summary
      (omega (arith, h, length-sort_stable earned_before events)),
  walk_ledger-AreDistinct (badge_defs guess step) (sort_stable earned_before events) start_summary
      tt,
)
