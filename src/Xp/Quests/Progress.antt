-- ===== src/Xp/Quests/Progress.antt =====
-- When a quest of backend/internal/xp/quests.go is done.
use skill_issues.Prelude.{
  ℕ, ◌≤◌, min, ◌≡◌, refl, sym, ◌∙◌, Bool, true, false, Option, none, some, List, [], ◌∷◌, map,
  arith, leb, leb→le, le→leb, if_cases, All,
}
use skill_issues.Prelude.Sort.{sort_stable}
use skill_issues.Prelude.Time.{Time}
use skill_issues.Xp.{merged, source_eq}
use skill_issues.Xp.Quests.{
  Event, Quest, first_merge_here, claimed_and_done, docs_fix, two_languages, three_repos,
  three_in_a_month, backlog_dive, QuestWalk, need, have, count_merge, Reached, at_or, note,
  QuestState, quest_step, walk_events, start_state, QuestProgress, progress_of, quests,
  earned_before,
}

abbrev pub is_some : Option Time → Bool
is_some none = false
is_some (some t) = true

-- No quest goes back.
have-count_merge : (q : Quest) (e : Event) (w : QuestWalk) → have q w ≤ have q (count_merge e w)
unfolding count_merge
have-count_merge first_merge_here e w = omega arith
have-count_merge claimed_and_done e w = ground arith
have-count_merge docs_fix e w = ground arith
have-count_merge two_languages e w = ground arith
have-count_merge three_repos e w = ground arith
have-count_merge three_in_a_month e w = ground arith
have-count_merge backlog_dive e w = ground arith

-- A quest has its time exactly when the walk has what it needs.
abbrev Agrees : QuestWalk → Reached → Type 0
Agrees w d = is_some d.done_at ≡ leb (need d.quest) (have d.quest w)

at_or-agrees :
    (o : Option Time) (before after : Bool) (now : Time)
    → (before ≡ true → after ≡ true)
    → is_some o ≡ before
    → is_some (at_or o after now) ≡ after
at_or-agrees (some t) before after now keeps h = sym (keeps (sym h))
at_or-agrees none before true now keeps h = refl
at_or-agrees none before false now keeps h = refl

All-note :
    (e : Event) (w : QuestWalk) (out : List Reached)
    → All (Agrees w) out
    → All (Agrees (count_merge e w)) (map (note e (count_merge e w)) out)
All-note e w [] h = tt
All-note e w (d ∷ ds) h = (
  at_or-agrees d.done_at (leb (need d.quest) (have d.quest w))
      (leb (need d.quest) (have d.quest (count_merge e w))) e.earned_at
      (λ full.
        le→leb (need d.quest) (have d.quest (count_merge e w)) (
          omega (arith, leb→le (need d.quest) (have d.quest w) full, have-count_merge d.quest e w)))
      h.0,
  All-note e w ds h.1,
)

Agrees-step :
    (e : Event) (s : QuestState)
    → All (Agrees s.walk) s.out
    → All (Agrees (quest_step e s).walk) (quest_step e s).out
unfolding quest_step
Agrees-step e s h =
    let w = count_merge e s.walk in
    if_cases (λ (r : QuestState). All (Agrees r.walk) r.out) (source_eq e.source merged)
      (record { walk = w; out = map (note e w) s.out }) s (λ counted. All-note e s.walk s.out h)
      (λ skipped. h)

Agrees-walk :
    (es : List Event) (s : QuestState)
    → All (Agrees s.walk) s.out
    → All (Agrees (walk_events es s).walk) (walk_events es s).out
unfolding walk_events
Agrees-walk [] s h = h
Agrees-walk (e ∷ es) s h = Agrees-walk es (quest_step e s) (Agrees-step e s h)

-- What a profile shows of a quest: its time is there exactly when it shows all that is needed.
abbrev pub IsTold : QuestProgress → Type 0
IsTold p = (is_some p.done_at ≡ leb p.need_in_all p.have_now) × (p.have_now ≤ p.need_in_all)

leb-min : (n m : ℕ) → leb n (min m n) ≡ leb n m
leb-min n m = ground arith

All-progress :
    (w : QuestWalk) (out : List Reached) → All (Agrees w) out → All IsTold (map (progress_of w) out)
All-progress w [] h = tt
All-progress w (d ∷ ds) h =
    ((h.0 ∙ sym (leb-min (need d.quest) (have d.quest w)), omega arith), All-progress w ds h.1)

-- Whatever the ledger holds and in whatever order its rows are given, each quest has a completion
-- time exactly when its progress is full, and its progress never shows more than it needs.
pub quests-IsTold : (events : List Event) → All IsTold (quests events)
unfolding quests
quests-IsTold events =
    let sorted = sort_stable earned_before events in
    let s = walk_events sorted start_state in
    All-progress s.walk s.out
      (Agrees-walk sorted start_state (refl, (refl, (refl, (refl, (refl, (refl, (refl, tt))))))))
