-- ===== src/Xp/Quests.antt =====
-- `Quests` and `QuestAwards` (backend/internal/xp/quests.go). A set is the list of what was added to
-- it, each once; a month's count is the number of its merges.
pub mod Progress
pub mod Awards
use skill_issues.Prelude.{
  ℕ, suc, ◌+◌, min, max, Bool, true, false, not, ◌&&◌, Option, none, some, List, [], ◌∷◌, map, ltb,
  leb, ◌==◌, if◌then◌else◌, length, contains,
}
use skill_issues.Prelude.Int.{ℤ, pos}
use skill_issues.Prelude.Sort.{sort_stable}
use skill_issues.Prelude.Text.{Text, ascii, is_empty, contains_elem}
use skill_issues.Prelude.Time.{Time, month_of}
use skill_issues.Xp.{Source, merged, Detail, Rules, source_eq}

-- One ledger row.
pub record Event : Type 0 where
  pub source : Source
  pub key : Text
  pub amount : ℤ
  pub detail : Detail
  pub earned_at : Time

pub data Quest : Type 0 where
  first_merge_here claimed_and_done docs_fix two_languages three_repos three_in_a_month
        backlog_dive :
      Quest

pub record QuestWalk : Type 0 where
  pub merges : ℕ
  pub languages : List Text
  pub repos : List ℕ
  pub docs : ℕ
  pub backlog : ℕ
  pub claimed : ℕ
  pub months : List ℕ
  pub best_month : ℕ

abbrev pub start_walk : QuestWalk
start_walk = record {
  merges = 0;
  languages = [];
  repos = [];
  docs = 0;
  backlog = 0;
  claimed = 0;
  months = [];
  best_month = 0;
}

abbrev pub need : Quest → ℕ
need first_merge_here = 1
need claimed_and_done = 1
need docs_fix = 1
need two_languages = 2
need three_repos = 3
need three_in_a_month = 3
need backlog_dive = 1

abbrev pub have : Quest → QuestWalk → ℕ
have first_merge_here w = w.merges
have claimed_and_done w = w.claimed
have docs_fix w = w.docs
have two_languages w = length w.languages
have three_repos w = length w.repos
have three_in_a_month w = w.best_month
have backlog_dive w = w.backlog

-- `questDefs`, in display order.
abbrev pub quest_defs : List Quest
quest_defs =
    first_merge_here ∷ claimed_and_done ∷ docs_fix ∷ two_languages ∷ three_repos ∷ three_in_a_month
    ∷ backlog_dive ∷ []

abbrev pub add_language : Text → List Text → List Text
add_language t ts = if is_empty t then ts else if contains_elem ts t then ts else t ∷ ts

abbrev pub add_repo : ℕ → List ℕ → List ℕ
add_repo r rs = if contains rs r then rs else r ∷ rs

abbrev pub count_if : Bool → ℕ → ℕ
count_if b n = if b then suc n else n

-- How often a month is in the list.
abbrev pub merges_in : ℕ → List ℕ → ℕ
merges_in m [] = 0
merges_in m (x ∷ xs) = let rest = merges_in m xs in if x == m then suc rest else rest

-- What the walk counts of one merge.
unfoldable pub count_merge : Event → QuestWalk → QuestWalk
unfolding month_of
count_merge e w =
    let d = e.detail in
    let months = month_of e.earned_at ∷ w.months in
    record {
      merges = suc w.merges;
      languages = add_language d.language w.languages;
      repos = add_repo d.repository_id w.repos;
      docs = count_if d.docs w.docs;
      backlog = count_if (ltb 0 d.backlog) w.backlog;
      claimed = count_if d.claimed w.claimed;
      months = months;
      best_month = max w.best_month (merges_in (month_of e.earned_at) months);
    }

pub record Reached : Type 0 where
  pub quest : Quest
  pub done_at : Option Time

-- `if out[i].DoneAt == nil && q.have(w) >= q.need { … }`
abbrev pub at_or : Option Time → Bool → Time → Option Time
at_or (some t) reached now = some t
at_or none reached now = if reached then some now else none

abbrev pub note : Event → QuestWalk → Reached → Reached
note e w d = record d {
  done_at = at_or d.done_at (leb (need d.quest) (have d.quest w)) e.earned_at;
}

pub record QuestState : Type 0 where
  pub walk : QuestWalk
  pub out : List Reached

-- One pass of the loop over the ledger's rows.
unfoldable pub quest_step : Event → QuestState → QuestState
unfolding count_merge
quest_step e s =
    if source_eq e.source merged
    then (let w = count_merge e s.walk in record { walk = w; out = map (note e w) s.out })
    else s

unfoldable pub walk_events : List Event → QuestState → QuestState
unfolding quest_step
walk_events [] s = s
walk_events (e ∷ es) s = walk_events es (quest_step e s)

abbrev pub start_state : QuestState
start_state = record {
  walk = start_walk;
  out = map (λ q. record { quest = q; done_at = none }) quest_defs;
}

pub record QuestProgress : Type 0 where
  pub quest : Quest
  pub have_now : ℕ
  pub need_in_all : ℕ
  pub done_at : Option Time

abbrev pub progress_of : QuestWalk → Reached → QuestProgress
progress_of w d = record {
  quest = d.quest;
  have_now = min (have d.quest w) (need d.quest);
  need_in_all = need d.quest;
  done_at = d.done_at;
}

abbrev pub earned_before : Event → Event → Bool
earned_before a b = ltb a.earned_at b.earned_at

unfoldable pub quests : List Event → List QuestProgress
unfolding walk_events
quests events =
    let s = walk_events (sort_stable earned_before events) start_state in
    map (progress_of s.walk) s.out

abbrev pub quest_key : Quest → Text
quest_key first_merge_here = ascii "quest:first_merge_here"
quest_key claimed_and_done = ascii "quest:claimed_and_done"
quest_key docs_fix = ascii "quest:docs_fix"
quest_key two_languages = ascii "quest:two_languages"
quest_key three_repos = ascii "quest:three_repos"
quest_key three_in_a_month = ascii "quest:three_in_a_month"
quest_key backlog_dive = ascii "quest:backlog_dive"

-- A quest's award: its key, amount and time; the source is `quest` and the detail is empty.
pub record QuestAward : Type 0 where
  pub key : Text
  pub amount : ℕ
  pub earned_at : Time

abbrev pub award_at : Option Time → Bool → ℕ → Quest → List QuestAward → List QuestAward
award_at none unpaid reward q rest = rest
award_at (some t) unpaid reward q rest =
    if unpaid && ltb 0 reward
    then record { key = quest_key q; amount = reward; earned_at = t } ∷ rest
    else rest

unfoldable pub awards_of : ℕ → List Text → List QuestProgress → List QuestAward
awards_of reward paid [] = []
awards_of reward paid (q ∷ qs) =
    award_at q.done_at (not (contains_elem paid (quest_key q.quest))) reward q.quest
      (awards_of reward paid qs)

unfoldable pub quest_awards : Rules → List Event → List Text → List QuestAward
unfolding quests awards_of
quest_awards r events paid = awards_of r.quest_reward paid (quests events)
