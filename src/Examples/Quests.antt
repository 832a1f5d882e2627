-- ===== src/Examples/Quests.antt =====
-- Quests, badges and the streak of small ledgers.
use skill_issues.Prelude.{ℕ, List, ◌++◌, ◌*◌, ◌+◌, ◌≡◌, refl, none, some, [], ◌∷◌, All, map}
use skill_issues.Prelude.Int.{pos}
use skill_issues.Prelude.Sort.{sort_stable}
use skill_issues.Prelude.Text.{Text, ascii}
use skill_issues.Prelude.Time.{Time, day_ns, month_of}
use skill_issues.Xp.{merged}
use skill_issues.Xp.Plan.Merges.{zero_detail}
use skill_issues.Xp.Quests.{
  Event, quests, quest_awards, QuestProgress, walk_events, quest_step, count_merge,
}
use skill_issues.Xp.Quests.Progress.{IsTold, quests-IsTold}
use skill_issues.Xp.Quests.Awards.{keys, quest_awards-rerun}
use skill_issues.Examples.Xp.{rules}
use skill_issues.Prelude.{true, arith, ◌≤◌}
use skill_issues.Xp.Summary.{
  summarise, ledger_state, badge_defs, walk_ledger, summary_step, count_event, earn_all,
}
use skill_issues.Xp.Summary.Told.{AllEarned, AreDistinct, summarise-badges}
use skill_issues.Xp.Summary.Streaks.{summarise-streak}

abbrev merge : Time → ℕ → Text → Event
merge t repo language = record {
  source = merged;
  key = [];
  amount = pos 100;
  detail = record zero_detail { repository_id = repo; language = language };
  earned_at = t;
}

abbrev ledger : List Event
ledger =
    merge (739300 * day_ns + 3) 2 (ascii "Rust")
    ∷ merge (739300 * day_ns + 1) 1 (ascii "Go")
    ∷ merge (739300 * day_ns + 2) 1 (ascii "Go")
    ∷ []

done_times :
    map (λ (p : QuestProgress). p.done_at) (quests ledger)
    ≡ some (739300 * day_ns + 1)
      ∷ none
      ∷ none
      ∷ some (739300 * day_ns + 3)
      ∷ none
      ∷ some (739300 * day_ns + 3)
      ∷ none
      ∷ []
unfolding quests walk_events quest_step count_merge sort_stable month_of
done_times = refl

quests-IsTold_example : All IsTold (quests ledger)
quests-IsTold_example = quests-IsTold ledger

quest_awards-rerun_example :
    quest_awards rules ledger ([] ++ keys (quest_awards rules ledger [])) ≡ []
quest_awards-rerun_example = quest_awards-rerun rules ledger []

abbrev two_weeks : List Event
two_weeks = merge (739300 * day_ns) 1 (ascii "Go") ∷ merge (739307 * day_ns) 1 (ascii "Go") ∷ []

abbrev guess : ℕ → ℕ → ℕ
guess total step = 1

streak_of_two :
    (summarise guess two_weeks (pos 100) (739308 * day_ns)).streak
    ≡ record { current = 2; best = 2; this_week = true }
unfolding summarise walk_ledger summary_step count_event earn_all sort_stable
streak_of_two = refl

summarise-badges_example :
    AllEarned
      (badge_defs guess (pos 100))
      (ledger_state guess two_weeks (pos 100)).walk
      (summarise guess two_weeks (pos 100) (739308 * day_ns)).badges
    × AreDistinct (summarise guess two_weeks (pos 100) (739308 * day_ns)).badges
summarise-badges_example =
    summarise-badges guess two_weeks (pos 100) (739308 * day_ns) (omega arith)

summarise-streak_example :
    ((summarise guess two_weeks (pos 100) (739308 * day_ns)).streak.current
      ≤ (summarise guess two_weeks (pos 100) (739308 * day_ns)).streak.best)
    × ((summarise guess two_weeks (pos 100) (739308 * day_ns)).streak.best
        ≤ (summarise guess two_weeks (pos 100) (739308 * day_ns)).merges)
summarise-streak_example = summarise-streak guess two_weeks (pos 100) (739308 * day_ns)
