-- ===== src/Xp/Quests/Awards.antt =====
-- What quests pay (backend/internal/xp/quests.go), and that they pay once.
use skill_issues.Prelude.{
  ℕ, ◌≡◌, refl, ◌∙◌, Bool, true, false, not, ◌&&◌, ◌||◌, Option, none, some, List, [], ◌∷◌, ◌++◌,
  arith, ltb, if_cases, Bool-cases, inl, inr,
}
use skill_issues.Prelude.Text.{Text, contains_elem, text_eq, text_eq_refl}
use skill_issues.Prelude.Time.{Time}
use skill_issues.Xp.{Rules}
use skill_issues.Xp.Quests.{
  Event, Quest, QuestProgress, QuestAward, quest_key, award_at, awards_of, quest_awards, quests,
}

-- The ledger keys that a list of awards writes.
abbrev pub keys : List QuestAward → List Text
keys [] = []
keys (a ∷ as') = a.key ∷ keys as'

contains_elem-append :
    (xs ys : List Text) (t : Text)
    → contains_elem (xs ++ ys) t ≡ (contains_elem xs t || contains_elem ys t)
contains_elem-append [] ys t = refl
contains_elem-append (x ∷ xs) ys t = elim (Bool-cases (text_eq x t)) [
  | inl hit ↦ rw hit
  | inr miss ↦ rw miss (contains_elem-append xs ys t)
]

keeps_tail :
    (o : Option Time) (unpaid : Bool) (reward : ℕ) (q : Quest) (rest : List QuestAward) (t : Text)
    → contains_elem (keys rest) t ≡ true
    → contains_elem (keys (award_at o unpaid reward q rest)) t ≡ true
keeps_tail none unpaid reward q rest t h = h
keeps_tail (some at_time) unpaid reward q rest t h =
    let new : QuestAward = record { key = quest_key q; amount = reward; earned_at = at_time } in
    if_cases (λ xs. contains_elem (keys xs) t ≡ true) (unpaid && ltb 0 reward) (new ∷ rest) rest
      (λ pays.
        if_cases (λ b. b ≡ true) (text_eq (quest_key q) t) true (contains_elem (keys rest) t)
          (λ hit. refl) (λ miss. h))
      (λ none_paid. h)

-- A quest whose key the ledger holds where it was held or awarded leaves nothing to pay.
pays_none :
    (o : Option Time) (was is_now : Bool) (reward : ℕ) (q : Quest) (rest : List QuestAward)
    → (was ≡ true → is_now ≡ true)
    → (contains_elem (keys (award_at o (not was) reward q rest)) (quest_key q) ≡ true
        → is_now ≡ true)
    → award_at o (not is_now) reward q [] ≡ []
pays_none none was is_now reward q rest old new = refl
pays_none (some t) was true reward q rest old new = refl
pays_none (some t) true false reward q rest old new = ground (arith, old refl)
pays_none (some t) false false reward q rest old new = elim (Bool-cases (ltb 0 reward)) [
  | inl pays ↦ ground (arith, new (rw (pays, text_eq_refl (quest_key q))))
  | inr free ↦ rw free
]

-- The quests of `qs` that the ledger `known` leaves to pay: none.
abbrev Settled : ℕ → List Text → List QuestProgress → Type 0
Settled reward known qs = awards_of reward known qs ≡ []

-- A ledger that holds the old keys and the keys of what was awarded has nothing left to pay.
settled :
    (reward : ℕ) (paid known : List Text) (qs : List QuestProgress)
    → ((t : Text) → contains_elem paid t ≡ true → contains_elem known t ≡ true)
    → ((t : Text)
        → contains_elem (keys (awards_of reward paid qs)) t ≡ true
        → contains_elem known t ≡ true)
    → Settled reward known qs
unfolding awards_of
settled reward paid known [] old new = refl
settled reward paid known (q ∷ qs) old new =
    let rest = awards_of reward paid qs in
    rw
      (settled reward paid known qs old (λ t h. new t (
        keeps_tail q.done_at (not (contains_elem paid (quest_key q.quest))) reward q.quest rest t
          h)))
      (pays_none q.done_at (contains_elem paid (quest_key q.quest))
        (contains_elem known (quest_key q.quest)) reward q.quest rest (old (quest_key q.quest))
        (new (quest_key q.quest)))

or_left : (a b : Bool) → a ≡ true → (a || b) ≡ true
or_left true b h = refl
or_left false b h = ground (arith, h)

or_right : (a b : Bool) → b ≡ true → (a || b) ≡ true
or_right true b h = refl
or_right false b h = h

-- A quest is paid once: with the keys of its awards written to the ledger, the same rows award
-- nothing more, whatever the reward and whichever quests were paid before.
pub quest_awards-rerun :
    (r : Rules) (events : List Event) (paid : List Text)
    → quest_awards r events (paid ++ keys (quest_awards r events paid)) ≡ []
unfolding quest_awards
quest_awards-rerun r events paid =
    let written = keys (awards_of r.quest_reward paid (quests events)) in
    settled r.quest_reward paid (paid ++ written) (quests events)
      (λ t h.
        contains_elem-append paid written t
        ∙ or_left (contains_elem paid t) (contains_elem written t) h)
      (λ t h.
        contains_elem-append paid written t
        ∙ or_right (contains_elem paid t) (contains_elem written t) h)
