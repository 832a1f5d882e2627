-- ===== src/Worker/Limiter/Fairness.antt =====
-- The order in which the limiter (limiter.go) grants slots, and how many are ever in use.
use skill_issues.Prelude.{
  ℕ, zero, suc, ◌+◌, ◌≤◌, ◌<◌, max, ◌≡◌, refl, List, [], ◌∷◌, ◌++◌, ◌-◌, ◌∙◌, ◌==◌, arith, length,
  take, drop, Bool-cases, inl, inr, contains,
}
use skill_issues.Prelude.Int.{ℤ}
use skill_issues.Worker.Limiter.{
  Limiter, new_limiter, release, set_limit, admit_loop, admit_locked, give_back, at_least_one,
}
use skill_issues.Worker.Limiter.Admit.{woken-admit_loop, used-admit_loop-le}
use skill_issues.Worker.Limiter.System.{
  System, Step, enters, resumes, finishes, cancels, resizes, Reach, start, reachable-IsSound, enter,
  finish, cancel, resize, resume,
}

woken-admit_locked : (l : Limiter) → (admit_locked l).1 ++ (admit_locked l).0.waiters ≡ l.waiters
unfolding admit_locked
woken-admit_locked l = woken-admit_loop l.limit l.in_use l.waiters

give_back-waiters : (l : Limiter) → (give_back l).waiters ≡ l.waiters
give_back-waiters l = ground arith

-- A release and a change of the limit wake callers from the front of the queue, in its order, and
-- leave the others as they stood.
pub wakes_in_order :
    (l : Limiter) (limit : ℤ)
    → ((release l).1 ++ (release l).0.waiters ≡ l.waiters)
      × ((set_limit l limit).1 ++ (set_limit l limit).0.waiters ≡ l.waiters)
unfolding release set_limit
wakes_in_order l limit = (
  woken-admit_locked (give_back l) ∙ give_back-waiters l,
  elim (Bool-cases (l.limit == at_least_one limit)) [
    | inl same ↦ rw (same, set_limit)
    | inr other ↦
        rw (other, set_limit) (woken-admit_locked (record l { limit = at_least_one limit }))
  ],
)

admit_none :
    (limit used : ℕ) (ws : List ℕ)
    → limit ≤ used
    → admit_loop limit used ws ≡ record { used = used; still = ws; woken = [] }
unfolding admit_loop
admit_none limit used [] h = refl
admit_none limit used (ch ∷ ws) h = ground arith

admit_one :
    (limit used ch : ℕ) (ws : List ℕ)
    → suc used ≡ limit
    → admit_loop limit used (ch ∷ ws) ≡ record { used = suc used; still = ws; woken = ch ∷ [] }
unfolding admit_loop
admit_one limit used ch ws h = ground (arith, admit_none limit (suc used) ws)

release_full :
    (l : Limiter) (ch : ℕ) (rest : List ℕ)
    → 0 < l.limit
    → l.in_use ≡ l.limit
    → l.waiters ≡ ch ∷ rest
    → release l ≡ (record l { waiters = rest }, ch ∷ [])
unfolding release
release_full l ch rest positive full queue =
    ground (arith, admit_one l.limit (l.in_use - 1) ch rest)

-- `n` releases one after the other, with all that they wake.
unfoldable pub release_times : ℕ → Limiter → Limiter × List ℕ
release_times zero l = (l, [])
release_times (suc n) l =
    let (l', woken) = release l in let (l'', later) = release_times n l' in (l'', woken ++ later)

release_times_of_queue :
    (n : ℕ) (l : Limiter) (ws : List ℕ)
    → 0 < l.limit
    → l.in_use ≡ l.limit
    → l.waiters ≡ ws
    → n ≤ length ws
    → release_times n l ≡ (record l { waiters = drop n ws }, take n ws)
unfolding release_times
release_times_of_queue zero l ws positive full queue room = rw (← queue)
release_times_of_queue (suc n) l [] positive full queue room = absurd (omega arith)
release_times_of_queue (suc n) l (ch ∷ rest) positive full queue room =
    rw (release_full l ch rest positive full queue) (
      rw (
        release_times_of_queue n (record l { waiters = rest }) rest positive full refl
          (omega arith)))

-- From a limiter with every slot in use, `n` releases wake the first `n` callers of the queue, in
-- its order, if there are so many: a caller at position k waits for k + 1 releases and no longer.
pub release_times-wakes :
    (n : ℕ) (l : Limiter)
    → 0 < l.limit
    → l.in_use ≡ l.limit
    → n ≤ length l.waiters
    → release_times n l ≡ (record l { waiters = drop n l.waiters }, take n l.waiters)
release_times-wakes n l positive full room =
    release_times_of_queue n l l.waiters positive full refl room

in_use-admit_locked :
    (l : Limiter)
    → ((admit_locked l).0.in_use ≤ max l.in_use l.limit) × ((admit_locked l).0.limit ≡ l.limit)
unfolding admit_locked
in_use-admit_locked l = (used-admit_loop-le l.limit l.in_use l.waiters, refl)

give_back-le : (l : Limiter) → ((give_back l).in_use ≤ l.in_use) × ((give_back l).limit ≡ l.limit)
give_back-le l = ground arith

enter-in_use :
    (s : System) (ch : ℕ) → (enter s ch).core.in_use ≤ max s.core.in_use (enter s ch).core.limit
unfolding enter
enter-in_use s ch = ground arith

finish-in_use :
    (s : System) (ch : ℕ) → (finish s ch).core.in_use ≤ max s.core.in_use (finish s ch).core.limit
unfolding finish
finish-in_use s ch = omega (arith, in_use-admit_locked (give_back s.core), give_back-le s.core)

cancel-in_use :
    (s : System) (ch : ℕ) → (cancel s ch).core.in_use ≤ max s.core.in_use (cancel s ch).core.limit
unfolding cancel
cancel-in_use s ch = elim (Bool-cases (contains s.core.waiters ch)) [
  | inl queued ↦ rw (queued, cancel) (omega arith)
  | inr gone ↦
      rw (gone, cancel) (omega (arith, in_use-admit_locked (give_back s.core), give_back-le s.core))
]

resize-in_use :
    (s : System) (limit : ℤ)
    → (resize s limit).core.in_use ≤ max s.core.in_use (resize s limit).core.limit
unfolding resize
resize-in_use s limit = elim (Bool-cases (s.core.limit == at_least_one limit)) [
  | inl same ↦ rw (same, resize) (omega arith)
  | inr other ↦
      rw (other, resize)
        (omega (arith, in_use-admit_locked (record s.core { limit = at_least_one limit })))
]

-- No step takes the slots in use above both their number before the step and the limit after it:
-- a lowered limit admits nobody until usage has fallen under it.
pub Step-in_use : {s t : System} → Step s t → t.core.in_use ≤ max s.core.in_use t.core.limit
unfolding resume
Step-in_use {s} (enters ch) = enter-in_use s ch
Step-in_use {s} (resumes ch m) = omega arith
Step-in_use {s} (finishes ch m) = finish-in_use s ch
Step-in_use {s} (cancels ch m) = cancel-in_use s ch
Step-in_use {s} (resizes limit) = resize-in_use s limit

-- A run in which no limit passes `cap`.
pub data ReachWithin (cap : ℕ) (s : System) : System → Type 0 where
  here : ReachWithin cap s s
  next : {t u : System} → ReachWithin cap s t → Step t u → u.core.limit ≤ cap → ReachWithin cap s u

within-Reach : {cap : ℕ} {s t : System} → ReachWithin cap s t → Reach s t
within-Reach ReachWithin.here = Reach.here
within-Reach (ReachWithin.next r st fits) = Reach.next (within-Reach r) st

ReachWithin-in_use :
    {cap : ℕ} {s t : System} → ReachWithin cap s t → s.core.in_use ≤ cap → t.core.in_use ≤ cap
ReachWithin-in_use here h = h
ReachWithin-in_use (next r st fits) h = omega (arith, Step-in_use st, ReachWithin-in_use r h)

-- From a new limiter on, when the limit is at most `cap` after every step, the callers that run and
-- those that are woken and about to run are together no more than `cap`.
pub ReachWithin-running :
    {cap : ℕ} {t : System} (limit : ℤ)
    → ReachWithin cap (start limit) t
    → length t.running + length t.woken ≤ cap
unfolding new_limiter
ReachWithin-running limit r =
    let sound = reachable-IsSound limit (within-Reach r) in
    omega (arith, sound.counted, ReachWithin-in_use r (omega arith))
