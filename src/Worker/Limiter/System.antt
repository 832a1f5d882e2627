-- ===== src/Worker/Limiter/System.antt =====
-- Callers of the limiter (limiter.go) as a step relation: each locked region of `Acquire`,
-- `Release`, `SetLimit` and `abandon` is one step, and the steps interleave in any order.
use skill_issues.Prelude.{
  ℕ, suc, ◌+◌, ◌≤◌, ◌<◌, ◌≡◌, true, ◌||◌, List, [], ◌∷◌, ◌++◌, arith, ◌==◌, append-nil, Bool-cases,
  inl, inr, length, length-append, length-remove, contains, remove, if◌then◌else◌,
}
use skill_issues.Prelude.Int.{ℤ}
use skill_issues.Worker.Limiter.{
  Limiter, new_limiter, acquire, release, set_limit, abandon, at_least_one, give_back, admit_loop,
  admit_locked,
}
use skill_issues.Worker.Limiter.Admit.{used-admit_loop, still-admit_loop}

-- `running` callers have returned from `Acquire`; the channel of a `woken` one is closed, and it
-- has not run yet.
pub record System : Type 0 where
  pub core : Limiter
  pub running : List ℕ
  pub woken : List ℕ

abbrev pub start : ℤ → System
start limit = record { core = new_limiter limit; running = []; woken = [] }

unfoldable pub enter : System → ℕ → System
unfolding acquire
enter s ch =
    let (l, granted) = acquire s.core ch in
    if granted then record s { core = l; running = ch ∷ s.running } else record s { core = l }

unfoldable pub finish : System → ℕ → System
unfolding release
finish s ch =
    let (l, admitted) = release s.core in
    record s { core = l; running = remove ch s.running; woken = s.woken ++ admitted }

-- `select` took `ctx.Done()`: the caller leaves the queue, or gives back the slot it was handed.
unfoldable pub cancel : System → ℕ → System
unfolding abandon
cancel s ch =
    let (l, admitted) = abandon s.core ch in
    if contains s.core.waiters ch
    then record s { core = l }
    else record s { core = l; woken = remove ch s.woken ++ admitted }

unfoldable pub resize : System → ℤ → System
unfolding set_limit
resize s limit =
    let (l, admitted) = set_limit s.core limit in record s { core = l; woken = s.woken ++ admitted }

unfoldable pub resume : System → ℕ → System
resume s ch = record s { running = ch ∷ s.running; woken = remove ch s.woken }

pub data Step (s : System) : System → Type 0 where
  enters : (ch : ℕ) → Step s (enter s ch)
  resumes : (ch : ℕ) → contains s.woken ch ≡ true → Step s (resume s ch)
  finishes : (ch : ℕ) → contains s.running ch ≡ true → Step s (finish s ch)
  cancels :
      (ch : ℕ) → (contains s.core.waiters ch || contains s.woken ch) ≡ true → Step s (cancel s ch)
  resizes : (limit : ℤ) → Step s (resize s limit)

pub data Reach (s : System) : System → Type 0 where
  here : Reach s s
  next : {t u : System} → Reach s t → Step t u → Reach s u

pub record IsSound (s : System) : Type 0 where
  pub positive : 1 ≤ s.core.limit
  -- every slot in use belongs to a caller that runs or is about to
  pub counted : s.core.in_use ≡ length s.running + length s.woken
  -- nobody waits while a slot is free
  pub busy : 0 < length s.core.waiters → s.core.limit ≤ s.core.in_use

pub start-IsSound : (limit : ℤ) → IsSound (start limit)
unfolding new_limiter
start-IsSound limit = ground arith

enter-IsSound : (s : System) (ch : ℕ) → IsSound s → IsSound (enter s ch)
unfolding enter
enter-IsSound s ch h = ground (arith, length-append s.core.waiters (ch ∷ []))

resume-IsSound :
    (s : System) (ch : ℕ) → contains s.woken ch ≡ true → IsSound s → IsSound (resume s ch)
unfolding resume
resume-IsSound s ch m h = ground (arith, length-remove ch s.woken m)

-- Every wake-up goes through `admitLocked`, which keeps the count and leaves no slot idle.
admit-IsSound :
    (l : Limiter) (running woken : List ℕ)
    → 1 ≤ l.limit
    → l.in_use ≡ length running + length woken
    → let (l', admitted) = admit_locked l in
      IsSound (record { core = l'; running = running; woken = woken ++ admitted })
unfolding admit_locked
admit-IsSound l running woken positive counted =
    let r = admit_loop l.limit l.in_use l.waiters in
    record {
      positive = positive;
      counted = omega (
        arith,
        used-admit_loop l.limit l.in_use l.waiters,
        length-append woken (admit_loop l.limit l.in_use l.waiters).woken,
      );
      busy = still-admit_loop l.limit l.in_use l.waiters;
    }

give_back-limit : (l : Limiter) → (give_back l).limit ≡ l.limit
give_back-limit l = ground arith

give_back-in_use : (l : Limiter) (n : ℕ) → l.in_use ≡ suc n → (give_back l).in_use ≡ n
give_back-in_use l n h = ground arith

finish-IsSound :
    (s : System) (ch : ℕ) → contains s.running ch ≡ true → IsSound s → IsSound (finish s ch)
unfolding finish
finish-IsSound s ch m h =
    admit-IsSound (give_back s.core) (remove ch s.running) s.woken
      (omega (arith, h.positive, give_back-limit s.core))
      (give_back-in_use s.core (length (remove ch s.running) + length s.woken)
        (omega (arith, h.counted, length-remove ch s.running m)))

cancel-IsSound :
    (s : System) (ch : ℕ)
    → (contains s.core.waiters ch || contains s.woken ch) ≡ true
    → IsSound s
    → IsSound (cancel s ch)
unfolding cancel
cancel-IsSound s ch m h = elim (Bool-cases (contains s.core.waiters ch)) [
  | inl queued ↦
      rw (queued, cancel)
        (ground (arith, h.counted, h.busy, h.positive, length-remove ch s.core.waiters queued))
  | inr gone ↦
      rw (gone, cancel)
        (admit-IsSound (give_back s.core) s.running (remove ch s.woken)
          (omega (arith, h.positive, give_back-limit s.core))
          (give_back-in_use s.core (length s.running + length (remove ch s.woken))
            (omega (arith, h.counted, length-remove ch s.woken (ground arith)))))
]

at_least_one_positive : (limit : ℤ) → 1 ≤ at_least_one limit
at_least_one_positive limit = ground arith

resize-IsSound : (s : System) (limit : ℤ) → IsSound s → IsSound (resize s limit)
unfolding resize
resize-IsSound s limit h = elim (Bool-cases (s.core.limit == at_least_one limit)) [
  | inl same ↦ rw (same, resize) (rw append-nil h)
  | inr other ↦
      rw (other, resize)
        (admit-IsSound (record s.core { limit = at_least_one limit }) s.running s.woken
          (at_least_one_positive limit) h.counted)
]

pub Step-IsSound : {s t : System} → Step s t → IsSound s → IsSound t
Step-IsSound {s} (enters ch) h = enter-IsSound s ch h
Step-IsSound {s} (resumes ch m) h = resume-IsSound s ch m h
Step-IsSound {s} (finishes ch m) h = finish-IsSound s ch m h
Step-IsSound {s} (cancels ch m) h = cancel-IsSound s ch m h
Step-IsSound {s} (resizes limit) h = resize-IsSound s limit h

Reach-IsSound : {s t : System} → IsSound s → Reach s t → IsSound t
Reach-IsSound h here = h
Reach-IsSound h (next r st) = Step-IsSound st (Reach-IsSound h r)

-- However callers enter, resume, finish and cancel and the limit is changed, from a new limiter on
-- every slot in use belongs to a caller, nobody waits while a slot is free, and the limit is at
-- least 1.
pub reachable-IsSound : (limit : ℤ) {t : System} → Reach (start limit) t → IsSound t
reachable-IsSound limit r = Reach-IsSound (start-IsSound limit) r
