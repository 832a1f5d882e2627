-- ===== src/Xp/Plan/Rerun/Rows.antt =====
-- What the ledger's rows say once rows are added (the maps of Plan, backend/internal/xp/xp.go).
use skill_issues.Prelude.{ℕ, ◌≡◌, refl, ◌||◌, none, List, [], ◌∷◌, ◌++◌, arith, contains}
use skill_issues.Xp.{Paid, Source}
use skill_issues.Xp.Plan.Ledger.{is_paid, find_paid, opened_issues}

pub is_paid-append :
    (ps qs : List Paid) (s : Source) (id : ℕ)
    → is_paid (ps ++ qs) s id ≡ (is_paid ps s id || is_paid qs s id)
is_paid-append [] qs s id = refl
is_paid-append (p ∷ ps) qs s id = ground (arith, is_paid-append ps qs s id)

pub contains-opened_issues-append :
    (ps qs : List Paid) (id : ℕ)
    → contains (opened_issues (ps ++ qs)) id
      ≡ (contains (opened_issues ps) id || contains (opened_issues qs) id)
contains-opened_issues-append [] qs id = refl
contains-opened_issues-append (p ∷ ps) qs id =
    ground (arith, contains-opened_issues-append ps qs id)

-- Rows that are not found change no look-up.
pub find_paid-append_none :
    (ps qs : List Paid) (s : Source) (id : ℕ)
    → find_paid qs s id ≡ none
    → find_paid (ps ++ qs) s id ≡ find_paid ps s id
find_paid-append_none [] qs s id h = h
find_paid-append_none (p ∷ ps) qs s id h = ground (arith, find_paid-append_none ps qs s id h)
