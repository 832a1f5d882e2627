-- ===== src/Ingest/Queue.antt =====
-- The crawl queue (backend/internal/ingest/queue.go): the tables `ingest_jobs` and `repositories` are
-- lists of rows, and a statement, or a transaction, is one function on them. `now` is the database's
-- clock; a column that may be NULL is an option.
pub mod Writes
pub mod Enqueue
pub mod Steps
pub mod OneActive
pub mod Claims
pub mod Finishes
pub mod Keeps
pub mod Interleavings
pub mod Leased
pub mod Exclusive
pub mod Fencing
use skill_issues.Prelude.{
  ℕ, suc, ◌+◌, Bool, true, false, not, ◌&&◌, ◌||◌, Option, none, some, List, [], ◌∷◌, map, ltb, leb,
  ◌==◌, if◌then◌else◌, keep, any, take, contains,
}
use skill_issues.Prelude.Int.{ℤ, pos, negsuc}
use skill_issues.Prelude.Sort.{sort_stable}
use skill_issues.Prelude.Text.{Text}
use skill_issues.Prelude.Time.{Time}

pub data JobType : Type 0 where
  initial deep : JobType

pub data Status : Type 0 where
  pending running done failed : Status

pub record Repo : Type 0 where
  pub id : ℕ
  pub is_eligible : Bool
  pub eligibility_reason : Option Text
  pub last_synced_at : Option Time
  pub issues_synced_through : Option Time

pub record JobRow : Type 0 where
  pub id : ℕ
  pub repository_id : ℕ
  pub job_type : JobType
  pub status : Status
  pub attempt_count : ℕ
  pub lease_owner : Option ℕ
  pub lease_expires_at : Option Time
  pub next_retry_at : Option Time
  pub cursor : Option Text
  pub closed_cursor : Option Text
  pub pages_done : ℕ
  pub open_done : Bool
  pub closed_done : Bool
  pub has_next_page : Bool
  pub since : Option Time
  pub pass_started_at : Option Time
  pub last_error_class : Option Text
  pub last_error_detail : Option Text

-- `next_id` is the sequence behind the primary key.
pub record Store : Type 0 where
  pub repos : List Repo
  pub jobs : List JobRow
  pub next_id : ℕ

-- What a worker is given of a row that it claimed.
pub record Job : Type 0 where
  pub id : ℕ
  pub repository_id : ℕ
  pub job_type : JobType
  pub cursor : Option Text
  pub pages_done : ℕ
  pub attempt_count : ℕ
  pub since : Option Time
  pub pass_started_at : Option Time
  pub closed_cursor : Option Text
  pub open_done : Bool
  pub closed_done : Bool
  pub lease_owner : ℕ

abbrev pub type_eq : JobType → JobType → Bool
type_eq initial initial = true
type_eq deep deep = true
type_eq initial deep = false
type_eq deep initial = false

abbrev pub is_pending : Status → Bool
is_pending pending = true
is_pending running = false
is_pending done = false
is_pending failed = false

abbrev pub is_running : Status → Bool
is_running running = true
is_running pending = false
is_running done = false
is_running failed = false

abbrev pub owned_by : Option ℕ → ℕ → Bool
owned_by none owner = false
owned_by (some o) owner = o == owner

-- `next_retry_at IS NULL OR next_retry_at <= now()`
abbrev pub is_due : Time → Option Time → Bool
is_due now none = true
is_due now (some t) = leb t now

-- An eligible repository of that id exists.
abbrev pub eligible_repo : List Repo → ℕ → Bool
eligible_repo repos id = any (λ (r : Repo). r.id == id && r.is_eligible) repos

abbrev pub claimable : Time → JobType → List Repo → JobRow → Bool
claimable now kind repos j =
    type_eq j.job_type kind
    && (is_pending j.status && (is_due now j.next_retry_at && eligible_repo repos j.repository_id))

-- ORDER BY next_retry_at NULLS FIRST, id.
abbrev pub retry_before : JobRow → JobRow → Option Time → Option Time → Bool
retry_before a b none none = ltb a.id b.id
retry_before a b none (some t) = true
retry_before a b (some s) none = false
retry_before a b (some s) (some t) = if ltb s t then true else s == t && ltb a.id b.id

abbrev pub claimed_before : JobRow → JobRow → Bool
claimed_before a b = retry_before a b a.next_retry_at b.next_retry_at

abbrev pub at_least_one : ℤ → ℕ
at_least_one (pos n) = if ltb 0 n then n else 1
at_least_one (negsuc n) = 1

-- UPDATE … WHERE: every row that matches is set.
abbrev pub update_rows : (JobRow → Bool) → (JobRow → JobRow) → List JobRow → List JobRow
update_rows matches set jobs = map (λ j. if matches j then set j else j) jobs

abbrev pub lease : ℕ → Time → JobRow → JobRow
lease owner until_at j = record j {
  status = running;
  lease_owner = some owner;
  lease_expires_at = some until_at;
}

abbrev pub job_of : ℕ → JobRow → Job
job_of owner j = record {
  id = j.id;
  repository_id = j.repository_id;
  job_type = j.job_type;
  cursor = j.cursor;
  pages_done = j.pages_done;
  attempt_count = j.attempt_count;
  since = j.since;
  pass_started_at = j.pass_started_at;
  closed_cursor = j.closed_cursor;
  open_done = j.open_done;
  closed_done = j.closed_done;
  lease_owner = owner;
}

abbrev pub row_ids : List JobRow → List ℕ
row_ids jobs = map (λ (j : JobRow). j.id) jobs

-- The rows of the inner SELECT: a row that another transaction has locked is skipped.
unfoldable pub select_claims : Time → JobType → ℤ → (JobRow → Bool) → Store → List JobRow
select_claims now kind limit locked s =
    take (at_least_one limit) (
      sort_stable claimed_before
        (keep (λ j. claimable now kind s.repos j && not (locked j)) s.jobs))

-- `ClaimJobs`, but for the names of the repositories that it fills in.
unfoldable pub claim_jobs : Time → JobType → ℤ → ℕ → ℕ → (JobRow → Bool) → Store → Store × List Job
unfolding select_claims
claim_jobs now kind limit owner lease_time locked s =
    let claimed = select_claims now kind limit locked s in
    let ids = row_ids claimed in
    (
      record s {
        jobs = update_rows (λ j. contains ids j.id) (lease owner (now + lease_time)) s.jobs;
      },
      map (job_of owner) claimed,
    )

-- `lease_expires_at IS NOT NULL AND lease_expires_at < now()`
abbrev pub has_lapsed : Time → Option Time → Bool
has_lapsed now none = false
has_lapsed now (some t) = ltb t now

abbrev pub give_up : JobRow → JobRow
give_up j = record j { status = pending; lease_owner = none; lease_expires_at = none }

-- `ReclaimExpiredLeases`.
unfoldable pub reclaim_expired : Time → Store → Store
reclaim_expired now s = record s {
  jobs = update_rows (λ j. is_running j.status && has_lapsed now j.lease_expires_at) give_up s.jobs;
}
