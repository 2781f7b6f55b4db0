-- ===== src/Delivery.antt =====
-- src/federation/delivery.rs: the worker that delivers activities to other instances, and the retry of
-- src/federation/moderation.rs. The HTTP request (`deliver_job`) is a parameter: whether it succeeds.
pub mod Retry
pub mod Attempts
pub mod Url
use Prim.Native.Nat.{min}
use Prim.Native.String
use ppv_stream_rust.Prelude.{
  ℕ, ◌+◌, ◌-◌, ◌^◌, String, Bool, true, false, not, ◌&&◌, Option, none, some, List, [], ◌∷◌, ◌==◌,
  nat_eq, leb, or_else, if◌then◌else◌,
}
use ppv_stream_rust.Text.{strip_prefix, before, from_first}

-- `federation_delivery_jobs.status`
pub data JobStatus : Type 0 where
  queued processing delivered failed cancelled : JobStatus

pub record Job : Type 0 where
  pub id : ℕ
  pub activity_id : ℕ
  pub target_inbox_url : String
  pub attempt_count : ℕ
  pub max_attempts : ℕ
  pub next_attempt_at : ℕ
  pub status : JobStatus

-- The writes of the worker.
pub data Write : Type 0 where
  mark_blocked claim mark_delivered mark_processed record_failure mark_activity_failed : Write

-- The scheme of a URL taken off.
abbrev pub after_scheme : String → Option String
after_scheme url = elim (strip_prefix url "https://") [
  | some rest ↦ some rest
  | none ↦ strip_prefix url "http://"
]

-- The domain that the block rules are asked for, empty where the URL has no scheme.
abbrev pub target_domain : String → String
target_domain url = elim (after_scheme url) [ none ↦ "" | some rest ↦ before 47 rest ]

unfoldable pub parse_url_host_path : String → Option (String × String)
parse_url_host_path url = elim (after_scheme url) [
  | none ↦ none
  | some rest ↦
      let path = from_first 47 rest in some (before 47 rest, if path == "" then "/" else path)
]

-- `(2u64).saturating_pow(attempt as u32).min(3600)`
unfoldable pub compute_retry_delay_seconds : ℕ → ℕ
compute_retry_delay_seconds attempt = min (min (2 ^ attempt) (2 ^ 64 - 1)) 3600

-- Seconds on the clock, with a jitter of 0 to 30 that is drawn outside.
abbrev pub compute_next_retry : ℕ → ℕ → ℕ → ℕ
compute_next_retry now jitter attempt = now + (compute_retry_delay_seconds attempt + jitter)

-- What happens around one job: the clock, the jitter, which writes fail, the block rules and whether
-- the request succeeds.
pub record World : Type 0 where
  pub now : ℕ
  pub jitter : ℕ
  pub fails : Write → Bool
  pub is_domain_blocked : String → Bool
  pub deliver_job : Job → Bool

-- The failure of a delivery, written down.
unfoldable pub fail_job : World → Job → Job
fail_job w j =
    let next_attempt_count = j.attempt_count + 1 in
    let exhausted = leb j.max_attempts next_attempt_count in
    record j {
      status = if exhausted then JobStatus.failed else JobStatus.queued;
      attempt_count = next_attempt_count;
      next_attempt_at =
          if exhausted then w.now else compute_next_retry w.now w.jitter next_attempt_count;
    }

-- One turn of the loop of `process_due_jobs`: whether the loop goes on, and the job's row. A failing
-- write ends the loop.
unfoldable pub process_job : World → Job → Bool × Job
process_job w j =
    let domain = target_domain j.target_inbox_url in
    let claimed = record j { status = JobStatus.processing } in
    if not (domain == "") && w.is_domain_blocked domain
    then (if w.fails Write.mark_blocked
        then (false, j)
        else (true, record j { status = JobStatus.failed }))
    else if w.fails Write.claim
    then (false, j)
    else if w.deliver_job j
    then (if w.fails Write.mark_delivered
        then (false, claimed)
        else (not (w.fails Write.mark_processed), record j { status = JobStatus.delivered }))
    else if w.fails Write.record_failure
    then (false, claimed)
    else (
      not (leb j.max_attempts (j.attempt_count + 1) && w.fails Write.mark_activity_failed),
      fail_job w j,
    )

-- The loop over the jobs that the query has returned.
unfoldable pub process_jobs : World → List Job → List Job
process_jobs w [] = []
process_jobs w (j ∷ js) =
    let (goes_on, j') = process_job w j in
    let rest = process_jobs w js in j' ∷ (if goes_on then rest else js)

abbrev is_queued : JobStatus → Bool
is_queued JobStatus.queued = true
is_queued _ = false

-- One poll of the worker for one row: WHERE status = 'queued' AND next_attempt_at <= NOW().
unfoldable pub process_due : World → Job → Job
process_due w j =
    if is_queued j.status && leb j.next_attempt_at w.now then (process_job w j).1 else j

abbrev pub is_failed : JobStatus → Bool
is_failed JobStatus.failed = true
is_failed _ = false

-- `retry_delivery_job`, of moderation.rs: a failed job starts again.
unfoldable pub retry_delivery_job : ℕ → ℕ → List Job → List Job
retry_delivery_job now id [] = []
retry_delivery_job now id (j ∷ js) =
    (if nat_eq j.id id && is_failed j.status
      then record j { status = JobStatus.queued; attempt_count = 0; next_attempt_at = now }
      else j)
    ∷ retry_delivery_job now id js
