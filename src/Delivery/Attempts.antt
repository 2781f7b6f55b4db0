-- ===== src/Delivery/Attempts.antt =====
-- How often a job is tried.
use Prim.Native.Nat.{min}
use ppv_stream_rust.Prelude.{
  if◌then◌else◌, ltb, suc, false, ◌+◌, ◌<◌, ◌≤◌, ℕ, String, ◌≡◌, refl, false, arith, leb, List, [],
  ◌∷◌, All, length, inl, inr, Bool-cases, ◌∙◌, ap,
}
use ppv_stream_rust.Delivery.{
  Job, JobStatus, Write, World, target_domain, process_job, process_due, fail_job,
}
use ppv_stream_rust.Delivery.Retry.{compute_retry_delay_seconds_lem}

-- The polls that reach one job, one after the other.
unfoldable pub process_polls : List World → Job → Job
process_polls [] j = j
process_polls (w ∷ ws) j = process_polls ws (process_due w j)

-- A world in which no write fails, no domain is blocked and no request succeeds.
abbrev pub IsDown : World → Type 0
IsDown w =
    ((q : Write) → w.fails q ≡ false)
    × ((d : String) → w.is_domain_blocked d ≡ false)
    × ((j : Job) → w.deliver_job j ≡ false)

-- The first poll comes at `due` or later, and each other one an hour and the jitter after the poll
-- before it or later.
abbrev pub AreSpaced : ℕ → List World → Type 0
AreSpaced due [] = Unit
AreSpaced due (w ∷ ws) = (due ≤ w.now) × AreSpaced (w.now + (3600 + w.jitter)) ws

AreSpaced-le : (m n : ℕ) (ws : List World) → m ≤ n → AreSpaced n ws → AreSpaced m ws
AreSpaced-le m n [] h k = tt
AreSpaced-le m n (w ∷ ws) h k = (omega arith, k.1)

process_due-selects :
    (w : World) (j : Job)
    → j.status ≡ JobStatus.queued
    → j.next_attempt_at ≤ w.now
    → process_due w j ≡ (process_job w j).1
unfolding process_due
process_due-selects w j waits due = ground arith

process_due-passes : (w : World) (j : Job) → j.status ≡ JobStatus.failed → process_due w j ≡ j
unfolding process_due
process_due-passes w j h = ground arith

job_fails : (w : World) (j : Job) → IsDown w → (process_job w j).1 ≡ fail_job w j
unfolding process_job
job_fails w j (writes, blocks, posts) =
    rw
      (
        blocks (target_domain j.target_inbox_url),
        writes Write.claim,
        posts j,
        writes Write.record_failure,
      )
      (ground (arith, blocks (target_domain j.target_inbox_url)))

failed_stays : (ws : List World) (j : Job) → j.status ≡ JobStatus.failed → process_polls ws j ≡ j
unfolding process_polls
failed_stays [] j h = refl
failed_stays (w ∷ ws) j h = rw (process_due-passes w j h) (failed_stays ws j h)

process_polls-down :
    (w : World) (ws : List World) (j : Job)
    → IsDown w
    → j.status ≡ JobStatus.queued
    → j.next_attempt_at ≤ w.now
    → process_polls (w ∷ ws) j ≡ process_polls ws (fail_job w j)
unfolding process_polls
process_polls-down w ws j down waits due =
    ap (process_polls ws) (process_due-selects w j waits due ∙ job_fails w j down)

-- While an instance is down, that is, where no write of the worker fails, no domain is blocked and
-- every request fails: of polls that reach a queued job, the first when it is due and each other one
-- an hour and the jitter after the one before it or later, every one counts an attempt until the limit
-- of attempts is reached, and none after it; and the job is queued below the limit and failed at it.
pub process_polls_exhausts :
    (ws : List World) (j : Job)
    → All IsDown ws
    → j.status ≡ JobStatus.queued
    → AreSpaced j.next_attempt_at ws
    → j.attempt_count < j.max_attempts
    → ((process_polls ws j).attempt_count ≡ min (j.attempt_count + length ws) j.max_attempts)
      × ((process_polls ws j).status ≡ (
          if ltb (j.attempt_count + length ws) j.max_attempts
          then JobStatus.queued
          else JobStatus.failed))
unfolding process_polls fail_job
process_polls_exhausts [] j down waits spaced left = (omega arith, ground arith)
process_polls_exhausts (w ∷ ws) j down waits spaced left =
    let ran = process_polls-down w ws j down.0 waits spaced.0 in
    elim (Bool-cases (leb j.max_attempts (j.attempt_count + 1))) [
      | inl last ↦
          let ended = failed_stays ws (fail_job w j) (rw last refl) in
          let reached : ltb (j.attempt_count + suc (length ws)) j.max_attempts ≡ false =
            ground arith in
          let all : j.attempt_count + 1 ≡ min (j.attempt_count + suc (length ws)) j.max_attempts =
            ground arith in
          rw (ran, ended) (rw (last, reached) (all, refl))
      | inr more ↦
          let (low, high, early, late, grows) =
            compute_retry_delay_seconds_lem (j.attempt_count + 1) (j.attempt_count + 1) in
          let soon : AreSpaced (fail_job w j).next_attempt_at ws =
            rw more
              (AreSpaced-le _ (w.now + (3600 + w.jitter)) ws (omega (arith, high)) spaced.1) in
          let (count, status) =
            process_polls_exhausts ws (fail_job w j) down.1 (rw more refl) soon (ground arith) in
          let moved : j.attempt_count + suc (length ws) ≡ j.attempt_count + 1 + length ws =
            omega arith in
          rw (ran, moved) (count, status)
    ]
