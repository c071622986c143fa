-- ===== src/Tests/PollsTests.antt =====
-- Polls of a worker for jobs of type 4.
use mathews.Tests.BackgroundJobsTests.{digests, waiting, claim, progress, at, executor, computes}
use mathews.BackgroundJobs.{BackgroundJob}
use mathews.BackgroundJobs.Polls.{
  raised_paused, raised_retryable, JobHandler, stops, finishes, beats, checkpoints, performs, Poll,
  ended, succeeded, retry_scheduled, context_heartbeat, context_checkpoint, run_handler,
  record_failure, record_pause, handle_raised, finish_job_run, handle_job, handle_scan, run_once,
}
use mathews.Common.{ℕ, ◌+◌, ◌≡◌, refl, some, [], ◌∷◌, map}
use mathews.Common.Dict.{lookup}

poll_computes : ℕ
unfolding computes context_heartbeat context_checkpoint run_handler record_failure record_pause
    handle_raised finish_job_run handle_job handle_scan run_once lookup
poll_computes = 0

abbrev working : JobHandler
working = beats [] 3000 30000 (λ _.
    performs [] executor
      (record {
        started = 4000;
        command = record { effect_key = 9; effect_type = 3; request_payload = 4; new_id = 51 };
        others = [];
        finished = 5000;
        checkpoint = progress;
        empty = 0;
      })
      (λ _.
        checkpoints [] 6000 (record progress { idempotency_key = 62; new_id = 82 })
          (λ _. finishes (some (record progress { new_id = 83 })))))

abbrev poll_with : JobHandler → Poll
poll_with handler = record {
  handlers = (4, λ g. handler) ∷ [];
  readings = at 2000;
  claim = claim 31 41;
  others = [];
  finished = 7000;
  complete_key = λ id. id + 1000;
}

-- The handler does its work.
works : (run_once digests (poll_with working) waiting).1 ≡ ended succeeded
unfolding poll_computes
works = refl

-- A handler that pauses its job does not spend an attempt of it.
pauses : (run_once digests (poll_with (stops (raised_paused 8))) waiting).1 ≡ ended retry_scheduled
unfolding poll_computes
pauses = refl

attempts_after_pause :
    map
      (λ (j : BackgroundJob). j.attempt_count)
      (run_once digests (poll_with (stops (raised_paused 8))) waiting).0.jobs
    ≡ 0 ∷ []
unfolding poll_computes
attempts_after_pause = refl

attempts_after_retry :
    map
      (λ (j : BackgroundJob). j.attempt_count)
      (run_once digests (poll_with (stops (raised_retryable 8))) waiting).0.jobs
    ≡ 1 ∷ []
unfolding poll_computes
attempts_after_retry = refl
