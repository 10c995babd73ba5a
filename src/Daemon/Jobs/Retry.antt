-- ===== src/Daemon/Jobs/Retry.antt =====
-- The escalation policy: which completion a job has, and at which efforts the executor was run.
use omarchy_premonition.Daemon.Jobs.{attempt}
use omarchy_premonition.Daemon.Jobs.{
  should_retry, run_job, retryable_low_failure, Workbench, JobError, Finding,
}
use omarchy_premonition.Executor.{ReasoningEffort, ExecutorError}
use omarchy_premonition.Diff.Error.{DiffError}
use omarchy_premonition.Core.Error.{CoreError}
use omarchy_premonition.Base.{
  true, false, List, [], ◌∷◌, inl, inr, ◌≡◌, refl, Bool-cases, Result, ok, err,
}

-- The failures that are retried: output that is no candidate, a patch that does not parse, and the error
-- of the applicability check, which is the same whether git refused the patch, ran out of time, could not
-- be started or failed otherwise.
pub data IsRetried : JobError → Type 0 where
  malformed : IsRetried (JobError.executor ExecutorError.malformed_output)
  unparsable : (e : DiffError) → IsRetried (JobError.core (CoreError.diff e))
  inapplicable : IsRetried (JobError.core CoreError.apply_check)

retryable-IsRetried : (e : JobError) → retryable_low_failure e ≡ true → IsRetried e
unfolding retryable_low_failure
retryable-IsRetried (JobError.executor ExecutorError.malformed_output) h = malformed
retryable-IsRetried (JobError.core (CoreError.diff e)) h = unparsable e
retryable-IsRetried (JobError.core CoreError.apply_check) h = inapplicable
retryable-IsRetried (JobError.executor _) h = cc
retryable-IsRetried (JobError.core _) h = cc

IsRetried-retryable : (e : JobError) → IsRetried e → retryable_low_failure e ≡ true
unfolding retryable_low_failure
IsRetried-retryable _ malformed = refl
IsRetried-retryable _ (unparsable e) = refl
IsRetried-retryable _ inapplicable = refl

-- A job ends with its low attempt, unless that failed by an error that is retried: then it ends with one
-- medium attempt.
pub data Escalates (bench : Workbench)
    : Result JobError Finding × List ReasoningEffort → Type 0 where
  settled :
      {r : Result JobError Finding × List ReasoningEffort}
      → ((e : JobError) → attempt bench ReasoningEffort.low ≡ err e → ¬ IsRetried e)
      → r.0 ≡ attempt bench ReasoningEffort.low
      → r.1 ≡ ReasoningEffort.low ∷ []
      → Escalates bench r
  escalated :
      {r : Result JobError Finding × List ReasoningEffort} (e : JobError)
      → attempt bench ReasoningEffort.low ≡ err e
      → IsRetried e
      → r.0 ≡ attempt bench ReasoningEffort.medium
      → r.1 ≡ ReasoningEffort.low ∷ ReasoningEffort.medium ∷ []
      → Escalates bench r

should_retry-err :
    (r : Result JobError Finding)
    → should_retry r ≡ true
    → (e : JobError) × (r ≡ err e) × IsRetried e
unfolding should_retry
should_retry-err (ok f) h = cc
should_retry-err (err e) h = (e, refl, retryable-IsRetried e h)

err-not_IsRetried :
    (r : Result JobError Finding) (e : JobError)
    → should_retry r ≡ false
    → r ≡ err e
    → ¬ IsRetried e
unfolding should_retry
err-not_IsRetried r e done failed retried = cc (rw failed at done, IsRetried-retryable e retried)

-- The executor is run once, at low effort, or twice, at low and then at medium effort; the second
-- run happens exactly when the first ended in malformed output, in a patch that does not parse, or in
-- the error `apply_check`, whatever failure of git it stands for. The job's completion is that of its
-- last run.
pub run_job-Escalates : (bench : Workbench) → Escalates bench (run_job bench)
unfolding run_job
run_job-Escalates bench = elim (Bool-cases (should_retry (attempt bench ReasoningEffort.low))) [
  | inl again ↦
      let (e, failed, retried) = should_retry-err (attempt bench ReasoningEffort.low) again in
      escalated e failed retried (rw again refl) (rw again refl)
  | inr done ↦
      settled
        (λ e failed retried.
          err-not_IsRetried (attempt bench ReasoningEffort.low) e done failed retried)
        (rw done refl) (rw done refl)
]
