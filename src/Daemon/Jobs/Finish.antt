-- ===== src/Daemon/Jobs/Finish.antt =====
-- How an investigation that completes changes the state.
use omarchy_premonition.Daemon.Codes.{map_executor_error}
use omarchy_premonition.Daemon.Jobs.Identifier.{new-proposal_text}
use omarchy_premonition.Daemon.Handlers.{is_owned}
use omarchy_premonition.Protocol.Response.{ServiceState}
use omarchy_premonition.Protocol.SafeId.{SafeId}
use omarchy_premonition.Executor.{ExecutorError}
use omarchy_premonition.Daemon.State.{ProposalRecord, Inner, Active}
use omarchy_premonition.Base.{
  ℕ, ◌+◌, ◌%◌, ◌^◌, Bool, true, false, ◌↔◌, none, some, ◌≡◌, refl, arith, ok, err,
}
use omarchy_premonition.Protocol.SafeId
use omarchy_premonition.Daemon.Jobs.{
  finish_job, finish_matched, finish_found, finish_failed, JobError, Finding, proposal_text,
  classify, is_idle,
}

-- The proposal that a completed investigation puts under review.
abbrev pub record_of : ℕ → ℕ → Inner → SafeId → SafeId → Finding → ProposalRecord
record_of id_ms now inner correlation_id repository_id found = record {
  proposal_id = record { as_str = proposal_text id_ms ((inner.proposal_sequence + 1) % 2 ^ 64) };
  correlation_id = correlation_id;
  repository_id = repository_id;
  created_unix_ms = now;
  rationale = found.rationale;
  executor = found.evidence;
  proposal = found.proposal;
}

-- A finding of the running investigation is put under review, with the investigation's
-- identifiers, its patch, rationale and evidence; the history, the settled proposals and the cache
-- stay as they were.
pub finish_job-ready :
    (id_ms now : ℕ) (inner : Inner) (correlation repository : SafeId) (flag : Bool)
    (found : Finding)
    → inner.active ≡ some (Active.working correlation repository flag)
    → finish_job id_ms now inner correlation repository (ok found) ≡ record inner {
      state = ServiceState.ready;
      active = some (Active.ready (record_of id_ms now inner correlation repository found));
      failure = none;
      proposal_sequence = (inner.proposal_sequence + 1) % 2 ^ 64;
    }
unfolding finish_job finish_matched finish_found
finish_job-ready id_ms now inner correlation repository flag found a =
    let same = SafeId.eq_refl correlation in
    let named = new-proposal_text id_ms ((inner.proposal_sequence + 1) % 2 ^ 64) in
    rw (a, same) (rw named refl)

pub classify_free : (e : JobError) → is_owned (classify e).0 ≡ false
unfolding classify map_executor_error
classify_free (JobError.executor ExecutorError.cancelled) = refl
classify_free (JobError.executor _) = refl
classify_free (JobError.core e) = refl

classify_idle :
    (e : JobError)
    → (is_idle (classify e).0 ≡ true) ↔ (e ≡ JobError.executor ExecutorError.cancelled)
unfolding classify map_executor_error
classify_idle (JobError.executor ExecutorError.cancelled) = (λ _. refl, λ _. refl)
classify_idle (JobError.executor _) = (λ h. cc, λ h. cc)
classify_idle (JobError.core e) = (λ h. cc, λ h. cc)

-- A failure of the running investigation empties the slot, leaves a state in which the service owns
-- nothing, and counts no proposal; no failure is kept exactly when the investigation was cancelled.
pub finish_job_failed :
    (id_ms now : ℕ) (inner : Inner) (correlation repository : SafeId) (flag : Bool) (e : JobError)
    → inner.active ≡ some (Active.working correlation repository flag)
    → let after = finish_job id_ms now inner correlation repository (err e) in
      (after.active ≡ none)
      × (is_owned after.state ≡ false)
      × (after.proposal_sequence ≡ inner.proposal_sequence)
      × ((after.failure ≡ none) ↔ (e ≡ JobError.executor ExecutorError.cancelled))
unfolding finish_job finish_matched finish_failed
finish_job_failed id_ms now inner correlation repository flag e a =
    let same = SafeId.eq_refl correlation in
    rw (a, same) (refl, classify_free e, refl, ground (arith, classify_idle e))
