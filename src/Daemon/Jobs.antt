-- ===== src/Daemon/Jobs.antt =====
-- The spawned task of `submit`: one attempt at low effort, at most one at medium, `finish_job`.
pub mod Retry
pub mod Identifier
pub mod Finish
pub mod Unique
pub mod Lifecycle
use omarchy_premonition.Core.Model.{ValidatedProposal}
use omarchy_premonition.Protocol.SafeId.{SafeId}
use omarchy_premonition.Protocol.Response.{
  ServiceState, RecentOutcome, ProposalEffort, ExecutorEvidence, ErrorCode,
}
use omarchy_premonition.Core.Error.{CoreError}
use omarchy_premonition.Executor.{ReasoningEffort, Provenance, ExecutorError, Candidate, candidate}
use omarchy_premonition.Base.{
  ℕ, ◌+◌, ◌%◌, ◌^◌, Bool, true, false, List, [], ◌∷◌, ◌++◌, Option, none, some, if◌then◌else◌, Text,
  text, decimal, Result, ◌>>=◌, ◌>>◌, map_err, ok, err,
}
use omarchy_premonition.Protocol.Error.{max_recent, ProtocolError}
use omarchy_premonition.Protocol.SafeId
use omarchy_premonition.Daemon.State.{push_bounded, Active, Inner}
use omarchy_premonition.Daemon.Codes.{map_core_error, map_executor_error, failure}

pub data JobError : Type 0 where
  executor : ExecutorError → JobError
  core : CoreError → JobError

pub record Finding : Type 0 where
  pub proposal : ValidatedProposal
  pub rationale : Text
  pub evidence : ExecutorEvidence

unfoldable pub proposal_effort : ReasoningEffort → ProposalEffort
proposal_effort ReasoningEffort.low = ProposalEffort.low
proposal_effort ReasoningEffort.medium = ProposalEffort.medium

unfoldable pub evidence : Provenance → ReasoningEffort → Result ExecutorError ExecutorEvidence
unfolding proposal_effort
evidence provenance effort = do
  model ← map_err (λ _. ExecutorError.configuration) (SafeId.new provenance.model)
  ok (record {
    tool_version = provenance.version;
    tool_sha256 = provenance.sha256;
    model = model;
    reasoning_effort = proposal_effort effort;
  })

-- What the executor and the policy answer to one job. The context and the input are the job's.
pub record Workbench : Type 0 where
  pub investigate : ReasoningEffort → Result ExecutorError Candidate
  pub validate_candidate : ReasoningEffort → Text → Result CoreError ValidatedProposal
  pub provenance : Provenance

unfoldable pub attempt : Workbench → ReasoningEffort → Result JobError Finding
attempt bench effort = do
  candidate ← map_err JobError.executor (bench.investigate effort)
  proposal ← map_err JobError.core (bench.validate_candidate effort candidate.patch)
  made ← map_err JobError.executor (evidence bench.provenance effort)
  ok (record { proposal = proposal; rationale = candidate.rationale; evidence = made })

unfoldable pub retryable_low_failure : JobError → Bool
retryable_low_failure (JobError.executor ExecutorError.malformed_output) = true
retryable_low_failure (JobError.core (CoreError.diff _)) = true
retryable_low_failure (JobError.core CoreError.apply_check) = true
retryable_low_failure _ = false

-- `low.as_ref().is_err_and(retryable_low_failure)`.
unfoldable pub should_retry : Result JobError Finding → Bool
unfolding retryable_low_failure
should_retry (ok _) = false
should_retry (err e) = retryable_low_failure e

-- The completion, and the efforts at which the executor was run, in order.
unfoldable pub run_job : Workbench → Result JobError Finding × List ReasoningEffort
unfolding should_retry
run_job bench =
    let low = attempt bench ReasoningEffort.low in
    if should_retry low
    then (attempt bench ReasoningEffort.medium, ReasoningEffort.low ∷ ReasoningEffort.medium ∷ [])
    else (low, ReasoningEffort.low ∷ [])

-- `format!("p-{}-{}", ..)`.
unfoldable pub proposal_text : ℕ → ℕ → Text
proposal_text ms sequence = text "p-" ++ (decimal ms ++ (text "-" ++ decimal sequence))

-- How a failed job ends: the state, the code and the outcome of its summary.
unfoldable pub executor_state : ErrorCode → ServiceState
executor_state ErrorCode.runtime_missing = ServiceState.runtime_missing
executor_state ErrorCode.candidate_invalid = ServiceState.invalid
executor_state _ = ServiceState.error

abbrev pub executor_outcome : ServiceState → RecentOutcome
executor_outcome ServiceState.invalid = RecentOutcome.invalid
executor_outcome _ = RecentOutcome.error

unfoldable pub classify : JobError → ServiceState × ErrorCode × RecentOutcome
unfolding executor_state
classify (JobError.executor ExecutorError.cancelled) =
    (ServiceState.idle, ErrorCode.cancelled, RecentOutcome.cancelled)
classify (JobError.executor e) =
    let code = map_executor_error e in
    (executor_state code, code, executor_outcome (executor_state code))
classify (JobError.core e) = (ServiceState.invalid, map_core_error e, RecentOutcome.invalid)

abbrev pub is_idle : ServiceState → Bool
is_idle ServiceState.idle = true
is_idle _ = false

-- The success branch, at the outcome of `SafeId::new`; the state has its new sequence number.
unfoldable pub finish_found :
    Result ProtocolError SafeId → ℕ → Inner → SafeId → SafeId → Finding → Inner
finish_found (err e) created inner correlation_id repository_id found = record inner {
  state = ServiceState.error;
  active = none;
  failure = some ErrorCode.internal;
}
finish_found (ok proposal_id) created inner correlation_id repository_id found = record inner {
  state = ServiceState.ready;
  active = some (
      Active.ready (record {
        proposal_id = proposal_id;
        correlation_id = correlation_id;
        repository_id = repository_id;
        created_unix_ms = created;
        rationale = found.rationale;
        executor = found.evidence;
        proposal = found.proposal;
      }));
  failure = none;
}

unfoldable pub finish_failed : Inner → SafeId → SafeId → ℕ → JobError → Inner
unfolding classify
finish_failed inner correlation_id repository_id now e =
    let (state, code, outcome) = classify e in
    record inner {
      state = state;
      active = none;
      failure = if is_idle state then none else some code;
      recent = push_bounded max_recent inner.recent (record {
        correlation_id = correlation_id;
        repository_id = repository_id;
        outcome = outcome;
        completed_unix_ms = now;
      });
    }

abbrev pub matches_active : Option Active → SafeId → Bool
matches_active (some (Active.working active repository_id cancelled)) correlation_id =
    SafeId.eq active correlation_id
matches_active _ correlation_id = false

-- The clock is read once for the identifier, and again for the creation or the summary.
unfoldable pub finish_matched : ℕ → ℕ → Inner → SafeId → SafeId → Result JobError Finding → Inner
unfolding finish_found finish_failed
finish_matched id_ms now inner correlation_id repository_id (ok found) =
    let sequence = (inner.proposal_sequence + 1) % 2 ^ 64 in
    finish_found (SafeId.new (proposal_text id_ms sequence)) now
      (record inner { proposal_sequence = sequence }) correlation_id repository_id found
finish_matched id_ms now inner correlation_id repository_id (err e) =
    finish_failed inner correlation_id repository_id now e

unfoldable pub finish_job : ℕ → ℕ → Inner → SafeId → SafeId → Result JobError Finding → Inner
unfolding finish_matched
finish_job id_ms now inner correlation_id repository_id completion =
    if matches_active inner.active correlation_id
    then finish_matched id_ms now inner correlation_id repository_id completion
    else inner
