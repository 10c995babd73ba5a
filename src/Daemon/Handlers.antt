-- ===== src/Daemon/Handlers.antt =====
-- The handlers that `Service::dispatch` calls. One call of the service runs under its gate, so a
-- handler is a function of the state that it finds; what it asks of the policy, of Apply and of the
-- clock is in `Env`, and what it does outside the state is listed in its reply.
use omarchy_premonition.Protocol.SafeId.{SafeId}
use omarchy_premonition.Protocol.Request.{SubmitParams, Request, ProposalParams}
use omarchy_premonition.Core.Model.{ValidatedProposal, GenerationContext, ApplyOutcome}
use omarchy_premonition.Core.Error.{CoreError, ApplyError}
use omarchy_premonition.Base.{
  ℕ, ◌^◌, Bool, true, false, not, ◌&&◌, List, [], ◌∷◌, Option, none, some, ltb, if◌then◌else◌, Text,
  text, length, any, Result, ok, err,
}
use omarchy_premonition.Protocol.SafeId
use omarchy_premonition.Protocol.Response.{
  success, ServiceState, RecentOutcome, RepositorySummary, ErrorCode, StatusFields, ResultPayload,
  Response,
}
use omarchy_premonition.Protocol.Error.{contract_version}
use omarchy_premonition.Daemon.State.{
  push_recent, push_terminal, ProposalRecord, Active, TerminalOutcome, TerminalRecord, Inner,
}
use omarchy_premonition.Daemon.Codes.{failure, map_core_error, map_apply_error, idle_state}

-- The service's constants, and what its collaborators answer during one call: `publish` is `none`
-- where the blocking task does not return.
pub record Env : Type 0 where
  pub executor_available : Bool
  pub now : ℕ
  pub begin_investigation : Text → Result CoreError GenerationContext
  pub publish : Text → ValidatedProposal → Option (Result ApplyError ApplyOutcome)
  pub repository_summaries : List (Text × Text)
  pub digest : Request → Text

-- A spawned investigation.
pub record Job : Type 0 where
  pub correlation_id : SafeId
  pub repository_id : SafeId
  pub context : GenerationContext
  pub input : Text

pub data Effect : Type 0 where
  spawns : Job → Effect
  publishes : Text → ValidatedProposal → Effect

pub record Reply : Type 0 where
  pub inner : Inner
  pub response : Response
  pub effects : List Effect

abbrev pub answer : Inner → Response → Reply
answer inner response = record { inner = inner; response = response; effects = [] }

abbrev pub is_owned : ServiceState → Bool
is_owned ServiceState.working = true
is_owned ServiceState.ready = true
is_owned ServiceState.applying = true
is_owned _ = false

abbrev pub admit : Inner → SubmitParams → SafeId → Result CoreError GenerationContext → Reply
admit inner p request_id (err e) = answer inner (failure request_id (map_core_error e))
admit inner p request_id (ok context) = record {
  inner = record inner {
    state = ServiceState.working;
    active = some (Active.working p.correlation_id p.repository_id false);
    failure = none;
  };
  response = success request_id (ResultPayload.accepted p.correlation_id);
  effects =
      Effect.spawns (record {
        correlation_id = p.correlation_id;
        repository_id = p.repository_id;
        context = context;
        input = p.input;
      })
      ∷ [];
}

unfoldable pub submit : Env → Inner → SubmitParams → SafeId → Reply
submit env inner p request_id =
    if not env.executor_available
    then answer inner (failure request_id ErrorCode.runtime_missing)
    else if is_owned inner.state
    then answer inner (failure request_id ErrorCode.busy)
    else admit inner p request_id (env.begin_investigation p.repository_id.as_str)

-- The identity fields of a status, from the active slot.
unfoldable pub status_fields : Inner → Option Active → StatusFields
status_fields inner none = record {
  state = inner.state;
  proposal_id = none;
  correlation_id = none;
  repository_id = none;
  created_unix_ms = none;
  patch_bytes = none;
  file_count = none;
  failure_code = inner.failure;
  recent = inner.recent;
}
status_fields inner (some (Active.working correlation_id repository_id cancelled)) = record {
  state = inner.state;
  proposal_id = none;
  correlation_id = some correlation_id;
  repository_id = some repository_id;
  created_unix_ms = none;
  patch_bytes = none;
  file_count = none;
  failure_code = inner.failure;
  recent = inner.recent;
}
status_fields inner (some (Active.ready p)) = record {
  state = inner.state;
  proposal_id = some p.proposal_id;
  correlation_id = some p.correlation_id;
  repository_id = some p.repository_id;
  created_unix_ms = some p.created_unix_ms;
  patch_bytes =
      if ltb (length p.proposal.patch.raw) (2 ^ 32)
      then some (length p.proposal.patch.raw)
      else none;
  file_count =
      if ltb (length p.proposal.patch.files) (2 ^ 16)
      then some (length p.proposal.patch.files)
      else none;
  failure_code = inner.failure;
  recent = inner.recent;
}

unfoldable pub status : Inner → SafeId → Reply
unfolding status_fields
status inner request_id =
    answer inner (success request_id (ResultPayload.status (status_fields inner inner.active)))

-- `Proposal` and `CopyPayload` of the record under review.
unfoldable pub review : ProposalRecord → Bool → ResultPayload
review p true = ResultPayload.copy_payload p.proposal_id p.proposal.patch.raw
review p false = ResultPayload.proposal (record {
  proposal_id = p.proposal_id;
  repository_id = p.repository_id;
  patch = p.proposal.patch.raw;
  rationale = p.rationale;
  file_count =
      if ltb (length p.proposal.patch.files) (2 ^ 16) then length p.proposal.patch.files else 65535;
  created_unix_ms = p.created_unix_ms;
  executor = p.executor;
})

unfoldable pub body_of : Option Active → Inner → ProposalParams → SafeId → Bool → Reply
unfolding review
body_of (some (Active.ready p)) inner params request_id copy_only =
    if SafeId.eq p.proposal_id params.proposal_id
    then answer inner (success request_id (review p copy_only))
    else answer inner (failure request_id ErrorCode.unknown_proposal)
body_of _ inner params request_id copy_only =
    answer inner (failure request_id ErrorCode.unknown_proposal)

unfoldable pub proposal_body : Inner → ProposalParams → SafeId → Bool → Reply
unfolding body_of
proposal_body inner = body_of inner.active inner

abbrev pub is_outcome : TerminalOutcome → TerminalOutcome → Bool
is_outcome TerminalOutcome.applied TerminalOutcome.applied = true
is_outcome TerminalOutcome.dismissed TerminalOutcome.dismissed = true
is_outcome _ _ = false

-- `inner.terminal.iter().any(..)`.
unfoldable pub has_terminal : List TerminalRecord → SafeId → TerminalOutcome → Bool
has_terminal terminal proposal_id outcome =
    any
      (λ (t : TerminalRecord). SafeId.eq t.proposal_id proposal_id && is_outcome t.outcome outcome)
      terminal

abbrev pub is_applying : ServiceState → Bool
is_applying ServiceState.applying = true
is_applying _ = false

abbrev pub is_recovery_required : ErrorCode → Bool
is_recovery_required ErrorCode.recovery_required = true
is_recovery_required _ = false

-- `.map_err(|_| RecoveryRequired).and_then(|result| result)` on the joined task.
abbrev pub joined : Option (Result ApplyError ApplyOutcome) → Result ApplyError ApplyOutcome
joined none = err ApplyError.recovery_required
joined (some result) = result

-- The second half of `Service::apply`, with the outcome of the publication.
unfoldable pub complete_apply :
    Env → Inner → ProposalRecord → SafeId → Result ApplyError ApplyOutcome → Inner × Response
complete_apply env inner p request_id (ok outcome) =
    let settled = record inner {
      state = idle_state env.executor_available;
      active = none;
      failure = none;
    } in
    (
      push_terminal (push_recent settled p RecentOutcome.applied env.now) p.proposal_id
          TerminalOutcome.applied,
      success request_id (ResultPayload.applied p.proposal_id false),
    )
complete_apply env inner p request_id (err e) =
    let code = map_apply_error e in
    (
      record inner {
        state =
            if is_recovery_required code
            then ServiceState.recovery_required
            else ServiceState.error;
        active = none;
        failure = some code;
      },
      failure request_id code,
    )

unfoldable pub apply_active : Option Active → Env → Inner → ProposalParams → SafeId → Reply
unfolding complete_apply
apply_active (some (Active.ready p)) env inner params request_id =
    if SafeId.eq p.proposal_id params.proposal_id
    then (let applying = record inner { state = ServiceState.applying } in
        let result = joined (env.publish p.proposal_id.as_str p.proposal) in
        record {
          inner = (complete_apply env applying p request_id result).0;
          response = (complete_apply env applying p request_id result).1;
          effects = Effect.publishes p.proposal_id.as_str p.proposal ∷ [];
        })
    else answer inner (failure request_id ErrorCode.unknown_proposal)
apply_active _ env inner params request_id =
    answer inner (failure request_id ErrorCode.unknown_proposal)

unfoldable pub apply : Env → Inner → ProposalParams → SafeId → Reply
unfolding apply_active has_terminal
apply env inner params request_id =
    if has_terminal inner.terminal params.proposal_id TerminalOutcome.applied
    then answer inner (success request_id (ResultPayload.applied params.proposal_id true))
    else if is_applying inner.state
    then answer inner (failure request_id ErrorCode.apply_in_progress)
    else apply_active inner.active env inner params request_id

-- `inner.active.take()` empties the slot before the record is looked at; only a ready proposal with
-- another identifier is put back.
unfoldable pub dismiss_taken : Option Active → Env → Inner → ProposalParams → SafeId → Reply
dismiss_taken (some (Active.ready p)) env taken params request_id =
    if SafeId.eq p.proposal_id params.proposal_id
    then (let settled = record taken {
      state = idle_state env.executor_available;
      failure = none;
    } in
        answer
          (push_terminal (push_recent settled p RecentOutcome.dismissed env.now) p.proposal_id
            TerminalOutcome.dismissed)
          (success request_id (ResultPayload.dismissed p.proposal_id false)))
    else answer (record taken { active = some (Active.ready p) })
        (failure request_id ErrorCode.unknown_proposal)
dismiss_taken _ env taken params request_id =
    answer taken (failure request_id ErrorCode.unknown_proposal)

unfoldable pub dismiss : Env → Inner → ProposalParams → SafeId → Reply
unfolding dismiss_taken has_terminal
dismiss env inner params request_id =
    if has_terminal inner.terminal params.proposal_id TerminalOutcome.dismissed
    then answer inner (success request_id (ResultPayload.dismissed params.proposal_id true))
    else dismiss_taken inner.active env (record inner { active = none }) params request_id

unfoldable pub cancel_active : Option Active → Inner → SafeId → Reply
cancel_active (some (Active.working correlation_id repository_id cancelled)) inner request_id =
    answer (record inner { active = some (Active.working correlation_id repository_id true) })
      (success request_id (ResultPayload.cancelled false))
cancel_active _ inner request_id =
    if is_applying inner.state
    then answer inner (failure request_id ErrorCode.apply_in_progress)
    else answer inner (success request_id (ResultPayload.cancelled true))

unfoldable pub cancel : Inner → SafeId → Reply
unfolding cancel_active
cancel inner = cancel_active inner.active inner

-- The `filter_map` keeps the identifiers that are safe.
unfoldable pub summaries : List (Text × Text) → List RepositorySummary
unfolding SafeId.new
summaries [] = []
summaries ((id, label) ∷ rest) = elim (SafeId.new id) [
  | ok safe ↦ record { id = safe; label = label } ∷ summaries rest
  | err e ↦ summaries rest
]

unfoldable pub repositories : Env → Inner → SafeId → Reply
repositories env inner request_id =
    answer inner
      (success request_id (ResultPayload.repositories (summaries env.repository_summaries)))

abbrev pub needs_recovery : ServiceState → Bool
needs_recovery ServiceState.recovery_required = true
needs_recovery _ = false

unfoldable pub health : Env → Inner → SafeId → Reply
health env inner request_id = answer inner (
    success request_id (
      ResultPayload.health (record {
        service_version = text "0.1.0";
        protocol_version = contract_version;
        recovery_required = needs_recovery inner.state;
        executor_available = env.executor_available;
      })))
