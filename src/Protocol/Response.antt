-- ===== src/Protocol/Response.antt =====
-- `Response`, its payloads, and the closed vocabularies that they use.
pub mod Validate
use omarchy_premonition.Base.{ℕ, Bool, true, false, List, Option, none, some, Text}
use omarchy_premonition.Protocol.Error.{contract_version}
use omarchy_premonition.Protocol.SafeId.{SafeId}

pub data ProposalEffort : Type 0 where
  low medium : ProposalEffort

pub record ExecutorEvidence : Type 0 where
  pub tool_version : Text
  pub tool_sha256 : Text
  pub model : SafeId
  pub reasoning_effort : ProposalEffort

pub data ServiceState : Type 0 where
  idle working ready invalid error runtime_missing applying recovery_required : ServiceState

pub data RecentOutcome : Type 0 where
  applied dismissed cancelled invalid error expired : RecentOutcome

pub record RecentSummary : Type 0 where
  pub correlation_id : SafeId
  pub repository_id : SafeId
  pub outcome : RecentOutcome
  pub completed_unix_ms : ℕ

pub record RepositorySummary : Type 0 where
  pub id : SafeId
  pub label : Text

pub data ErrorCode : Type 0 where
  unsupported_contract invalid_request request_id_reuse service_unavailable : ErrorCode
  runtime_missing busy unknown_repository repository_unsafe input_too_large : ErrorCode
  snapshot_too_large executor_timeout cancelled candidate_invalid stale : ErrorCode
  apply_check_failed apply_in_progress recovery_required unknown_proposal : ErrorCode
  clipboard_unavailable internal : ErrorCode

pub record WireError : Type 0 where
  pub code : ErrorCode
  pub retryable : Bool
  pub message : Text

-- The fields of `ResultPayload::Status`.
pub record StatusFields : Type 0 where
  pub state : ServiceState
  pub proposal_id : Option SafeId
  pub correlation_id : Option SafeId
  pub repository_id : Option SafeId
  pub created_unix_ms : Option ℕ
  pub patch_bytes : Option ℕ
  pub file_count : Option ℕ
  pub failure_code : Option ErrorCode
  pub recent : List RecentSummary

-- The fields of `ResultPayload::Proposal`.
pub record ProposalFields : Type 0 where
  pub proposal_id : SafeId
  pub repository_id : SafeId
  pub patch : Text
  pub rationale : Text
  pub file_count : ℕ
  pub created_unix_ms : ℕ
  pub executor : ExecutorEvidence

-- The fields of `ResultPayload::Health`.
pub record HealthFields : Type 0 where
  pub service_version : Text
  pub protocol_version : ℕ
  pub recovery_required : Bool
  pub executor_available : Bool

-- Variants with one or two fields take them in the order of the source.
pub data ResultPayload : Type 0 where
  status : StatusFields → ResultPayload
  accepted : SafeId → ResultPayload
  proposal : ProposalFields → ResultPayload
  copy_payload : SafeId → Text → ResultPayload
  applied dismissed : SafeId → Bool → ResultPayload
  cancelled : Bool → ResultPayload
  copied : SafeId → ResultPayload
  repositories : List RepositorySummary → ResultPayload
  health : HealthFields → ResultPayload

pub record Response : Type 0 where
  pub version : ℕ
  pub request_id : SafeId
  pub ok : Bool
  pub result : Option ResultPayload
  pub error : Option WireError

unfoldable pub success : SafeId → ResultPayload → Response
success request_id r = record {
  version = contract_version;
  request_id = request_id;
  ok = true;
  result = some r;
  error = none;
}

unfoldable pub failure_response : SafeId → WireError → Response
failure_response request_id e = record {
  version = contract_version;
  request_id = request_id;
  ok = false;
  result = none;
  error = some e;
}
