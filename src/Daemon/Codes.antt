-- ===== src/Daemon/Codes.antt =====
-- The maps between failures and wire codes, and the failure envelope.
use omarchy_premonition.Protocol.SafeId.{SafeId}
use omarchy_premonition.Executor.{ExecutorError}
use omarchy_premonition.Core.Error.{SnapshotError, RepositoryError, CoreError, ApplyError}
use omarchy_premonition.Base.{Bool, true, false, if◌then◌else◌, Text, text}
use omarchy_premonition.Protocol.Response.{failure_response, ServiceState, ErrorCode, Response}

unfoldable pub error_message : ErrorCode → Text
error_message ErrorCode.unsupported_contract = text "Unsupported local contract."
error_message ErrorCode.invalid_request = text "The request is invalid."
error_message ErrorCode.request_id_reuse = text "The request identifier was reused."
error_message ErrorCode.service_unavailable = text "Premonition is unavailable."
error_message ErrorCode.runtime_missing = text "The configured agent runtime is unavailable."
error_message ErrorCode.busy = text "Premonition already owns an active job or proposal."
error_message ErrorCode.unknown_repository = text "The repository is not allowlisted."
error_message ErrorCode.repository_unsafe = text "The repository is not in a safe state."
error_message ErrorCode.input_too_large = text "The submitted text exceeds its limit."
error_message ErrorCode.snapshot_too_large = text "The repository exceeds snapshot limits."
error_message ErrorCode.executor_timeout = text "The agent exceeded its time limit."
error_message ErrorCode.cancelled = text "The agent was cancelled."
error_message ErrorCode.candidate_invalid = text "The candidate patch is invalid."
error_message ErrorCode.stale = text "The repository changed; regenerate the proposal."
error_message ErrorCode.apply_check_failed = text "Git rejected the candidate patch."
error_message ErrorCode.apply_in_progress = text "Apply is already publishing files."
error_message ErrorCode.recovery_required = text "Apply recovery must complete first."
error_message ErrorCode.unknown_proposal = text "The proposal is no longer active."
error_message ErrorCode.clipboard_unavailable = text "The clipboard runtime is unavailable."
error_message ErrorCode.internal = text "Premonition failed safely."

unfoldable pub is_retryable : ErrorCode → Bool
is_retryable ErrorCode.busy = true
is_retryable ErrorCode.runtime_missing = true
is_retryable ErrorCode.executor_timeout = true
is_retryable ErrorCode.stale = true
is_retryable ErrorCode.service_unavailable = true
is_retryable _ = false

unfoldable pub failure : SafeId → ErrorCode → Response
failure request_id code =
    failure_response request_id
      (record { code = code; retryable = is_retryable code; message = error_message code })

unfoldable pub map_executor_error : ExecutorError → ErrorCode
map_executor_error ExecutorError.configuration = ErrorCode.runtime_missing
map_executor_error ExecutorError.spawn = ErrorCode.runtime_missing
map_executor_error ExecutorError.timeout = ErrorCode.executor_timeout
map_executor_error ExecutorError.cancelled = ErrorCode.cancelled
map_executor_error ExecutorError.input = ErrorCode.input_too_large
map_executor_error ExecutorError.malformed_output = ErrorCode.candidate_invalid
map_executor_error ExecutorError.output_limit = ErrorCode.candidate_invalid
map_executor_error ExecutorError.repository = ErrorCode.repository_unsafe
map_executor_error ExecutorError.io = ErrorCode.internal
map_executor_error ExecutorError.crash = ErrorCode.internal

unfoldable pub map_core_error : CoreError → ErrorCode
map_core_error (CoreError.repository RepositoryError.unknown) = ErrorCode.unknown_repository
map_core_error (CoreError.snapshot SnapshotError.too_large) = ErrorCode.snapshot_too_large
map_core_error (CoreError.snapshot SnapshotError.stale) = ErrorCode.stale
map_core_error (CoreError.diff _) = ErrorCode.candidate_invalid
map_core_error CoreError.apply_check = ErrorCode.apply_check_failed
map_core_error (CoreError.repository _) = ErrorCode.repository_unsafe
map_core_error (CoreError.snapshot _) = ErrorCode.repository_unsafe

unfoldable pub map_apply_error : ApplyError → ErrorCode
map_apply_error (ApplyError.snapshot SnapshotError.stale) = ErrorCode.stale
map_apply_error (ApplyError.git _) = ErrorCode.apply_check_failed
map_apply_error ApplyError.recovery_required = ErrorCode.recovery_required
map_apply_error ApplyError.state = ErrorCode.recovery_required
map_apply_error (ApplyError.repository _) = ErrorCode.repository_unsafe
map_apply_error (ApplyError.snapshot _) = ErrorCode.repository_unsafe
map_apply_error ApplyError.identifier = ErrorCode.internal
map_apply_error ApplyError.transaction_exists = ErrorCode.internal

unfoldable pub idle_state : Bool → ServiceState
idle_state executor_available =
    if executor_available then ServiceState.idle else ServiceState.runtime_missing
