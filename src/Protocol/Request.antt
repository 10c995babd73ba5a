-- ===== src/Protocol/Request.antt =====
-- `Request`, `Operation` and the parameters of the operations, with `Request::validate`.
use omarchy_premonition.Base.{
  ℕ, not, ltb, ◌==◌, Text, contains, length, is_empty, Result, ◌>>◌, reject, ok,
}
use omarchy_premonition.Limits.{max_input_bytes}
use omarchy_premonition.Protocol.Error.{ProtocolError, contract_version}
use omarchy_premonition.Protocol.SafeId.{SafeId}

pub record SubmitParams : Type 0 where
  pub repository_id : SafeId
  pub correlation_id : SafeId
  pub input : Text

pub record ProposalParams : Type 0 where
  pub proposal_id : SafeId

-- The operations whose parameters are the empty object are constants.
pub data Operation : Type 0 where
  status cancel repositories health : Operation
  submit : SubmitParams → Operation
  proposal_show proposal_apply proposal_dismiss proposal_copy : ProposalParams → Operation

pub record Request : Type 0 where
  pub version : ℕ
  pub request_id : SafeId
  pub operation : Operation

unfoldable pub reject_nul : Text → Result ProtocolError (Unit {0})
unfolding contains
reject_nul value = reject (contains 0 value) ProtocolError.forbidden_nul

unfoldable pub validate_operation : Operation → Result ProtocolError (Unit {0})
unfolding reject_nul
validate_operation (Operation.submit p) = do
  reject (is_empty p.input) ProtocolError.empty_input
  reject (ltb max_input_bytes (length p.input)) ProtocolError.input_too_large
  reject_nul p.input
validate_operation _ = ok tt

unfoldable pub validate : Request → Result ProtocolError (Unit {0})
unfolding validate_operation
validate r = do
  reject (not (r.version == contract_version)) ProtocolError.unsupported_contract
  validate_operation r.operation
