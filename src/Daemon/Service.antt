-- ===== src/Daemon/Service.antt =====
-- `Service::new`, `dispatch` and `handle`: one request at a time, with a cache of replies.
pub mod Coherence
pub mod Wedge
pub mod Consent
pub mod Cache
pub mod Envelope
pub mod Recovery
pub mod Settled
use omarchy_premonition.Protocol.SafeId.{SafeId}
use omarchy_premonition.Protocol.Error.{ProtocolError}
use omarchy_premonition.Protocol.Request.{Request, Operation}
use omarchy_premonition.Protocol.Response.{ServiceState, ResultPayload, Response, ErrorCode}
use omarchy_premonition.Base.{
  Bool, true, false, not, ◌&&◌, List, [], ◌∷◌, Option, none, some, if◌then◌else◌, Text, text_eq,
  Result, ok, err,
}
use omarchy_premonition.Protocol.SafeId
use omarchy_premonition.Protocol.Request
use omarchy_premonition.Daemon.State.{push_request, CachedRequest, Inner}
use omarchy_premonition.Daemon.State
use omarchy_premonition.Daemon.Codes.{failure}
use omarchy_premonition.Daemon.Handlers.{
  answer, submit, status, proposal_body, apply, dismiss, cancel, repositories, health,
  needs_recovery, Env, Reply,
}

-- `Service::new`: the outcome of the recovery, and whether there is an executor.
unfoldable pub start : Bool → Bool → Inner
start recovered executor_available = State.new (
    if not recovered
    then ServiceState.recovery_required
    else if executor_available
    then ServiceState.idle
    else ServiceState.runtime_missing)

abbrev pub is_open : Operation → Bool
is_open Operation.status = true
is_open Operation.health = true
is_open _ = false

unfoldable pub dispatch_operation : Env → Inner → Operation → SafeId → Reply
dispatch_operation env inner Operation.status request_id = status inner request_id
dispatch_operation env inner (Operation.submit p) request_id = submit env inner p request_id
dispatch_operation env inner (Operation.proposal_show p) request_id =
    proposal_body inner p request_id false
dispatch_operation env inner (Operation.proposal_copy p) request_id =
    proposal_body inner p request_id true
dispatch_operation env inner (Operation.proposal_apply p) request_id = apply env inner p request_id
dispatch_operation env inner (Operation.proposal_dismiss p) request_id =
    dismiss env inner p request_id
dispatch_operation env inner Operation.cancel request_id = cancel inner request_id
dispatch_operation env inner Operation.repositories request_id = repositories env inner request_id
dispatch_operation env inner Operation.health request_id = health env inner request_id

unfoldable pub dispatch : Env → Inner → Operation → SafeId → Reply
dispatch env inner operation request_id =
    if not (is_open operation) && needs_recovery inner.state
    then answer inner (failure request_id ErrorCode.recovery_required)
    else dispatch_operation env inner operation request_id

unfoldable pub contains_body : Option ResultPayload → Bool
contains_body (some (ResultPayload.proposal p)) = true
contains_body (some (ResultPayload.copy_payload id patch)) = true
contains_body _ = false

unfoldable pub response_contains_body : Response → Bool
unfolding contains_body
response_contains_body r = contains_body r.result

unfoldable pub find_cached : SafeId → List CachedRequest → Option CachedRequest
find_cached request_id [] = none
find_cached request_id (c ∷ cs) =
    if SafeId.eq c.request_id request_id then some c else find_cached request_id cs

unfoldable pub map_protocol_error : ProtocolError → ErrorCode
map_protocol_error ProtocolError.unsupported_contract = ErrorCode.unsupported_contract
map_protocol_error ProtocolError.input_too_large = ErrorCode.input_too_large
map_protocol_error _ = ErrorCode.invalid_request

abbrev pub validated : Env → Inner → Request → Result ProtocolError (Unit {0}) → Reply
validated env inner r (ok _) = dispatch env inner r.operation r.request_id
validated env inner r (err e) = answer inner (failure r.request_id (map_protocol_error e))

-- A reply without a body is remembered.
unfoldable pub remember : Request → Text → Reply → Reply
unfolding response_contains_body
remember r digest reply = if response_contains_body reply.response then reply else record reply {
  inner =
      push_request reply.inner
        (record { request_id = r.request_id; digest = digest; response = reply.response });
}

unfoldable pub replay : Inner → Request → Text → CachedRequest → Reply
replay inner r digest cached =
    if text_eq cached.digest digest
    then answer inner cached.response
    else answer inner (failure r.request_id ErrorCode.request_id_reuse)

unfoldable pub handle : Env → Inner → Request → Reply
unfolding replay remember
handle env inner r = elim (find_cached r.request_id inner.requests) [
  | some cached ↦ replay inner r (env.digest r) cached
  | none ↦ remember r (env.digest r) (validated env inner r (Request.validate r))
]
