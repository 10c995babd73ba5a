-- ===== src/Daemon/Service/Coherence.antt =====
-- When the public state and the active slot agree, and which handlers keep them so.
use omarchy_premonition.Protocol.Response.{ServiceState}
use omarchy_premonition.Protocol.SafeId.{SafeId}
use omarchy_premonition.Protocol.Request.{SubmitParams, ProposalParams, Operation, Request}
use omarchy_premonition.Base.{◌≢◌, Option, none, some, arith}
use omarchy_premonition.Daemon.State.{push_recent, push_terminal, Active, Inner, push_request}
use omarchy_premonition.Daemon.Codes.{idle_state}
use omarchy_premonition.Daemon.Service.{dispatch_operation, dispatch, handle}
use omarchy_premonition.Daemon.Handlers.{
  submit, apply, dismiss, cancel, Env, status, proposal_body, repositories, health,
}

-- A working service has a running job in the slot, a ready one a proposal, any other neither; no slot
-- agrees with the state of applying.
abbrev pub Coherent : ServiceState → Option Active → Type 0
Coherent ServiceState.working (some (Active.working c r f)) = Unit
Coherent ServiceState.ready (some (Active.ready p)) = Unit
Coherent ServiceState.idle none = Unit
Coherent ServiceState.invalid none = Unit
Coherent ServiceState.error none = Unit
Coherent ServiceState.runtime_missing none = Unit
Coherent ServiceState.recovery_required none = Unit
Coherent _ _ = ⊥

abbrev pub IsCoherent : Inner → Type 0
IsCoherent inner = Coherent inner.state inner.active

submit-IsCoherent :
    (env : Env) (inner : Inner) (p : SubmitParams) (id : SafeId)
    → IsCoherent inner
    → IsCoherent (submit env inner p id).inner
unfolding submit
submit-IsCoherent env inner p id v = ground arith

apply-IsCoherent :
    (env : Env) (inner : Inner) (p : ProposalParams) (id : SafeId)
    → IsCoherent inner
    → IsCoherent (apply env inner p id).inner
unfolding apply push_recent push_terminal idle_state
apply-IsCoherent env inner p id v = ground arith

cancel-IsCoherent :
    (inner : Inner) (id : SafeId) → IsCoherent inner → IsCoherent (cancel inner id).inner
unfolding cancel
cancel-IsCoherent inner id v = ground arith

dismiss-IsCoherent :
    (env : Env) (inner : Inner) (p : ProposalParams) (id : SafeId)
    → inner.state ≢ ServiceState.working
    → IsCoherent inner
    → IsCoherent (dismiss env inner p id).inner
unfolding dismiss push_recent push_terminal idle_state
dismiss-IsCoherent env inner p id idle v = ground arith

-- A dismissal finds no running investigation.
abbrev pub IsTimely : ServiceState → Operation → Type 0
IsTimely ServiceState.working (Operation.proposal_dismiss p) = ⊥
IsTimely _ _ = Unit

dispatch_operation-IsCoherent :
    (env : Env) (inner : Inner) (operation : Operation) (id : SafeId)
    → IsTimely inner.state operation
    → IsCoherent inner
    → IsCoherent (dispatch_operation env inner operation id).inner
unfolding dispatch_operation
dispatch_operation-IsCoherent env inner Operation.status id t v = unfold status in v
dispatch_operation-IsCoherent env inner (Operation.submit p) id t v =
    submit-IsCoherent env inner p id v
dispatch_operation-IsCoherent env inner (Operation.proposal_show p) id t v =
    unfold proposal_body in ground arith
dispatch_operation-IsCoherent env inner (Operation.proposal_copy p) id t v =
    unfold proposal_body in ground arith
dispatch_operation-IsCoherent env inner (Operation.proposal_apply p) id t v =
    apply-IsCoherent env inner p id v
dispatch_operation-IsCoherent env inner (Operation.proposal_dismiss p) id t v =
    dismiss-IsCoherent env inner p id (λ e. ground arith) v
dispatch_operation-IsCoherent env inner Operation.cancel id t v = cancel-IsCoherent inner id v
dispatch_operation-IsCoherent env inner Operation.repositories id t v = unfold repositories in v
dispatch_operation-IsCoherent env inner Operation.health id t v = unfold health in v

-- Every request keeps the public state and the active slot in agreement, and the service is not
-- applying afterwards, unless the request is a dismissal that finds an investigation running.
pub handle-IsCoherent :
    (env : Env) (inner : Inner) (r : Request)
    → IsTimely inner.state r.operation
    → IsCoherent inner
    → IsCoherent (handle env inner r).inner
unfolding handle dispatch push_request
handle-IsCoherent env inner r t v =
    ground (arith, dispatch_operation-IsCoherent env inner r.operation r.request_id t v)
