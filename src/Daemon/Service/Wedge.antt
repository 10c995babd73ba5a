-- ===== src/Daemon/Service/Wedge.antt =====
-- What a dismissal that finds an investigation running does to the state.
use omarchy_premonition.Protocol.Response.{ServiceState}
use omarchy_premonition.Protocol.SafeId.{SafeId}
use omarchy_premonition.Protocol.Request.{Request, SubmitParams, ProposalParams, Operation}
use omarchy_premonition.Base.{ℕ, Bool, false, List, [], ◌∷◌, none, some, ◌≡◌, arith, Result}
use omarchy_premonition.Daemon.State.{push_request, Active, TerminalOutcome, Inner}
use omarchy_premonition.Daemon.Handlers.{
  submit, status, proposal_body, apply, dismiss, cancel, repositories, health, has_terminal, Env,
}
use omarchy_premonition.Daemon.Events.{run, Event, step}
use omarchy_premonition.Daemon.Service.{dispatch_operation, dispatch, handle}
use omarchy_premonition.Daemon.Jobs.{finish_job, Finding, JobError}

pub record IsWedged (inner : Inner) : Type 0 where
  pub stays_working : inner.state ≡ ServiceState.working
  pub slot_lost : inner.active ≡ none

submit_blocked :
    (env : Env) (inner : Inner) (q : SubmitParams) (id : SafeId)
    → IsWedged inner
    → (submit env inner q id).effects ≡ []
unfolding submit
submit_blocked env inner q id v = ground arith

-- Dismissing any identifier that was not dismissed before, while an investigation runs, wedges the
-- service.
dismiss-IsWedged :
    (env : Env) (inner : Inner) (p : ProposalParams) (id correlation repository : SafeId)
    (flag : Bool)
    → inner.state ≡ ServiceState.working
    → inner.active ≡ some (Active.working correlation repository flag)
    → has_terminal inner.terminal p.proposal_id TerminalOutcome.dismissed ≡ false
    → IsWedged (dismiss env inner p id).inner
unfolding dismiss
dismiss-IsWedged env inner p id correlation repository flag s a t = ground arith

dispatch_operation-IsWedged :
    (env : Env) (inner : Inner) (operation : Operation) (id : SafeId)
    → IsWedged inner
    → IsWedged (dispatch_operation env inner operation id).inner
unfolding dispatch_operation
dispatch_operation-IsWedged env inner Operation.status id v = unfold status in v
dispatch_operation-IsWedged env inner (Operation.submit p) id v = unfold submit in ground arith
dispatch_operation-IsWedged env inner (Operation.proposal_show p) id v =
    unfold proposal_body in ground arith
dispatch_operation-IsWedged env inner (Operation.proposal_copy p) id v =
    unfold proposal_body in ground arith
dispatch_operation-IsWedged env inner (Operation.proposal_apply p) id v =
    unfold apply in ground arith
dispatch_operation-IsWedged env inner (Operation.proposal_dismiss p) id v =
    unfold dismiss in ground arith
dispatch_operation-IsWedged env inner Operation.cancel id v = unfold cancel in ground arith
dispatch_operation-IsWedged env inner Operation.repositories id v = unfold repositories in v
dispatch_operation-IsWedged env inner Operation.health id v = unfold health in v

handle-IsWedged :
    (env : Env) (inner : Inner) (r : Request) → IsWedged inner → IsWedged (handle env inner r).inner
unfolding handle dispatch push_request
handle-IsWedged env inner r v =
    ground (arith, dispatch_operation-IsWedged env inner r.operation r.request_id v)

finish_job-IsWedged :
    (id_ms now : ℕ) (inner : Inner) (correlation repository : SafeId)
    (completion : Result JobError Finding)
    → IsWedged inner
    → IsWedged (finish_job id_ms now inner correlation repository completion)
unfolding finish_job
finish_job-IsWedged id_ms now inner correlation repository completion v = ground arith

step-IsWedged : (inner : Inner) (e : Event) → IsWedged inner → IsWedged (step inner e)
unfolding step
step-IsWedged inner (Event.request env r) v = handle-IsWedged env inner r v
step-IsWedged inner (Event.completion id_ms now correlation repository c) v =
    finish_job-IsWedged id_ms now inner correlation repository c v

-- A wedged service stays wedged, whatever is requested of it and whatever investigations complete.
run-IsWedged : (inner : Inner) (es : List Event) → IsWedged inner → IsWedged (run inner es)
unfolding run
run-IsWedged inner [] v = v
run-IsWedged inner (e ∷ es) v = run-IsWedged (step inner e) es (step-IsWedged inner e v)

-- If a dismissal finds an investigation running, and its identifier was not dismissed before, then
-- after any further requests and completions the state is still working with an empty slot, and a
-- submission starts nothing.
pub dismiss_wedges :
    (env env' : Env) (inner : Inner) (p : ProposalParams) (q : SubmitParams)
    (id id' correlation repository : SafeId) (flag : Bool) (es : List Event)
    → inner.state ≡ ServiceState.working
    → inner.active ≡ some (Active.working correlation repository flag)
    → has_terminal inner.terminal p.proposal_id TerminalOutcome.dismissed ≡ false
    → IsWedged (run (dismiss env inner p id).inner es)
      × ((submit env' (run (dismiss env inner p id).inner es) q id').effects ≡ [])
dismiss_wedges env env' inner p q id id' correlation repository flag es s a t =
    let v =
      run-IsWedged (dismiss env inner p id).inner es
        (dismiss-IsWedged env inner p id correlation repository flag s a t) in
    (v, submit_blocked env' (run (dismiss env inner p id).inner es) q id' v)
