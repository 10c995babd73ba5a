-- ===== src/Daemon/Service/Recovery.antt =====
-- What a service does that could not recover an interrupted transaction.
use omarchy_premonition.Protocol.SafeId.{SafeId}
use omarchy_premonition.Protocol.Request.{Request, Operation}
use omarchy_premonition.Daemon.Jobs.{finish_job, JobError, Finding}
use omarchy_premonition.Daemon.Events.{step, run, Event}
use omarchy_premonition.Protocol.Response.{ServiceState, ErrorCode}
use omarchy_premonition.Base.{ℕ, Bool, false, List, [], ◌∷◌, none, ◌≡◌, refl, arith, Result, ok}
use omarchy_premonition.Protocol.Request
use omarchy_premonition.Daemon.State
use omarchy_premonition.Daemon.Codes.{failure}
use omarchy_premonition.Daemon.Service.Cache.{handle_fresh, remember-response}
use omarchy_premonition.Daemon.State.{push_request, Inner}
use omarchy_premonition.Daemon.Handlers.{status, health, Env}
use omarchy_premonition.Daemon.Service.{
  handle, dispatch, find_cached, start, is_open, dispatch_operation,
}

pub record IsBlocked (inner : Inner) : Type 0 where
  pub stays : inner.state ≡ ServiceState.recovery_required
  pub empty : inner.active ≡ none

dispatch-IsBlocked :
    (env : Env) (inner : Inner) (operation : Operation) (id : SafeId)
    → IsBlocked inner
    → IsBlocked (dispatch env inner operation id).inner
      × ((dispatch env inner operation id).effects ≡ [])
unfolding dispatch dispatch_operation
dispatch-IsBlocked env inner Operation.status id v = unfold status in (v, refl)
dispatch-IsBlocked env inner Operation.health id v = unfold health in (v, refl)
dispatch-IsBlocked env inner _ id v = ground arith

-- While recovery is required, every request leaves it required, with no proposal, spawns nothing and
-- publishes nothing.
pub handle-IsBlocked :
    (env : Env) (inner : Inner) (r : Request)
    → IsBlocked inner
    → IsBlocked (handle env inner r).inner × ((handle env inner r).effects ≡ [])
unfolding handle push_request
handle-IsBlocked env inner r v =
    ground (arith, dispatch-IsBlocked env inner r.operation r.request_id v)

finish_job-IsBlocked :
    (id_ms now : ℕ) (inner : Inner) (c r : SafeId) (completion : Result JobError Finding)
    → IsBlocked inner
    → IsBlocked (finish_job id_ms now inner c r completion)
unfolding finish_job
finish_job-IsBlocked id_ms now inner c r completion v = ground arith

step-IsBlocked : (inner : Inner) (e : Event) → IsBlocked inner → IsBlocked (step inner e)
unfolding step
step-IsBlocked inner (Event.request env r) v = (handle-IsBlocked env inner r v).0
step-IsBlocked inner (Event.completion id_ms now c r completion) v =
    finish_job-IsBlocked id_ms now inner c r completion v

run-IsBlocked : (inner : Inner) (es : List Event) → IsBlocked inner → IsBlocked (run inner es)
unfolding run
run-IsBlocked inner [] v = v
run-IsBlocked inner (e ∷ es) v = run-IsBlocked (step inner e) es (step-IsBlocked inner e v)

start-IsBlocked : (executor_available : Bool) → IsBlocked (start false executor_available)
unfolding start State.new
start-IsBlocked executor_available = record { stays = refl; empty = refl }

dispatch_refused :
    (env : Env) (inner : Inner) (operation : Operation) (id : SafeId)
    → IsBlocked inner
    → is_open operation ≡ false
    → (dispatch env inner operation id).response ≡ failure id ErrorCode.recovery_required
unfolding dispatch
dispatch_refused env inner operation id v closed = ground arith

handle_refused :
    (env : Env) (inner : Inner) (r : Request)
    → IsBlocked inner
    → find_cached r.request_id inner.requests ≡ none
    → Request.validate r ≡ ok tt
    → is_open r.operation ≡ false
    → (handle env inner r).response ≡ failure r.request_id ErrorCode.recovery_required
handle_refused env inner r v fresh valid closed =
    rw (handle_fresh env inner r fresh, remember-response, valid)
      (dispatch_refused env inner r.operation r.request_id v closed)

-- A service whose start-up recovery failed requires recovery after any history of requests and
-- completions, with an executor or without, and any further request then spawns and publishes
-- nothing.
pub start_blocked :
    (executor_available : Bool) (es : List Event) (env : Env) (r : Request)
    → ((run (start false executor_available) es).state ≡ ServiceState.recovery_required)
      × ((handle env (run (start false executor_available) es) r).effects ≡ [])
start_blocked executor_available es env r =
    let v =
      run-IsBlocked (start false executor_available) es (start-IsBlocked executor_available) in
    (v.stays, (handle-IsBlocked env (run (start false executor_available) es) r v).1)

-- A service whose start-up recovery failed refuses, after any history, every valid request that it
-- does not remember, other than one for the status or the health, with the code for recovery.
pub start_refuses :
    (executor_available : Bool) (es : List Event) (env : Env) (r : Request)
    → find_cached r.request_id (run (start false executor_available) es).requests ≡ none
    → Request.validate r ≡ ok tt
    → is_open r.operation ≡ false
    → (handle env (run (start false executor_available) es) r).response
      ≡ failure r.request_id ErrorCode.recovery_required
start_refuses executor_available es env r fresh valid closed =
    handle_refused env (run (start false executor_available) es) r
      (run-IsBlocked (start false executor_available) es (start-IsBlocked executor_available)) fresh
      valid closed
