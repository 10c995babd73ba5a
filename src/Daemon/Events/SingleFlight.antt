-- ===== src/Daemon/Events/SingleFlight.antt =====
-- How many investigations are outstanding, and what the active slot then holds.
use omarchy_premonition.Daemon.Jobs.Finish.{classify_free}
use omarchy_premonition.Daemon.Service.{handle, dispatch_operation, dispatch, start}
use omarchy_premonition.Daemon.Codes.{idle_state}
use omarchy_premonition.Protocol.Response.{ServiceState}
use omarchy_premonition.Protocol.SafeId.{SafeId}
use omarchy_premonition.Protocol.Request.{SubmitParams, Request, ProposalParams, Operation}
use omarchy_premonition.Daemon.Jobs.{
  finish_job, JobError, Finding, finish_found, finish_failed, finish_matched, classify,
}
use omarchy_premonition.Daemon.State.{push_terminal, push_recent, Inner, Active, push_request}
use omarchy_premonition.Base.{
  ℕ, ◌≤◌, Bool, false, List, [], ◌∷◌, ◌++◌, Option, none, some, ◌≡◌, sym, ap, subst, arith, length,
  Result, ok, err,
}
use omarchy_premonition.Daemon.Handlers.{
  submit, apply, dismiss, cancel, Env, Job, Effect, Reply, is_owned, status, proposal_body,
  repositories, health,
}
use omarchy_premonition.Protocol.SafeId
use omarchy_premonition.Daemon.State
use omarchy_premonition.Daemon.Service.{start}

-- The service with the investigations that it has spawned and that have not completed.
pub record System : Type 0 where
  pub inner : Inner
  pub jobs : List Job

abbrev pub spawned : List Effect → List Job
spawned [] = []
spawned (Effect.spawns job ∷ es) = job ∷ spawned es
spawned (Effect.publishes id proposal ∷ es) = spawned es

abbrev pub after_request : Env → System → Request → System
after_request env s r = record {
  inner = (handle env s.inner r).inner;
  jobs = spawned (handle env s.inner r).effects ++ s.jobs;
}

-- A request is handled, or any outstanding investigation completes in any way, at any time.
pub data Next (s : System) : System → Type 0 where
  requests : (env : Env) (r : Request) → Next s (after_request env s r)
  completes :
      (id_ms now : ℕ) (job : Job) (before after : List Job) (completion : Result JobError Finding)
      → s.jobs ≡ before ++ job ∷ after
      → Next s (record {
        inner = finish_job id_ms now s.inner job.correlation_id job.repository_id completion;
        jobs = before ++ after;
      })

pub data Reaches (s : System) : System → Type 0 where
  here : Reaches s s
  there : {t u : System} → Reaches s t → Next t u → Reaches s u

-- The running investigation is the outstanding one; a service that lost its slot may still have one
-- outstanding; any other has none.
abbrev Flight : ServiceState → Option Active → List Job → Type 0
Flight ServiceState.working (some (Active.working c r f)) (job ∷ []) = job.correlation_id ≡ c
Flight ServiceState.working none [] = Unit
Flight ServiceState.working none (job ∷ []) = Unit
Flight ServiceState.ready (some (Active.ready p)) [] = Unit
Flight ServiceState.idle none [] = Unit
Flight ServiceState.invalid none [] = Unit
Flight ServiceState.error none [] = Unit
Flight ServiceState.runtime_missing none [] = Unit
Flight ServiceState.recovery_required none [] = Unit
Flight _ _ _ = ⊥

abbrev InFlight : System → Type 0
InFlight s = Flight s.inner.state s.inner.active s.jobs

-- What one reply does to the flight.
abbrev Keeps : List Job → Reply → Type 0
Keeps jobs reply = Flight reply.inner.state reply.inner.active (spawned reply.effects ++ jobs)

submit-Keeps :
    (env : Env) (inner : Inner) (p : SubmitParams) (id : SafeId) (jobs : List Job)
    → Flight inner.state inner.active jobs
    → Keeps jobs (submit env inner p id)
unfolding submit
submit-Keeps env inner p id jobs v = ground arith

apply-Keeps :
    (env : Env) (inner : Inner) (p : ProposalParams) (id : SafeId) (jobs : List Job)
    → Flight inner.state inner.active jobs
    → Keeps jobs (apply env inner p id)
unfolding apply push_recent push_terminal idle_state
apply-Keeps env inner p id jobs v = ground arith

dismiss-Keeps :
    (env : Env) (inner : Inner) (p : ProposalParams) (id : SafeId) (jobs : List Job)
    → Flight inner.state inner.active jobs
    → Keeps jobs (dismiss env inner p id)
unfolding dismiss push_recent push_terminal idle_state
dismiss-Keeps env inner p id jobs v = ground arith

cancel-Keeps :
    (inner : Inner) (id : SafeId) (jobs : List Job)
    → Flight inner.state inner.active jobs
    → Keeps jobs (cancel inner id)
unfolding cancel
cancel-Keeps inner id jobs v = ground arith

dispatch_operation-Keeps :
    (env : Env) (inner : Inner) (operation : Operation) (id : SafeId) (jobs : List Job)
    → Flight inner.state inner.active jobs
    → Keeps jobs (dispatch_operation env inner operation id)
unfolding dispatch_operation
dispatch_operation-Keeps env inner Operation.status id jobs v = unfold status in v
dispatch_operation-Keeps env inner (Operation.submit p) id jobs v =
    submit-Keeps env inner p id jobs v
dispatch_operation-Keeps env inner (Operation.proposal_show p) id jobs v =
    unfold proposal_body in ground arith
dispatch_operation-Keeps env inner (Operation.proposal_copy p) id jobs v =
    unfold proposal_body in ground arith
dispatch_operation-Keeps env inner (Operation.proposal_apply p) id jobs v =
    apply-Keeps env inner p id jobs v
dispatch_operation-Keeps env inner (Operation.proposal_dismiss p) id jobs v =
    dismiss-Keeps env inner p id jobs v
dispatch_operation-Keeps env inner Operation.cancel id jobs v = cancel-Keeps inner id jobs v
dispatch_operation-Keeps env inner Operation.repositories id jobs v = unfold repositories in v
dispatch_operation-Keeps env inner Operation.health id jobs v = unfold health in v

handle-Keeps :
    (env : Env) (inner : Inner) (r : Request) (jobs : List Job)
    → Flight inner.state inner.active jobs
    → Keeps jobs (handle env inner r)
unfolding handle dispatch push_request
handle-Keeps env inner r jobs v =
    ground (arith, dispatch_operation-Keeps env inner r.operation r.request_id jobs v)

Flight-free : (s : ServiceState) → is_owned s ≡ false → Flight s none []
Flight-free ServiceState.working h = tt
Flight-free ServiceState.ready h = cc
Flight-free ServiceState.applying h = cc
Flight-free _ h = tt

-- The completion of the only outstanding investigation.
finish_job-Flight :
    (id_ms now : ℕ) (inner : Inner) (job : Job) (completion : Result JobError Finding)
    → Flight inner.state inner.active (job ∷ [])
    → let after = finish_job id_ms now inner job.correlation_id job.repository_id completion in
      Flight after.state after.active []
unfolding finish_job finish_matched finish_found finish_failed
finish_job-Flight id_ms now inner job (ok found) v =
    ground (arith, SafeId.eq_refl job.correlation_id)
finish_job-Flight id_ms now inner job (err e) v =
    ground (arith, SafeId.eq_refl job.correlation_id, Flight-free (classify e).0 (classify_free e))

completion-Flight :
    (id_ms now : ℕ) (inner : Inner) (before after : List Job) (job : Job)
    (completion : Result JobError Finding)
    → Flight inner.state inner.active (before ++ job ∷ after)
    → let inner' = finish_job id_ms now inner job.correlation_id job.repository_id completion in
      Flight inner'.state inner'.active (before ++ after)
completion-Flight id_ms now inner [] [] job c v = finish_job-Flight id_ms now inner job c v
completion-Flight id_ms now inner [] (k ∷ after) job c v = absurd (ground arith)
completion-Flight id_ms now inner (k ∷ []) after job c v = absurd (ground arith)
completion-Flight id_ms now inner (k ∷ l ∷ before) after job c v = absurd (ground arith)

Next-InFlight : {s t : System} → InFlight s → Next s t → InFlight t
Next-InFlight {s} v (requests env r) = handle-Keeps env s.inner r s.jobs v
Next-InFlight {s} v (completes id_ms now job before after completion e) =
    completion-Flight id_ms now s.inner before after job completion
      (subst (Flight s.inner.state s.inner.active) e v)

Reaches-InFlight : {s t : System} → InFlight s → Reaches s t → InFlight t
Reaches-InFlight v here = v
Reaches-InFlight v (there r n) = Next-InFlight (Reaches-InFlight v r) n

Flight-le :
    (s : ServiceState) (active : Option Active) (jobs : List Job)
    → Flight s active jobs
    → length jobs ≤ 1
Flight-le s active [] v = omega arith
Flight-le s active (j ∷ []) v = omega arith
Flight-le s active (j ∷ k ∷ jobs) v = absurd (ground arith)

Flight-slot :
    (s : ServiceState) (slot : Active) (job : Job)
    → Flight s (some slot) (job ∷ [])
    → (repository : SafeId) × (flag : Bool) × (slot
        ≡ Active.working job.correlation_id repository flag)
Flight-slot s (Active.ready p) job v = absurd (ground arith)
Flight-slot s (Active.working c r f) job v =
    let same : job.correlation_id ≡ c = ground arith in
    (r, f, ap (λ (x : SafeId). Active.working x r f) (sym same))

start-InFlight :
    (recovered executor_available : Bool)
    → InFlight (record { inner = start recovered executor_available; jobs = [] })
unfolding start State.new
start-InFlight recovered executor_available = ground arith

-- From the start of the service, through any requests and any completions of the investigations that
-- it spawned, in any order, there is never more than one investigation outstanding.
pub single_flight :
    (recovered executor_available : Bool) (s : System)
    → Reaches (record { inner = start recovered executor_available; jobs = [] }) s
    → length s.jobs ≤ 1
single_flight recovered executor_available s r =
    Flight-le s.inner.state s.inner.active s.jobs
      (Reaches-InFlight (start-InFlight recovered executor_available) r)

-- In any state that is reached from the start, if an investigation is outstanding and the active slot
-- is not empty, then the slot holds that investigation, and no proposal is under review.
pub slot_of_flight :
    (recovered executor_available : Bool) (s : System) (job : Job) (slot : Active)
    → Reaches (record { inner = start recovered executor_available; jobs = [] }) s
    → s.jobs ≡ job ∷ []
    → s.inner.active ≡ some slot
    → (repository : SafeId) × (flag : Bool) × (slot
        ≡ Active.working job.correlation_id repository flag)
slot_of_flight recovered executor_available s job slot r ej ea =
    let v = Reaches-InFlight (start-InFlight recovered executor_available) r in
    Flight-slot s.inner.state slot job (rw (← ej, ← ea) v)
