-- ===== src/Tests/Daemon.antt =====
-- The theorems on the daemon at concrete inputs.
use omarchy_premonition.Daemon.Jobs.Lifecycle.{investigated, submission_reviewed, shown}
use omarchy_premonition.Daemon.Jobs.Unique.{proposal_text-injective}
use omarchy_premonition.Daemon.Service.Settled.{dismiss_again, apply_again}
use omarchy_premonition.Daemon.Service.Recovery.{start_blocked, start_refuses}
use omarchy_premonition.Daemon.Jobs.Identifier.{new-proposal_text}
use omarchy_premonition.Daemon.Jobs.Finish.{finish_job_failed}
use omarchy_premonition.Daemon.Codes.{idle_state, failure}
use omarchy_premonition.Daemon.Events.SingleFlight.{
  single_flight, after_request, System, there, here, requests, slot_of_flight,
}
use omarchy_premonition.Protocol.SafeId.{SafeId}
use omarchy_premonition.Daemon.Service.Cache.{handle_repeat, Repeats}
use omarchy_premonition.Protocol.Request.{Request, Operation, ProposalParams}
use omarchy_premonition.Daemon.Service.Wedge.{dismiss_wedges, IsWedged}
use omarchy_premonition.Daemon.Service.Consent.{handle-IsLicensed, IsLicensed}
use omarchy_premonition.Daemon.Service.Envelope.{handle-IsSoundCache, IsSoundCache, IsEnvelope}
use omarchy_premonition.Daemon.Service.Coherence.{handle-IsCoherent, IsCoherent}
use omarchy_premonition.Executor.{ExecutorError}
use omarchy_premonition.Daemon.Events.{Event, run, step}
use omarchy_premonition.Tests.Patches.{modify_patch}
use omarchy_premonition.Daemon.Jobs.Retry.{run_job-Escalates, Escalates}
use omarchy_premonition.Protocol.Response.{
  success, failure_response, ServiceState, ErrorCode, ResultPayload,
}
use omarchy_premonition.Protocol.Error.{contract_version}
use omarchy_premonition.Daemon.State
use omarchy_premonition.Daemon.State.{
  push_terminal, push_request, push_recent, push_bounded, Active,
}
use omarchy_premonition.Base.{
  ℕ, ◌≤◌, Bool, true, false, List, [], ◌∷◌, ◌↔◌, none, ◌≡◌, refl, arith, text, text_eq,
  is_plain_byte, decimal_digits, decimal, length, all, any, ok, err,
}
use omarchy_premonition.Tests.Fixtures.{
  id, env, fresh, ready, working, params, submission, ask, bench, proposal, provenance, context,
  found, under_review, job,
}
use omarchy_premonition.Daemon.Service.{
  handle, start, find_cached, response_contains_body, dispatch, dispatch_operation, remember,
}
use omarchy_premonition.Daemon.Handlers.{
  apply, dismiss, submit, has_terminal, Effect, is_owned, status, proposal_body, cancel, answer,
  review,
}
use omarchy_premonition.Daemon.Jobs.{
  run_job, finish_job, JobError, proposal_text, proposal_effort, evidence, Workbench, attempt,
  should_retry,
}
use omarchy_premonition.Protocol.SafeId
use omarchy_premonition.Protocol.Request

-- Opens everything that a request goes through.
unfoldable pub serves : Unit {0}
unfolding handle review run_job should_retry attempt evidence proposal_effort decimal decimal_digits
    proposal_text SafeId.new dispatch dispatch_operation submit status proposal_body apply dismiss
    cancel find_cached has_terminal SafeId.eq any text_eq Request.validate remember push_request
    push_bounded push_recent push_terminal success failure failure_response response_contains_body
    idle_state
serves = tt

handle-IsLicensed_example :
    IsLicensed env ready
      (Operation.proposal_apply params)
      (handle env ready (ask (Operation.proposal_apply params))).effects
handle-IsLicensed_example = handle-IsLicensed env ready (ask (Operation.proposal_apply params))

-- That request does publish.
apply_publishes :
    (handle env ready (ask (Operation.proposal_apply params))).effects
    ≡ Effect.publishes (text "p-1-1") under_review.proposal ∷ []
unfolding serves
apply_publishes = refl

abbrev one_submission : System
one_submission =
    after_request env (record { inner = start true true; jobs = [] })
      (ask (Operation.submit submission))

single_flight_example : length one_submission.jobs ≤ 1
single_flight_example =
    single_flight true true one_submission
      (there here (requests env (ask (Operation.submit submission))))

slot_of_flight_example :
    (repository : SafeId) × (flag : Bool) × (Active.working (id "c-1") (id "repo") false
      ≡ Active.working (id "c-1") repository flag)
unfolding serves start State.new
slot_of_flight_example =
    slot_of_flight true true one_submission job (Active.working (id "c-1") (id "repo") false)
      (there here (requests env (ask (Operation.submit submission)))) refl refl

abbrev afterwards : List Event
afterwards =
    Event.request env (ask Operation.cancel)
    ∷ Event.completion 1 2 (id "c-1") (id "repo") (ok found)
    ∷ []

dismiss_wedges_example :
    IsWedged (run (dismiss env working params (id "r-1")).inner afterwards)
    × ((submit env
          (run (dismiss env working params (id "r-1")).inner afterwards)
          submission
          (id "r-2")).effects
        ≡ [])
unfolding has_terminal any
dismiss_wedges_example =
    dismiss_wedges env env working params submission (id "r-1") (id "r-2") (id "c-1") (id "repo")
      false afterwards refl refl refl

handle-IsCoherent_example :
    IsCoherent (handle env ready (ask (Operation.proposal_apply params))).inner
handle-IsCoherent_example =
    handle-IsCoherent env ready (ask (Operation.proposal_apply params)) tt tt

abbrev status_asked : List Event
status_asked = Event.request env (ask Operation.status) ∷ []

abbrev cancellation : Request
cancellation = record {
  version = contract_version;
  request_id = id "r-2";
  operation = Operation.cancel;
}

start_blocked_example :
    ((run (start false true) status_asked).state ≡ ServiceState.recovery_required)
    × ((handle env (run (start false true) status_asked) cancellation).effects ≡ [])
start_blocked_example = start_blocked true status_asked env cancellation

start_refuses_example :
    (handle env (run (start false true) status_asked) cancellation).response
    ≡ failure (id "r-2") ErrorCode.recovery_required
unfolding serves run step start State.new
start_refuses_example = start_refuses true status_asked env cancellation refl refl refl

handle_repeat_example : Repeats (handle env fresh (ask (Operation.submit submission))) (
    handle env
      (handle env fresh (ask (Operation.submit submission))).inner
      (ask (Operation.submit submission)))
unfolding serves
handle_repeat_example = handle_repeat env env fresh (ask (Operation.submit submission)) refl refl

handle-IsSoundCache_example :
    IsSoundCache (handle env ready (ask Operation.status)).inner.requests
    × IsEnvelope (id "r-1") (handle env ready (ask Operation.status)).response
handle-IsSoundCache_example =
    handle-IsSoundCache env ready (ask Operation.status) (record { few = omega arith; filed = tt })

run_job-Escalates_example : Escalates bench (run_job bench)
run_job-Escalates_example = run_job-Escalates bench

new-proposal_text_example :
    SafeId.new (proposal_text 1700000000000 7)
    ≡ ok (record { as_str = proposal_text 1700000000000 7 })
new-proposal_text_example = new-proposal_text 1700000000000 7

proposal_text_run : proposal_text 1700000000000 7 ≡ text "p-1700000000000-7"
unfolding proposal_text decimal
proposal_text_run = refl

abbrev timed_out : JobError
timed_out = JobError.executor ExecutorError.timeout

finish_job_failed_example :
    ((finish_job 4 5 working (id "c-1") (id "repo") (err timed_out)).active ≡ none)
    × (is_owned (finish_job 4 5 working (id "c-1") (id "repo") (err timed_out)).state ≡ false)
    × ((finish_job 4 5 working (id "c-1") (id "repo") (err timed_out)).proposal_sequence ≡ 0)
    × (((finish_job 4 5 working (id "c-1") (id "repo") (err timed_out)).failure ≡ none)
        ↔ (timed_out ≡ JobError.executor ExecutorError.cancelled))
finish_job_failed_example =
    finish_job_failed 4 5 working (id "c-1") (id "repo") false timed_out refl

abbrev moment : ℕ
moment = 1700000000000

abbrev turn : ℕ
turn = 3

proposal_text-injective_example : (moment ≡ moment) × (turn ≡ turn)
proposal_text-injective_example =
    proposal_text-injective moment moment turn turn (omega arith) (omega arith) (omega arith)
      (omega arith) refl

apply_again_example :
    apply env (apply env ready params (id "r-1")).inner params (id "r-2")
    ≡ answer
        (apply env ready params (id "r-1")).inner
        (success (id "r-2") (ResultPayload.applied (id "p-1-1") true))
unfolding serves
apply_again_example = apply_again env env ready params (id "r-1") (id "r-2") refl

dismiss_again_example :
    dismiss env (dismiss env ready params (id "r-1")).inner params (id "r-2")
    ≡ answer
        (dismiss env ready params (id "r-1")).inner
        (success (id "r-2") (ResultPayload.dismissed (id "p-1-1") true))
unfolding serves
dismiss_again_example = dismiss_again env env ready params (id "r-1") (id "r-2") refl

-- The executor finds a candidate at its first run.
abbrev good_bench : Workbench
good_bench = record {
  investigate = λ _. ok (record { patch = modify_patch; rationale = text "small fix" });
  validate_candidate = λ _ _. ok proposal;
  provenance = provenance;
}

abbrev asked : ProposalParams
asked = record { proposal_id = id "p-9-1" }

submission_reviewed_example :
    ((proposal_body
        (investigated 9 10 env fresh submission (id "r-1") good_bench)
        asked
        (id "r-2")
        false).response
      ≡ success (id "r-2") (shown 9 10 fresh submission found))
    × ((proposal_body
          (investigated 9 10 env fresh submission (id "r-1") good_bench)
          asked
          (id "r-2")
          true).response
        ≡ success (id "r-2") (ResultPayload.copy_payload (id "p-9-1") modify_patch))
    × ((apply env
          (investigated 9 10 env fresh submission (id "r-1") good_bench)
          asked
          (id "r-2")).effects
        ≡ Effect.publishes (text "p-9-1") proposal ∷ [])
unfolding serves all is_plain_byte
submission_reviewed_example =
    submission_reviewed 9 10 env env fresh submission (id "r-1") (id "r-2") context good_bench found
      refl refl refl refl refl
