-- ===== src/Daemon/Jobs/Lifecycle.antt =====
-- A submission from its admission to the publication of its proposal.
use omarchy_premonition.Daemon.Jobs.Finish.{record_of, finish_job-ready}
use omarchy_premonition.Protocol.Response.{success, ServiceState, ResultPayload}
use omarchy_premonition.Protocol.SafeId.{SafeId}
use omarchy_premonition.Protocol.Request.{SubmitParams, ProposalParams}
use omarchy_premonition.Core.Model.{GenerationContext}
use omarchy_premonition.Daemon.Jobs.{run_job, finish_job, Workbench, Finding}
use omarchy_premonition.Daemon.Handlers.{
  submit, proposal_body, is_owned, is_applying, has_terminal, apply_active, apply, Env, Effect,
  review,
}
use omarchy_premonition.Daemon.State.{TerminalOutcome, ProposalRecord, Inner, Active}
use omarchy_premonition.Base.{
  ℕ, ◌+◌, ◌%◌, ◌^◌, Bool, true, false, [], ◌∷◌, none, some, ◌≡◌, refl, ltb, if◌then◌else◌, length,
  ok,
}
use omarchy_premonition.Protocol.SafeId

-- The state when the investigation of an admitted submission has completed.
abbrev pub investigated : ℕ → ℕ → Env → Inner → SubmitParams → SafeId → Workbench → Inner
investigated id_ms now env inner p id bench =
    finish_job id_ms now (submit env inner p id).inner p.correlation_id p.repository_id
      (run_job bench).0

-- The state of a submission that was admitted.
abbrev admitted : Inner → SubmitParams → Inner
admitted inner p = record inner {
  state = ServiceState.working;
  active = some (Active.working p.correlation_id p.repository_id false);
  failure = none;
}

submit-admitted :
    (env : Env) (inner : Inner) (p : SubmitParams) (id : SafeId) (context : GenerationContext)
    → env.executor_available ≡ true
    → is_owned inner.state ≡ false
    → env.begin_investigation p.repository_id.as_str ≡ ok context
    → (submit env inner p id).inner ≡ admitted inner p
unfolding submit
submit-admitted env inner p id context available free begun = rw (available, free, begun) refl

-- The record that the investigation of an admitted submission puts under review.
abbrev pub submitted_record : ℕ → ℕ → Inner → SubmitParams → Finding → ProposalRecord
submitted_record id_ms now inner p found =
    record_of id_ms now inner p.correlation_id p.repository_id found

investigated_found :
    (id_ms now : ℕ) (env : Env) (inner : Inner) (p : SubmitParams) (id : SafeId)
    (context : GenerationContext) (bench : Workbench) (found : Finding)
    → env.executor_available ≡ true
    → is_owned inner.state ≡ false
    → env.begin_investigation p.repository_id.as_str ≡ ok context
    → (run_job bench).0 ≡ ok found
    → investigated id_ms now env inner p id bench ≡ record inner {
      state = ServiceState.ready;
      active = some (Active.ready (submitted_record id_ms now inner p found));
      failure = none;
      proposal_sequence = (inner.proposal_sequence + 1) % 2 ^ 64;
    }
investigated_found id_ms now env inner p id context bench found available free begun ran =
    rw (submit-admitted env inner p id context available free begun, ran)
      (finish_job-ready id_ms now (admitted inner p) p.correlation_id p.repository_id false found
        refl)

-- What a service answers that has `q` under review.
shows_reviewed :
    (inner : Inner) (q : ProposalRecord) (id : SafeId) (copy_only : Bool)
    → inner.active ≡ some (Active.ready q)
    → (proposal_body inner (record { proposal_id = q.proposal_id }) id copy_only).response
      ≡ success id (review q copy_only)
unfolding proposal_body
shows_reviewed inner q id copy_only a = rw (a, SafeId.eq_refl q.proposal_id) refl

publishes_reviewed :
    (env : Env) (inner : Inner) (q : ProposalRecord) (id : SafeId)
    → inner.active ≡ some (Active.ready q)
    → is_applying inner.state ≡ false
    → has_terminal inner.terminal q.proposal_id TerminalOutcome.applied ≡ false
    → (apply env inner (record { proposal_id = q.proposal_id }) id).effects
      ≡ Effect.publishes q.proposal_id.as_str q.proposal ∷ []
unfolding apply apply_active
publishes_reviewed env inner q id a free fresh =
    rw (fresh, free, a, SafeId.eq_refl q.proposal_id) refl

-- What a request to show the finding's proposal is answered with.
abbrev pub shown : ℕ → ℕ → Inner → SubmitParams → Finding → ResultPayload
shown id_ms now inner p found = ResultPayload.proposal (record {
  proposal_id = (submitted_record id_ms now inner p found).proposal_id;
  repository_id = p.repository_id;
  patch = found.proposal.patch.raw;
  rationale = found.rationale;
  file_count =
      if ltb (length found.proposal.patch.files) (2 ^ 16)
      then length found.proposal.patch.files
      else 65535;
  created_unix_ms = now;
  executor = found.evidence;
})

-- If a submission is admitted and its last run of the executor ends in a finding, then a request to
-- show the resulting proposal is answered with the finding's patch, rationale and evidence, the
-- submission's repository and the number of the patch's files, at most 65535; a request to copy it is
-- answered with exactly the bytes of the finding's patch; and a request to apply it, unless an applied
-- proposal has its identifier, publishes exactly the finding's proposal.
pub submission_reviewed :
    (id_ms now : ℕ) (env env' : Env) (inner : Inner) (p : SubmitParams) (id id' : SafeId)
    (context : GenerationContext) (bench : Workbench) (found : Finding)
    → env.executor_available ≡ true
    → is_owned inner.state ≡ false
    → env.begin_investigation p.repository_id.as_str ≡ ok context
    → (run_job bench).0 ≡ ok found
    → has_terminal inner.terminal
        (submitted_record id_ms now inner p found).proposal_id
        TerminalOutcome.applied
      ≡ false
    → let asked : ProposalParams = record {
      proposal_id = (submitted_record id_ms now inner p found).proposal_id;
    } in
      let after = investigated id_ms now env inner p id bench in
      ((proposal_body after asked id' false).response ≡ success id' (shown id_ms now inner p found))
      × ((proposal_body after asked id' true).response
          ≡ success id' (ResultPayload.copy_payload asked.proposal_id found.proposal.patch.raw))
      × ((apply env' after asked id').effects
          ≡ Effect.publishes asked.proposal_id.as_str found.proposal ∷ [])
unfolding review
submission_reviewed id_ms now env env' inner p id id' context bench found available free begun ran
      fresh =
    let q = submitted_record id_ms now inner p found in
    rw (investigated_found id_ms now env inner p id context bench found available free begun ran) (
      shows_reviewed _ q id' false refl,
      shows_reviewed _ q id' true refl,
      publishes_reviewed env' _ q id' refl refl fresh,
    )
