-- ===== src/Daemon/Service/Consent.antt =====
-- Which requests a publication and a spawned investigation come from.
use omarchy_premonition.Core.Model.{GenerationContext}
use omarchy_premonition.Core.Error.{CoreError}
use omarchy_premonition.Daemon.Service.{handle, dispatch_operation, dispatch}
use omarchy_premonition.Protocol.SafeId.{SafeId}
use omarchy_premonition.Protocol.Request.{SubmitParams, Operation, Request, ProposalParams}
use omarchy_premonition.Base.{
  true, false, List, [], ◌∷◌, inl, inr, Option, none, some, ◌≡◌, refl, arith, Bool-cases, Result,
  ok, err,
}
use omarchy_premonition.Protocol.SafeId
use omarchy_premonition.Daemon.State.{ProposalRecord, Active, Inner, TerminalOutcome}
use omarchy_premonition.Daemon.Handlers.{
  is_owned, is_applying, admit, Env, Effect, status, proposal_body, dismiss, cancel, repositories,
  health, submit, has_terminal, apply_active, apply,
}

-- The request asks to apply the proposal that is in the active slot.
abbrev pub Consents : Inner → Operation → ProposalRecord → Type 0
Consents inner (Operation.proposal_apply params) p =
    (inner.active ≡ some (Active.ready p)) × (p.proposal_id ≡ params.proposal_id)
Consents inner _ p = ⊥

-- The effects of a reply are none, one spawned investigation of a submission that was admitted
-- while nothing was active, or one publication that was consented to.
abbrev pub IsLicensed : Env → Inner → Operation → List Effect → Type 0
IsLicensed env inner operation [] = Unit
IsLicensed env inner operation (Effect.spawns job ∷ []) =
    (p : SubmitParams) × (operation ≡ Operation.submit p)
    × (env.executor_available ≡ true)
    × (is_owned inner.state ≡ false)
    × (env.begin_investigation p.repository_id.as_str ≡ ok job.context)
    × (job.input ≡ p.input)
IsLicensed env inner operation (Effect.publishes id proposal ∷ []) =
    (p : ProposalRecord) × Consents inner operation p
    × (id ≡ p.proposal_id.as_str)
    × (proposal ≡ p.proposal)
IsLicensed env inner operation _ = ⊥

admit-IsLicensed :
    (env : Env) (inner : Inner) (p : SubmitParams) (id : SafeId)
    (begun : Result CoreError GenerationContext)
    → env.executor_available ≡ true
    → is_owned inner.state ≡ false
    → env.begin_investigation p.repository_id.as_str ≡ begun
    → IsLicensed env inner (Operation.submit p) (admit inner p id begun).effects
admit-IsLicensed env inner p id (err e) available free b = tt
admit-IsLicensed env inner p id (ok context) available free b = (p, refl, available, free, b, refl)

submit-IsLicensed :
    (env : Env) (inner : Inner) (p : SubmitParams) (id : SafeId)
    → IsLicensed env inner (Operation.submit p) (submit env inner p id).effects
unfolding submit
submit-IsLicensed env inner p id = elim (Bool-cases env.executor_available) [
  | inl available ↦ elim (Bool-cases (is_owned inner.state)) [
    | inl owned ↦ ground arith
    | inr free ↦
        simp (available, free)
          (admit-IsLicensed env inner p id (env.begin_investigation p.repository_id.as_str)
            available free refl)
  ]
  | inr missing ↦ ground arith
]

apply_active-IsLicensed :
    (env : Env) (inner : Inner) (p : ProposalParams) (id : SafeId) (active : Option Active)
    → inner.active ≡ active
    → IsLicensed env inner (Operation.proposal_apply p) (apply_active active env inner p id).effects
unfolding apply_active
apply_active-IsLicensed env inner p id none e = tt
apply_active-IsLicensed env inner p id (some (Active.working c r f)) e = tt
apply_active-IsLicensed env inner p id (some (Active.ready q)) e =
    elim (Bool-cases (SafeId.eq q.proposal_id p.proposal_id)) [
      | inl same ↦ rw same (q, (e, SafeId.eq→eq q.proposal_id p.proposal_id same), refl, refl)
      | inr other ↦ rw other tt
    ]

apply-IsLicensed :
    (env : Env) (inner : Inner) (p : ProposalParams) (id : SafeId)
    → IsLicensed env inner (Operation.proposal_apply p) (apply env inner p id).effects
unfolding apply
apply-IsLicensed env inner p id =
    let active = apply_active-IsLicensed env inner p id inner.active refl in
    elim (Bool-cases (has_terminal inner.terminal p.proposal_id TerminalOutcome.applied)) [
      | inl done ↦ rw done tt
      | inr fresh ↦ elim (Bool-cases (is_applying inner.state)) [
        | inl busy ↦ rw (fresh, busy) tt
        | inr free ↦ rw (fresh, free) active
      ]
    ]

dispatch_operation-IsLicensed :
    (env : Env) (inner : Inner) (operation : Operation) (id : SafeId)
    → IsLicensed env inner operation (dispatch_operation env inner operation id).effects
unfolding dispatch_operation
dispatch_operation-IsLicensed env inner Operation.status id = unfold status in tt
dispatch_operation-IsLicensed env inner (Operation.submit p) id = submit-IsLicensed env inner p id
dispatch_operation-IsLicensed env inner (Operation.proposal_show p) id =
    unfold proposal_body in ground arith
dispatch_operation-IsLicensed env inner (Operation.proposal_copy p) id =
    unfold proposal_body in ground arith
dispatch_operation-IsLicensed env inner (Operation.proposal_apply p) id =
    apply-IsLicensed env inner p id
dispatch_operation-IsLicensed env inner (Operation.proposal_dismiss p) id =
    unfold dismiss in ground arith
dispatch_operation-IsLicensed env inner Operation.cancel id = unfold cancel in ground arith
dispatch_operation-IsLicensed env inner Operation.repositories id = unfold repositories in tt
dispatch_operation-IsLicensed env inner Operation.health id = unfold health in tt

-- A request spawns at most one investigation, and only as a submission that the executor and the
-- policy admit, with the context that the policy gave; it publishes at most once, and only as a
-- request to apply the very proposal that is under review, with that proposal's patch; any other
-- request, a replayed one among them, does neither.
pub handle-IsLicensed :
    (env : Env) (inner : Inner) (r : Request)
    → IsLicensed env inner r.operation (handle env inner r).effects
unfolding handle dispatch
handle-IsLicensed env inner r =
    ground (arith, dispatch_operation-IsLicensed env inner r.operation r.request_id)
