-- ===== src/Daemon/Service/Settled.antt =====
-- How a request to apply or to dismiss is answered when it is repeated at once.
use omarchy_premonition.Core.Model.{ApplyOutcome}
use omarchy_premonition.Core.Error.{ApplyError}
use omarchy_premonition.Protocol.SafeId
use omarchy_premonition.Daemon.Codes.{failure}
use omarchy_premonition.Protocol.SafeId.{SafeId}
use omarchy_premonition.Protocol.Response.{
  success, failure_response, ResultPayload, Response, ServiceState,
}
use omarchy_premonition.Protocol.Request.{ProposalParams}
use omarchy_premonition.Daemon.Handlers.{
  is_outcome, has_terminal, complete_apply, apply_active, Env, answer, apply, dismiss_taken,
  dismiss, joined,
}
use omarchy_premonition.Daemon.State.{
  push_terminal, push_bounded, TerminalRecord, TerminalOutcome, Inner, Active, ProposalRecord,
}
use omarchy_premonition.Base.{
  Bool, true, false, ◌&&◌, List, [], ◌∷◌, ◌++◌, inl, inr, Option, none, some, ◌≡◌, refl, arith,
  Bool-cases, any, Result, ok, err,
}

any-append_last :
    {A : Type 0} (p : A → Bool) (q : List A) (a : A) → p a ≡ true → any p (q ++ a ∷ []) ≡ true
unfolding any
any-append_last p [] a h = ground arith
any-append_last p (b ∷ q) a h = ground (arith, any-append_last p q a h)

is_outcome_refl : (o : TerminalOutcome) → is_outcome o o ≡ true
is_outcome_refl TerminalOutcome.applied = refl
is_outcome_refl TerminalOutcome.dismissed = refl

has_terminal-push_terminal :
    (inner : Inner) (id asked : SafeId) (outcome : TerminalOutcome)
    → SafeId.eq id asked ≡ true
    → has_terminal (push_terminal inner id outcome).terminal asked outcome ≡ true
unfolding has_terminal push_terminal push_bounded
has_terminal-push_terminal inner id asked outcome same =
    any-append_last
      (λ (t : TerminalRecord). SafeId.eq t.proposal_id asked && is_outcome t.outcome outcome) _
      (record { proposal_id = id; outcome = outcome }) (rw (same, is_outcome_refl outcome) refl)

-- The response says that a proposal was applied, or that it was dismissed.
abbrev pub reports : TerminalOutcome → Response → Bool
reports outcome response = elim response.result [
  | some (ResultPayload.applied id already) ↦ is_outcome outcome TerminalOutcome.applied
  | some (ResultPayload.dismissed id already) ↦ is_outcome outcome TerminalOutcome.dismissed
  | _ ↦ false
]

complete_apply-settles :
    (env : Env) (inner : Inner) (q : ProposalRecord) (id asked : SafeId)
    (result : Result ApplyError ApplyOutcome)
    → SafeId.eq q.proposal_id asked ≡ true
    → reports TerminalOutcome.applied (complete_apply env inner q id result).1 ≡ true
    → has_terminal (complete_apply env inner q id result).0.terminal asked TerminalOutcome.applied
      ≡ true
unfolding complete_apply failure failure_response
complete_apply-settles env inner q id asked (ok outcome) same h =
    has_terminal-push_terminal _ q.proposal_id asked TerminalOutcome.applied same
complete_apply-settles env inner q id asked (err e) same h = cc

apply_active-settles :
    (active : Option Active) (env : Env) (inner : Inner) (p : ProposalParams) (id : SafeId)
    → reports TerminalOutcome.applied (apply_active active env inner p id).response ≡ true
    → has_terminal
        (apply_active active env inner p id).inner.terminal
        p.proposal_id
        TerminalOutcome.applied
      ≡ true
unfolding apply_active failure failure_response
apply_active-settles none env inner p id h = cc
apply_active-settles (some (Active.working c r f)) env inner p id h = cc
apply_active-settles (some (Active.ready q)) env inner p id h =
    elim (Bool-cases (SafeId.eq q.proposal_id p.proposal_id)) [
      | inl same ↦ rw same (
          complete_apply-settles env (record inner { state = ServiceState.applying }) q id
            p.proposal_id (joined (env.publish q.proposal_id.as_str q.proposal)) same
            (rw same at h))
      | inr other ↦ absurd (ground arith)
    ]

apply-settles :
    (env : Env) (inner : Inner) (p : ProposalParams) (id : SafeId)
    → reports TerminalOutcome.applied (apply env inner p id).response ≡ true
    → has_terminal (apply env inner p id).inner.terminal p.proposal_id TerminalOutcome.applied
      ≡ true
unfolding apply failure failure_response
apply-settles env inner p id h = ground (arith, apply_active-settles inner.active env inner p id)

apply_settled :
    (env : Env) (inner : Inner) (p : ProposalParams) (id : SafeId)
    → has_terminal inner.terminal p.proposal_id TerminalOutcome.applied ≡ true
    → apply env inner p id ≡ answer inner (success id (ResultPayload.applied p.proposal_id true))
unfolding apply
apply_settled env inner p id done = rw done refl

-- If a request to apply a proposal is answered as applied, then a further one, under any request
-- identifier and whatever the collaborators answer by then, is answered as applied already, changes nothing and
-- publishes nothing.
pub apply_again :
    (env env' : Env) (inner : Inner) (p : ProposalParams) (id id' : SafeId)
    → reports TerminalOutcome.applied (apply env inner p id).response ≡ true
    → apply env' (apply env inner p id).inner p id'
      ≡ answer (apply env inner p id).inner (success id' (ResultPayload.applied p.proposal_id true))
apply_again env env' inner p id id' h =
    apply_settled env' (apply env inner p id).inner p id' (apply-settles env inner p id h)

dismiss_taken-settles :
    (active : Option Active) (env : Env) (taken : Inner) (p : ProposalParams) (id : SafeId)
    → reports TerminalOutcome.dismissed (dismiss_taken active env taken p id).response ≡ true
    → has_terminal
        (dismiss_taken active env taken p id).inner.terminal
        p.proposal_id
        TerminalOutcome.dismissed
      ≡ true
unfolding dismiss_taken failure failure_response
dismiss_taken-settles none env taken p id h = cc
dismiss_taken-settles (some (Active.working c r f)) env taken p id h = cc
dismiss_taken-settles (some (Active.ready q)) env taken p id h =
    elim (Bool-cases (SafeId.eq q.proposal_id p.proposal_id)) [
      | inl same ↦
          rw same (
            has_terminal-push_terminal _ q.proposal_id p.proposal_id TerminalOutcome.dismissed same)
      | inr other ↦ absurd (ground arith)
    ]

dismiss-settles :
    (env : Env) (inner : Inner) (p : ProposalParams) (id : SafeId)
    → reports TerminalOutcome.dismissed (dismiss env inner p id).response ≡ true
    → has_terminal (dismiss env inner p id).inner.terminal p.proposal_id TerminalOutcome.dismissed
      ≡ true
unfolding dismiss failure failure_response
dismiss-settles env inner p id h =
    ground (arith, dismiss_taken-settles inner.active env (record inner { active = none }) p id)

dismiss_settled :
    (env : Env) (inner : Inner) (p : ProposalParams) (id : SafeId)
    → has_terminal inner.terminal p.proposal_id TerminalOutcome.dismissed ≡ true
    → dismiss env inner p id
      ≡ answer inner (success id (ResultPayload.dismissed p.proposal_id true))
unfolding dismiss
dismiss_settled env inner p id done = rw done refl

-- If a request to dismiss a proposal is answered as dismissed, then a further one, under any
-- request identifier, is answered as dismissed already, and changes nothing.
pub dismiss_again :
    (env env' : Env) (inner : Inner) (p : ProposalParams) (id id' : SafeId)
    → reports TerminalOutcome.dismissed (dismiss env inner p id).response ≡ true
    → dismiss env' (dismiss env inner p id).inner p id'
      ≡ answer
          (dismiss env inner p id).inner
          (success id' (ResultPayload.dismissed p.proposal_id true))
dismiss_again env env' inner p id id' h =
    dismiss_settled env' (dismiss env inner p id).inner p id' (dismiss-settles env inner p id h)
