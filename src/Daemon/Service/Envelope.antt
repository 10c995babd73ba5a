-- ===== src/Daemon/Service/Envelope.antt =====
-- Which response a request gets, and what the cache of replies holds.
use omarchy_premonition.Daemon.Service.Cache.{
  handle_cached, handle_fresh, validated-requests, replay-inner,
}
use omarchy_premonition.Daemon.Service.Cache.{validated-requests, replay-inner}
use omarchy_premonition.Daemon.State.Bounds.{push_bounded-le, push_bounded-All}
use omarchy_premonition.Daemon.Codes.{failure}
use omarchy_premonition.Protocol.SafeId.{SafeId}
use omarchy_premonition.Protocol.Request.{Request, Operation}
use omarchy_premonition.Protocol.Response.{
  success, failure_response, WireError, ResultPayload, Response, ErrorCode,
}
use omarchy_premonition.Base.{
  ◌≤◌, Bool, true, false, not, ◌&&◌, List, [], ◌∷◌, inl, inr, Option, none, some, ◌≡◌, arith,
  Bool-cases, Option-cases, Text, text_eq, length, All, Result, ok, err,
}
use omarchy_premonition.Protocol.SafeId
use omarchy_premonition.Protocol.Request
use omarchy_premonition.Protocol.Error.{contract_version, ProtocolError}
use omarchy_premonition.Daemon.State.{request_cache_limit, CachedRequest, Inner, push_request}
use omarchy_premonition.Daemon.Handlers.{
  submit, status, proposal_body, apply, dismiss, cancel, repositories, health, Env, needs_recovery,
  Reply,
}
use omarchy_premonition.Daemon.Service.{
  validated, dispatch, find_cached, response_contains_body, is_open, dispatch_operation, remember,
  replay, handle,
}

-- A result and no error where it is ok, an error and no result where it is not.
abbrev pub is_sealed : Bool → Option ResultPayload → Option WireError → Bool
is_sealed true (some p) none = true
is_sealed false none (some e) = true
is_sealed _ _ _ = false

-- The response answers `id`.
pub record IsEnvelope (id : SafeId) (r : Response) : Type 0 where
  pub answers : r.request_id ≡ id
  pub version_is : r.version ≡ contract_version
  pub sealed : is_sealed r.ok r.result r.error ≡ true

dispatch_operation-IsEnvelope :
    (env : Env) (inner : Inner) (operation : Operation) (id : SafeId)
    → IsEnvelope id (dispatch_operation env inner operation id).response
unfolding dispatch_operation success failure failure_response
dispatch_operation-IsEnvelope env inner Operation.status id = unfold status in ground arith
dispatch_operation-IsEnvelope env inner (Operation.submit p) id = unfold submit in ground arith
dispatch_operation-IsEnvelope env inner (Operation.proposal_show p) id =
    unfold proposal_body in ground arith
dispatch_operation-IsEnvelope env inner (Operation.proposal_copy p) id =
    unfold proposal_body in ground arith
dispatch_operation-IsEnvelope env inner (Operation.proposal_apply p) id =
    unfold apply in ground arith
dispatch_operation-IsEnvelope env inner (Operation.proposal_dismiss p) id =
    unfold dismiss in ground arith
dispatch_operation-IsEnvelope env inner Operation.cancel id = unfold cancel in ground arith
dispatch_operation-IsEnvelope env inner Operation.repositories id =
    unfold repositories in ground arith
dispatch_operation-IsEnvelope env inner Operation.health id = unfold health in ground arith

failure-IsEnvelope : (id : SafeId) (code : ErrorCode) → IsEnvelope id (failure id code)
unfolding failure failure_response
failure-IsEnvelope id code = ground arith

validated-IsEnvelope :
    (env : Env) (inner : Inner) (r : Request) (v : Result ProtocolError (Unit {0}))
    → IsEnvelope r.request_id (validated env inner r v).response
unfolding dispatch
validated-IsEnvelope env inner r (err e) = failure-IsEnvelope r.request_id _
validated-IsEnvelope env inner r (ok u) =
    elim (Bool-cases (not (is_open r.operation) && needs_recovery inner.state)) [
      | inl refused ↦ rw refused (failure-IsEnvelope r.request_id _)
      | inr open_now ↦
          rw open_now (dispatch_operation-IsEnvelope env inner r.operation r.request_id)
    ]

-- A remembered reply answers the request under which it is filed, and shows no proposal.
abbrev pub IsFiled : CachedRequest → Type 0
IsFiled c = IsEnvelope c.request_id c.response × (response_contains_body c.response ≡ false)

pub record IsSoundCache (requests : List CachedRequest) : Type 0 where
  pub few : length requests ≤ request_cache_limit
  pub filed : All IsFiled requests

find_cached-IsFiled :
    (id : SafeId) (cs : List CachedRequest) (c : CachedRequest)
    → All IsFiled cs
    → find_cached id cs ≡ some c
    → IsEnvelope id c.response
unfolding find_cached
find_cached-IsFiled id [] c h f = absurd (ground arith)
find_cached-IsFiled id (d ∷ cs) c h f = elim (Bool-cases (SafeId.eq d.request_id id)) [
  | inl same ↦
      let here : some d ≡ some c = rw same at f in
      let found : d ≡ c = cc in rw (← found, ← SafeId.eq→eq d.request_id id same) h.0.0
  | inr other ↦ find_cached-IsFiled id cs c h.1 (rw other at f)
]

replay-IsEnvelope :
    (inner : Inner) (r : Request) (digest : Text) (cached : CachedRequest)
    → IsEnvelope r.request_id cached.response
    → IsEnvelope r.request_id (replay inner r digest cached).response
unfolding replay
replay-IsEnvelope inner r digest cached h = elim (Bool-cases (text_eq cached.digest digest)) [
  | inl same ↦ rw same h
  | inr other ↦ rw other (failure-IsEnvelope r.request_id _)
]

remember-IsSoundCache :
    (r : Request) (digest : Text) (reply : Reply)
    → IsSoundCache reply.inner.requests
    → IsEnvelope r.request_id reply.response
    → IsSoundCache (remember r digest reply).inner.requests
      × IsEnvelope r.request_id (remember r digest reply).response
unfolding remember push_request
remember-IsSoundCache r digest reply v h =
    elim (Bool-cases (response_contains_body reply.response)) [
      | inl body ↦ rw body (v, h)
      | inr plain ↦ rw plain (
        record {
          few = push_bounded-le request_cache_limit reply.inner.requests _ (omega arith) v.few;
          filed =
              push_bounded-All IsFiled request_cache_limit reply.inner.requests _ v.filed
                (h, plain);
        },
        h,
      )
    ]

-- Every request keeps the cache of replies at `request_cache_limit` entries at most, each a
-- body-free response to the request under which it is filed; and the reply is a response to the
-- request, of the contract's version, with a result exactly when it is ok and an error exactly when
-- not, also where it comes from the cache.
pub handle-IsSoundCache :
    (env : Env) (inner : Inner) (r : Request)
    → IsSoundCache inner.requests
    → IsSoundCache (handle env inner r).inner.requests
      × IsEnvelope r.request_id (handle env inner r).response
handle-IsSoundCache env inner r v = elim (Option-cases (find_cached r.request_id inner.requests)) [
  | inr (cached, f) ↦ rw (handle_cached env inner r cached f) (
    rw replay-inner v,
    replay-IsEnvelope inner r (env.digest r) cached
        (find_cached-IsFiled r.request_id inner.requests cached v.filed f),
  )
  | inl f ↦ rw (handle_fresh env inner r f) (
      remember-IsSoundCache r (env.digest r) (validated env inner r (Request.validate r))
        (rw validated-requests v) (validated-IsEnvelope env inner r (Request.validate r)))
]
