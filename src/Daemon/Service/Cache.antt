-- ===== src/Daemon/Service/Cache.antt =====
-- The cache of replies, and how a repeated request is answered.
use omarchy_premonition.Protocol.Error.{ProtocolError}
use omarchy_premonition.Protocol.SafeId.{SafeId}
use omarchy_premonition.Protocol.Request.{Request, Operation}
use omarchy_premonition.Daemon.Handlers.{
  Reply, Env, submit, status, proposal_body, apply, dismiss, cancel, repositories, health,
}
use omarchy_premonition.Base.{
  false, List, [], ◌∷◌, ◌++◌, inl, inr, none, some, ◌≡◌, refl, sym, arith, ◌==◌, Bool-cases,
  Option-cases, Text, eq→text_eq, length, drop, Result, ok, err,
}
use omarchy_premonition.Protocol.SafeId
use omarchy_premonition.Protocol.Request
use omarchy_premonition.Daemon.State.{
  request_cache_limit, push_bounded, CachedRequest, Inner, push_recent, push_terminal, push_request,
}
use omarchy_premonition.Daemon.Service.{
  find_cached, handle, remember, replay, validated, dispatch_operation, dispatch,
  response_contains_body,
}

find_cached-append :
    (id : SafeId) (cs : List CachedRequest) (c : CachedRequest)
    → find_cached id cs ≡ none
    → c.request_id ≡ id
    → find_cached id (cs ++ c ∷ []) ≡ some c
unfolding find_cached
find_cached-append id [] c h e = rw (e, SafeId.eq_refl id) refl
find_cached-append id (d ∷ cs) c h e = elim (Bool-cases (SafeId.eq d.request_id id)) [
  | inl same ↦ absurd (ground arith)
  | inr other ↦ rw other (find_cached-append id cs c (ground arith) e)
]

find_cached-drop :
    (id : SafeId) (cs : List CachedRequest)
    → find_cached id cs ≡ none
    → find_cached id (drop 1 cs) ≡ none
unfolding find_cached
find_cached-drop id [] h = refl
find_cached-drop id (d ∷ cs) h = ground arith

find_cached-push_bounded :
    (id : SafeId) (cs : List CachedRequest) (c : CachedRequest)
    → find_cached id cs ≡ none
    → c.request_id ≡ id
    → find_cached id (push_bounded request_cache_limit cs c) ≡ some c
unfolding push_bounded
find_cached-push_bounded id cs c h e = elim (Bool-cases (length cs == request_cache_limit)) [
  | inl full ↦ rw full (find_cached-append id (drop 1 cs) c (find_cached-drop id cs h) e)
  | inr room ↦ rw room (find_cached-append id cs c h e)
]

-- A second reply that repeats the first, changes nothing and does nothing.
abbrev pub Repeats : Reply → Reply → Type 0
Repeats first second =
    (second.response ≡ first.response) × (second.inner ≡ first.inner) × (second.effects ≡ [])

pub handle_cached :
    (env : Env) (inner : Inner) (r : Request) (cached : CachedRequest)
    → find_cached r.request_id inner.requests ≡ some cached
    → handle env inner r ≡ replay inner r (env.digest r) cached
unfolding handle
handle_cached env inner r cached f = rw (f, handle) refl

pub handle_fresh :
    (env : Env) (inner : Inner) (r : Request)
    → find_cached r.request_id inner.requests ≡ none
    → handle env inner r ≡ remember r (env.digest r) (validated env inner r (Request.validate r))
unfolding handle
handle_fresh env inner r f = rw (f, handle) refl

dispatch_operation-requests :
    (env : Env) (inner : Inner) (operation : Operation) (id : SafeId)
    → (dispatch_operation env inner operation id).inner.requests ≡ inner.requests
unfolding dispatch_operation push_recent push_terminal
dispatch_operation-requests env inner Operation.status id = unfold status in refl
dispatch_operation-requests env inner (Operation.submit p) id = unfold submit in ground arith
dispatch_operation-requests env inner (Operation.proposal_show p) id =
    unfold proposal_body in ground arith
dispatch_operation-requests env inner (Operation.proposal_copy p) id =
    unfold proposal_body in ground arith
dispatch_operation-requests env inner (Operation.proposal_apply p) id = unfold apply in ground arith
dispatch_operation-requests env inner (Operation.proposal_dismiss p) id =
    unfold dismiss in ground arith
dispatch_operation-requests env inner Operation.cancel id = unfold cancel in ground arith
dispatch_operation-requests env inner Operation.repositories id = unfold repositories in refl
dispatch_operation-requests env inner Operation.health id = unfold health in refl

pub validated-requests :
    (env : Env) (inner : Inner) (r : Request) (v : Result ProtocolError (Unit {0}))
    → (validated env inner r v).inner.requests ≡ inner.requests
unfolding dispatch
validated-requests env inner r (ok u) =
    ground (arith, dispatch_operation-requests env inner r.operation r.request_id)
validated-requests env inner r (err e) = refl

pub replay-inner :
    (inner : Inner) (r : Request) (digest : Text) (cached : CachedRequest)
    → (replay inner r digest cached).inner ≡ inner
unfolding replay
replay-inner inner r digest cached = ground arith

replay-effects :
    (inner : Inner) (r : Request) (digest : Text) (cached : CachedRequest)
    → (replay inner r digest cached).effects ≡ []
unfolding replay
replay-effects inner r digest cached = ground arith

repeat_cached :
    (env env' : Env) (inner : Inner) (r : Request) (cached : CachedRequest)
    → env'.digest r ≡ env.digest r
    → find_cached r.request_id inner.requests ≡ some cached
    → Repeats (handle env inner r) (handle env' (handle env inner r).inner r)
repeat_cached env env' inner r cached d f =
    rw
      (
        handle_cached env inner r cached f,
        replay-inner inner r (env.digest r) cached,
        handle_cached env' inner r cached f,
        d,
      )
      (
        refl,
        replay-inner inner r (env.digest r) cached,
        replay-effects inner r (env.digest r) cached,
      )

pub remember-response :
    (r : Request) (digest : Text) (reply : Reply)
    → (remember r digest reply).response ≡ reply.response
unfolding remember
remember-response r digest reply = ground arith

remember_cached :
    (env' : Env) (r : Request) (digest : Text) (reply : Reply)
    → env'.digest r ≡ digest
    → find_cached r.request_id reply.inner.requests ≡ none
    → response_contains_body reply.response ≡ false
    → Repeats (remember r digest reply) (handle env' (remember r digest reply).inner r)
unfolding remember push_request replay handle
remember_cached env' r digest reply d f b =
    let found =
      find_cached-push_bounded r.request_id reply.inner.requests
        (record { request_id = r.request_id; digest = digest; response = reply.response }) f refl in
    rw b (ground (arith, found, eq→text_eq digest (env'.digest r) (sym d)))

-- A request that was answered without a body is answered the same when it is repeated at once, with
-- no change of state and no further effect, whatever the collaborators answer by then.
pub handle_repeat :
    (env env' : Env) (inner : Inner) (r : Request)
    → env'.digest r ≡ env.digest r
    → response_contains_body (handle env inner r).response ≡ false
    → Repeats (handle env inner r) (handle env' (handle env inner r).inner r)
handle_repeat env env' inner r d b = elim (Option-cases (find_cached r.request_id inner.requests)) [
  | inr (cached, f) ↦ repeat_cached env env' inner r cached d f
  | inl f ↦
      let fresh = handle_fresh env inner r f in
      rw fresh (
        remember_cached env' r (env.digest r) (validated env inner r (Request.validate r)) d
          (rw validated-requests f) (rw remember-response at (rw fresh at b)))
]
