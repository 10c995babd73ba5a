-- ===== src/Daemon/State.antt =====
-- `Inner` and what it holds. A `VecDeque` is a list, its front first; the cancellation flag that a
-- running job shares with the service stands in the active slot.
pub mod Bounds
use omarchy_premonition.Core.Model.{ValidatedProposal}
use omarchy_premonition.Protocol.SafeId.{SafeId}
use omarchy_premonition.Protocol.Response.{
  ServiceState, Response, RecentSummary, RecentOutcome, ExecutorEvidence, ErrorCode,
}
use omarchy_premonition.Base.{
  ℕ, Bool, List, [], ◌∷◌, ◌++◌, Option, none, ◌==◌, if◌then◌else◌, Text, length, drop,
}
use omarchy_premonition.Protocol.Error.{max_recent}

abbrev pub request_cache_limit : ℕ
request_cache_limit = 64

abbrev pub terminal_limit : ℕ
terminal_limit = 20

pub record ProposalRecord : Type 0 where
  pub proposal_id : SafeId
  pub correlation_id : SafeId
  pub repository_id : SafeId
  pub created_unix_ms : ℕ
  pub rationale : Text
  pub executor : ExecutorEvidence
  pub proposal : ValidatedProposal

-- `Active::Working` has the correlation, the repository and the cancellation flag.
pub data Active : Type 0 where
  working : SafeId → SafeId → Bool → Active
  ready : ProposalRecord → Active

pub data TerminalOutcome : Type 0 where
  applied dismissed : TerminalOutcome

pub record TerminalRecord : Type 0 where
  pub proposal_id : SafeId
  pub outcome : TerminalOutcome

pub record CachedRequest : Type 0 where
  pub request_id : SafeId
  pub digest : Text
  pub response : Response

pub record Inner : Type 0 where
  pub state : ServiceState
  pub active : Option Active
  pub failure : Option ErrorCode
  pub recent : List RecentSummary
  pub terminal : List TerminalRecord
  pub requests : List CachedRequest
  pub proposal_sequence : ℕ

-- `Inner::new`.
unfoldable pub new : ServiceState → Inner
new state = record {
  state = state;
  active = none;
  failure = none;
  recent = [];
  terminal = [];
  requests = [];
  proposal_sequence = 0;
}

-- `pop_front` when the deque is at its limit, then `push_back`.
unfoldable pub push_bounded {ℓ} : {A : Type ℓ} → ℕ → List A → A → List A
push_bounded limit queue a = (if length queue == limit then drop 1 queue else queue) ++ a ∷ []

unfoldable pub push_recent : Inner → ProposalRecord → RecentOutcome → ℕ → Inner
push_recent inner p outcome now = record inner {
  recent = push_bounded max_recent inner.recent (record {
    correlation_id = p.correlation_id;
    repository_id = p.repository_id;
    outcome = outcome;
    completed_unix_ms = now;
  });
}

unfoldable pub push_terminal : Inner → SafeId → TerminalOutcome → Inner
push_terminal inner proposal_id outcome = record inner {
  terminal =
      push_bounded terminal_limit inner.terminal
        (record { proposal_id = proposal_id; outcome = outcome });
}

unfoldable pub push_request : Inner → CachedRequest → Inner
push_request inner cached = record inner {
  requests = push_bounded request_cache_limit inner.requests cached;
}
