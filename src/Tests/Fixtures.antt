-- ===== src/Tests/Fixtures.antt =====
-- A repository, a proposal and the collaborators of the daemon, as in
-- crates/premonition-daemon/tests/state_machine.rs.
use Prim.Native.String.{String}
use omarchy_premonition.Protocol.SafeId.{SafeId}
use omarchy_premonition.Protocol.Request.{SubmitParams, Request, ProposalParams, Operation}
use omarchy_premonition.Core.Model.{
  ValidatedProposal, ResolvedRepository, RepositorySnapshot, RepositoryIdentity, GenerationContext,
}
use omarchy_premonition.Daemon.Jobs.{Workbench, Finding}
use omarchy_premonition.Protocol.Response.{ServiceState, ProposalEffort, ExecutorEvidence}
use omarchy_premonition.Executor.{Provenance, ExecutorError}
use omarchy_premonition.Daemon.Handlers.{Job, Env}
use omarchy_premonition.Daemon.State.{ProposalRecord, Inner, Active}
use omarchy_premonition.Base.{true, false, [], none, some, text, ok, err}
use omarchy_premonition.Tests.Patches.{modify_parsed}
use omarchy_premonition.Protocol.Error.{contract_version}

abbrev pub id : String → SafeId
id s = record { as_str = text s }

abbrev pub identity : RepositoryIdentity
identity = record {
  root = text "/repo";
  git_dir = text "/repo/.git";
  root_device = 1;
  root_inode = 2;
  git_device = 1;
  git_inode = 3;
}

abbrev pub repository : ResolvedRepository
repository = record {
  id = text "repo";
  label = text "Repository";
  root = text "/repo";
  git_dir = text "/repo/.git";
  identity = identity;
  git = record { location = text "/usr/bin/git"; digest = []; device = 1; inode = 4 };
}

abbrev pub snapshot : RepositorySnapshot
snapshot = record {
  head_oid = text "0123456789012345678901234567890123456789";
  head_ref_digest = [];
  index_digest = [];
  worktree_digest = [];
  file_count = 1;
  total_bytes = 4;
}

abbrev pub context : GenerationContext
context = record { repository = repository; snapshot = snapshot }

abbrev pub proposal : ValidatedProposal
proposal = record { repository = repository; snapshot = snapshot; patch = modify_parsed }

abbrev pub provenance : Provenance
provenance = record { version = text "codex 1.0"; sha256 = text "00"; model = text "gpt-5.6-sol" }

abbrev pub executor_evidence : ExecutorEvidence
executor_evidence = record {
  tool_version = text "codex 1.0";
  tool_sha256 = text "00";
  model = id "gpt-5.6-sol";
  reasoning_effort = ProposalEffort.low;
}

abbrev pub under_review : ProposalRecord
under_review = record {
  proposal_id = id "p-1-1";
  correlation_id = id "c-1";
  repository_id = id "repo";
  created_unix_ms = 1;
  rationale = text "small fix";
  executor = executor_evidence;
  proposal = proposal;
}

abbrev pub found : Finding
found = record { proposal = proposal; rationale = text "small fix"; evidence = executor_evidence }

-- The digest of a request is the identifier here; every collaborator succeeds.
abbrev pub env : Env
env = record {
  executor_available = true;
  now = 5;
  begin_investigation = λ _. ok context;
  publish = λ _ _. some (ok (record { files_changed = 1 }));
  repository_summaries = [];
  digest = λ r. r.request_id.as_str;
}

abbrev pub fresh : Inner
fresh = record {
  state = ServiceState.idle;
  active = none;
  failure = none;
  recent = [];
  terminal = [];
  requests = [];
  proposal_sequence = 0;
}

abbrev pub ready : Inner
ready = record fresh { state = ServiceState.ready; active = some (Active.ready under_review) }

abbrev pub working : Inner
working = record fresh {
  state = ServiceState.working;
  active = some (Active.working (id "c-1") (id "repo") false);
}

abbrev pub params : ProposalParams
params = record { proposal_id = id "p-1-1" }

abbrev pub submission : SubmitParams
submission = record {
  repository_id = id "repo";
  correlation_id = id "c-1";
  input = text "error: x";
}

abbrev pub ask : Operation → Request
ask operation = record { version = contract_version; request_id = id "r-1"; operation = operation }

abbrev pub job : Job
job = record {
  correlation_id = id "c-1";
  repository_id = id "repo";
  context = context;
  input = text "error: x";
}

abbrev pub bench : Workbench
bench = record {
  investigate = λ _. err ExecutorError.malformed_output;
  validate_candidate = λ _ _. ok proposal;
  provenance = provenance;
}
