-- ===== src/Lib.antt =====
-- Omarchy Premonition: the daemon's service, its wire protocol, its patch parser, its policy and Apply.
--
-- The program is a user service that turns a bounded excerpt of a log into one reviewable patch. A
-- client sends framed JSON requests over a socket (crates/premonition-protocol); the daemon
-- (crates/premonition-daemon) admits a submission if its policy allows it, runs an investigation by
-- an external agent (crates/premonition-executor), has the candidate patch validated
-- (crates/premonition-core), keeps one proposal under review, and publishes it only when it is asked
-- to apply it.
--
-- The files, and what they model:
--   Base           the shared helpers: Rust's text operations on bytes, results, lists.
--   Plain          lemmas on texts of plain bytes and printed integers.
--   Limits         crates/premonition-core/src/limits.rs.
--   Protocol       crates/premonition-protocol/src/lib.rs. Error has the constants and
--                  `ProtocolError`; SafeId, Request and Response have the types of those names;
--                  Response/Validate is `Response::validate`; Frame is `encode_frame` and
--                  `decode_frame`.
--   Diff           crates/premonition-core/src/diff.rs. SafePath is `SafePath::parse`, Headers the
--                  functions on single lines, Parse is `ParsedPatch::parse`.
--   Executor       crates/premonition-executor/src/lib.rs: errors, `Candidate::new`, the prompt,
--                  the bounded reader and the names of models.
--   Core           the rest of crates/premonition-core/src. Error and Model are the errors and the
--                  values that the daemon keeps; System is what the file system and git answer, with
--                  the git binary of git.rs; Repository and Catalog are repository.rs; Enumeration and
--                  Snapshot are snapshot.rs; Policy is lib.rs, with the checks of `ApplyEngine::apply`.
--   Apply          crates/premonition-core/src/apply.rs. Journal is the journal of a transaction, with
--                  the first half of `prepare_and_publish` and `validate_journal`; World is the file
--                  system; Publication is `publish_entry` and `rollback_entry`; Transaction is the rest
--                  of `prepare_and_publish`, `recover_one`, and the end of `ApplyEngine::apply`.
--   Daemon         crates/premonition-daemon/src/lib.rs. State is `Inner` with its bounded queues;
--                  Codes the mapping of errors; Handlers the methods that `Service::dispatch` calls;
--                  Service is `Service::new`, `dispatch` and `handle` with its cache; Jobs the task
--                  that `submit` spawns, to `finish_job`; Events puts these in sequence.
--   Tests          test data, evaluations, and the theorems at concrete inputs.
--
-- State. A call of `Service::handle` holds the gate from its beginning to its end, so a handler is a
-- function from the state that it finds to a reply: the next state, the response, and the effects
-- (a spawned investigation, a publication). A spawned task changes the state only in `finish_job`,
-- under the lock, so the behaviour over time is a sequence of requests and completions in any order.
-- What the policy, Apply, the clock and SHA-256 answer is a parameter of a call (`Env`), and what the
-- executor and the policy answer to a job is a parameter of the job (`Workbench`).
--
-- Text is a list of bytes, and an integer of Rust is a natural number; `u64` and `u32` arithmetic has
-- its wrap-around or its check written out. The sequence number of proposals wraps at 2 ^ 64.
--
-- Loops. The parser's loops are recursions on the remaining lines; a nested loop returns the number
-- of lines that it consumed, and the outer one skips them. Printing an integer recurses on twenty
-- digits, and a `u64` has at most twenty.
--
-- While Apply publishes, the lock of the state is free but the gate is held. No completion falls in
-- between in the model, since Apply publishes only from the state ready, and an investigation runs
-- only in the state working.
--
-- Faults. A transaction runs over a `World`: the files by path, the journal, whether the directory of
-- the transaction is there, the stage, and which of the calls to come fail. Each call that changes
-- something may fail, and a machine that stops is one for which all later calls fail; what was done
-- before stays done. A write of the journal fails before its rename, which leaves the old one, or after
-- it, which leaves the new one; the removal of the directory fails before the journal goes, after it, or
-- not at all. What is read is what is there: `Path::exists` and a hash do not fail on a regular file
-- within its bound, and the journal that is read is the one that was written. A rename moves a regular
-- file to a path where a regular file or nothing stands, and is an error otherwise. The digest and the
-- length of an encoded journal are parameters (`Host`). The paths of the entries of one transaction are
-- assumed to be different.
--
-- The policy reads a `System`: the answers of the file system, of git and of SHA-256 at one time. What one
-- function reads is read at one time, and `validate_candidate` and `check_apply` read at three. A file is
-- one of four kinds, so that a test for a directory or a regular file excludes a link. The reader of TOML
-- is a parameter. Times of a file are their 64 bits as a natural number. The map of an allow-list is a
-- list in the order of the identifiers.
--
-- Not modelled: the JSON format of the protocol, which is serde's and is a pair of functions that the
-- framing takes; the socket host, the command-line client, the plugin, the scripts and the test agent,
-- which are input and output; the external processes (the agent and git, with their environments, timeouts
-- and output limits) and the redaction of sensitive text; in Apply, the scan of the state directory at the
-- start and the decoding of the journal file.
pub mod Base
pub mod Plain
pub mod Limits
pub mod Protocol
pub mod Diff
pub mod Executor
pub mod Core
pub mod Apply
pub mod Daemon
mod Tests
