-- ===== src/Protocol/Response/Validate.antt =====
-- `Response::validate`: the envelope, and the ceiling of every body.
use omarchy_premonition.Base.{
  ℕ, Bool, true, false, not, ◌&&◌, ◌||◌, Option, none, some, ltb, ◌==◌, Text, is_ascii_hexdigit,
  chars, is_control, is_bidi_embedding, length, is_empty, all, any, Result, ◌>>◌, reject, ok, err,
}
use omarchy_premonition.Limits.{max_patch_bytes, max_rationale_bytes, max_repositories}
use omarchy_premonition.Protocol.Error.{ProtocolError, contract_version, max_recent}
use omarchy_premonition.Protocol.Request.{reject_nul}
use omarchy_premonition.Protocol.Response.{
  Response, ResultPayload, WireError, ExecutorEvidence, RepositorySummary,
}

abbrev pub is_hostile : ℕ → Bool
is_hostile c =
    (is_control c && not (c == b'\n' || c == b'\t'))
    || (is_bidi_embedding c || (c == 0x61c || c == 0x200e || c == 0x200f))

unfoldable pub has_hostile_controls : Text → Bool
unfolding any
has_hostile_controls value = any is_hostile (chars value)

unfoldable pub validate_patch : Text → Result ProtocolError (Unit {0})
unfolding reject_nul
validate_patch patch = do
  reject (is_empty patch || ltb max_patch_bytes (length patch)) ProtocolError.response_out_of_bounds
  reject_nul patch

unfoldable pub validate_rationale : Text → Result ProtocolError (Unit {0})
validate_rationale rationale =
    reject
      (is_empty rationale
        || ltb max_rationale_bytes (length rationale)
        || has_hostile_controls rationale)
      ProtocolError.response_out_of_bounds

unfoldable pub validate_executor_evidence : ExecutorEvidence → Result ProtocolError (Unit {0})
validate_executor_evidence evidence =
    reject
      (is_empty evidence.tool_version
        || ltb 128 (length evidence.tool_version)
        || has_hostile_controls evidence.tool_version
        || not (length evidence.tool_sha256 == 64)
        || not (all is_ascii_hexdigit evidence.tool_sha256))
      ProtocolError.response_out_of_bounds

abbrev pub bad_label : RepositorySummary → Bool
bad_label r = is_empty r.label || ltb 80 (length r.label) || has_hostile_controls r.label

unfoldable pub validate_result : ResultPayload → Result ProtocolError (Unit {0})
validate_result (ResultPayload.status s) =
    reject (ltb max_recent (length s.recent)) ProtocolError.response_out_of_bounds
validate_result (ResultPayload.proposal p) = do
  validate_patch p.patch
  validate_rationale p.rationale
  validate_executor_evidence p.executor
validate_result (ResultPayload.copy_payload _ patch) = validate_patch patch
validate_result (ResultPayload.repositories rs) =
    reject (ltb max_repositories (length rs) || any bad_label rs)
      ProtocolError.response_out_of_bounds
validate_result (ResultPayload.health h) =
    reject
      (is_empty h.service_version
        || ltb 32 (length h.service_version)
        || has_hostile_controls h.service_version)
      ProtocolError.response_out_of_bounds
validate_result _ = ok tt

unfoldable pub validate_error : WireError → Result ProtocolError (Unit {0})
validate_error e =
    reject (is_empty e.message || ltb 256 (length e.message) || has_hostile_controls e.message)
      ProtocolError.response_out_of_bounds

unfoldable pub validate_body :
    Bool → Option ResultPayload → Option WireError → Result ProtocolError (Unit {0})
validate_body true (some result) none = validate_result result
validate_body false none (some error) = validate_error error
validate_body _ _ _ = err ProtocolError.invalid_envelope

unfoldable pub validate : Response → Result ProtocolError (Unit {0})
unfolding validate_body
validate r = do
  reject (not (r.version == contract_version)) ProtocolError.unsupported_contract
  validate_body r.ok r.result r.error
