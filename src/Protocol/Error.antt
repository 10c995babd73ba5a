-- ===== src/Protocol/Error.antt =====
-- The failures of validation and framing, and the bounds of the contract.
use omarchy_premonition.Base.{ℕ, ◌*◌}

pub data ProtocolError : Type 0 where
  unsupported_contract invalid_identifier empty_input input_too_large : ProtocolError
  forbidden_nul invalid_envelope response_out_of_bounds invalid_frame invalid_json : ProtocolError

abbrev pub contract_version : ℕ
contract_version = 1

abbrev pub max_frame_bytes : ℕ
max_frame_bytes = 384 * 1024

abbrev pub max_recent : ℕ
max_recent = 20
