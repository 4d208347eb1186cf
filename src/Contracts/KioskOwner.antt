-- ===== src/Contracts/KioskOwner.antt =====
-- crates/fleet-contracts/src/kiosk.rs: the pinned contract of the Kiosk owner, its request identifiers
-- and the receipts that it signs.
use Prim.Native.String.{String}
use rusty_fleet.Prelude.{
  ℕ, Bool, ◌&&◌, ◌||◌, none, List, [], ◌∷◌, ◌++◌, leb, ◌==◌, is_some, ltb_ℤ, all, str_eq, byte_len,
  not,
}
use rusty_fleet.Contracts.Violation.{
  ContractViolation, Validation, violation_if, require_nonempty, groups, finish, failures_of,
}
use rusty_fleet.Contracts.ViewId.{codes, is_ascii_lowercase, is_ascii_digit}
use rusty_fleet.Contracts.Kiosk.{KioskOwnerContractBinding, KioskEffectiveReceipt}

abbrev pub kiosk_show_controls_action_id : String
kiosk_show_controls_action_id = "kiosk.show-controls"

abbrev pub kiosk_direct_operator_capability_id : String
kiosk_direct_operator_capability_id = "rusty-kiosk.direct-operator"

abbrev pub kiosk_direct_operator_owner : String
kiosk_direct_operator_owner = "rusty-kiosk"

abbrev pub kiosk_direct_operator_port : ℕ
kiosk_direct_operator_port = 39873

abbrev pub kiosk_direct_operator_max_clock_skew_seconds : ℕ
kiosk_direct_operator_max_clock_skew_seconds = 90

abbrev pub kiosk_show_controls_command : String
kiosk_show_controls_command = "show-controls"

abbrev pub kiosk_cli_result_schema : String
kiosk_cli_result_schema = "rusty.kiosk.cli_result.v1"

-- `KioskOwnerContractBinding::show_controls_v1`.
unfoldable pub show_controls_v1 : KioskOwnerContractBinding
show_controls_v1 = record {
  owner_repo_id = kiosk_direct_operator_owner;
  owner_contract_schema = "rusty.kiosk.direct_operator.v1";
  owner_contract_revision = "8954228f9ae67c5995a72569e3c9cdd3758f85c0";
  capability_id = kiosk_direct_operator_capability_id;
  request_auth = "hmac-sha256-v1";
  response_auth = "hmac-sha256-response-v1";
  invoke_method = "POST";
  invoke_target = "/v1/kiosk/invoke";
  result_method = "GET";
  result_target = "/v1/kiosk/result";
  result_request_id_parameter = "request_id";
  port = kiosk_direct_operator_port;
  max_clock_skew_seconds = kiosk_direct_operator_max_clock_skew_seconds;
  command = kiosk_show_controls_command;
  command_value = none;
  owner_result_schema = kiosk_cli_result_schema;
}

-- The table of (path, actual, required), and the loop over it.
abbrev pinned_texts : KioskOwnerContractBinding → List (String × String × String)
pinned_texts b =
    let expected = show_controls_v1 in
    ("owner_repo_id", b.owner_repo_id, expected.owner_repo_id)
    ∷ ("owner_contract_schema", b.owner_contract_schema, expected.owner_contract_schema)
    ∷ ("owner_contract_revision", b.owner_contract_revision, expected.owner_contract_revision)
    ∷ ("capability_id", b.capability_id, expected.capability_id)
    ∷ ("request_auth", b.request_auth, expected.request_auth)
    ∷ ("response_auth", b.response_auth, expected.response_auth)
    ∷ ("invoke_method", b.invoke_method, expected.invoke_method)
    ∷ ("invoke_target", b.invoke_target, expected.invoke_target)
    ∷ ("result_method", b.result_method, expected.result_method)
    ∷ ("result_target", b.result_target, expected.result_target)
    ∷ (
      "result_request_id_parameter", b.result_request_id_parameter,
      expected.result_request_id_parameter,
    )
    ∷ ("command", b.command, expected.command)
    ∷ ("owner_result_schema", b.owner_result_schema, expected.owner_result_schema)
    ∷ []

unfoldable pub pinned_failures : List (String × String × String) → List ContractViolation
pinned_failures [] = []
pinned_failures ((path, actual, required) ∷ rest) =
    violation_if (not (str_eq actual required)) "owner_contract_mismatch" path
      "Kiosk owner contract binding differs from the pinned show-controls surface"
    ++ pinned_failures rest

unfoldable pub validate_owner_contract : KioskOwnerContractBinding → Validation
unfolding show_controls_v1 pinned_failures
validate_owner_contract b = finish (
    pinned_failures (pinned_texts b)
    ++ (violation_if (is_some b.command_value) "owner_contract_mismatch" "command_value"
          "Kiosk show-controls accepts no command value"
        ++ violation_if
            (not (b.port == kiosk_direct_operator_port)
              || not (b.max_clock_skew_seconds == kiosk_direct_operator_max_clock_skew_seconds))
            "owner_contract_mismatch" "port"
            "Kiosk owner port and request-expiry window differ from direct operator v1"))

-- A text with a character beyond ASCII fails these tests, as its bytes do in the source.
abbrev is_request_id_char : ℕ → Bool
is_request_id_char c =
    (leb b'A' c && leb c b'Z')
    || (is_ascii_lowercase c || (is_ascii_digit c || (c == b'_' || c == b'-')))

unfoldable pub is_owner_request_id : String → Bool
is_owner_request_id value =
    leb 8 (byte_len value) && (leb (byte_len value) 64 && all is_request_id_char (codes value))

abbrev is_lower_hex_char : ℕ → Bool
is_lower_hex_char c = is_ascii_digit c || (leb b'a' c && leb c b'f')

unfoldable pub is_lower_hex_sha256 : String → Bool
is_lower_hex_sha256 value = byte_len value == 64 && all is_lower_hex_char (codes value)

-- `impl ValidateContract for KioskEffectiveReceipt`: all failures, in the order of the checks.
unfoldable pub receipt_groups : KioskEffectiveReceipt → List (List ContractViolation)
receipt_groups r =
    violation_if (not (str_eq r.schema "rusty.fleet.kiosk_effective_receipt.v1")) "wrong_schema"
      "schema" "expected rusty.fleet.kiosk_effective_receipt.v1"
    ∷ require_nonempty r.receipt_id "receipt_id"
    ∷ require_nonempty r.operation_id "operation_id"
    ∷ require_nonempty r.device_id "device_id"
    ∷ violation_if (r.identity_revision == 0) "invalid_identity_revision" "identity_revision"
        "identity revision must be greater than zero"
    ∷ failures_of (validate_owner_contract r.owner_contract)
    ∷ violation_if
        (not (is_owner_request_id r.owner_action_request_id)
          || not (is_owner_request_id r.owner_result_transport_request_id))
        "invalid_owner_request_id" "owner_action_request_id"
        "Kiosk action and signed result-transport request IDs contain 8 through 64 ASCII letters, digits, underscores, or hyphens"
    ∷ violation_if (str_eq r.owner_action_request_id r.owner_result_transport_request_id)
        "owner_request_id_reused" "owner_result_transport_request_id"
        "the stable owner action request ID and signed transport-envelope request ID must be distinct"
    ∷ violation_if
        (not (r.response_status == 200)
          || (not (is_lower_hex_sha256 r.response_content_sha256)
              || (not (is_lower_hex_sha256 r.response_signature) || not r.response_auth_verified)))
        "unverified_owner_response" "response_auth_verified"
        "effective Kiosk receipts require a verified signed HTTP 200 response and exact lowercase SHA-256 values"
    ∷ violation_if
        (not (str_eq r.owner_result_schema kiosk_cli_result_schema)
          || (not (str_eq r.owner_command kiosk_show_controls_command)
              || (not r.owner_accepted || (not r.owner_completed || not r.controls_open))))
        "ineffective_owner_receipt" "owner_command"
        "effective Kiosk receipts require matching accepted, completed show-controls readback with controls_open=true"
    ∷ violation_if (ltb_ℤ r.wrapped_at_ms r.owner_recorded_at_ms) "invalid_receipt_time"
        "wrapped_at_ms" "Fleet wrapping time must not precede the owner receipt"
    ∷ []

unfoldable pub validate_effective_receipt : KioskEffectiveReceipt → Validation
validate_effective_receipt r = finish (groups (receipt_groups r))
