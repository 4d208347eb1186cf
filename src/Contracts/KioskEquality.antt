-- ===== src/Contracts/KioskEquality.antt =====
-- crates/fleet-contracts/src/kiosk.rs: the derived equality of the structs that the operations compare.
use rusty_fleet.Prelude.{Bool, ◌&&◌, ◌==◌, bool_eq, eq_ℤ, str_eq, option_eq}
use rusty_fleet.Contracts.Capability.{
  same_support, same_enablement, same_authorization, same_reachability, same_freshness,
}
use rusty_fleet.Contracts.Kiosk.{
  KioskOwnerContractBinding, KioskEffectiveReceipt, KioskShowControlsTargetPreflight,
}

-- The derived `PartialEq` of the owner contract and of the receipt, field by field.
unfoldable pub same_contract : KioskOwnerContractBinding → KioskOwnerContractBinding → Bool
same_contract a b =
    str_eq a.owner_repo_id b.owner_repo_id
    && (str_eq a.owner_contract_schema b.owner_contract_schema
        && (str_eq a.owner_contract_revision b.owner_contract_revision
            && (str_eq a.capability_id b.capability_id
                && (str_eq a.request_auth b.request_auth
                    && (str_eq a.response_auth b.response_auth
                        && (str_eq a.invoke_method b.invoke_method
                            && (str_eq a.invoke_target b.invoke_target
                                && (str_eq a.result_method b.result_method
                                    && (str_eq a.result_target b.result_target
                                        && (str_eq a.result_request_id_parameter
                                              b.result_request_id_parameter
                                            && ((a.port == b.port)
                                                && ((a.max_clock_skew_seconds
                                                      == b.max_clock_skew_seconds)
                                                    && (str_eq a.command b.command
                                                        && (option_eq str_eq a.command_value
                                                            b.command_value
                                                            && str_eq a.owner_result_schema
                                                            b.owner_result_schema))))))))))))))

unfoldable pub same_receipt : KioskEffectiveReceipt → KioskEffectiveReceipt → Bool
same_receipt a b =
    str_eq a.schema b.schema
    && (str_eq a.receipt_id b.receipt_id
        && (str_eq a.operation_id b.operation_id
            && (str_eq a.device_id b.device_id
                && ((a.identity_revision == b.identity_revision)
                    && (same_contract a.owner_contract b.owner_contract
                        && (str_eq a.owner_action_request_id b.owner_action_request_id
                            && (str_eq a.owner_result_transport_request_id
                                  b.owner_result_transport_request_id
                                && (str_eq a.owner_command b.owner_command
                                    && ((a.response_status == b.response_status)
                                        && (str_eq a.response_content_sha256
                                              b.response_content_sha256
                                            && (str_eq a.response_signature b.response_signature
                                                && (bool_eq a.response_auth_verified
                                                      b.response_auth_verified
                                                    && (str_eq a.owner_result_schema
                                                          b.owner_result_schema
                                                        && (bool_eq a.owner_accepted
                                                            b.owner_accepted
                                                            && (bool_eq a.owner_completed
                                                            b.owner_completed
                                                            && (eq_ℤ a.owner_recorded_at_ms
                                                            b.owner_recorded_at_ms
                                                            && (bool_eq a.controls_open
                                                            b.controls_open
                                                            && eq_ℤ a.wrapped_at_ms
                                                            b.wrapped_at_ms)))))))))))))))))

-- The derived `PartialEq` of the preflight, field by field.
unfoldable pub same_preflight :
    KioskShowControlsTargetPreflight → KioskShowControlsTargetPreflight → Bool
same_preflight a b =
    str_eq a.device_id b.device_id
    && ((a.identity_revision == b.identity_revision)
        && (str_eq a.capability_id b.capability_id
            && ((a.capability_evidence_revision == b.capability_evidence_revision)
                && (str_eq a.capability_owner b.capability_owner
                    && (same_support a.support b.support
                        && (same_enablement a.enablement b.enablement
                            && (same_authorization a.authorization b.authorization
                                && (same_reachability a.reachability b.reachability
                                    && (same_freshness a.freshness b.freshness
                                        && (eq_ℤ a.observed_at_ms b.observed_at_ms
                                            && (eq_ℤ a.fresh_until_ms b.fresh_until_ms
                                                && (eq_ℤ a.evaluated_at_ms b.evaluated_at_ms
                                                    && (bool_eq a.eligible b.eligible
                                                        && (str_eq a.reason_code b.reason_code
                                                            && str_eq a.message
                                                            b.message))))))))))))))
