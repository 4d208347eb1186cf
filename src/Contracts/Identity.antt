-- ===== src/Contracts/Identity.antt =====
-- crates/fleet-contracts/src/identity.rs: device identity and the observation that a device sends.
pub mod Facts
use Prim.Native.String.{String, ◌++◌ as concat}
use rusty_fleet.Prelude.{
  ℕ, zero, ◌+◌, ◌-◌, ◌*◌, ◌/◌, Bool, true, false, ◌&&◌, ◌||◌, Option, none, some, List, [], ◌∷◌,
  ◌++◌, ltb, ◌==◌, bool_eq, is_none, is_some_and, ℤ, ltb_ℤ, length, any, all, str_eq, is_blank,
  option_eq, not,
}
use rusty_fleet.BTreeMap.{BTreeMap}
use rusty_fleet.Contracts.Violation.{
  Validation, ContractViolation, ValidateContract, Serialize, groups, violation_if,
  require_nonempty, finish, failures_of, prefixed, each_indexed, finish_iff, append_nil_inv,
  prefixed_nil,
}
use rusty_fleet.Contracts.Condition.{StatusCondition, validate_condition}
use rusty_fleet.Contracts.Capability.{CapabilitySnapshot, validate_capabilities}

pub record DeviceIdentity (V : Type 0) : Type 0 where
  pub device_id : String
  pub identity_revision : ℕ
  pub display_name : String
  pub model : String
  pub hardware_class : String
  pub tags : BTreeMap String String
  pub extensions : BTreeMap String V

pub data KioskState : Type 0 where
  active inactive mismatch unknown : KioskState

pub record FactProvenance : Type 0 where
  pub owner : String
  pub adapter_id : String
  pub observed_at_ms : ℤ
  pub fresh_until_ms : ℤ

pub record PowerObservation : Type 0 where
  pub battery_percent : ℕ
  pub charging : Bool
  pub provenance : FactProvenance

pub data ApplicationLifecycle : Type 0 where
  foreground visible background stopped unknown : ApplicationLifecycle

pub data ForegroundState : Type 0 where
  foreground background unknown : ForegroundState

pub data ForegroundAuthority : Type 0 where
  self_report participating_app platform_limited unavailable : ForegroundAuthority

pub record ApplicationObservation : Type 0 where
  pub package_name : Option String
  pub lifecycle : ApplicationLifecycle
  pub foreground_state : ForegroundState
  pub foreground_authority : ForegroundAuthority
  pub provenance : FactProvenance

-- `V` is the type of JSON values and `S` that of stream descriptors.
pub record DeviceObservation (V S : Type 0) : Type 0 where
  pub schema : String
  pub identity : DeviceIdentity V
  pub source_epoch : String
  pub source_revision : ℕ
  pub source_time_ms : ℤ
  pub received_time_ms : ℤ
  pub battery_percent : Option ℕ
  pub charging : Option Bool
  pub foreground_app : Option String
  pub agent : Option ApplicationObservation
  pub power : Option PowerObservation
  pub application : Option ApplicationObservation
  pub kiosk_state : KioskState
  pub conditions : List (StatusCondition V)
  pub capabilities : CapabilitySnapshot V
  pub streams : List S
  pub extensions : BTreeMap String V

abbrev is_self_report : ForegroundAuthority → Bool
is_self_report ForegroundAuthority.self_report = true
is_self_report _ = false

abbrev is_participating_app : ForegroundAuthority → Bool
is_participating_app ForegroundAuthority.participating_app = true
is_participating_app _ = false

abbrev is_unavailable : ForegroundAuthority → Bool
is_unavailable ForegroundAuthority.unavailable = true
is_unavailable _ = false

abbrev is_unknown : ForegroundState → Bool
is_unknown ForegroundState.unknown = true
is_unknown _ = false

unfoldable pub validate_provenance : FactProvenance → Validation
validate_provenance p = finish (
    require_nonempty p.owner "owner"
    ++ (require_nonempty p.adapter_id "adapter_id"
        ++ violation_if (ltb_ℤ p.fresh_until_ms p.observed_at_ms) "invalid_freshness"
            "fresh_until_ms" "fact freshness must not end before observation time"))

unfoldable pub validate_power : PowerObservation → Validation
validate_power p = finish (
    violation_if (ltb 100 p.battery_percent) "invalid_battery" "battery_percent"
      "battery percentage must be between 0 and 100"
    ++ failures_of (validate_provenance p.provenance))

unfoldable pub validate_application : ApplicationObservation → Validation
validate_application a = finish (
    violation_if (is_some_and a.package_name is_blank) "invalid_package" "package_name"
      "application package must be absent or nonempty"
    ++ (violation_if (is_unavailable a.foreground_authority && not (is_unknown a.foreground_state))
          "unsupported_foreground_claim" "foreground_state"
          "unavailable foreground authority may report only unknown state"
        ++ (violation_if
              ((is_self_report a.foreground_authority
                  || is_participating_app a.foreground_authority)
                && is_none a.package_name)
              "missing_application_identity" "package_name"
              "self-reported and participating-app evidence must name its package"
            ++ failures_of (validate_provenance a.provenance))))

-- The three optional facts of an observation, each with the check that stands beside it.
unfoldable pub agent_failures : Option ApplicationObservation → List ContractViolation
agent_failures none = []
agent_failures (some agent) =
    prefixed "agent." (failures_of (validate_application agent))
    ++ violation_if (not (is_self_report agent.foreground_authority)) "invalid_agent_authority"
        "agent.foreground_authority" "Fleet Agent lifecycle evidence must be self-reported"

module _ {V : Type 0} where
  unfoldable pub validate_identity : DeviceIdentity V → Validation
  validate_identity i = finish (
      require_nonempty i.device_id "identity.device_id"
      ++ (require_nonempty i.display_name "identity.display_name"
          ++ (require_nonempty i.model "identity.model"
              ++ (require_nonempty i.hardware_class "identity.hardware_class"
                  ++ (violation_if (i.identity_revision == 0) "invalid_revision"
                        "identity.identity_revision" "identity revision must be greater than zero"
                      ++ (violation_if (any (λ e. is_blank e.0 || is_blank e.1) i.tags)
                            "invalid_tag" "identity.tags" "tag keys and values must not be empty"
                          ++ violation_if (ltb 128 (length i.tags) || ltb 64 (length i.extensions))
                              "identity_too_large" "identity"
                              "identity supports at most 128 tags and 64 extension fields"))))))

  module _ {S : Type 0} where
    unfoldable pub power_failures :
        DeviceObservation V S → Option PowerObservation → List ContractViolation
    power_failures o none = []
    power_failures o (some power) =
        prefixed "power." (failures_of (validate_power power))
        ++ violation_if
            (is_some_and o.battery_percent (λ value. not (value == power.battery_percent))
              || is_some_and o.charging (λ value. not (bool_eq value power.charging)))
            "power_projection_mismatch" "power"
            "legacy power fields must agree with the provenance-bearing power fact"

    unfoldable pub application_failures :
        DeviceObservation V S → Option ApplicationObservation → List ContractViolation
    application_failures o none = []
    application_failures o (some application) =
        prefixed "application." (failures_of (validate_application application))
        ++ violation_if
            (is_some_and o.foreground_app
              (λ value. not (option_eq str_eq application.package_name (some value))))
            "application_projection_mismatch" "application.package_name"
            "legacy foreground application must agree with the provenance-bearing application fact"

    module _ ⦃streams : ValidateContract S⦄ ⦃json : Serialize (DeviceObservation V S)⦄ where
      -- `impl ValidateContract for DeviceObservation`: all failures, in the order of the checks.
      unfoldable pub observation_groups : DeviceObservation V S → List (List ContractViolation)
      observation_groups o =
          violation_if (not (str_eq o.schema "rusty.fleet.device_observation.v1")) "wrong_schema"
            "schema" "expected rusty.fleet.device_observation.v1"
          ∷ failures_of (validate_identity o.identity)
          ∷ require_nonempty o.source_epoch "source_epoch"
          ∷ violation_if (o.source_revision == 0) "invalid_revision" "source_revision"
              "source revision must be greater than zero"
          ∷ violation_if (is_some_and o.battery_percent (λ percent. ltb 100 percent))
              "invalid_battery" "battery_percent" "battery percentage must be between 0 and 100"
          ∷ agent_failures o.agent
          ∷ power_failures o o.power
          ∷ application_failures o o.application
          ∷ violation_if
              (ltb 64 (length o.conditions)
                || (ltb 32 (length o.streams)
                    || (ltb 128 (length o.capabilities.capabilities)
                        || ltb 64 (length o.extensions))))
              "observation_too_large" "observation" "observation collection limits were exceeded"
          ∷ violation_if
              (is_some_and (json.serialized_len o) (λ bytes. ltb (2 * 1024 * 1024) bytes))
              "observation_bytes_exceeded" "observation"
              "serialized observation exceeds the 2 MiB contract limit"
          ∷ each_indexed "conditions" validate_condition 0 o.conditions
          ∷ failures_of (validate_capabilities o.capabilities)
          ∷ each_indexed "streams" streams.validate 0 o.streams
          ∷ []

      unfoldable pub validate_observation : DeviceObservation V S → Validation
      validate_observation o = finish (groups (observation_groups o))
