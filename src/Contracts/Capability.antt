-- ===== src/Contracts/Capability.antt =====
-- crates/fleet-contracts/src/capability.rs: what a device can do, by independent evidence.
use Prim.Native.String.{String, ◌++◌ as concat}
use rusty_fleet.Prelude.{
  ℕ, Bool, true, false, ◌&&◌, ◌||◌, Option, List, [], ◌∷◌, ◌++◌, ltb, ◌==◌, ℤ, ltb_ℤ, length,
  str_eq, not,
}
use rusty_fleet.BTreeMap.{BTreeMap}
use rusty_fleet.BTreeMap
use rusty_fleet.Order.{text_ord}
use rusty_fleet.Contracts.Violation.{
  Validation, ContractViolation, violation_if, require_nonempty, finish, failures_of, prefixed,
}

pub data SupportState : Type 0 where
  supported unsupported unknown : SupportState

pub data EnablementState : Type 0 where
  enabled disabled unknown : EnablementState

pub data AuthorizationState : Type 0 where
  authorized unauthorized restricted unknown : AuthorizationState

pub data ReachabilityState : Type 0 where
  reachable disconnected unavailable unknown : ReachabilityState

pub data FreshnessState : Type 0 where
  current stale unknown : FreshnessState

-- The derived `PartialEq` of each, by the place of the constructor.
abbrev support_rank : SupportState → ℕ
support_rank SupportState.supported = 0
support_rank SupportState.unsupported = 1
support_rank SupportState.unknown = 2

abbrev pub same_support : SupportState → SupportState → Bool
same_support a b = support_rank a == support_rank b

abbrev enablement_rank : EnablementState → ℕ
enablement_rank EnablementState.enabled = 0
enablement_rank EnablementState.disabled = 1
enablement_rank EnablementState.unknown = 2

abbrev pub same_enablement : EnablementState → EnablementState → Bool
same_enablement a b = enablement_rank a == enablement_rank b

abbrev authorization_rank : AuthorizationState → ℕ
authorization_rank AuthorizationState.authorized = 0
authorization_rank AuthorizationState.unauthorized = 1
authorization_rank AuthorizationState.restricted = 2
authorization_rank AuthorizationState.unknown = 3

abbrev pub same_authorization : AuthorizationState → AuthorizationState → Bool
same_authorization a b = authorization_rank a == authorization_rank b

abbrev reachability_rank : ReachabilityState → ℕ
reachability_rank ReachabilityState.reachable = 0
reachability_rank ReachabilityState.disconnected = 1
reachability_rank ReachabilityState.unavailable = 2
reachability_rank ReachabilityState.unknown = 3

abbrev pub same_reachability : ReachabilityState → ReachabilityState → Bool
same_reachability a b = reachability_rank a == reachability_rank b

abbrev freshness_rank : FreshnessState → ℕ
freshness_rank FreshnessState.current = 0
freshness_rank FreshnessState.stale = 1
freshness_rank FreshnessState.unknown = 2

abbrev pub same_freshness : FreshnessState → FreshnessState → Bool
same_freshness a b = freshness_rank a == freshness_rank b

pub record CapabilityState (V : Type 0) : Type 0 where
  pub capability_id : String
  pub support : SupportState
  pub enablement : EnablementState
  pub authorization : AuthorizationState
  pub reachability : ReachabilityState
  pub freshness : FreshnessState
  pub evidence_revision : ℕ
  pub observed_at_ms : ℤ
  pub fresh_until_ms : ℤ
  pub owner : String
  pub reason : String
  pub extensions : BTreeMap String V

pub record CapabilitySnapshot (V : Type 0) : Type 0 where
  pub capabilities : BTreeMap String (CapabilityState V)
  pub extensions : BTreeMap String V

abbrev is_supported : SupportState → Bool
is_supported SupportState.supported = true
is_supported _ = false

abbrev is_enabled : EnablementState → Bool
is_enabled EnablementState.enabled = true
is_enabled _ = false

abbrev is_authorized : AuthorizationState → Bool
is_authorized AuthorizationState.authorized = true
is_authorized _ = false

abbrev is_reachable : ReachabilityState → Bool
is_reachable ReachabilityState.reachable = true
is_reachable _ = false

abbrev is_current : FreshnessState → Bool
is_current FreshnessState.current = true
is_current _ = false

module _ {V : Type 0} where
  unfoldable pub is_ready : CapabilityState V → Bool
  is_ready c =
      is_supported c.support
      && (is_enabled c.enablement
          && (is_authorized c.authorization
              && (is_reachable c.reachability && is_current c.freshness)))

  unfoldable pub validate_capability : CapabilityState V → Validation
  validate_capability c = finish (
      require_nonempty c.capability_id "capability_id"
      ++ (require_nonempty c.owner "owner"
          ++ (require_nonempty c.reason "reason"
              ++ (violation_if (c.evidence_revision == 0) "invalid_revision" "evidence_revision"
                    "evidence revision must be greater than zero"
                  ++ violation_if (ltb_ℤ c.fresh_until_ms c.observed_at_ms) "invalid_freshness"
                      "fresh_until_ms" "freshness deadline must not precede observation time"))))

  unfoldable pub get_capability : CapabilitySnapshot V → String → Option (CapabilityState V)
  get_capability snapshot capability_id = BTreeMap.get capability_id snapshot.capabilities

  -- The loop over the entries of the snapshot.
  unfoldable pub capability_failures : BTreeMap String (CapabilityState V) → List ContractViolation
  capability_failures [] = []
  capability_failures ((key, capability) ∷ rest) =
      violation_if (not (str_eq key capability.capability_id)) "capability_key_mismatch"
        (concat "capabilities." key) "map key must equal capability_id"
      ++ (prefixed (concat "capabilities." (concat key "."))
            (failures_of (validate_capability capability))
          ++ capability_failures rest)

  unfoldable pub validate_capabilities : CapabilitySnapshot V → Validation
  validate_capabilities snapshot = finish (
      violation_if (ltb 128 (length snapshot.capabilities) || ltb 64 (length snapshot.extensions))
        "capability_snapshot_too_large" "capabilities"
        "capability snapshots support at most 128 entries and 64 extension fields"
      ++ capability_failures snapshot.capabilities)
