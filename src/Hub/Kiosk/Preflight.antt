-- ===== src/Hub/Kiosk/Preflight.antt =====
-- crates/fleet-hub/src/kiosk.rs: the facts of a target that a preview freezes, and the test that they
-- are still current.
use Prim.Native.String.{String, ◌++◌ as concat}
use rusty_fleet.Prelude.{
  ℕ, Bool, false, ◌||◌, Option, none, some, List, [], ◌∷◌, ◌==◌, if◌then◌else◌, bool_eq, ℤ, pos,
  ltb_ℤ, max_ℤ, saturating_sub, Result, ok, ◌>>=◌, ◌>>◌, fail_if, str_eq, not,
}
use rusty_fleet.BTreeMap
use rusty_fleet.Order.{text_ord}
use rusty_fleet.Contracts.Capability.{
  SupportState, EnablementState, AuthorizationState, ReachabilityState, FreshnessState,
  CapabilityState, get_capability,
}
use rusty_fleet.Contracts.Kiosk.{
  KioskShowControlsOperation, KioskShowControlsTargetLedger, KioskShowControlsTargetPreflight,
}
use rusty_fleet.Contracts.KioskOwner.{
  kiosk_direct_operator_capability_id, kiosk_direct_operator_owner,
}
use rusty_fleet.Contracts.KioskPreview.{expected_eligibility, expected_reason_code}
use rusty_fleet.Hub.State.{FleetHub, HubError, HubPolicy, DeviceRecord}
use rusty_fleet.Hub.Kiosk.Guards.{hub_error, ok_or, same_frozen_facts}

-- The tuple that the `match` on the capability gives.
pub record CapabilityFacts : Type 0 where
  pub capability_evidence_revision : ℕ
  pub support : SupportState
  pub enablement : EnablementState
  pub authorization : AuthorizationState
  pub reachability : ReachabilityState
  pub freshness : FreshnessState
  pub observed_at_ms : ℤ
  pub fresh_until_ms : ℤ
  pub message : String

abbrev unknown_facts : ℕ → ℤ → ℤ → String → CapabilityFacts
unknown_facts revision observed_at_ms fresh_until_ms message = record {
  capability_evidence_revision = revision;
  support = SupportState.unknown;
  enablement = EnablementState.unknown;
  authorization = AuthorizationState.unknown;
  reachability = ReachabilityState.unknown;
  freshness = FreshnessState.unknown;
  observed_at_ms = observed_at_ms;
  fresh_until_ms = fresh_until_ms;
  message = message;
}

unfoldable pub aged_reachability : HubPolicy → ℤ → ReachabilityState → ReachabilityState
aged_reachability policy age_ms reachability =
    if ltb_ℤ policy.offline_after_ms age_ms then ReachabilityState.disconnected else reachability

unfoldable pub aged_freshness : HubPolicy → ℤ → FreshnessState → FreshnessState
aged_freshness policy age_ms freshness =
    if ltb_ℤ policy.stale_after_ms age_ms then FreshnessState.stale else freshness

abbrev pub is_drifted : KioskShowControlsTargetPreflight → KioskShowControlsTargetPreflight → Bool
is_drifted frozen current =
    not (same_frozen_facts frozen current)
    || (not (bool_eq frozen.eligible (expected_eligibility current))
        || not (str_eq frozen.reason_code (expected_reason_code current)))

module _ {V S : Type 0} where
  unfoldable pub capability_facts : DeviceRecord V S → Option (CapabilityState V) → CapabilityFacts
  capability_facts r none =
      unknown_facts r.observation.source_revision r.observation.received_time_ms
        r.observation.received_time_ms "No Kiosk direct-operator capability evidence is present"
  capability_facts r (some c) =
      if str_eq c.owner kiosk_direct_operator_owner
      then record {
        capability_evidence_revision = c.evidence_revision;
        support = c.support;
        enablement = c.enablement;
        authorization = c.authorization;
        reachability = c.reachability;
        freshness = c.freshness;
        observed_at_ms = c.observed_at_ms;
        fresh_until_ms = c.fresh_until_ms;
        message = c.reason;
      }
      else unknown_facts c.evidence_revision c.observed_at_ms c.fresh_until_ms
          "Kiosk capability evidence has the wrong owner"

  -- The preflight before its eligibility and its reason are set.
  unfoldable pub kiosk_preflight_facts :
      FleetHub V S → DeviceRecord V S → ℤ → KioskShowControlsTargetPreflight
  kiosk_preflight_facts hub r evaluated_at_ms =
      let facts =
        capability_facts r
          (get_capability r.observation.capabilities kiosk_direct_operator_capability_id) in
      let observation_age_ms = max_ℤ (saturating_sub evaluated_at_ms r.accepted_at_ms) (pos 0) in
      record {
        device_id = r.observation.identity.device_id;
        identity_revision = r.observation.identity.identity_revision;
        capability_id = kiosk_direct_operator_capability_id;
        capability_evidence_revision = facts.capability_evidence_revision;
        capability_owner = kiosk_direct_operator_owner;
        support = facts.support;
        enablement = facts.enablement;
        authorization = facts.authorization;
        reachability = aged_reachability hub.policy observation_age_ms facts.reachability;
        freshness = aged_freshness hub.policy observation_age_ms facts.freshness;
        observed_at_ms = facts.observed_at_ms;
        fresh_until_ms = facts.fresh_until_ms;
        evaluated_at_ms = evaluated_at_ms;
        eligible = false;
        reason_code = "";
        message = facts.message;
      }

  unfoldable pub kiosk_preflight :
      FleetHub V S → DeviceRecord V S → ℤ → KioskShowControlsTargetPreflight
  kiosk_preflight hub r evaluated_at_ms =
      let preflight = kiosk_preflight_facts hub r evaluated_at_ms in
      record preflight {
        eligible = expected_eligibility preflight;
        reason_code = expected_reason_code preflight;
      }

  unfoldable pub require_target_current :
      FleetHub V S → KioskShowControlsTargetLedger → ℤ → Result (Unit {0}) HubError
  require_target_current hub t now_ms = do
    r ← ok_or (BTreeMap.get t.device_id hub.devices) (
        hub_error "kiosk_target_not_found"
          (concat "Kiosk target " (concat t.device_id " is no longer in the Fleet directory")))
    fail_if (not (r.observation.identity.identity_revision == t.identity_revision)) (
        hub_error "kiosk_target_identity_changed"
          (concat "Kiosk target " (concat t.device_id " changed identity revision")))
    fail_if (is_drifted t.preflight (kiosk_preflight hub r now_ms)) (
        hub_error "kiosk_target_changed_since_preview" (
          concat "Kiosk target "
            (concat t.device_id " capability or freshness facts changed since preview")))

  -- The loop over the targets.
  unfoldable pub require_targets_current :
      FleetHub V S → List KioskShowControlsTargetLedger → ℤ → Result (Unit {0}) HubError
  require_targets_current hub [] now_ms = ok tt
  require_targets_current hub (t ∷ ts) now_ms = do
    require_target_current hub t now_ms
    require_targets_current hub ts now_ms

  unfoldable pub require_frozen_targets_current :
      FleetHub V S → KioskShowControlsOperation → ℤ → Result (Unit {0}) HubError
  require_frozen_targets_current hub operation now_ms =
      require_targets_current hub operation.targets now_ms
