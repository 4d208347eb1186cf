-- ===== src/Hub/Restore.antt =====
-- crates/fleet-hub/src/lib.rs: `snapshot`, and `restore` with its checks on the parts of the Hub that are
-- modelled. They run in the source's order; the first that fails is the error.
use Prim.Native.String.{String, ◌++◌ as concat}
use native.Mathlib.Decide.{ℕ_discrete}
use rusty_fleet.Prelude.{
  ℕ, Bool, true, false, ◌||◌, ◌&&◌, is_none_or, List, [], ◌∷◌, ltb, leb, ◌==◌, if◌then◌else◌,
  is_some_and, pos, ltb_ℤ, length, any, last, Result, ok, err, ◌>>◌, is_err, fail_if, str_eq, not,
}
use rusty_fleet.BTreeMap
use rusty_fleet.BTreeMap.{BTreeMap, values, collect_set}
use rusty_fleet.Order.{text_ord}
use rusty_fleet.Contracts.Violation.{ValidateContract, Serialize}
use rusty_fleet.Contracts.Condition.{validate_condition}
use rusty_fleet.Contracts.Identity.{DeviceObservation, validate_observation}
use rusty_fleet.Contracts.SavedView.{SavedView, validate_collection}
use rusty_fleet.Contracts.Kiosk.{KioskShowControlsOperation, KioskShowControlsTargetLedger}
use rusty_fleet.Contracts.KioskOperation.{validate_kiosk_operation}
use rusty_fleet.Hub.Rows.{is_kiosk_terminal}
use rusty_fleet.Hub.Kiosk.Preview.{max_kiosk_operations}
use rusty_fleet.Hub.State.{FleetHub, DeviceRecord, HubPolicy, HubError, WatchEvent}
use rusty_fleet.Hub.Observe.{contains, watch_event_schema}
use rusty_fleet.Hub.SavedViews.{max_saved_views}

pub record FleetHubSnapshot (V S : Type 0) : Type 0 where
  pub schema : String
  pub policy : HubPolicy
  pub devices : BTreeMap String (DeviceRecord V S)
  pub result_revision : ℕ
  pub event_sequence : ℕ
  pub events : List WatchEvent
  pub saved_view_revision : ℕ
  pub saved_views : BTreeMap String SavedView
  pub kiosk_operations : BTreeMap String KioskShowControlsOperation

abbrev pub snapshot_schema : String
snapshot_schema = "rusty.fleet.hub_snapshot.v1"

pub policy_discrete : Discrete HubPolicy
policy_discrete = hlevel ℕ_discrete

abbrev pub policies_differ : HubPolicy → HubPolicy → Bool
policies_differ a b = elim (policy_discrete a b) [ yes _ ↦ false | no _ ↦ true ]

abbrev fail : String → String → HubError
fail code message = record { code = code; message = message }

-- `events.windows(2).any(..)`: an event that does not come before the next, or has another schema.
unfoldable pub any_window_bad : List WatchEvent → Bool
any_window_bad [] = false
any_window_bad (e ∷ []) = false
any_window_bad (e ∷ f ∷ rest) =
    (leb f.event_sequence e.event_sequence || not (str_eq e.schema watch_event_schema))
    || any_window_bad (f ∷ rest)

module _ {V S : Type 0} where
  unfoldable pub snapshot : FleetHub V S → FleetHubSnapshot V S
  snapshot hub = record {
    schema = snapshot_schema;
    policy = hub.policy;
    devices = hub.devices;
    result_revision = hub.result_revision;
    event_sequence = hub.event_sequence;
    events = hub.events;
    saved_view_revision = hub.saved_view_revision;
    saved_views = hub.saved_views;
    kiosk_operations = hub.kiosk_operations;
  }

  -- `Ok(Self { .. })`.
  unfoldable pub hub_of : FleetHubSnapshot V S → FleetHub V S
  hub_of s = record {
    policy = s.policy;
    devices = s.devices;
    result_revision = s.result_revision;
    event_sequence = s.event_sequence;
    events = s.events;
    saved_view_revision = s.saved_view_revision;
    saved_views = s.saved_views;
    kiosk_operations = s.kiosk_operations;
  }

  unfoldable pub limits_are_invalid : HubPolicy → FleetHubSnapshot V S → Bool
  limits_are_invalid policy s =
      s.result_revision == 0
      || (ltb policy.event_limit (length s.events)
          || is_some_and (last s.events) (λ event. ltb s.event_sequence event.event_sequence))

  unfoldable pub events_are_invalid : FleetHubSnapshot V S → Bool
  events_are_invalid s =
      any_window_bad s.events
      || is_some_and (last s.events) (λ event. not (str_eq event.schema watch_event_schema))

  unfoldable pub saved_views_are_invalid : FleetHubSnapshot V S → Bool
  saved_views_are_invalid s =
      is_err (
        validate_collection (record {
          schema = "rusty.fleet.saved_view_collection.v1";
          revision = s.saved_view_revision;
          views = values s.saved_views;
        }))
      || (ltb max_saved_views (length s.saved_views)
          || any (λ e. not (str_eq e.1.view_id e.0)) s.saved_views)

  -- A target that is not settled, of a device that is unknown or has another identity revision.
  unfoldable pub is_target_stray :
      BTreeMap String (DeviceRecord V S) → KioskShowControlsTargetLedger → Bool
  is_target_stray devices t =
      not (is_kiosk_terminal t.lifecycle)
      && is_none_or (BTreeMap.get t.device_id devices)
          (λ r. not (r.observation.identity.identity_revision == t.identity_revision))

  unfoldable pub is_operation_stray :
      BTreeMap String (DeviceRecord V S) → ℕ → String × KioskShowControlsOperation → Bool
  is_operation_stray devices result_revision e =
      not (str_eq e.0 e.1.operation_id)
      || (is_err (validate_kiosk_operation e.1)
          || (ltb result_revision e.1.preview.fleet_revision
              || any (is_target_stray devices) e.1.targets))

  unfoldable pub kiosk_operations_are_invalid : FleetHubSnapshot V S → Bool
  kiosk_operations_are_invalid s =
      ltb max_kiosk_operations (length s.kiosk_operations)
      || any (is_operation_stray s.devices s.result_revision) s.kiosk_operations

  module _ ⦃streams : ValidateContract S⦄ ⦃json : Serialize (DeviceObservation V S)⦄ where
    -- The condition of `snapshot_device_invalid`.
    unfoldable pub record_is_invalid : HubPolicy → ℕ → String → DeviceRecord V S → Bool
    record_is_invalid policy result_revision device_id r =
        not (str_eq r.observation.identity.device_id device_id)
        || (is_err (validate_observation r.observation)
            || (ltb_ℤ r.accepted_at_ms (pos 0)
                || (r.accepted_revision == 0
                    || (ltb result_revision r.accepted_revision
                        || (ltb policy.history_limit_per_device (length r.condition_history)
                            || (length r.seen_source_epochs == 0
                                || (ltb policy.source_epoch_limit_per_device
                                      (length r.seen_source_epochs)
                                    || (not
                                          (contains r.observation.source_epoch r.seen_source_epochs)
                                        || (not (
                                              length (collect_set r.seen_source_epochs)
                                              == length r.seen_source_epochs)
                                            || any (λ c. is_err (validate_condition c))
                                                r.condition_history)))))))))

    -- The loop over the devices.
    unfoldable pub check_devices :
        HubPolicy → ℕ → BTreeMap String (DeviceRecord V S) → Result (Unit {0}) HubError
    check_devices policy result_revision [] = ok tt
    check_devices policy result_revision ((device_id, r) ∷ rest) =
        let others = check_devices policy result_revision rest in
        if record_is_invalid policy result_revision device_id r
        then err (
            fail "snapshot_device_invalid"
              (concat "Fleet Hub snapshot record is invalid for " device_id))
        else others

    -- `restore`, without the checks of the stores that are not modelled.
    unfoldable pub restore_core : HubPolicy → FleetHubSnapshot V S → Result (FleetHub V S) HubError
    restore_core policy s = do
      fail_if (not (str_eq s.schema snapshot_schema))
          (fail "snapshot_schema_invalid" "Fleet Hub snapshot schema is not supported")
      fail_if (policies_differ s.policy policy) (
          fail "snapshot_policy_mismatch"
            "Fleet Hub snapshot policy does not match current configuration")
      fail_if (limits_are_invalid policy s) (
          fail "snapshot_limits_invalid" "Fleet Hub snapshot revisions or event limits are invalid")
      fail_if (events_are_invalid s)
          (fail "snapshot_events_invalid" "Fleet Hub snapshot events are not strictly ordered")
      check_devices policy s.result_revision s.devices
      fail_if (saved_views_are_invalid s) (
          fail "snapshot_saved_views_invalid"
            "Fleet Hub snapshot saved views are invalid or exceed their limit")
      fail_if (kiosk_operations_are_invalid s) (
          fail "snapshot_kiosk_operations_invalid"
            "Fleet Hub snapshot Kiosk operations are invalid or exceed their limit")
      ok (hub_of s)
