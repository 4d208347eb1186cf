-- ===== src/Hub/Kiosk/Ready.antt =====
-- crates/fleet-hub/src/kiosk.rs: an owner attempt is begun only for a target that is ready now.
use Prim.Native.String.{String}
use rusty_fleet.Prelude.{
  ℕ, bind_inv, bind_at, then_inv, guard_inv, fail_if_inv, ◌≡◌, refl, ◌↔◌, Bool, true, false, some,
  [], arith, ◌==◌, ℤ, ◌≤ℤ◌, leb_ℤ, ok, str_eq, not,
}
use rusty_fleet.BTreeMap
use rusty_fleet.Order.{text_ord}
use rusty_fleet.Contracts.Capability.{
  SupportState, EnablementState, AuthorizationState, ReachabilityState, FreshnessState,
}
use rusty_fleet.Contracts.Kiosk.{
  KioskShowControlsOperation, KioskShowControlsTargetLedger, KioskShowControlsTargetPreflight,
}
use rusty_fleet.Contracts.KioskPreview.{
  expected_eligibility, expected_reason_code, support_reason, enablement_reason,
  authorization_reason, reachability_reason, freshness_reason,
}
use rusty_fleet.Contracts.KioskLedger.{state_failures}
use rusty_fleet.Contracts.KioskLedgerFacts.{LedgerIsValid}
use rusty_fleet.Hub.State.{FleetHub, DeviceRecord}
use rusty_fleet.Hub.Kiosk.Guards.{ok_or, kiosk_operation, target, require_monotonic_time}
use rusty_fleet.Hub.Kiosk.Preflight.{kiosk_preflight, is_drifted, require_target_current}
use rusty_fleet.Hub.Kiosk.Dispatch.{
  dispatch_kiosk_show_controls, dispatch_guards, is_same_dispatch, is_dispatchable,
}
use rusty_fleet.Hub.Kiosk.Effects.{ok_or_inv, else_at, hub_result}
use rusty_fleet.Hub.Kiosk.Soundness.{
  IsSound, sound_filed, found, valid_ledgers, find-All, target_inv,
}

-- The facts under which a target is eligible.
pub record IsReady (p : KioskShowControlsTargetPreflight) : Type 0 where
  pub supported : p.support ≡ SupportState.supported
  pub enabled : p.enablement ≡ EnablementState.enabled
  pub authorized : p.authorization ≡ AuthorizationState.authorized
  pub reachable : p.reachability ≡ ReachabilityState.reachable
  pub current : p.freshness ≡ FreshnessState.current
  pub in_time : p.evaluated_at_ms ≤ℤ p.fresh_until_ms

support_ready :
    (s : SupportState) (inner : String)
    → str_eq (support_reason s inner) "ready" ≡ true
    → (s ≡ SupportState.supported) × (str_eq inner "ready" ≡ true)
support_ready SupportState.supported inner h = (refl, h)
support_ready SupportState.unsupported inner h = cc
support_ready SupportState.unknown inner h = cc

enablement_ready :
    (e : EnablementState) (inner : String)
    → str_eq (enablement_reason e inner) "ready" ≡ true
    → (e ≡ EnablementState.enabled) × (str_eq inner "ready" ≡ true)
enablement_ready EnablementState.enabled inner h = (refl, h)
enablement_ready EnablementState.disabled inner h = cc
enablement_ready EnablementState.unknown inner h = cc

authorization_ready :
    (a : AuthorizationState) (inner : String)
    → str_eq (authorization_reason a inner) "ready" ≡ true
    → (a ≡ AuthorizationState.authorized) × (str_eq inner "ready" ≡ true)
authorization_ready AuthorizationState.authorized inner h = (refl, h)
authorization_ready AuthorizationState.unauthorized inner h = cc
authorization_ready AuthorizationState.restricted inner h = cc
authorization_ready AuthorizationState.unknown inner h = cc

reachability_ready :
    (r : ReachabilityState) (inner : String)
    → str_eq (reachability_reason r inner) "ready" ≡ true
    → (r ≡ ReachabilityState.reachable) × (str_eq inner "ready" ≡ true)
reachability_ready ReachabilityState.reachable inner h = (refl, h)
reachability_ready ReachabilityState.disconnected inner h = cc
reachability_ready ReachabilityState.unavailable inner h = cc
reachability_ready ReachabilityState.unknown inner h = cc

freshness_ready :
    (f : FreshnessState) (in_time : Bool)
    → str_eq (freshness_reason f in_time) "ready" ≡ true
    → (f ≡ FreshnessState.current) × (in_time ≡ true)
freshness_ready FreshnessState.current true h = (refl, refl)
freshness_ready FreshnessState.current false h = cc
freshness_ready FreshnessState.stale in_time h = cc
freshness_ready FreshnessState.unknown in_time h = cc

eligible-IsReady :
    (p : KioskShowControlsTargetPreflight) → expected_eligibility p ≡ true → IsReady p
unfolding expected_eligibility expected_reason_code
eligible-IsReady p h =
    let (s, h1) = support_ready p.support _ h in
    let (e, h2) = enablement_ready p.enablement _ h1 in
    let (a, h3) = authorization_ready p.authorization _ h2 in
    let (r, h4) = reachability_ready p.reachability _ h3 in
    let (f, t) = freshness_ready p.freshness _ h4 in
    record {
      supported = s;
      enabled = e;
      authorized = a;
      reachable = r;
      current = f;
      in_time = ground (arith, t);
    }

IsReady-eligible :
    (p : KioskShowControlsTargetPreflight) → IsReady p → expected_eligibility p ≡ true
unfolding expected_eligibility expected_reason_code
IsReady-eligible p r =
    let time : leb_ℤ p.evaluated_at_ms p.fresh_until_ms ≡ true = ground (arith, r.in_time) in
    rw (r.supported, r.enabled, r.authorized, r.reachable, r.current, time) refl

-- A preflight is eligible exactly if its capability is supported, enabled, authorized, reachable and
-- current, and it was evaluated before its freshness ran out.
pub expected_eligibility_iff :
    (p : KioskShowControlsTargetPreflight) → (expected_eligibility p ≡ true) ↔ IsReady p
expected_eligibility_iff p = (eligible-IsReady p, IsReady-eligible p)

-- Only the rejected targets were not eligible.
dispatchable_eligible :
    (b : Bool) (id : String) (max : ℕ) (t : KioskShowControlsTargetLedger)
    → state_failures b id max t ≡ []
    → is_dispatchable t.lifecycle ≡ true
    → b ≡ true
unfolding state_failures
dispatchable_eligible true id max t h d = refl
dispatchable_eligible false id max t h d = absurd (ground arith)

undrifted_eligible :
    (frozen current : KioskShowControlsTargetPreflight)
    → is_drifted frozen current ≡ false
    → frozen.eligible ≡ true
    → expected_eligibility current ≡ true
undrifted_eligible frozen current h e = ground arith

module _ {V S : Type 0} where
  -- The record that a target has now, with the identity that was frozen and no drift of its facts.
  pub record IsCurrent (hub : FleetHub V S) (now_ms : ℤ) (t : KioskShowControlsTargetLedger)
      (r : DeviceRecord V S) : Type 0 where
    pub known : BTreeMap.get t.device_id hub.devices ≡ some r
    pub identity : r.observation.identity.identity_revision ≡ t.identity_revision
    pub undrifted : is_drifted t.preflight (kiosk_preflight hub r now_ms) ≡ false

  pub require_target_current_inv :
      (hub : FleetHub V S) (t : KioskShowControlsTargetLedger) (now_ms : ℤ)
      → require_target_current hub t now_ms ≡ ok tt
      → (r : DeviceRecord V S) × IsCurrent hub now_ms t r
  unfolding require_target_current
  require_target_current_inv hub t now_ms h =
      let (r, known, h1) = bind_inv (ok_or (BTreeMap.get t.device_id hub.devices) _) _ h in
      let (same, h2) =
        guard_inv (not (r.observation.identity.identity_revision == t.identity_revision)) _ _ h1 in
      (
        r,
        record {
          known = ok_or_inv _ _ known;
          identity = ground arith;
          undrifted = fail_if_inv (is_drifted t.preflight (kiosk_preflight hub r now_ms)) _ h2;
        },
      )

  -- What a dispatch that succeeds has tested.
  dispatch_tests :
      (hub : FleetHub V S) (id device_id request_id : String) (now_ms : ℤ)
      (o : KioskShowControlsOperation) (t : KioskShowControlsTargetLedger)
      {u : KioskShowControlsOperation} {next : FleetHub V S}
      → kiosk_operation hub id ≡ ok o
      → target o device_id ≡ ok t
      → is_same_dispatch t request_id ≡ false
      → dispatch_kiosk_show_controls hub id device_id request_id now_ms ≡ ok (next, u)
      → (is_dispatchable t.lifecycle ≡ true) × (require_target_current hub t now_ms ≡ ok tt)
  unfolding dispatch_kiosk_show_controls dispatch_guards
  dispatch_tests hub id device_id request_id now_ms o t {u} {next} h at new d =
      let h1 = bind_at (kiosk_operation hub id) _ h d in
      let (_, h2) = then_inv (require_monotonic_time o now_ms) _ h1 in
      let h3 = bind_at (target o device_id) _ at h2 in
      let h4 = else_at (is_same_dispatch t request_id) (hub_result hub o) _ new h3 in
      let (guards, h5) = then_inv (dispatch_guards o t device_id request_id now_ms) _ h4 in
      let (current, _) = then_inv (require_target_current hub t now_ms) _ h5 in
      (ground (arith, guards), current)

  current_target_begins :
      (hub : FleetHub V S) (id : String) (max : ℕ) (t : KioskShowControlsTargetLedger) (now_ms : ℤ)
      → LedgerIsValid id max t
      → is_dispatchable t.lifecycle ≡ true
      → require_target_current hub t now_ms ≡ ok tt
      → (r : DeviceRecord V S) × (BTreeMap.get t.device_id hub.devices ≡ some r)
        × (r.observation.identity.identity_revision ≡ t.identity_revision)
        × IsReady (kiosk_preflight hub r now_ms)
  current_target_begins hub id max t now_ms l state current =
      let (r, c) = require_target_current_inv hub t now_ms current in
      let eligible = dispatchable_eligible t.preflight.eligible id max t l.state state in
      (
        r,
        c.known,
        c.identity,
        eligible-IsReady _
            (undrifted_eligible t.preflight (kiosk_preflight hub r now_ms) c.undrifted eligible),
      )

  -- In a sound Hub, if a dispatch that is not a replay succeeds, then the device of the target is in the
  -- directory under the frozen identity revision, and its preflight at the time of the call is ready:
  -- supported, enabled, authorized, reachable, current and in time.
  pub dispatch_only-IsReady :
      (hub : FleetHub V S) (id device_id request_id : String) (now_ms : ℤ)
      {o u : KioskShowControlsOperation} {t : KioskShowControlsTargetLedger} {next : FleetHub V S}
      → IsSound hub
      → kiosk_operation hub id ≡ ok o
      → target o device_id ≡ ok t
      → is_same_dispatch t request_id ≡ false
      → dispatch_kiosk_show_controls hub id device_id request_id now_ms ≡ ok (next, u)
      → (r : DeviceRecord V S) × (BTreeMap.get t.device_id hub.devices ≡ some r)
        × (r.observation.identity.identity_revision ≡ t.identity_revision)
        × IsReady (kiosk_preflight hub r now_ms)
  dispatch_only-IsReady hub id device_id request_id now_ms {o} {u} {t} s h at new d =
      let (state, current) = dispatch_tests hub id device_id request_id now_ms o t h at new d in
      let valid = (sound_filed hub id s (found hub id h)).1 in
      current_target_begins hub o.operation_id o.max_attempts_per_target t now_ms
        (find-All _ device_id o.targets (valid_ledgers o valid) (target_inv o device_id at)) state
        current
