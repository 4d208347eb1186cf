-- ===== src/Hub/Kiosk/Replay.antt =====
-- crates/fleet-hub/src/kiosk.rs: the same call again changes nothing.
use Prim.Native.String.{String}
use rusty_fleet.Contracts.KioskEquality.{same_contract, same_receipt}
use rusty_fleet.Prelude.{
  bind_inv, then_inv, guard_inv, ◌≡◌, refl, sym, ap, ◌∙◌, inl, inr, Bool, true, false, Option, none,
  some, List, [], ◌∷◌, arith, Bool-cases, Option-cases, ℤ, ltb_ℤ, any, find, last, ok, ◌>>=◌,
  str_eq, str_eq_refl, option_eq, not,
}
use mathlib.Core.Path.{subst}
use rusty_fleet.BTreeMap
use rusty_fleet.BTreeMap.Laws.{get-insert_self}
use rusty_fleet.Order.{text_ord}
use rusty_fleet.Contracts.Kiosk.{
  KioskOwnerContractBinding, KioskShowControlsOperation, KioskShowControlsTargetLedger,
  KioskEffectiveReceipt,
}
use rusty_fleet.Hub.State.{FleetHub}
use rusty_fleet.Hub.Kiosk.Guards.{
  change_first, has_device, kiosk_operation, target, target_mut, relifed, require_monotonic_time,
  store_operation,
}
use rusty_fleet.Hub.Kiosk.Preflight.{require_target_current}
use rusty_fleet.Hub.Kiosk.Dispatch.{
  dispatch_kiosk_show_controls, dispatch_guards, dispatched_ledger, is_same_dispatch,
}
use rusty_fleet.Contracts.Kiosk.{is_inflight}
use rusty_fleet.Contracts.KioskOwner.{validate_effective_receipt}
use rusty_fleet.Hub.Kiosk.Guards.{validate_operation, checked}
use rusty_fleet.Hub.Kiosk.Attempt.{
  apply_kiosk_show_controls_receipt, applied_ledger, is_receipt_replayed, is_binding_wrong,
}
use rusty_fleet.Hub.Kiosk.Effects.{ok_or_inv, if_inv, hub_result}

-- What `target` and the test of the times see after a change of the target.
change_first-seen :
    (d : String) (change : KioskShowControlsTargetLedger → KioskShowControlsTargetLedger)
    (p : KioskShowControlsTargetLedger → Bool) (ts : List KioskShowControlsTargetLedger)
    {t : KioskShowControlsTargetLedger} {next : List KioskShowControlsTargetLedger}
    → find (has_device d) ts ≡ some t
    → (change t).device_id ≡ t.device_id
    → p (change t) ≡ false
    → any p ts ≡ false
    → change_first d change ts ≡ some next
    → (find (has_device d) next ≡ some (change t)) × (any p next ≡ false)
unfolding change_first
change_first-seen d f p [] h same low all_low e = cc
change_first-seen d f p (x ∷ xs) {t} {next} h same low all_low e =
    elim (Bool-cases (has_device d x)) [
      | inl here ↦
          let at : x ≡ t = ground arith in
          let made : f x ∷ xs ≡ next = ground arith in
          let rest : any p xs ≡ false = ground arith in
          let own : has_device d (f t) ≡ true =
            ap (λ i. str_eq i d) same ∙ (sym (ap (has_device d) at) ∙ here) in
          subst (λ ys. (find (has_device d) ys ≡ some (f t)) × (any p ys ≡ false)) made
            (subst (λ y. (find (has_device d) (f y ∷ xs) ≡ some (f t)) × (any p (f y ∷ xs) ≡ false))
              (sym at) (rw own refl, rw (low, rest) refl))
      | inr other ↦ elim (Option-cases (change_first d f xs)) [
        | inl missing ↦ absurd (ground arith)
        | inr (ys, kept) ↦
            let later : find (has_device d) xs ≡ some t = ground arith in
            let rest : any p xs ≡ false = ground arith in
            let here : p x ≡ false = ground arith in
            let made : x ∷ ys ≡ next = ground arith in
            let (at, low_rest) = change_first-seen d f p xs later same low rest kept in
            subst (λ zs. (find (has_device d) zs ≡ some (f t)) × (any p zs ≡ false)) made
              (rw other at, rw (here, low_rest) refl)
      ]
    ]

same_option : (a : Option String) → option_eq str_eq a a ≡ true
same_option none = refl
same_option (some a) = str_eq_refl a

contract_seen : (c : KioskOwnerContractBinding) → same_contract c c ≡ true
unfolding same_contract
contract_seen c = ground (
  arith,
  same_option c.command_value,
  str_eq_refl c.owner_repo_id,
  str_eq_refl c.owner_contract_schema,
  str_eq_refl c.owner_contract_revision,
  str_eq_refl c.capability_id,
  str_eq_refl c.request_auth,
  str_eq_refl c.response_auth,
  str_eq_refl c.invoke_method,
  str_eq_refl c.invoke_target,
  str_eq_refl c.result_method,
  str_eq_refl c.result_target,
  str_eq_refl c.result_request_id_parameter,
  str_eq_refl c.command,
  str_eq_refl c.owner_result_schema,
)

receipt_seen : (r : KioskEffectiveReceipt) → same_receipt r r ≡ true
unfolding same_receipt
receipt_seen r = ground (
  arith,
  contract_seen r.owner_contract,
  str_eq_refl r.schema,
  str_eq_refl r.receipt_id,
  str_eq_refl r.operation_id,
  str_eq_refl r.device_id,
  str_eq_refl r.owner_action_request_id,
  str_eq_refl r.owner_result_transport_request_id,
  str_eq_refl r.owner_command,
  str_eq_refl r.response_content_sha256,
  str_eq_refl r.response_signature,
  str_eq_refl r.owner_result_schema,
)

module _ {V S : Type 0} where
  -- After a change of a target at a time, the Hub has the operation that was returned; the time is
  -- still not before any transition, and the target is the changed one.
  record IsSeen (next : FleetHub V S) (id device_id : String) (now_ms : ℤ)
      (u : KioskShowControlsOperation) (t : KioskShowControlsTargetLedger) : Type 0 where
    stored : kiosk_operation next id ≡ ok u
    in_time : require_monotonic_time u now_ms ≡ ok tt
    located : target u device_id ≡ ok t

  store_value :
      (hub : FleetHub V S) (id : String) (w : KioskShowControlsOperation) {next : FleetHub V S}
      {u : KioskShowControlsOperation}
      → store_operation hub id w ≡ ok (next, u)
      → (u ≡ relifed w)
        × (next ≡ record hub { kiosk_operations = BTreeMap.insert id u hub.kiosk_operations })
  unfolding store_operation
  store_value hub id w {next} {u} h =
      let (_, stored) = then_inv (validate_operation (relifed w)) _ h in
      let same : relifed w ≡ u = ground arith in (sym same, ground (arith, same))

  changed-IsSeen :
      (hub : FleetHub V S) (id device_id : String) (now_ms : ℤ) (o : KioskShowControlsOperation)
      (t : KioskShowControlsTargetLedger)
      (change : KioskShowControlsTargetLedger → KioskShowControlsTargetLedger) {next : FleetHub V S}
      {u : KioskShowControlsOperation}
      → require_monotonic_time o now_ms ≡ ok tt
      → target o device_id ≡ ok t
      → (change t).device_id ≡ t.device_id
      → (change t).last_transition_ms ≡ now_ms
      → target_mut o device_id change >>= (λ changed. store_operation hub id changed) ≡ ok (next, u)
      → IsSeen next id device_id now_ms u (change t)
  unfolding target target_mut require_monotonic_time store_operation kiosk_operation
  changed-IsSeen hub id device_id now_ms o t change {next} {u} time at same last h =
      let (w, made, stored) = bind_inv (target_mut o device_id change) _ h in
      let first : find (has_device device_id) o.targets ≡ some t = ok_or_inv _ _ at in
      let late = λ (x : KioskShowControlsTargetLedger). ltb_ℤ now_ms x.last_transition_ms in
      let before : any late o.targets ≡ false = ground arith in
      let created : ltb_ℤ now_ms o.created_at_ms ≡ false = ground arith in
      let low : late (change t) ≡ false = rw last (ground arith) in
      elim (Option-cases (change_first device_id change o.targets)) [
        | inl missing ↦ absurd (ground arith)
        | inr (ts, kept) ↦
            let (there, all_low) =
              change_first-seen device_id change late o.targets first same low before kept in
            let same_w : record o { targets = ts } ≡ w = ground arith in
            let (same, put) = store_value hub id w stored in
            let same_u : relifed (record o { targets = ts }) ≡ u = ap relifed same_w ∙ sym same in
            record {
              stored = rw put (rw (get-insert_self id u hub.kiosk_operations) refl);
              in_time =
                  subst (λ v. require_monotonic_time v now_ms ≡ ok tt) same_u
                    (rw (created, all_low) refl);
              located = subst (λ v. target v device_id ≡ ok (change t)) same_u (rw there refl);
            }
      ]

  -- Replay of a dispatch: after a dispatch that succeeds, the same call gives the same operation and
  -- leaves the Hub as it is.
  pub dispatch_replays :
      (hub : FleetHub V S) (id device_id request_id : String) (now_ms : ℤ) {next : FleetHub V S}
      {u : KioskShowControlsOperation}
      → dispatch_kiosk_show_controls hub id device_id request_id now_ms ≡ ok (next, u)
      → dispatch_kiosk_show_controls next id device_id request_id now_ms ≡ ok (next, u)
  unfolding dispatch_kiosk_show_controls dispatched_ledger
  dispatch_replays hub id device_id request_id now_ms {next} {u} h =
      let (o, known, h1) = bind_inv (kiosk_operation hub id) _ h in
      let (time, h2) = then_inv (require_monotonic_time o now_ms) _ h1 in
      let (t, found_at, h3) = bind_inv (target o device_id) _ h2 in
      let split = if_inv (is_same_dispatch t request_id) (hub_result hub o) _ h3 in
      elim split [
        | inl (_, same) ↦
            let same_hub : hub ≡ next = ground arith in
            subst
              (λ x. dispatch_kiosk_show_controls x id device_id request_id now_ms ≡ ok (next, u))
              same_hub h
        | inr (_, rest) ↦
            let (_, h4) = then_inv (dispatch_guards o t device_id request_id now_ms) _ rest in
            let (_, h5) = then_inv (require_target_current hub t now_ms) _ h4 in
            let change =
              dispatched_ledger request_id now_ms o.preview.expires_at_ms
                o.max_attempts_per_target in
            let seen : IsSeen next id device_id now_ms u (change t) =
              changed-IsSeen hub id device_id now_ms o t change time found_at refl refl h5 in
            rw (seen.stored, seen.in_time, seen.located) (rw (str_eq_refl request_id) refl)
      ]

  -- Replay of a receipt: after a receipt that is taken, the same call gives the same operation and
  -- leaves the Hub as it is.
  pub receipt_replays :
      (hub : FleetHub V S) (receipt : KioskEffectiveReceipt) (now_ms : ℤ) {next : FleetHub V S}
      {u : KioskShowControlsOperation}
      → apply_kiosk_show_controls_receipt hub receipt now_ms ≡ ok (next, u)
      → apply_kiosk_show_controls_receipt next receipt now_ms ≡ ok (next, u)
  unfolding apply_kiosk_show_controls_receipt applied_ledger
  receipt_replays hub receipt now_ms {next} {u} h =
      let id = receipt.operation_id in
      let device_id = receipt.device_id in
      let (o, known, h1) = bind_inv (kiosk_operation hub id) _ h in
      let (time, h2) = then_inv (require_monotonic_time o now_ms) _ h1 in
      let (t, found_at, h3) = bind_inv (target o device_id) _ h2 in
      let split = if_inv (is_receipt_replayed t receipt) (hub_result hub o) _ h3 in
      elim split [
        | inl (_, same) ↦
            let same_hub : hub ≡ next = ground arith in
            subst (λ x. apply_kiosk_show_controls_receipt x receipt now_ms ≡ ok (next, u)) same_hub
              h
        | inr (_, rest) ↦
            let (_, h4) = guard_inv (not (is_inflight t.lifecycle)) _ _ rest in
            let (_, h5) = then_inv (checked (validate_effective_receipt receipt) _ _) _ h4 in
            let (_, h6) = guard_inv (is_binding_wrong t receipt) _ _ h5 in
            let seen : IsSeen next id device_id now_ms u (applied_ledger receipt now_ms t) =
              changed-IsSeen hub id device_id now_ms o t (applied_ledger receipt now_ms) time
                found_at refl refl h6 in
            rw (seen.stored, seen.in_time, seen.located) (rw (receipt_seen receipt) refl)
      ]
