-- ===== src/Hub/Observe/Runs.antt =====
-- Sequences of observations, of any devices and in any order: an epoch that a device has left never
-- comes back.
use Prim.Native.String.{String}
use rusty_fleet.Prelude.{
  ℕ, ◌≡◌, refl, ap, ◌∙◌, ◌≢◌, inl, inr, Option, some, List, [], ◌∷◌, Bool-cases, ℤ, str_eq,
  str_eq_iff,
}
use rusty_fleet.BTreeMap
use rusty_fleet.BTreeMap.{BTreeMap}
use rusty_fleet.Order.{text_ord}
use rusty_fleet.Contracts.Violation.{ValidateContract, Serialize}
use rusty_fleet.Contracts.Identity.{DeviceObservation}
use rusty_fleet.Hub.State.{FleetHub, ObservationDecision, RejectionReason, accepted, rejected}
use rusty_fleet.Hub.Observe.{accepted_record, accept_observation}
use rusty_fleet.Hub.Observe.Outcome.{accepted_effect, rejected_keeps, accepted_not_rejected}
use rusty_fleet.Hub.Observe.Seen.{
  SupersededIn, SeenIn, left_epoch_not_free, epochs_grow, own_epoch_seen,
}

pub data DecisionView (x : ObservationDecision) : Type 0 where
  was_accepted : {r s : ℕ} {d : String} → x ≡ accepted r d s → DecisionView x
  was_rejected :
      {r : ℕ} {d : Option String} {s : Option ℕ} {why : RejectionReason} {details : List String}
      → x ≡ rejected r d s why details
      → DecisionView x

pub view_decision : (x : ObservationDecision) → DecisionView x
view_decision (accepted r d s) = was_accepted refl
view_decision (rejected r d s why details) = was_rejected refl

module _ {V S : Type 0} ⦃streams : ValidateContract S⦄
    ⦃json : Serialize (DeviceObservation V S)⦄ where
  -- The Hub after a sequence of observations, each with the time of its arrival.
  unfoldable pub observe_all : FleetHub V S → List (DeviceObservation V S × ℤ) → FleetHub V S
  observe_all hub [] = hub
  observe_all hub ((o, now_ms) ∷ rest) = observe_all (accept_observation hub o now_ms).0 rest

  accept-Superseded_own :
      (d e : String) (hub : FleetHub V S) (o : DeviceObservation V S) (now_ms : ℤ) {n s : ℕ}
      {id : String}
      → (accept_observation hub o now_ms).1 ≡ accepted n id s
      → d ≡ id
      → SupersededIn d e hub
      → SupersededIn d e (accept_observation hub o now_ms).0
  accept-Superseded_own d e hub o now_ms {n} {s} {id} q same (r, found, sup) =
      let (_, _, _, _, _, stored, _, _, _) = accepted_effect hub o now_ms q in
      let at : BTreeMap.get id hub.devices ≡ some r = rw same at found in
      let next = accepted_record hub.policy (some r) o now_ms n in
      (
        next,
        rw same (rw at at stored),
        record {
          seen = epochs_grow hub.policy e r o now_ms n sup.seen;
          left =
              unfold accepted_record in
              left_epoch_not_free hub.policy e r o sup (accepted_not_rejected hub o now_ms q at);
        },
      )

  accept-Superseded :
      (d e : String) (hub : FleetHub V S) (o : DeviceObservation V S) (now_ms : ℤ)
      → SupersededIn d e hub
      → SupersededIn d e (accept_observation hub o now_ms).0
  accept-Superseded d e hub o now_ms (r, found, sup) =
      elim (view_decision (accept_observation hub o now_ms).1) [
        | was_rejected q ↦ (r, ap (BTreeMap.get d) (rejected_keeps hub o now_ms q).0 ∙ found, sup)
        | was_accepted {d = id} q ↦ elim (Bool-cases (str_eq d id)) [
          | inl same ↦
              accept-Superseded_own d e hub o now_ms q ((str_eq_iff d id).0 same) (r, found, sup)
          | inr other ↦
              let (_, _, _, _, _, _, others, _, _) = accepted_effect hub o now_ms q in
              (r, others d (λ p. cc ((str_eq_iff d id).1 p)) ∙ found, sup)
        ]
      ]

  observe_all-Superseded :
      (d e : String) (hub : FleetHub V S) (os : List (DeviceObservation V S × ℤ))
      → SupersededIn d e hub
      → SupersededIn d e (observe_all hub os)
  unfolding observe_all
  observe_all-Superseded d e hub [] h = h
  observe_all-Superseded d e hub ((o, now_ms) ∷ rest) h =
      observe_all-Superseded d e (accept_observation hub o now_ms).0 rest
        (accept-Superseded d e hub o now_ms h)

  accepted-SeenIn :
      (hub : FleetHub V S) (o : DeviceObservation V S) (now_ms : ℤ) {r s : ℕ} {d : String}
      → (accept_observation hub o now_ms).1 ≡ accepted r d s
      → SeenIn d o.source_epoch (accept_observation hub o now_ms).0
  accepted-SeenIn hub o now_ms {r} {s} {d} q =
      let (_, _, _, _, _, stored, _, _, _) = accepted_effect hub o now_ms q in
      (
        accepted_record hub.policy (BTreeMap.get d hub.devices) o now_ms r,
        stored,
        own_epoch_seen hub.policy (BTreeMap.get d hub.devices) o now_ms r,
      )

  accept-SeenIn_own :
      (d e : String) (hub : FleetHub V S) (o : DeviceObservation V S) (now_ms : ℤ) {n s : ℕ}
      {id : String}
      → (accept_observation hub o now_ms).1 ≡ accepted n id s
      → d ≡ id
      → SeenIn d e hub
      → SeenIn d e (accept_observation hub o now_ms).0
  accept-SeenIn_own d e hub o now_ms {n} {s} {id} q same (r, found, seen) =
      let (_, _, _, _, _, stored, _, _, _) = accepted_effect hub o now_ms q in
      let at : BTreeMap.get id hub.devices ≡ some r = rw same at found in
      (
        accepted_record hub.policy (some r) o now_ms n,
        rw same (rw at at stored),
        epochs_grow hub.policy e r o now_ms n seen,
      )

  accept-SeenIn :
      (d e : String) (hub : FleetHub V S) (o : DeviceObservation V S) (now_ms : ℤ)
      → SeenIn d e hub
      → SeenIn d e (accept_observation hub o now_ms).0
  accept-SeenIn d e hub o now_ms (r, found, seen) =
      elim (view_decision (accept_observation hub o now_ms).1) [
        | was_rejected q ↦ (r, ap (BTreeMap.get d) (rejected_keeps hub o now_ms q).0 ∙ found, seen)
        | was_accepted {d = id} q ↦ elim (Bool-cases (str_eq d id)) [
          | inl same ↦
              accept-SeenIn_own d e hub o now_ms q ((str_eq_iff d id).0 same) (r, found, seen)
          | inr other ↦
              let (_, _, _, _, _, _, others, _, _) = accepted_effect hub o now_ms q in
              (r, others d (λ p. cc ((str_eq_iff d id).1 p)) ∙ found, seen)
        ]
      ]

  -- An epoch that a device was seen under stays seen, whatever is observed.
  observe_all-SeenIn :
      (d e : String) (hub : FleetHub V S) (os : List (DeviceObservation V S × ℤ))
      → SeenIn d e hub
      → SeenIn d e (observe_all hub os)
  unfolding observe_all
  observe_all-SeenIn d e hub [] h = h
  observe_all-SeenIn d e hub ((o, now_ms) ∷ rest) h =
      observe_all-SeenIn d e (accept_observation hub o now_ms).0 rest
        (accept-SeenIn d e hub o now_ms h)

  -- A device that is accepted under another epoch has left the one that it was seen under.
  accepted-SupersededIn :
      (e : String) (hub : FleetHub V S) (o : DeviceObservation V S) (now_ms : ℤ) {r s : ℕ}
      {d : String}
      → (accept_observation hub o now_ms).1 ≡ accepted r d s
      → o.source_epoch ≢ e
      → SeenIn d e hub
      → SupersededIn d e (accept_observation hub o now_ms).0
  accepted-SupersededIn e hub o now_ms {r} {s} {d} q other (existing, found, seen) =
      let (_, _, _, _, _, stored, _, _, _) = accepted_effect hub o now_ms q in
      (
        accepted_record hub.policy (some existing) o now_ms r,
        rw found at stored,
        record {
          seen = epochs_grow hub.policy e existing o now_ms r seen;
          left = unfold accepted_record in other;
        },
      )

  -- Let an observation of a device be accepted under a source epoch, and, after any observations of
  -- any devices, an observation of it under another epoch. Then, whatever observations of whatever
  -- devices follow, no observation under the first epoch is ever accepted from that device again.
  pub superseded_epoch_never_accepted :
      (hub : FleetHub V S) (first second late : DeviceObservation V S)
      (first_ms second_ms late_ms : ℤ) (between after : List (DeviceObservation V S × ℤ))
      {d : String} {r s n m : ℕ}
      → (accept_observation hub first first_ms).1 ≡ accepted r d s
      → let seen = observe_all (accept_observation hub first first_ms).0 between in
        (accept_observation seen second second_ms).1 ≡ accepted n d m
        → second.source_epoch ≢ first.source_epoch
        → late.source_epoch ≡ first.source_epoch
        → (i j : ℕ)
        → let left = (accept_observation seen second second_ms).0 in
          (accept_observation (observe_all left after) late late_ms).1 ≢ accepted i d j
  superseded_epoch_never_accepted hub first second late first_ms second_ms late_ms between after {d}
        begun moved other same i j q =
      let e = first.source_epoch in
      let seen = observe_all (accept_observation hub first first_ms).0 between in
      let left = (accept_observation seen second second_ms).0 in
      let h = observe_all-SeenIn d e _ between (accepted-SeenIn hub first first_ms begun) in
      let gone = accepted-SupersededIn e seen second second_ms moved other h in
      let (existing, found, sup) = observe_all-Superseded d e left after gone in
      left_epoch_not_free (observe_all left after).policy e existing late sup
        (accepted_not_rejected (observe_all left after) late late_ms q found) same
