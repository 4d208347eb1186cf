-- ===== src/Hub/Events.antt =====
-- crates/fleet-hub/src/lib.rs: what holds of the event log. The events kept are numbered without a gap,
-- and the last one has the Hub's sequence number.
use rusty_fleet.Prelude.{
  ℕ, zero, suc, ◌+◌, ◌-◌, ◌≤◌, ◌<◌, min, ◌≡◌, refl, sym, ap, ◌∙◌, inl, inr, List, [], ◌∷◌, ◌++◌,
  arith, ltb, Bool-cases, ℤ, u64_max, saturating_add, saturating_add_below, length, take, drop,
  filter, length-append, length-take, length-drop, keep_last, length-keep_last,
}
use native.Mathlib.Nat.{add-zero, add-suc, suc-add}
use mathlib.Core.Path.{subst}
use rusty_fleet.Hub.State.{FleetHub, WatchEvent, ObservationDecision}
use rusty_fleet.Hub.Observe.{record_event, watch_event_schema}
use rusty_fleet.Hub.List.{watch}

-- The events have the numbers start, start + 1, ...
abbrev pub Numbered : ℕ → List WatchEvent → Type 0
Numbered start [] = Unit
Numbered start (e ∷ es) =
    (e.event_sequence ≡ start) × (e.schema ≡ watch_event_schema) × Numbered (suc start) es

Numbered-drop :
    (start k : ℕ) (es : List WatchEvent) → Numbered start es → Numbered (start + k) (drop k es)
Numbered-drop start zero es h = rw add-zero h
Numbered-drop start (suc k) [] h = tt
Numbered-drop start (suc k) (e ∷ es) h =
    rw (add-suc, ← suc-add) (Numbered-drop (suc start) k es h.2)

Numbered-append :
    (start : ℕ) (es : List WatchEvent) (e : WatchEvent)
    → Numbered start es
    → e.event_sequence ≡ start + length es
    → e.schema ≡ watch_event_schema
    → Numbered start (es ++ e ∷ [])
Numbered-append start [] e h n s = (n ∙ add-zero start, s, tt)
Numbered-append start (x ∷ es) e h n s =
    (h.0, h.1, Numbered-append (suc start) es e h.2 (omega arith) s)

Numbered-take :
    (start k : ℕ) (es : List WatchEvent) → Numbered start es → Numbered start (take k es)
Numbered-take start zero es h = tt
Numbered-take start (suc k) [] h = tt
Numbered-take start (suc k) (e ∷ es) h = (h.0, h.1, Numbered-take (suc start) k es h.2)

drop_nil {ℓ} : {A : Type ℓ} (k : ℕ) → drop {A = A} k [] ≡ []
drop_nil zero = refl
drop_nil (suc k) = refl

-- Among numbered events those after a number are the ones behind it.
filter-Numbered :
    (start after : ℕ) (es : List WatchEvent)
    → Numbered start es
    → filter (λ e. ltb after e.event_sequence) es ≡ drop (after + 1 - start) es
filter-Numbered start after [] h = sym (drop_nil (after + 1 - start))
filter-Numbered start after (e ∷ es) h = elim (Bool-cases (ltb after e.event_sequence)) [
  | inl later ↦
      let all_kept : after + 1 - suc start ≡ 0 = ground arith in
      let none_dropped : after + 1 - start ≡ 0 = ground arith in
      rw (later, none_dropped)
        (ap (◌∷◌ e) (filter-Numbered (suc start) after es h.2 ∙ ap (λ k. drop k es) all_kept))
  | inr early ↦
      let step : after + 1 - start ≡ suc (after + 1 - suc start) = ground arith in
      rw (early, step) (filter-Numbered (suc start) after es h.2)
]

Numbered-keep_last :
    (start limit : ℕ) (es : List WatchEvent)
    → Numbered start es
    → Numbered (start + (length es - limit)) (keep_last limit es)
unfolding keep_last
Numbered-keep_last start limit es h = elim (Bool-cases (ltb limit (length es))) [
  | inl over ↦ rw over (Numbered-drop start (length es - limit) es h)
  | inr fits ↦
      let none_dropped : length es - limit ≡ 0 = ground arith in
      rw (fits, none_dropped, add-zero start) h
]

module _ {V S : Type 0} where
  -- The log of a Hub: at most as many events as the policy keeps, numbered up to the Hub's own
  -- sequence number.
  pub record IsLogged (hub : FleetHub V S) : Type 0 where
    pub start : ℕ
    pub numbered : Numbered start hub.events
    pub reaches : start + length hub.events ≡ hub.event_sequence + 1
    pub bounded : length hub.events ≤ hub.policy.event_limit
    pub counted : hub.event_sequence ≤ u64_max

  pub record_event-IsLogged :
      (hub : FleetHub V S) (now_ms : ℤ) (decision : ObservationDecision)
      → IsLogged hub
      → hub.event_sequence < u64_max
      → IsLogged (record_event hub now_ms decision)
  unfolding record_event
  record_event-IsLogged hub now_ms decision log room =
      let limit = hub.policy.event_limit in
      let sequence = saturating_add hub.event_sequence 1 in
      let next : sequence ≡ hub.event_sequence + 1 =
        saturating_add_below hub.event_sequence 1 (omega arith) in
      let event : WatchEvent = record {
        schema = watch_event_schema;
        event_sequence = sequence;
        observed_at_ms = now_ms;
        decision = decision;
      } in
      let longer = hub.events ++ event ∷ [] in
      let size = length-append hub.events (event ∷ []) in
      record {
        start = log.start + (length longer - limit);
        numbered = Numbered-keep_last log.start limit longer (
            Numbered-append log.start hub.events event log.numbered (omega (arith, log.reaches))
              refl);
        reaches = omega (arith, length-keep_last limit longer, log.reaches);
        bounded = omega (arith, length-keep_last limit longer);
        counted = omega arith;
      }

  -- What `watch` returns continues where the caller stopped, without a gap, as long as the next
  -- event has not left the log.
  pub watch_consecutive :
      (hub : FleetHub V S) (log : IsLogged hub) (after_sequence limit : ℕ)
      → log.start ≤ after_sequence + 1
      → Numbered (after_sequence + 1) (watch hub after_sequence limit)
        × (length (watch hub after_sequence limit)
            ≡ min (min limit hub.policy.event_limit) (hub.event_sequence - after_sequence))
  unfolding watch
  watch_consecutive hub log after_sequence limit reached =
      let behind = after_sequence + 1 - log.start in
      let shift : log.start + behind ≡ after_sequence + 1 = omega arith in
      rw (filter-Numbered log.start after_sequence hub.events log.numbered) (
        Numbered-take (after_sequence + 1) _ _ (
            subst (λ n. Numbered n (drop behind hub.events)) shift
              (Numbered-drop log.start behind hub.events log.numbered)),
        omega (
          arith,
          length-take (min limit hub.policy.event_limit) (drop behind hub.events),
          length-drop behind hub.events,
          log.reaches,
        ),
      )
