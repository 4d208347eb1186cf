-- ===== src/Hub/Newest.antt =====
-- Which condition of a family a row shows: crates/fleet-hub/src/lib.rs, `newest_conditions`.
use rusty_fleet.Prelude.{
  ◌<◌, ◌≡◌, refl, ◌∙◌, ◌⊎◌, inl, inr, true, false, Option, none, some, List, [], ◌∷◌, arith, ltb,
  ltb→lt, Bool-cases, ℤ, ◌≤ℤ◌, All,
}
use rusty_fleet.BTreeMap
use rusty_fleet.BTreeMap.{BTreeMap}
use rusty_fleet.BTreeMap.Laws.{All-insert_entry, get-insert_self, get-insert_ne}
use rusty_fleet.Contracts.Condition.{StatusCondition, ConditionFamily, family_ord}
use rusty_fleet.Hub.Shown.{IsShownAs, shown_as, shown_family, shown_revision, shown_time}
use rusty_fleet.Hub.Rows.{
  projected, is_newer, should_replace, add_newest, newest_from, newest_conditions,
}

family_discrete : Discrete ConditionFamily
family_discrete = hlevel

module _ {V : Type 0} where
  -- A map has, of the condition's family, this one or one that is not older.
  abbrev Covers : BTreeMap ConditionFamily (StatusCondition V) → StatusCondition V → Type 0
  Covers m c = (d : StatusCondition V) × (BTreeMap.get c.family m ≡ some d) × (is_newer c d ≡ false)

  not_newer_self : (c : StatusCondition V) → is_newer c c ≡ false
  not_newer_self c = ground arith

  not_newer_trans :
      (a b c : StatusCondition V)
      → is_newer a b ≡ false
      → is_newer c b ≡ true
      → is_newer a c ≡ false
  not_newer_trans a b c h k = ground arith

  -- The round for a condition.
  replaced :
      (c : StatusCondition V) (m : BTreeMap ConditionFamily (StatusCondition V))
      → should_replace c (BTreeMap.get c.family m) ≡ true
      → add_newest c m ≡ BTreeMap.insert c.family c m
  unfolding add_newest
  replaced c m h = rw h refl

  unchanged :
      (c : StatusCondition V) (m : BTreeMap ConditionFamily (StatusCondition V))
      → should_replace c (BTreeMap.get c.family m) ≡ false
      → add_newest c m ≡ m
  unfolding add_newest
  unchanged c m h = rw h refl

  kept_found :
      (c : StatusCondition V) (prior : Option (StatusCondition V))
      → should_replace c prior ≡ false
      → (d : StatusCondition V) × (prior ≡ some d) × (is_newer c d ≡ false)
  unfolding should_replace
  kept_found c none h = cc
  kept_found c (some d) h = (d, refl, h)

  add_newest-Covers_self :
      (c : StatusCondition V) (m : BTreeMap ConditionFamily (StatusCondition V))
      → Covers (add_newest c m) c
  add_newest-Covers_self c m = elim (Bool-cases (should_replace c (BTreeMap.get c.family m))) [
    | inl newer ↦ rw (replaced c m newer) (c, get-insert_self c.family c m, not_newer_self c)
    | inr older ↦ rw (unchanged c m older) (kept_found c (BTreeMap.get c.family m) older)
  ]

  newer_than_found :
      (c d : StatusCondition V) (prior : Option (StatusCondition V))
      → should_replace c prior ≡ true
      → prior ≡ some d
      → is_newer c d ≡ true
  unfolding should_replace
  newer_than_found c d none h e = cc
  newer_than_found c d (some b) h e = ground arith

  add_newest-Covers :
      (a c : StatusCondition V) (m : BTreeMap ConditionFamily (StatusCondition V))
      → Covers m a
      → Covers (add_newest c m) a
  add_newest-Covers a c m (d, found, above) =
      elim (Bool-cases (should_replace c (BTreeMap.get c.family m))) [
        | inr older ↦ rw (unchanged c m older) (d, found, above)
        | inl newer ↦ elim (family_discrete a.family c.family) [
          | yes same ↦
              let at : BTreeMap.get c.family m ≡ some d = rw same at found in
              rw (replaced c m newer, same)
                (
                  c,
                  get-insert_self c.family c m,
                  not_newer_trans a d c above
                      (newer_than_found c d (BTreeMap.get c.family m) newer at),
                )
          | no other ↦
              rw (replaced c m newer) (d, get-insert_ne c.family a.family c m other ∙ found, above)
        ]
      ]

  newest_from-Covers :
      (a : StatusCondition V) (now_ms : ℤ) (cs : List (StatusCondition V))
      (m : BTreeMap ConditionFamily (StatusCondition V))
      → Covers m a
      → Covers (newest_from now_ms cs m) a
  unfolding newest_from
  newest_from-Covers a now_ms [] m h = h
  newest_from-Covers a now_ms (c ∷ cs) m h =
      newest_from-Covers a now_ms cs (add_newest (projected now_ms c) m)
        (add_newest-Covers a (projected now_ms c) m h)

  each_covered :
      (now_ms : ℤ) (cs : List (StatusCondition V))
      (m : BTreeMap ConditionFamily (StatusCondition V))
      → All (λ c. Covers (newest_from now_ms cs m) (projected now_ms c)) cs
  unfolding newest_from
  each_covered now_ms [] m = tt
  each_covered now_ms (c ∷ cs) m =
      let shown = projected now_ms c in
      (
        newest_from-Covers shown now_ms cs (add_newest shown m) (add_newest-Covers_self shown m),
        each_covered now_ms cs (add_newest shown m),
      )

  -- One condition is at least as new as another: it has a later accepted revision, or the same one
  -- and was not received earlier.
  abbrev pub IsAtLeastAsNew : StatusCondition V → StatusCondition V → Type 0
  IsAtLeastAsNew d c =
      (c.accepted_revision < d.accepted_revision)
      ⊎ ((c.accepted_revision ≡ d.accepted_revision) × (c.received_time_ms ≤ℤ d.received_time_ms))

  not_newer-IsAtLeastAsNew : (c d : StatusCondition V) → is_newer c d ≡ false → IsAtLeastAsNew d c
  not_newer-IsAtLeastAsNew c d h = elim (Bool-cases (ltb c.accepted_revision d.accepted_revision)) [
    | inl later ↦ inl (ltb→lt _ _ later)
    | inr level ↦ inr (ground arith, ground arith)
  ]

  -- The condition is one of these, as it is shown at the time.
  abbrev pub ShownFrom : ℤ → List (StatusCondition V) → StatusCondition V → Type 0
  ShownFrom now_ms [] d = ⊥
  ShownFrom now_ms (c ∷ cs) d = IsShownAs now_ms c d ⊎ ShownFrom now_ms cs d

  -- What a map may hold: each condition under its own family, and shown from the list.
  abbrev pub IsFrom : ℤ → List (StatusCondition V) → ConditionFamily × StatusCondition V → Type 0
  IsFrom now_ms all_conditions e = (e.1.family ≡ e.0) × ShownFrom now_ms all_conditions e.1

  later_shown :
      (now_ms : ℤ) (c : StatusCondition V) (cs rest : List (StatusCondition V))
      → All (λ x. ShownFrom now_ms cs (projected now_ms x)) rest
      → All (λ x. ShownFrom now_ms (c ∷ cs) (projected now_ms x)) rest
  later_shown now_ms c cs [] h = tt
  later_shown now_ms c cs (x ∷ rest) h = (inr h.0, later_shown now_ms c cs rest h.1)

  each_shown :
      (now_ms : ℤ) (cs : List (StatusCondition V))
      → All (λ x. ShownFrom now_ms cs (projected now_ms x)) cs
  each_shown now_ms [] = tt
  each_shown now_ms (c ∷ cs) =
      (inl (shown_as now_ms c), later_shown now_ms c cs cs (each_shown now_ms cs))

  add_newest-IsFrom :
      (now_ms : ℤ) (whole : List (StatusCondition V)) (c : StatusCondition V)
      (m : BTreeMap ConditionFamily (StatusCondition V))
      → ShownFrom now_ms whole c
      → All (IsFrom now_ms whole) m
      → All (IsFrom now_ms whole) (add_newest c m)
  add_newest-IsFrom now_ms whole c m shown h =
      elim (Bool-cases (should_replace c (BTreeMap.get c.family m))) [
        | inl newer ↦
            rw (replaced c m newer)
              (All-insert_entry (IsFrom now_ms whole) c.family c m (refl, shown) h)
        | inr older ↦ rw (unchanged c m older) h
      ]

  newest_from-IsFrom :
      (now_ms : ℤ) (whole cs : List (StatusCondition V))
      (m : BTreeMap ConditionFamily (StatusCondition V))
      → All (λ x. ShownFrom now_ms whole (projected now_ms x)) cs
      → All (IsFrom now_ms whole) m
      → All (IsFrom now_ms whole) (newest_from now_ms cs m)
  unfolding newest_from
  newest_from-IsFrom now_ms whole [] m shown h = h
  newest_from-IsFrom now_ms whole (c ∷ cs) m shown h =
      newest_from-IsFrom now_ms whole cs (add_newest (projected now_ms c) m) shown.1
        (add_newest-IsFrom now_ms whole (projected now_ms c) m shown.0 h)

  -- What the row shows of the condition's family is this condition or one that is as new.
  abbrev pub IsShownOrNewer :
      BTreeMap ConditionFamily (StatusCondition V) → StatusCondition V → Type 0
  IsShownOrNewer m c =
      (d : StatusCondition V) × (BTreeMap.get c.family m ≡ some d) × IsAtLeastAsNew d c

  Covers-IsShownOrNewer :
      (now_ms : ℤ) (m : BTreeMap ConditionFamily (StatusCondition V)) (c : StatusCondition V)
      → Covers m (projected now_ms c)
      → IsShownOrNewer m c
  Covers-IsShownOrNewer now_ms m c (d, found, above) = (
    d,
    rw (shown_family now_ms c) at found,
    rw (shown_revision now_ms c, shown_time now_ms c) at
        (not_newer-IsAtLeastAsNew (projected now_ms c) d above),
  )

  All-IsShownOrNewer :
      (now_ms : ℤ) (m : BTreeMap ConditionFamily (StatusCondition V))
      (cs : List (StatusCondition V))
      → All (λ c. Covers m (projected now_ms c)) cs
      → All (IsShownOrNewer m) cs
  All-IsShownOrNewer now_ms m [] h = tt
  All-IsShownOrNewer now_ms m (c ∷ cs) h =
      (Covers-IsShownOrNewer now_ms m c h.0, All-IsShownOrNewer now_ms m cs h.1)

  -- A row shows, under its own family, only conditions of the observation: with the state `stale` if
  -- the deadline has passed and the state is not failed, critical or restricted, and as they are
  -- if the deadline has not passed or the state is one of these. And of each condition's family it
  -- shows one with a later accepted revision, or with the same one and not received earlier.
  pub newest_conditions-IsFrom :
      (cs : List (StatusCondition V)) (now_ms : ℤ)
      → All (IsFrom now_ms cs) (newest_conditions cs now_ms)
        × All (IsShownOrNewer (newest_conditions cs now_ms)) cs
  unfolding newest_conditions
  newest_conditions-IsFrom cs now_ms = (
    newest_from-IsFrom now_ms cs cs [] (each_shown now_ms cs) tt,
    All-IsShownOrNewer now_ms _ cs (each_covered now_ms cs []),
  )
