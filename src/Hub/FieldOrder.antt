-- ===== src/Hub/FieldOrder.antt =====
-- The order of rows by one field or sort key, stated by itself: crates/fleet-hub/src/lib.rs,
-- `compare_rows`.
use Prim.Native.String.{String, compare as compare_text}
use Prim.Native.Nat.{compare as compare_nat}
use rusty_fleet.Prelude.{ℕ, ◌<◌, Ordering, ◌≡◌, refl, ◌↔◌, Option, none, some, arith}
use rusty_fleet.Order.{text_ord, compare_option}
use rusty_fleet.BTreeMap
use rusty_fleet.Contracts.Query.{QueryField, SortKey, SortDirection}
use rusty_fleet.Contracts.Projection.{DeviceRowProjection, ProjectionFreshness}
use rusty_fleet.Hub.Query.{freshness_rank}
use rusty_fleet.Hub.List.{compare_field, directed}
use rusty_fleet.Hub.Sorting.{compare_field-IsComparison}

-- A text comes before another in the order of texts, by code points.
abbrev pub TextBefore : String → String → Type 0
TextBefore s t = compare_text s t ≡ Ordering.lt

-- A missing value comes before every value.
abbrev pub MissingFirst {ℓ} : {A : Type ℓ} → (A → A → Type 0) → Option A → Option A → Type 0
MissingFirst before a none = ⊥
MissingFirst before none (some b) = Unit
MissingFirst before (some a) (some b) = before a b

abbrev pub staleness : ProjectionFreshness → ℕ
staleness ProjectionFreshness.fresh = 0
staleness ProjectionFreshness.stale = 1
staleness ProjectionFreshness.offline = 2
staleness ProjectionFreshness.unknown = 3

-- A relation and the answer `Less` of a comparison.
abbrev pub Decides {ℓ} : {A : Type ℓ} → (A → A → Ordering) → (A → A → Type 0) → Type ℓ
Decides {A} cmp before = (a b : A) → (cmp a b ≡ Ordering.lt) ↔ before a b

option_decides {ℓ} :
    {A : Type ℓ} (cmp : A → A → Ordering) (before : A → A → Type 0)
    → Decides cmp before
    → Decides (compare_option cmp) (MissingFirst before)
option_decides cmp before d none none = ((λ h. ground arith), λ h. absurd h)
option_decides cmp before d (some a) none = ((λ h. ground arith), λ h. absurd h)
option_decides cmp before d none (some b) = ((λ _. tt), λ _. refl)
option_decides cmp before d (some a) (some b) = d a b

nat_decides : Decides compare_nat (λ a b. a < b)
nat_decides a b = ((λ h. ground arith), λ h. ground arith)

freshness_decides :
    Decides
      (λ a b. compare_nat (freshness_rank a) (freshness_rank b))
      (λ a b. staleness a < staleness b)
unfolding freshness_rank
freshness_decides a b = ((λ h. ground arith), λ h. ground arith)

pub text_decides : Decides compare_text TextBefore
text_decides s t = ((λ h. h), λ h. h)

module _ {V : Type 0} where
  -- A row comes before another by a field. The fields of which a row has no single value do not
  -- order it.
  abbrev pub FieldBefore :
      QueryField → Option String → DeviceRowProjection V → DeviceRowProjection V → Type 0
  FieldBefore QueryField.device_id q a b = TextBefore a.identity.device_id b.identity.device_id
  FieldBefore QueryField.display_name q a b =
      TextBefore a.identity.display_name b.identity.display_name
  FieldBefore QueryField.model q a b = TextBefore a.identity.model b.identity.model
  FieldBefore QueryField.freshness q a b = staleness a.freshness < staleness b.freshness
  FieldBefore QueryField.battery_percent q a b =
      MissingFirst (λ m n. m < n) a.battery_percent b.battery_percent
  FieldBefore QueryField.foreground_app q a b =
      MissingFirst TextBefore a.foreground_app b.foreground_app
  FieldBefore QueryField.kiosk_state q a b = TextBefore a.kiosk_state b.kiosk_state
  FieldBefore QueryField.tag none a b = ⊥
  FieldBefore QueryField.tag (some key) a b =
      MissingFirst TextBefore (BTreeMap.get key a.identity.tags) (BTreeMap.get key b.identity.tags)
  FieldBefore _ q a b = ⊥

  abbrev pub KeyBefore : SortKey → DeviceRowProjection V → DeviceRowProjection V → Type 0
  KeyBefore key a b = elim key.direction [
    | SortDirection.ascending ↦ FieldBefore key.field key.qualifier a b
    | SortDirection.descending ↦ FieldBefore key.field key.qualifier b a
  ]

  field_decides :
      (field : QueryField) (q : Option String)
      → Decides (compare_field {V = V} field q) (FieldBefore field q)
  unfolding compare_field
  field_decides QueryField.device_id q a b = text_decides _ _
  field_decides QueryField.display_name q a b = text_decides _ _
  field_decides QueryField.model q a b = text_decides _ _
  field_decides QueryField.freshness q a b = freshness_decides a.freshness b.freshness
  field_decides QueryField.battery_percent q a b =
      option_decides compare_nat _ nat_decides a.battery_percent b.battery_percent
  field_decides QueryField.foreground_app q a b =
      option_decides compare_text _ text_decides a.foreground_app b.foreground_app
  field_decides QueryField.kiosk_state q a b = text_decides _ _
  field_decides QueryField.tag none a b = ((λ h. ground arith), λ h. absurd h)
  field_decides QueryField.tag (some key) a b = option_decides compare_text _ text_decides _ _
  field_decides QueryField.capability q a b = ((λ h. ground arith), λ h. absurd h)
  field_decides QueryField.condition_family q a b = ((λ h. ground arith), λ h. absurd h)
  field_decides QueryField.condition_state q a b = ((λ h. ground arith), λ h. absurd h)

  directed_decides :
      (direction : SortDirection) (field : QueryField) (q : Option String)
      → Decides
          (λ a b. directed direction (compare_field {V = V} field q a b))
          (KeyBefore (record { field = field; qualifier = q; direction = direction }))
  directed_decides SortDirection.ascending field q a b = field_decides field q a b
  directed_decides SortDirection.descending field q a b =
      let flip = (compare_field-IsComparison field q).flip a b in
      let d = field_decides field q b a in ((λ h. d.0 (ground arith)), λ h. ground (arith, d.1 h))

  pub key_decides :
      (key : SortKey)
      → Decides
          (λ a b. directed key.direction (compare_field {V = V} key.field key.qualifier a b))
          (KeyBefore key)
  key_decides key = directed_decides key.direction key.field key.qualifier
