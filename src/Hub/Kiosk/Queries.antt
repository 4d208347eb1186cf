-- ===== src/Hub/Kiosk/Queries.antt =====
-- crates/fleet-hub/src/kiosk.rs: the lists of operations, in the order of their creation.
use Prim.Native.String.{String, compare as compare_text, then as then_with}
use rusty_fleet.Prelude.{Ordering, List, compare_ℤ, any, filter, str_eq}
use rusty_fleet.Order.{text_ord}
use rusty_fleet.Contracts.Kiosk.{KioskShowControlsOperation}
use rusty_fleet.Hub.State.{FleetHub}
use rusty_fleet.BTreeMap.{values}
use rusty_fleet.Hub.List.{sort_by}

abbrev pub compare_operations : KioskShowControlsOperation → KioskShowControlsOperation → Ordering
compare_operations left right =
    then_with (compare_ℤ left.created_at_ms right.created_at_ms)
      (compare_text left.operation_id right.operation_id)

module _ {V S : Type 0} where
  unfoldable pub kiosk_operations : FleetHub V S → List KioskShowControlsOperation
  kiosk_operations hub = sort_by compare_operations (values hub.kiosk_operations)

  unfoldable pub kiosk_operations_for_device :
      FleetHub V S → String → List KioskShowControlsOperation
  kiosk_operations_for_device hub device_id = sort_by compare_operations (
      filter (λ operation. any (λ t. str_eq t.device_id device_id) operation.targets)
        (values hub.kiosk_operations))
