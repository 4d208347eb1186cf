-- ===== src/Contracts/OperationLedgerFacts.antt =====
-- crates/fleet-contracts/src/command.rs: a valid ledger has one result for each frozen target.
use Prim.Native.String.{String}
use rusty_fleet.Prelude.{
  ℕ, suc, ◌+◌, ◌≤◌, ◌≡◌, sym, ap, ◌∙◌, ◌≢◌, inl, inr, Bool, false, Option, none, some, List, [],
  ◌∷◌, arith, ◌==◌, is_some, is_none_or, Bool-cases, Option-cases, length, find, All, ok, str_eq,
  str_eq_iff, not,
}
use mathlib.Core.Path.{subst}
use rusty_fleet.BTreeMap
use rusty_fleet.BTreeMap.{BTreeMap, contains_key, remove, get}
use rusty_fleet.BTreeMap.Laws.{get-insert_self, get-insert_ne, get-remove_ne}
use rusty_fleet.Order.{text_ord}
use rusty_fleet.Contracts.Violation.{
  violation_if, require_nonempty, finish_iff, groups, groups_nil, append_nil_inv, violation_if_nil,
}
use rusty_fleet.Contracts.OperationLedger.{
  OperationTargetResult, OperationLedger, is_unbound, result_path, result_failures,
  operation_ledger_groups, validate_operation_ledger,
}

length-remove_found :
    (k : String) (m : BTreeMap String ℕ) {n : ℕ}
    → get k m ≡ some n
    → length (remove k m) + 1 ≡ length m
unfolding remove get
length-remove_found k [] h = cc
length-remove_found k ((j, w) ∷ m) {n} h = ground (arith, length-remove_found k m {n = n})

bound_value : (o : Option ℕ) (n : ℕ) → is_none_or o (λ r. not (r == n)) ≡ false → o ≡ some n
bound_value none n h = cc
bound_value (some r) n h = ap some (ground arith)

module _ {V : Type 0} where
  abbrev BoundIn : BTreeMap String ℕ → List (OperationTargetResult V) → Type 0
  BoundIn m ts = All (λ t. BTreeMap.get t.device_id m ≡ some t.identity_revision) ts

  -- No two results are of one device.
  abbrev AreDistinct : List (OperationTargetResult V) → Type 0
  AreDistinct [] = Unit
  AreDistinct (t ∷ ts) = All (λ u. u.device_id ≢ t.device_id) ts × AreDistinct ts

  unseen_after :
      (id : String) (index : ℕ) (seen : BTreeMap String ℕ) (ts : List (OperationTargetResult V))
      → All (λ u. contains_key u.device_id (BTreeMap.insert id index seen) ≡ false) ts
      → All (λ u. u.device_id ≢ id) ts × All (λ u. contains_key u.device_id seen ≡ false) ts
  unseen_after id index seen [] h = (tt, tt)
  unseen_after id index seen (u ∷ ts) h =
      let (others, before) = unseen_after id index seen ts h.1 in
      let ne : u.device_id ≢ id = λ e. ground (arith, e, get-insert_self id index seen, h.0) in
      ((ne, others), (ap is_some (sym (get-insert_ne id u.device_id index seen ne)) ∙ h.0, before))

  results_checked :
      (frozen seen : BTreeMap String ℕ) (index : ℕ) (ts : List (OperationTargetResult V))
      → result_failures frozen seen index ts ≡ []
      → BoundIn frozen ts × All (λ t. contains_key t.device_id seen ≡ false) ts × AreDistinct ts
  unfolding result_failures
  results_checked frozen seen index [] h = (tt, tt, tt)
  results_checked frozen seen index (t ∷ ts) h =
      let path = result_path index in
      let (_, h1) = append_nil_inv (require_nonempty t.device_id (path ".device_id")) _ h in
      let (_, h2) = append_nil_inv (require_nonempty t.reason_code (path ".reason_code")) _ h1 in
      let (_, h3) = append_nil_inv (require_nonempty t.message (path ".message")) _ h2 in
      let (_, h4) =
        append_nil_inv
          (violation_if (t.identity_revision == 0) "invalid_identity_revision"
            (path ".identity_revision") "target identity revision must be greater than zero")
          _ h3 in
      let (new, h5) =
        append_nil_inv
          (violation_if (contains_key t.device_id seen) "duplicate_target" (path ".device_id")
            "operation target occurs more than once")
          _ h4 in
      let (bound, h6) =
        append_nil_inv
          (violation_if (is_unbound frozen t) "target_snapshot_binding_mismatch" (path "")
            "target identity must match the frozen target snapshot")
          _ h5 in
      let (rest_bound, unseen, distinct) =
        results_checked frozen (BTreeMap.insert t.device_id index seen) (suc index) ts h6 in
      let (others, before) = unseen_after t.device_id index seen ts unseen in
      (
        (
          bound_value _ t.identity_revision
              (violation_if_nil _ "target_snapshot_binding_mismatch" (path "") _ bound),
          rest_bound,
        ),
        (violation_if_nil _ "duplicate_target" (path ".device_id") _ new, before),
        (others, distinct),
      )

  bound_after :
      (m : BTreeMap String ℕ) (id : String) (ts : List (OperationTargetResult V))
      → All (λ u. u.device_id ≢ id) ts
      → BoundIn m ts
      → BoundIn (remove id m) ts
  bound_after m id [] d b = tt
  bound_after m id (t ∷ ts) d b =
      (get-remove_ne id t.device_id m d.0 ∙ b.0, bound_after m id ts d.1 b.1)

  -- Distinct results of a map are no more than its entries.
  bound_count :
      (ts : List (OperationTargetResult V)) (m : BTreeMap String ℕ)
      → AreDistinct ts
      → BoundIn m ts
      → length ts ≤ length m
  bound_count [] m d b = omega arith
  bound_count (t ∷ ts) m d b = omega (
    arith,
    bound_count ts (remove t.device_id m) d.1 (bound_after m t.device_id ts d.0 b.1),
    length-remove_found t.device_id m b.0,
  )

  abbrev is_of : String → OperationTargetResult V → Bool
  is_of id t = str_eq t.device_id id

  find_missing :
      (id : String) (ts : List (OperationTargetResult V))
      → find (is_of id) ts ≡ none
      → All (λ t. t.device_id ≢ id) ts
  find_missing id [] h = tt
  find_missing id (t ∷ ts) h =
      ((λ e. ground (arith, (str_eq_iff t.device_id id).1 e, h)), find_missing id ts (ground arith))

  find_bound :
      (id : String) (m : BTreeMap String ℕ) (ts : List (OperationTargetResult V))
      {t : OperationTargetResult V}
      → BoundIn m ts
      → find (is_of id) ts ≡ some t
      → BTreeMap.get id m ≡ some t.identity_revision
  find_bound id m [] b h = cc
  find_bound id m (x ∷ xs) {t} b h = elim (Bool-cases (is_of id x)) [
    | inl here ↦
        let same : x ≡ t = ground arith in
        let own = (str_eq_iff x.device_id id).0 here in
        subst (λ y. BTreeMap.get id m ≡ some y.identity_revision) same
          (sym (ap (λ i. BTreeMap.get i m) own) ∙ b.0)
    | inr other ↦
        let later : find (is_of id) xs ≡ some t = ground arith in find_bound id m xs b.1 later
  ]

  -- In a valid operation ledger, every device of the frozen target snapshot has a result, and the
  -- result that is found for it has the identity revision of the snapshot.
  pub validated_ledger_complete :
      (l : OperationLedger V) (id : String) {revision : ℕ}
      → validate_operation_ledger l ≡ ok tt
      → BTreeMap.get id l.target_snapshot.identity_revisions ≡ some revision
      → (t : OperationTargetResult V) × (find (λ r. str_eq r.device_id id) l.targets ≡ some t)
        × (t.identity_revision ≡ revision)
  unfolding validate_operation_ledger operation_ledger_groups
  validated_ledger_complete l id {revision} h k =
      let m = l.target_snapshot.identity_revisions in
      let gs = operation_ledger_groups l in
      let facts = groups_nil gs (finish_iff (groups gs) h) in
      let same = violation_if_nil _ _ _ _ facts.1.1.1.1.1.0 in
      let (bound, _, distinct) = results_checked m [] 0 l.targets facts.1.1.1.1.1.1.0 in
      elim (Option-cases (find (is_of id) l.targets)) [
        | inl missing ↦
            let fewer =
              bound_count l.targets (remove id m) distinct
                (bound_after m id l.targets (find_missing id l.targets missing) bound) in
            absurd (ground (arith, fewer, same, length-remove_found id m k))
        | inr (t, there) ↦
            let value = find_bound id m l.targets bound there in
            let equal : t.identity_revision ≡ revision = ground (arith, value, k) in
            (t, there, equal)
      ]
