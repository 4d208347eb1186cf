-- ===== src/Contracts/Violation.antt =====
-- crates/fleet-contracts/src/lib.rs: the violation record, the `ValidateContract` trait and its helpers.
use Prim.Native.String.{String, ◌++◌ as concat}
use rusty_fleet.Prelude.{
  ℕ, Bool, true, false, List, [], ◌∷◌, ◌++◌, ◌≡◌, refl, Option, Result, ok, err, is_blank, decimal,
  All, suc, is_err,
}

pub record ContractViolation : Type 0 where
  pub code : String
  pub path : String
  pub message : String

abbrev pub Validation : Type 0
Validation = Result (Unit {0}) (List ContractViolation)

-- The trait `ValidateContract`.
pub record ValidateContract (A : Type 0) : Type 0 where
  pub validate : A → Validation

-- What the program asks of the JSON encoder: how many bytes `serde_json::to_vec` writes, if it succeeds.
pub record Serialize (A : Type 0) : Type 0 where
  pub serialized_len : A → Option ℕ

-- `if test { failures.push(ContractViolation::new(code, path, message)) }`.
abbrev pub violation_if : Bool → String → String → String → List ContractViolation
violation_if true code path message = record { code = code; path = path; message = message } ∷ []
violation_if false code path message = []

unfoldable pub require_nonempty : String → String → List ContractViolation
require_nonempty value path =
    violation_if (is_blank value) "required_text" path "value must not be empty"

-- The failures of several checks, in their order.
abbrev pub groups : List (List ContractViolation) → List ContractViolation
groups [] = []
groups (g ∷ gs) = g ++ groups gs

unfoldable pub finish : List ContractViolation → Validation
finish [] = ok tt
finish (failure ∷ failures) = err (failure ∷ failures)

-- `if let Err(nested) = v { failures.append(nested) }`.
abbrev pub failures_of : Validation → List ContractViolation
failures_of (ok _) = []
failures_of (err failures) = failures

-- The nested failures with a prefix put in front of each path.
unfoldable pub prefixed : String → List ContractViolation → List ContractViolation
prefixed before [] = []
prefixed before (failure ∷ failures) =
    record failure { path = concat before failure.path } ∷ prefixed before failures

-- `for (index, item) in items.iter().enumerate()`: the failures of each item under `name[index].`.
unfoldable pub each_indexed {ℓ} :
    {A : Type ℓ} → String → (A → Validation) → ℕ → List A → List ContractViolation
unfolding prefixed
each_indexed name validate index [] = []
each_indexed name validate index (item ∷ items) =
    prefixed (concat name (concat "[" (concat (decimal index) "]."))) (failures_of (validate item))
    ++ each_indexed name validate (suc index) items

-- A collection of failures is empty exactly when the validation succeeds.
pub finish_iff : (failures : List ContractViolation) → finish failures ≡ ok tt → failures ≡ []
unfolding finish
finish_iff [] h = refl
finish_iff (f ∷ fs) h = cc

pub append_nil_inv {ℓ} : {A : Type ℓ} (xs ys : List A) → xs ++ ys ≡ [] → (xs ≡ []) × (ys ≡ [])
append_nil_inv [] ys h = (refl, h)
append_nil_inv (x ∷ xs) ys h = cc

pub prefixed_nil :
    (before : String) (failures : List ContractViolation)
    → prefixed before failures ≡ []
    → failures ≡ []
unfolding prefixed
prefixed_nil before [] h = refl
prefixed_nil before (f ∷ fs) h = cc

-- No failures at all: none in any group.
pub groups_nil : (gs : List (List ContractViolation)) → groups gs ≡ [] → All (λ g. g ≡ []) gs
groups_nil [] h = tt
groups_nil (g ∷ gs) h =
    let (here, rest) = append_nil_inv g (groups gs) h in (here, groups_nil gs rest)

pub violation_if_nil :
    (b : Bool) (code path message : String) → violation_if b code path message ≡ [] → b ≡ false
violation_if_nil false code path message h = refl
violation_if_nil true code path message h = cc

pub finish-is_err :
    (failures : List ContractViolation) → is_err (finish failures) ≡ false → failures ≡ []
unfolding finish
finish-is_err [] h = refl
finish-is_err (f ∷ fs) h = cc

pub failures_of-finish :
    (failures : List ContractViolation) → failures_of (finish failures) ≡ failures
unfolding finish
failures_of-finish [] = refl
failures_of-finish (f ∷ fs) = refl

pub failures-is_err :
    (failures : List ContractViolation) → failures ≡ [] → is_err (finish failures) ≡ false
unfolding finish
failures-is_err [] h = refl
failures-is_err (f ∷ fs) h = cc
