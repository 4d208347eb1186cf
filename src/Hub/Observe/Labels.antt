-- ===== src/Hub/Observe/Labels.antt =====
-- The labels of two identities, and the source epochs of a device, as propositions: what the tests of
-- `accept_observation` in crates/fleet-hub/src/lib.rs come to.
use Prim.Native.String.{String}
use rusty_fleet.Prelude.{
  ◌≡◌, refl, ◌≢◌, inl, inr, false, List, [], ◌∷◌, arith, Bool-cases, All, str_eq, str_eq_iff, true,
  ◌⊎◌,
}
use rusty_fleet.Contracts.Identity.{DeviceIdentity}
use rusty_fleet.Hub.Observe.{contains, labels_differ}

-- The labels that an identity may change only with its revision.
abbrev pub SameLabels : {V : Type 0} → DeviceIdentity V → DeviceIdentity V → Type 0
SameLabels a b =
    (a.display_name ≡ b.display_name) × (a.model ≡ b.model) × (a.hardware_class ≡ b.hardware_class)

pub same_labels : {V : Type 0} (a b : DeviceIdentity V) → labels_differ a b ≡ false → SameLabels a b
same_labels a b h = (
  (str_eq_iff a.display_name b.display_name).0 (ground arith),
  (str_eq_iff a.model b.model).0 (ground arith),
  (str_eq_iff a.hardware_class b.hardware_class).0 (ground arith),
)

pub labels_agree :
    {V : Type 0} (a b : DeviceIdentity V) → SameLabels a b → labels_differ a b ≡ false
labels_agree a b (name, model, class) = ground (
  arith,
  (str_eq_iff a.display_name b.display_name).1 name,
  (str_eq_iff a.model b.model).1 model,
  (str_eq_iff a.hardware_class b.hardware_class).1 class,
)

pub differ_ne : (a b : String) → str_eq a b ≡ false → a ≢ b
differ_ne a b h e = cc (h, (str_eq_iff a b).1 e)

pub ne_differ : (a b : String) → a ≢ b → str_eq a b ≡ false
ne_differ a b n = elim (Bool-cases (str_eq a b)) [
  | inl t ↦ absurd (n ((str_eq_iff a b).0 t))
  | inr f ↦ f
]

pub not_among : (e : String) (xs : List String) → contains e xs ≡ false → All (λ x. e ≢ x) xs
not_among e [] h = tt
not_among e (x ∷ xs) h = (differ_ne e x (ground arith), not_among e xs (ground arith))

pub none_among : (e : String) (xs : List String) → All (λ x. e ≢ x) xs → contains e xs ≡ false
none_among e [] h = refl
none_among e (x ∷ xs) h = rw (ne_differ e x h.0) (none_among e xs h.1)

-- The epoch is one of these.
abbrev pub Among : String → List String → Type 0
Among e [] = ⊥
Among e (x ∷ xs) = (e ≡ x) ⊎ Among e xs

pub is-Among : (e : String) (xs : List String) → contains e xs ≡ true → Among e xs
is-Among e [] h = ground arith
is-Among e (x ∷ xs) h = elim (Bool-cases (str_eq e x)) [
  | inl same ↦ inl ((str_eq_iff e x).0 same)
  | inr other ↦ inr (is-Among e xs (ground arith))
]
