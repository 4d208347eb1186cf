-- ===== src/Contracts/ViewId.antt =====
-- crates/fleet-contracts/src/projection.rs: the grammar of saved-view identifiers.
use Prim.Native.String.{String, len}
use Prim.Native.Char.{Char, code}
use rusty_fleet.Prelude.{
  ℕ, ◌≡◌, refl, Bool, true, false, ◌&&◌, ◌||◌, List, [], ◌∷◌, arith, leb, ◌==◌, if◌then◌else◌,
  is_some_and, all, last, is_blank, is_empty, not,
}

abbrev pub is_ascii_lowercase : ℕ → Bool
is_ascii_lowercase c = leb b'a' c && leb c b'z'

abbrev pub is_ascii_digit : ℕ → Bool
is_ascii_digit c = leb b'0' c && leb c b'9'

is_saved_view_id_edge : ℕ → Bool
is_saved_view_id_edge c = is_ascii_lowercase c || is_ascii_digit c

is_saved_view_id_body : ℕ → Bool
is_saved_view_id_body c = is_saved_view_id_edge c || (c == b'_' || c == b'-')

-- The code points of a text, and `split('.')` over them.
abbrev pub codes : String → List ℕ
codes String.[] = []
codes (String.◌∷◌ c s) = code c ∷ codes s

abbrev onto_first : ℕ → List (List ℕ) → List (List ℕ)
onto_first c [] = (c ∷ []) ∷ []
onto_first c (segment ∷ segments) = (c ∷ segment) ∷ segments

split_dots : List ℕ → List (List ℕ)
split_dots [] = [] ∷ []
split_dots (c ∷ cs) = let rest = split_dots cs in if c == b'.' then [] ∷ rest else onto_first c rest

is_segment : List ℕ → Bool
unfolding is_saved_view_id_edge is_saved_view_id_body
is_segment [] = false
is_segment (c ∷ cs) =
    is_saved_view_id_edge c
    && (is_some_and (last (c ∷ cs)) is_saved_view_id_edge && all is_saved_view_id_body (c ∷ cs))

unfoldable pub is_valid_saved_view_id : String → Bool
unfolding split_dots is_segment
is_valid_saved_view_id value =
    not (is_empty value) && (leb (len value) 128 && all is_segment (split_dots (codes value)))

-- What `edge` says of a code point, in arithmetic.
edge_not_whitespace :
    (c : ℕ) (s : String) (h : Char)
    → code h ≡ c
    → is_saved_view_id_edge c ≡ true
    → is_blank (String.◌∷◌ h s) ≡ false
unfolding is_saved_view_id_edge is_blank
edge_not_whitespace c s h e edge = ground arith

first_edge :
    (c : ℕ) (segments : List (List ℕ))
    → all is_segment (onto_first c segments) ≡ true
    → is_saved_view_id_edge c ≡ true
unfolding is_segment
first_edge c [] h = ground arith
first_edge c (segment ∷ segments) h = ground arith

-- An identifier that satisfies the grammar is not blank.
pub valid_id_not_blank : (id : String) → is_valid_saved_view_id id ≡ true → is_blank id ≡ false
unfolding is_valid_saved_view_id is_segment
valid_id_not_blank String.[] h = cc
valid_id_not_blank (String.◌∷◌ c s) h =
    ground
      (arith, first_edge (code c) (split_dots (codes s)), edge_not_whitespace (code c) s c refl)
