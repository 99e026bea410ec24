-- ===== src/Matching/Filters.antt =====
-- The filters of internal/matching/matching.go on an element of its own. Texts are lists of code points.
-- Compiled regular expressions, and the floating-point test for a square, are parameters.
use flowbaton.Prelude.{
  ℕ, List, [], ◌∷◌, map, Bool, true, false, not, ◌&&◌, ◌||◌, Option, none, some, ltb, ◌==◌, length,
  if◌then◌else◌,
}
use flowbaton.Prelude.Int.{ℤ, pos, negsuc, ◌-ℤ◌, ltb_ℤ}
use flowbaton.Hierarchy.{Attributes, Element, Elements}
use flowbaton.Hierarchy.Rectangle.{Bounds, wrap}

abbrev pub Text : Type 0
Text = List ℕ

-- `device.TreeNode` without its children.
pub record Node : Type 0 where
  pub attributes : List (Text × Text)
  pub clickable : Option Bool
  pub enabled : Option Bool
  pub focused : Option Bool
  pub checked : Option Bool
  pub selected : Option Bool

abbrev pub Tree : Type 0
Tree = Element Node Bounds

abbrev pub Trees : Type 0
Trees = Elements Node Bounds

-- `exactPattern`: the raw text, and the compiled expression's `MatchString`.
pub record Pattern : Type 0 where
  pub raw : Text
  pub match_string : Text → Bool

pub record SizeSelector : Type 0 where
  pub width : Option ℤ
  pub height : Option ℤ
  pub tolerance : Option ℤ

pub data Trait : Type 0 where
  text_trait square_trait long_text_trait unknown_trait : Trait

-- The filters on an element of its own.
pub record Basic : Type 0 where
  pub text : Option Pattern
  pub id : Option Pattern
  pub size : Option SizeSelector
  pub traits : List Trait
  pub enabled : Option Bool
  pub selected : Option Bool
  pub checked : Option Bool
  pub focused : Option Bool

abbrev pub same_text : Text → Text → Bool
same_text [] [] = true
same_text (x ∷ xs) (y ∷ ys) = x == y && same_text xs ys
same_text _ _ = false

-- A read of a map.
unfoldable pub lookup : Text → List (Text × Text) → Option Text
lookup key [] = none
lookup key ((k, v) ∷ fields) =
    let rest = lookup key fields in if same_text key k then some v else rest

-- Spaces that a screen shows become plain ones.
abbrev shown_space : ℕ → ℕ
shown_space c = if c == 10 || (c == 0xa0 || (c == 0x202f || c == 0x2007)) then 0x20 else c

unfoldable pub matches : Pattern → Text → Bool
matches pattern value =
    let normalized = map shown_space value in
    (same_text value pattern.raw || pattern.match_string value)
    || (same_text normalized pattern.raw || pattern.match_string normalized)

-- Behind the last `/`, or all of the text.
abbrev behind_slash : Text → Text → Text
behind_slash tail [] = tail
behind_slash tail (c ∷ cs) = behind_slash (if c == b'/' then cs else tail) cs

abbrev pub text_key : Text
text_key = b't' ∷ b'e' ∷ b'x' ∷ b't' ∷ []

abbrev text_keys : List Text
text_keys =
    text_key
    ∷ (b'h' ∷ b'i' ∷ b'n' ∷ b't' ∷ b'T' ∷ b'e' ∷ b'x' ∷ b't' ∷ [])
    ∷ (b'a' ∷ b'c' ∷ b'c' ∷ b'e' ∷ b's' ∷ b's' ∷ b'i' ∷ b'b' ∷ b'i' ∷ b'l' ∷ b'i' ∷ b't' ∷ b'y'
        ∷ b'T' ∷ b'e' ∷ b'x' ∷ b't' ∷ [])
    ∷ []

abbrev id_keys : List Text
id_keys =
    (b'r' ∷ b'e' ∷ b's' ∷ b'o' ∷ b'u' ∷ b'r' ∷ b'c' ∷ b'e' ∷ b'-' ∷ b'i' ∷ b'd' ∷ [])
    ∷ (b'i' ∷ b'd' ∷ [])
    ∷ []

abbrev text_or_empty : Option Text → Text
text_or_empty none = []
text_or_empty (some t) = t

abbrev any_text : Pattern → List Text → List (Text × Text) → Bool
any_text pattern [] fields = false
any_text pattern (key ∷ keys) fields =
    matches pattern (text_or_empty (lookup key fields)) || any_text pattern keys fields

abbrev id_value : Pattern → Option Text → Bool
id_value pattern none = false
id_value pattern (some value) = matches pattern value || matches pattern (behind_slash value value)

abbrev any_id : Pattern → List Text → List (Text × Text) → Bool
any_id pattern [] fields = false
any_id pattern (key ∷ keys) fields =
    id_value pattern (lookup key fields) || any_id pattern keys fields

-- `absoluteDifference` of 64-bit integers.
abbrev is_negative : ℤ → Bool
is_negative (pos n) = false
is_negative (negsuc n) = true

unfoldable pub absolute_difference : ℤ → ℤ → ℤ
absolute_difference left right =
    let difference = wrap (left -ℤ right) in
    if is_negative difference then wrap (pos 0 -ℤ difference) else difference

abbrev is_near : ℤ → Option ℤ → ℤ → Bool
is_near tolerance none actual = true
is_near tolerance (some want) actual = not (ltb_ℤ tolerance (absolute_difference actual want))

abbrev or_zero : Option ℤ → ℤ
or_zero none = pos 0
or_zero (some z) = z

abbrev size_of : SizeSelector → Option Bounds → Bool
size_of size none = false
size_of size (some b) =
    is_near (or_zero size.tolerance) size.width b.width
    && is_near (or_zero size.tolerance) size.height b.height

unfoldable pub matches_size : Option SizeSelector → Option Bounds → Bool
unfolding absolute_difference
matches_size none bounds = true
matches_size (some size) bounds = size_of size bounds

unfoldable pub matches_bool : Option Bool → Option Bool → Bool
matches_bool none actual = true
matches_bool (some want) none = false
matches_bool (some want) (some actual) = (want && actual) || (not want && not actual)

abbrev pub is_some : {A : Type 0} → Option A → Bool
is_some none = false
is_some (some a) = true

module _ (is_square : ℤ → ℤ → Bool) where
  abbrev square_bounds : Option Bounds → Bool
  square_bounds none = false
  square_bounds (some b) = ltb_ℤ (pos 0) b.height && is_square b.width b.height

  abbrev long_text : Option Text → Bool
  long_text none = false
  long_text (some t) = ltb 200 (length t)

  abbrev has_trait : Trait → Attributes Node Bounds → Bool
  has_trait text_trait a = is_some (lookup text_key (a.node).attributes)
  has_trait square_trait a = square_bounds a.bounds
  has_trait long_text_trait a = long_text (lookup text_key (a.node).attributes)
  has_trait unknown_trait a = false

  unfoldable pub matches_traits : List Trait → Attributes Node Bounds → Bool
  unfolding lookup
  matches_traits [] a = true
  matches_traits (trait ∷ traits) a = has_trait trait a && matches_traits traits a

  abbrev matches_any_text : Option Pattern → Attributes Node Bounds → Bool
  matches_any_text none a = true
  matches_any_text (some pattern) a = any_text pattern text_keys (a.node).attributes

  abbrev matches_id : Option Pattern → Attributes Node Bounds → Bool
  matches_id none a = true
  matches_id (some pattern) a = any_id pattern id_keys (a.node).attributes

  unfoldable pub matches_basic : Basic → Attributes Node Bounds → Bool
  unfolding matches lookup matches_size matches_traits matches_bool
  matches_basic basic a =
      (matches_any_text basic.text a && matches_id basic.id a)
      && ((matches_size basic.size a.bounds && matches_traits basic.traits a)
          && ((matches_bool basic.enabled (a.node).enabled
                && matches_bool basic.selected (a.node).selected)
              && (matches_bool basic.checked (a.node).checked
                  && matches_bool basic.focused (a.node).focused)))

abbrev is_nil : {A : Type 0} → List A → Bool
is_nil [] = true
is_nil (x ∷ xs) = false

unfoldable pub has_basic_filter : Basic → Bool
has_basic_filter basic =
    ((is_some basic.text || is_some basic.id) || (is_some basic.size || not (is_nil basic.traits)))
    || ((is_some basic.enabled || is_some basic.selected)
        || (is_some basic.checked || is_some basic.focused))
