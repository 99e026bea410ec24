-- ===== src/Hierarchy/Rectangle.antt =====
-- internal/hierarchy/geometry.go: `ParseBounds` and `FormatBounds` on a 64-bit host. The matching of
-- boundsPattern is written out as the one way to match it: a separator is no digit and no sign.
pub mod RoundTrip
use flowbaton.Prelude.{
  ℕ, ◌+◌, ◌-◌, ◌%◌, ◌^◌, List, [], ◌∷◌, ◌++◌, Bool, true, false, ◌&&◌, ◌||◌, Option, none, some,
  ltb, ◌==◌, if◌then◌else◌,
}
use flowbaton.Prelude.Int.{ℤ, pos, negsuc, ◌+ℤ◌, ◌-ℤ◌, ltb_ℤ}
use flowbaton.Decimal.{all_digits, is_digit, print_int, atoi}

-- `device.Bounds`
pub record Bounds : Type 0 where
  pub x : ℤ
  pub y : ℤ
  pub width : ℤ
  pub height : ℤ

pub data Parsed : Type 0 where
  malformed out_of_range inverted : Parsed
  parsed : Bounds → Parsed

-- The wrap-around of an int.
abbrev pub wrap : ℤ → ℤ
wrap (pos n) = let r = n % 2 ^ 64 in if ltb r (2 ^ 63) then pos r else negsuc (2 ^ 64 - 1 - r)
wrap (negsuc n) = let r = n % 2 ^ 64 in if ltb r (2 ^ 63) then negsuc r else pos (2 ^ 64 - 1 - r)

-- The bytes in front of the first `sep`, and those behind it.
unfoldable pub split_at : ℕ → List ℕ → Option (List ℕ × List ℕ)
split_at sep [] = none
split_at sep (c ∷ cs) =
    let more : Option (List ℕ × List ℕ) = elim (split_at sep cs) [
      | none ↦ none
      | some r ↦ some (c ∷ r.0, r.1)
    ] in
    if c == sep then some ([], cs) else more

abbrev pub strip : ℕ → List ℕ → Option (List ℕ)
strip c [] = none
strip c (d ∷ ds) = if d == c then some ds else none

abbrev pub some_digits : List ℕ → Bool
some_digits [] = false
some_digits (c ∷ cs) = all_digits (c ∷ cs)

-- `-?\d+`
unfoldable pub is_number : List ℕ → Bool
unfolding all_digits
is_number [] = false
is_number (c ∷ cs) = if c == b'-' then some_digits cs else some_digits (c ∷ cs)

-- `[a,b]` in front of the rest.
unfoldable pub match_pair : List ℕ → Option (List ℕ × List ℕ × List ℕ)
unfolding is_number split_at
match_pair value = elim (strip b'[' value) [
  | none ↦ none
  | some inside ↦ elim (split_at b',' inside) [
    | none ↦ none
    | some left ↦ elim (split_at b']' left.1) [
      | none ↦ none
      | some right ↦
          if is_number left.0 && is_number right.0 then some (left.0, right.0, right.1) else none
    ]
  ]
]

abbrev pub bounds_of : ℤ → ℤ → ℤ → ℤ → Parsed
bounds_of left top right bottom =
    if ltb_ℤ right left || ltb_ℤ bottom top
    then inverted
    else parsed
        (record { x = left; y = top; width = wrap (right -ℤ left); height = wrap (bottom -ℤ top) })

abbrev pub with_coordinates : Option ℤ → Option ℤ → Option ℤ → Option ℤ → Parsed
with_coordinates (some left) (some top) (some right) (some bottom) = bounds_of left top right bottom
with_coordinates _ _ _ _ = out_of_range

unfoldable pub parse_bounds : List ℕ → Parsed
unfolding match_pair
parse_bounds value = elim (match_pair value) [
  | none ↦ malformed
  | some (left, top, rest) ↦ elim (match_pair rest) [
    | none ↦ malformed
    | some (right, bottom, []) ↦ with_coordinates (atoi left) (atoi top) (atoi right) (atoi bottom)
    | some (right, bottom, c ∷ cs) ↦ malformed
  ]
]

abbrev pub format_pair : ℤ → ℤ → List ℕ → List ℕ
format_pair a b rest = b'[' ∷ (print_int a ++ (b',' ∷ (print_int b ++ (b']' ∷ rest))))

unfoldable pub format_bounds : Bounds → List ℕ
format_bounds b =
    format_pair b.x b.y (format_pair (wrap (b.x +ℤ b.width)) (wrap (b.y +ℤ b.height)) [])
