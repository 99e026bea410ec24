-- ===== src/Hierarchy/Rectangle/RoundTrip.antt =====
-- `ParseBounds` of internal/hierarchy/geometry.go on text with four coordinates.
use flowbaton.Prelude.{
  ℕ, ◌-◌, ◌^◌, ◌≤◌, ◌<◌, ◌≡◌, ◌≢◌, ◌⊎◌, suc, ◌∙◌, refl, List, [], ◌∷◌, ◌++◌, true, false, some, All,
  arith,
}
use flowbaton.Prelude.Int.{ℤ, pos, negsuc, ◌+ℤ◌, ◌-ℤ◌, ltb_ℤ}
use flowbaton.Decimal.{read_nat, print_nat, print_int, IsInt64}
use flowbaton.Decimal.RoundTrip.{
  IsDigit, all_digits-IsDigit, print_nat-IsDigit, atoi-print_int, read_nat-print_nat,
}
use flowbaton.Hierarchy.Rectangle.{
  parsed, wrap, split_at, some_digits, is_number, match_pair, bounds_of, parse_bounds, format_pair,
  format_bounds,
}

split_at-append :
    (sep : ℕ) (xs ys : List ℕ)
    → All (λ c. c ≢ sep) xs
    → split_at sep (xs ++ (sep ∷ ys)) ≡ some (xs, ys)
unfolding split_at
split_at-append sep [] ys h = ground arith
split_at-append sep (x ∷ xs) ys h = ground (arith, split_at-append sep xs ys)

-- A byte that ends a coordinate.
abbrev IsSeparator : ℕ → Type 0
IsSeparator sep = (sep < b'0') ⊎ (b'9' < sep)

digits-ne-separator :
    (sep : ℕ) (xs : List ℕ) → IsSeparator sep → All IsDigit xs → All (λ c. c ≢ sep) xs
digits-ne-separator sep [] hs h = tt
digits-ne-separator sep (x ∷ xs) hs h = ((λ e. ground arith), digits-ne-separator sep xs hs (h.1))

int-ne-separator :
    (sep : ℕ) (z : ℤ) → IsSeparator sep → b'-' ≢ sep → All (λ c. c ≢ sep) (print_int z)
unfolding print_int
int-ne-separator sep (pos n) hs hm = digits-ne-separator sep (print_nat n) hs (print_nat-IsDigit n)
int-ne-separator sep (negsuc n) hs hm =
    (hm, digits-ne-separator sep (print_nat (suc n)) hs (print_nat-IsDigit (suc n)))

number_of_digits :
    (xs : List ℕ) (n : ℕ) → All IsDigit xs → read_nat xs ≡ some n → some_digits xs ≡ true
unfolding read_nat
number_of_digits [] n h e = absurd (cc e)
number_of_digits (x ∷ xs) n h e = all_digits-IsDigit (x ∷ xs) h

digits_are_number : (xs : List ℕ) → All IsDigit xs → some_digits xs ≡ true → is_number xs ≡ true
unfolding is_number
digits_are_number [] h e = absurd (cc e)
digits_are_number (x ∷ xs) h e = ground arith

is_number-print_int : (z : ℤ) → is_number (print_int z) ≡ true
unfolding print_int
is_number-print_int (pos n) =
    digits_are_number (print_nat n) (print_nat-IsDigit n)
      (number_of_digits (print_nat n) n (print_nat-IsDigit n) (read_nat-print_nat n))
is_number-print_int (negsuc n) =
    unfold is_number in
    number_of_digits (print_nat (suc n)) (suc n) (print_nat-IsDigit (suc n))
      (read_nat-print_nat (suc n))

match_pair-format_pair :
    (a b : ℤ) (rest : List ℕ)
    → match_pair (format_pair a b rest) ≡ some (print_int a, print_int b, rest)
unfolding match_pair
match_pair-format_pair a b rest = rw (
  match_pair,
  split_at-append b',' (print_int a) (print_int b ++ (b']' ∷ rest))
      (int-ne-separator b',' a (omega arith) (omega arith)),
  split_at-append b']' (print_int b) rest (int-ne-separator b']' b (omega arith) (omega arith)),
  is_number-print_int a,
  is_number-print_int b,
)

wrap-IsInt64 : (z : ℤ) → IsInt64 z → wrap z ≡ z
wrap-IsInt64 (pos n) h = ground arith
wrap-IsInt64 (negsuc n) h = ground arith

width_back : (left : ℤ) (w : ℕ) → left +ℤ pos w -ℤ left ≡ pos w
unfolding ◌+ℤ◌ ◌-ℤ◌
width_back left w = ground arith

not_inverted : (left : ℤ) (w : ℕ) → ltb_ℤ (left +ℤ pos w) left ≡ false
unfolding ◌+ℤ◌
not_inverted left w = ground arith

bounds_back :
    (x y : ℤ) (w h : ℕ)
    → w < 2 ^ 63
    → h < 2 ^ 63
    → bounds_of x y (x +ℤ pos w) (y +ℤ pos h)
      ≡ parsed (record { x = x; y = y; width = pos w; height = pos h })
bounds_back x y w h fw fh =
    rw
      (
        not_inverted x w,
        not_inverted y h,
        width_back x w,
        width_back y h,
        wrap-IsInt64 (pos w) fw,
        wrap-IsInt64 (pos h) fh,
      )
      refl

parse_bounds-pairs :
    (a b c d : ℤ)
    → IsInt64 a
    → IsInt64 b
    → IsInt64 c
    → IsInt64 d
    → parse_bounds (format_pair a b (format_pair c d [])) ≡ bounds_of a b c d
unfolding parse_bounds
parse_bounds-pairs a b c d ha hb hc hd = rw (
  match_pair-format_pair a b (format_pair c d []),
  match_pair-format_pair c d [],
  parse_bounds,
  atoi-print_int a ha,
  atoi-print_int b hb,
  atoi-print_int c hc,
  atoi-print_int d hd,
)

-- Bounds whose four edges are ints and whose width and height are at least 0 and below 2 ^ 63 are
-- what ParseBounds reads of the text that FormatBounds writes.
pub parse_bounds-format_bounds :
    (x y : ℤ) (w h : ℕ)
    → IsInt64 x
    → IsInt64 y
    → IsInt64 (x +ℤ pos w)
    → IsInt64 (y +ℤ pos h)
    → w < 2 ^ 63
    → h < 2 ^ 63
    → parse_bounds (format_bounds (record { x = x; y = y; width = pos w; height = pos h }))
      ≡ parsed (record { x = x; y = y; width = pos w; height = pos h })
unfolding format_bounds
parse_bounds-format_bounds x y w h hx hy hr hb fw fh =
    rw (wrap-IsInt64 (x +ℤ pos w) hr, wrap-IsInt64 (y +ℤ pos h) hb)
      (parse_bounds-pairs x y (x +ℤ pos w) (y +ℤ pos h) hx hy hr hb ∙ bounds_back x y w h fw fh)

wide :
    (x y : ℤ) (w h : ℕ)
    → 2 ^ 63 ≤ w
    → w < 2 ^ 64
    → h < 2 ^ 63
    → bounds_of x y (x +ℤ pos w) (y +ℤ pos h)
      ≡ parsed (record { x = x; y = y; width = negsuc (2 ^ 64 - 1 - w); height = pos h })
wide x y w h fw gw fh =
    let wrapped : wrap (pos w) ≡ negsuc (2 ^ 64 - 1 - w) = ground arith in
    rw
      (
        not_inverted x w,
        not_inverted y h,
        width_back x w,
        width_back y h,
        wrapped,
        wrap-IsInt64 (pos h) fh,
      )
      refl

-- Text whose edges are ints, the right one `w` behind the left, is accepted with a negative width
-- where `w` is 2 ^ 63 or more: the subtraction wraps.
pub parse_bounds_wide :
    (x y : ℤ) (w h : ℕ)
    → IsInt64 x
    → IsInt64 y
    → IsInt64 (x +ℤ pos w)
    → IsInt64 (y +ℤ pos h)
    → 2 ^ 63 ≤ w
    → w < 2 ^ 64
    → h < 2 ^ 63
    → parse_bounds (format_pair x y (format_pair (x +ℤ pos w) (y +ℤ pos h) []))
      ≡ parsed (record { x = x; y = y; width = negsuc (2 ^ 64 - 1 - w); height = pos h })
parse_bounds_wide x y w h hx hy hr hb fw gw fh =
    parse_bounds-pairs x y (x +ℤ pos w) (y +ℤ pos h) hx hy hr hb ∙ wide x y w h fw gw fh
