-- ===== src/Decimal.antt =====
-- Decimal numbers as the code prints and reads them: `%d` of package fmt and `strconv.Atoi` on a
-- 64-bit host, over the bytes of a string.
pub mod RoundTrip
use flowbaton.Prelude.{
  ℕ, zero, suc, ◌+◌, ◌-◌, ◌*◌, ◌/◌, ◌%◌, ◌^◌, ◌≤◌, ◌<◌, List, [], ◌∷◌, ◌++◌, Option, none, some,
  true, Bool, ◌&&◌, leb, ltb, ◌==◌, if◌then◌else◌, dec_lt, arith,
}
use flowbaton.Prelude.Int.{ℤ, pos, negsuc}

unfoldable pub is_digit : ℕ → Bool
is_digit c = leb b'0' c && leb c b'9'

unfoldable pub all_digits : List ℕ → Bool
unfolding is_digit
all_digits [] = true
all_digits (c ∷ cs) = is_digit c && all_digits cs

-- The digits of a number, most significant first. Each round divides by ten, so the number itself
-- is fuel enough.
print_digits : ℕ → ℕ → List ℕ
print_digits zero n = (b'0' + n) ∷ []
print_digits (suc fuel) n =
    let front = print_digits fuel (n / 10) in
    if ltb n 10 then (b'0' + n) ∷ [] else front ++ ((b'0' + n % 10) ∷ [])

unfoldable pub print_nat : ℕ → List ℕ
unfolding print_digits
print_nat n = print_digits n n

unfoldable pub print_int : ℤ → List ℕ
unfolding print_nat
print_int (pos n) = print_nat n
print_int (negsuc n) = b'-' ∷ print_nat (suc n)

-- The value of a run of digits behind those that make up `acc`; `none` at any other byte.
unfoldable pub read_digits : ℕ → List ℕ → Option ℕ
unfolding is_digit
read_digits acc [] = some acc
read_digits acc (c ∷ cs) =
    let rest = read_digits (acc * 10 + (c - b'0')) cs in if is_digit c then rest else none

unfoldable pub read_nat : List ℕ → Option ℕ
unfolding read_digits
read_nat [] = none
read_nat (c ∷ cs) = read_digits 0 (c ∷ cs)

-- The range of an int of 64 bits.
abbrev pub IsInt64 : ℤ → Type 0
IsInt64 (pos n) = n < 2 ^ 63
IsInt64 (negsuc n) = n < 2 ^ 63

abbrev negative : ℕ → Option ℤ
negative n = if n == 0 then some (pos 0) else if leb n (2 ^ 63) then some (negsuc (n - 1)) else none

abbrev positive : ℕ → Option ℤ
positive n = if ltb n (2 ^ 63) then some (pos n) else none

abbrev signed : (ℕ → Option ℤ) → Option ℕ → Option ℤ
signed sign none = none
signed sign (some n) = sign n

-- An optional sign and digits, or `none` for a syntax or range error.
unfoldable pub atoi : List ℕ → Option ℤ
unfolding read_nat
atoi [] = none
atoi (c ∷ cs) =
    if c == b'-'
    then signed negative (read_nat cs)
    else if c == b'+'
    then signed positive (read_nat cs)
    else signed positive (read_nat (c ∷ cs))
