-- ===== src/Decimal/RoundTrip.antt =====
-- `strconv.Atoi` reads what `%d` prints.
use mathlib.Core.Option.{some-injective}
use flowbaton.Prelude.{
  true, ℕ, zero, suc, ◌+◌, ◌-◌, ◌*◌, ◌/◌, ◌%◌, ◌^◌, ◌≤◌, ◌<◌, ◌≡◌, ◌≢◌, refl, ap, inl, inr, List,
  [], ◌∷◌, ◌++◌, some, All, All-append, arith, ltb, Bool-cases,
}
use flowbaton.Prelude.Int.{ℤ, pos, negsuc}
use flowbaton.Decimal.{
  all_digits, print_digits, print_nat, print_int, read_digits, read_nat, IsInt64, atoi,
}

-- The bytes `0` to `9`.
abbrev pub IsDigit : ℕ → Type 0
IsDigit c = (b'0' ≤ c) × (c ≤ b'9')

pub all_digits-IsDigit : (xs : List ℕ) → All IsDigit xs → all_digits xs ≡ true
unfolding all_digits
all_digits-IsDigit [] h = refl
all_digits-IsDigit (x ∷ xs) h = ground (arith, all_digits-IsDigit xs)

print_digits-IsDigit : (fuel n : ℕ) → n ≤ fuel → All IsDigit (print_digits fuel n)
unfolding print_digits
print_digits-IsDigit zero n h = omega arith
print_digits-IsDigit (suc fuel) n h = elim (Bool-cases (ltb n 10)) [
  | inl small ↦ rw small (ground arith)
  | inr big ↦ rw big (
      All-append IsDigit (print_digits fuel (n / 10)) ((b'0' + n % 10) ∷ [])
        (print_digits-IsDigit fuel (n / 10) (omega arith)) (omega arith))
]

read_digits-append :
    (acc : ℕ) (xs ys : List ℕ) (n : ℕ)
    → read_digits acc xs ≡ some n
    → read_digits acc (xs ++ ys) ≡ read_digits n ys
unfolding read_digits
read_digits-append acc [] ys n e = ap (λ m. read_digits m ys) (some-injective acc n e)
read_digits-append acc (x ∷ xs) ys n e =
    ground (arith, read_digits-append (acc * 10 + (x - b'0')) xs ys n)

read_one : (n d : ℕ) → d < 10 → read_digits n ((b'0' + d) ∷ []) ≡ some (n * 10 + d)
unfolding read_digits
read_one n d h = ground arith

snoc-ne-nil : (xs : List ℕ) (x : ℕ) → xs ++ (x ∷ []) ≢ []
snoc-ne-nil [] x e = cc
snoc-ne-nil (y ∷ xs) x e = cc

read_digits-print_digits : (fuel n : ℕ) → n ≤ fuel → read_digits 0 (print_digits fuel n) ≡ some n
unfolding print_digits
read_digits-print_digits zero n h = ground (arith, read_one 0 n)
read_digits-print_digits (suc fuel) n h = ground (
  arith,
  read_one 0 n,
  read_digits-append 0 (print_digits fuel (n / 10)) ((b'0' + n % 10) ∷ []) (n / 10),
  read_digits-print_digits fuel (n / 10) (omega arith),
  read_one (n / 10) (n % 10),
)

print_digits-ne-nil : (fuel n : ℕ) → print_digits fuel n ≢ []
unfolding print_digits
print_digits-ne-nil zero n e = cc
print_digits-ne-nil (suc fuel) n e =
    ground (arith, snoc-ne-nil (print_digits fuel (n / 10)) (b'0' + n % 10))

read_nat_of : (xs : List ℕ) (n : ℕ) → xs ≢ [] → read_digits 0 xs ≡ some n → read_nat xs ≡ some n
unfolding read_nat
read_nat_of [] n ne e = absurd (ne refl)
read_nat_of (x ∷ xs) n ne e = e

pub read_nat-print_nat : (n : ℕ) → read_nat (print_nat n) ≡ some n
unfolding print_nat
read_nat-print_nat n =
    read_nat_of (print_digits n n) n (print_digits-ne-nil n n)
      (read_digits-print_digits n n (omega arith))

pub print_nat-IsDigit : (n : ℕ) → All IsDigit (print_nat n)
unfolding print_nat
print_nat-IsDigit n = print_digits-IsDigit n n (omega arith)

atoi_digits :
    (xs : List ℕ) (n : ℕ)
    → All IsDigit xs
    → read_nat xs ≡ some n
    → n < 2 ^ 63
    → atoi xs ≡ some (pos n)
unfolding atoi
atoi_digits [] n h e fits = cc
atoi_digits (x ∷ xs) n h e fits = ground arith

-- `strconv.Atoi` reads back every int that `%d` prints.
pub atoi-print_int : (z : ℤ) → IsInt64 z → atoi (print_int z) ≡ some z
unfolding print_int
atoi-print_int (pos n) h =
    atoi_digits (print_nat n) n (print_nat-IsDigit n) (read_nat-print_nat n) h
atoi-print_int (negsuc n) h = unfold atoi in rw (read_nat-print_nat (suc n)) (ground arith)
