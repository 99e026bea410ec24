-- ===== src/Pbwire/Result.antt =====
-- Go's (value, error) pair, and the sentinel errors of internal/android/pbwire/wire.go. The text
-- that `fmt.Errorf` wraps round a sentinel is left out.
use flowbaton.Prelude.{◌≡◌, refl, ◌≢◌, ◌⊎◌, inl, inr}

pub data WireError : Type 0 where
  truncated varint_too_long length_overrun field_zero wire_type : WireError

-- `stuck` is no Go value: a loop ran out of fuel.
pub data Result {κ} (V : Type κ) : Type κ where
  stuck : Result V
  err : WireError → Result V
  ok : V → Result V

-- An error or a lack of fuel ends the chain.
infixl 5 ◌>>=◌
abbrev pub ◌>>=◌ {κ μ} : {V : Type κ} {W : Type μ} → Result V → (V → Result W) → Result W
stuck >>= next = stuck
err reason >>= next = err reason
ok value >>= next = next value

module _ {ℓ} {A : Type ℓ} where
  pub Result-cases :
      (r : Result A) → ((a : A) × (r ≡ ok a)) ⊎ (((e : WireError) × (r ≡ err e)) ⊎ (r ≡ stuck))
  Result-cases (ok a) = inl (a, refl)
  Result-cases (err e) = inr (inl (e, refl))
  Result-cases stuck = inr (inr refl)

module _ {ℓ κ} {A : Type ℓ} {B : Type κ} where
  pub >>=-cong :
      (m : Result A) (f g : A → Result B) → ((a : A) → m ≡ ok a → f a ≡ g a) → (m >>= f) ≡ (m >>= g)
  >>=-cong (ok a) f g h = h a refl
  >>=-cong (err e) f g h = refl
  >>=-cong stuck f g h = refl

  pub >>=-ne-stuck :
      (m : Result A) (f : A → Result B)
      → m ≢ stuck
      → ((a : A) → m ≡ ok a → f a ≢ stuck)
      → (m >>= f) ≢ stuck
  >>=-ne-stuck (ok a) f h k = k a refl
  >>=-ne-stuck (err e) f h k = λ p. cc
  >>=-ne-stuck stuck f h k = absurd (h refl)

  -- Both steps of a chain that gives a value give one.
  pub >>=-eq-ok :
      (m : Result A) (f : A → Result B) {b : B}
      → (m >>= f) ≡ ok b
      → (a : A) × (f a ≡ ok b) × (m ≡ ok a)
  >>=-eq-ok stuck next done = cc
  >>=-eq-ok (err reason) next done = cc
  >>=-eq-ok (ok value) next done = (value, done, refl)

module _ {ℓ} {A : Type ℓ} where
  pub ok-injective : {a b : A} → ok a ≡ ok b → a ≡ b
  ok-injective e = cc
