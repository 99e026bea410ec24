-- ===== src/Grpcwire/Whole.antt =====
-- Which bodies `readUnaryBody` of internal/android/grpcwire/message.go takes for a message.
use flowbaton.Prelude.{
  ℕ, zero, suc, ◌+◌, ◌*◌, ◌^◌, ◌≤◌, ◌≡◌, ◌∙◌, ap, sym, refl, List, [], ◌∷◌, Bool, true, false,
  Option, some, none, length, take, drop, length-drop, leb, if◌then◌else◌, arith,
}
use flowbaton.Grpcwire.Message.{
  Reader, Read, MessageError, done, fail, is_message_eof, read_full, max_message_bytes, read_body,
  read_message, probe_end, read_unary_body,
}

-- The reader holds the flag of a message that is not compressed, its length in four bytes, most
-- significant first, which does not pass the ceiling, and the message, and then ends cleanly.
pub record Whole (r : Reader) (m : List ℕ) : Type 0 where
  pub b₃ : ℕ
  pub b₂ : ℕ
  pub b₁ : ℕ
  pub b₀ : ℕ
  pub bytes : r.bytes ≡ 0 ∷ b₃ ∷ b₂ ∷ b₁ ∷ b₀ ∷ m
  pub claimed : b₃ * 2 ^ 24 + b₂ * 2 ^ 16 + b₁ * 2 ^ 8 + b₀ ≡ length m
  pub fits : length m ≤ max_message_bytes
  pub ends : r.broken ≡ false

abbrev of_bytes : List ℕ → Bool → Reader
of_bytes bytes broken = record { bytes = bytes; broken = broken }

-- What `readUnaryBody` makes of a message that was read.
abbrev answer : Read MessageError (List ℕ × Reader) → Read MessageError (Option (List ℕ))
answer (done (message, rest)) = probe_end message (read_full 1 rest)
answer (fail e) = if is_message_eof e then done none else fail e

read_full-prefix :
    (f b₃ b₂ b₁ b₀ : ℕ) (rest : List ℕ) (broken : Bool)
    → read_full 5 (of_bytes (f ∷ b₃ ∷ b₂ ∷ b₁ ∷ b₀ ∷ rest) broken)
      ≡ done (f ∷ b₃ ∷ b₂ ∷ b₁ ∷ b₀ ∷ [], of_bytes rest broken)
unfolding read_full
read_full-prefix f b₃ b₂ b₁ b₀ rest broken = ground arith

read_unary_body-prefix :
    (f b₃ b₂ b₁ b₀ : ℕ) (rest : List ℕ) (broken : Bool)
    → read_unary_body (of_bytes (f ∷ b₃ ∷ b₂ ∷ b₁ ∷ b₀ ∷ rest) broken)
      ≡ answer (read_body (f ∷ b₃ ∷ b₂ ∷ b₁ ∷ b₀ ∷ []) (of_bytes rest broken))
unfolding read_unary_body read_message
read_unary_body-prefix f b₃ b₂ b₁ b₀ rest broken =
    rw (read_full-prefix f b₃ b₂ b₁ b₀ rest broken, read_message, read_unary_body) refl

-- Fewer bytes than a prefix are no message.
read_unary_body-short :
    (r : Reader) (m : List ℕ)
    → leb 5 (length r.bytes) ≡ false
    → read_unary_body r ≡ done (some m)
    → true ≡ false
unfolding read_unary_body read_message read_full
read_unary_body-short r m short h = ground arith

take_all : (n : ℕ) (xs : List ℕ) → length xs ≤ n → take n xs ≡ xs
take_all zero [] h = refl
take_all (suc n) [] h = refl
take_all zero (x ∷ xs) h = absurd (omega arith)
take_all (suc n) (x ∷ xs) h = ap (λ ys. x ∷ ys) (take_all n xs (omega arith))

probe_end-some :
    (x ys : List ℕ) (broken : Bool) (m : List ℕ)
    → probe_end x (read_full 1 (of_bytes ys broken)) ≡ done (some m)
    → (x ≡ m) × (length ys ≡ 0) × (broken ≡ false)
unfolding read_full
probe_end-some x ys broken m h = (ground arith, ground arith, ground arith)

-- What a body behind its prefix has to hold to be the message.
behind_prefix :
    (f b₃ b₂ b₁ b₀ : ℕ) (rest : List ℕ) (broken : Bool) (m : List ℕ)
    → answer (read_body (f ∷ b₃ ∷ b₂ ∷ b₁ ∷ b₀ ∷ []) (of_bytes rest broken)) ≡ done (some m)
    → (f ≡ 0)
      × (broken ≡ false)
      × (rest ≡ m)
      × (b₃ * 2 ^ 24 + b₂ * 2 ^ 16 + b₁ * 2 ^ 8 + b₀ ≡ length m)
      × (length m ≤ max_message_bytes)
unfolding read_body read_full
behind_prefix f b₃ b₂ b₁ b₀ rest broken m h =
    let len : ℕ = b₃ * 2 ^ 24 + b₂ * 2 ^ 16 + b₁ * 2 ^ 8 + b₀ in
    let short = length-drop len rest in
    let all = take_all len rest in
    let probe = probe_end-some (take len rest) (drop len rest) broken m in
    (
      ground (arith, short, probe, all),
      ground (arith, short, probe, all),
      ground (arith, short, probe, all),
      ground (arith, short, probe, all),
      ground (arith, short, probe, all),
    )

whole :
    (bytes : List ℕ) (broken : Bool) (m : List ℕ)
    → read_unary_body (of_bytes bytes broken) ≡ done (some m)
    → Whole (of_bytes bytes broken) m
whole [] broken m h = absurd (cc (read_unary_body-short (of_bytes [] broken) m refl h))
whole (f ∷ []) broken m h = absurd (cc (read_unary_body-short (of_bytes (f ∷ []) broken) m refl h))
whole (f ∷ x ∷ []) broken m h =
    absurd (cc (read_unary_body-short (of_bytes (f ∷ x ∷ []) broken) m refl h))
whole (f ∷ x ∷ y ∷ []) broken m h =
    absurd (cc (read_unary_body-short (of_bytes (f ∷ x ∷ y ∷ []) broken) m refl h))
whole (f ∷ x ∷ y ∷ z ∷ []) broken m h =
    absurd (cc (read_unary_body-short (of_bytes (f ∷ x ∷ y ∷ z ∷ []) broken) m refl h))
whole (f ∷ b₃ ∷ b₂ ∷ b₁ ∷ b₀ ∷ rest) broken m h =
    let (plain, ends, same, claimed, fits) =
      behind_prefix f b₃ b₂ b₁ b₀ rest broken m
        (sym (read_unary_body-prefix f b₃ b₂ b₁ b₀ rest broken) ∙ h) in
    record {
      b₃ = b₃;
      b₂ = b₂;
      b₁ = b₁;
      b₀ = b₀;
      bytes = rw (plain, same) refl;
      claimed = claimed;
      fits = fits;
      ends = ends;
    }

answered_whole :
    (b₃ b₂ b₁ b₀ : ℕ) (m : List ℕ)
    → b₃ * 2 ^ 24 + b₂ * 2 ^ 16 + b₁ * 2 ^ 8 + b₀ ≡ length m
    → length m ≤ max_message_bytes
    → answer (read_body (0 ∷ b₃ ∷ b₂ ∷ b₁ ∷ b₀ ∷ []) (of_bytes m false)) ≡ done (some m)
unfolding read_body read_full
answered_whole b₃ b₂ b₁ b₀ m claimed fits =
    ground (arith, length-drop (length m) m, take_all (length m) m)

pub read_unary_body-Whole :
    (r : Reader) (m : List ℕ) → read_unary_body r ≡ done (some m) → Whole r m
read_unary_body-Whole r m h = whole r.bytes r.broken m h

pub Whole-read_unary_body :
    (r : Reader) (m : List ℕ) → Whole r m → read_unary_body r ≡ done (some m)
Whole-read_unary_body r m w =
    ap (λ (p : List ℕ × Bool). read_unary_body (of_bytes p.0 p.1)) (λ i. (w.bytes i, w.ends i))
    ∙ read_unary_body-prefix 0 w.b₃ w.b₂ w.b₁ w.b₀ m false
    ∙ answered_whole w.b₃ w.b₂ w.b₁ w.b₀ m w.claimed w.fits
