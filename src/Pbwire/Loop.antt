-- ===== src/Pbwire/Loop.antt =====
-- The laws of the decoding loop: it ends on every input, and a field at the front of the input is
-- one call of the message's switch.
use flowbaton.Prelude.{
  ℕ, zero, suc, ◌≤◌, ◌<◌, ◌≡◌, ◌≢◌, ◌∙◌, subst, refl, List, [], ◌∷◌, ◌++◌, append_assoc, length,
  length-drop, drop, drop-append, arith,
}
use flowbaton.Pbwire.Result.{
  WireError, ok, err, stuck, ok-injective, >>=-eq-ok, >>=-cong, >>=-ne-stuck,
}
use flowbaton.Pbwire.Decode.{consume_tag, skip_field}
use flowbaton.Pbwire.Takes.{consume_tag_takes, consume_tag-ne-stuck, skip_field-ne-stuck}
use flowbaton.Pbwire.Tokens.{IsField, tag, consume_tag-tag}
use flowbaton.Pbwire.Fields.{Switch, decode_loop, decode, skip_unknown, discard_all}

-- What a round leaves is shorter than what it found.
rest_shorter :
    (b : ℕ) (bs : List ℕ) (fuel n k : ℕ)
    → 1 ≤ n
    → length (b ∷ bs) ≤ suc fuel
    → length (drop k (drop n (b ∷ bs))) ≤ fuel
rest_shorter b bs fuel n k hn h =
    omega (arith, length-drop n (b ∷ bs), length-drop k (drop n (b ∷ bs)))

module _ {M : Type 0} (switch : Switch M) where
  pub decode_loop_fuel :
      (f g : ℕ) (m : M) (src : List ℕ)
      → length src ≤ f
      → length src ≤ g
      → decode_loop switch f m src ≡ decode_loop switch g m src
  unfolding decode_loop
  decode_loop_fuel f g m [] hf hg = refl
  decode_loop_fuel zero g m (b ∷ bs) hf hg = absurd (omega arith)
  decode_loop_fuel (suc f) zero m (b ∷ bs) hf hg = absurd (omega arith)
  decode_loop_fuel (suc f) (suc g) m (b ∷ bs) hf hg = >>=-cong (consume_tag (b ∷ bs)) _ _ λ t read.
      >>=-cong (switch m t.0 t.1 (drop t.2 (b ∷ bs))) _ _ λ r value.
        let taken = (consume_tag_takes (b ∷ bs) t read).0 in
        decode_loop_fuel f g (r.0) (drop (r.1) (drop t.2 (b ∷ bs)))
          (rest_shorter b bs f t.2 (r.1) taken hf) (rest_shorter b bs g t.2 (r.1) taken hg)

  pub decode_loop-ne-stuck :
      ((m : M) (field wire : ℕ) (src : List ℕ) → switch m field wire src ≢ stuck)
      → (fuel : ℕ) (m : M) (src : List ℕ) → length src ≤ fuel
      → decode_loop switch fuel m src ≢ stuck
  unfolding decode_loop
  decode_loop-ne-stuck total fuel m [] h = λ e. cc
  decode_loop-ne-stuck total zero m (b ∷ bs) h = absurd (omega arith)
  decode_loop-ne-stuck total (suc fuel) m (b ∷ bs) h =
      >>=-ne-stuck (consume_tag (b ∷ bs)) _ (consume_tag-ne-stuck (b ∷ bs)) λ t read.
        >>=-ne-stuck (switch m t.0 t.1 (drop t.2 (b ∷ bs))) _ (total m t.0 t.1 _) λ r value.
          let taken = (consume_tag_takes (b ∷ bs) t read).0 in
          decode_loop-ne-stuck total fuel (r.0) (drop (r.1) (drop t.2 (b ∷ bs)))
            (rest_shorter b bs fuel t.2 (r.1) taken h)

  pub decode-nil : (m : M) → decode switch m [] ≡ ok m
  unfolding decode decode_loop
  decode-nil m = refl

  -- One round of the loop, on a tag that is read and a value that the switch takes.
  decode_round :
      (m : M) (src : List ℕ) (t : ℕ × ℕ × ℕ) (r : M × ℕ)
      → consume_tag src ≡ ok t
      → switch m t.0 t.1 (drop t.2 src) ≡ ok r
      → decode switch m src ≡ decode switch (r.0) (drop (r.1) (drop t.2 src))
  unfolding decode decode_loop
  decode_round m [] t r read value = absurd (omega (arith, consume_tag_takes [] t read))
  decode_round m (b ∷ bs) t r read value =
      let taken = (consume_tag_takes (b ∷ bs) t read).0 in
      rw (read, value)
        (decode_loop_fuel _ _ (r.0) (drop (r.1) (drop t.2 (b ∷ bs)))
          (rest_shorter b bs (length bs) t.2 (r.1) taken (omega arith)) (omega arith))

  pub decode_field :
      (m m' : M) (field wire : ℕ) (value rest : List ℕ)
      → IsField field
      → wire < 8
      → switch m field wire (value ++ rest) ≡ ok (m', length value)
      → decode switch m ((tag field wire ++ value) ++ rest) ≡ decode switch m' rest
  decode_field m m' field wire value rest hf hw e =
      let front : List ℕ = tag field wire in
      let behind = drop-append front (value ++ rest) in
      rw append_assoc (
        decode_round m (front ++ (value ++ rest)) (field, wire, length front) (m', length value)
          (consume_tag-tag field wire (value ++ rest) hf hw) (rw behind e)
        ∙ rw (behind, drop-append value rest))

pub skip_unknown-ne-stuck :
    {M : Type 0} (m : M) (field wire : ℕ) (src : List ℕ) → skip_unknown m field wire src ≢ stuck
unfolding skip_unknown
skip_unknown-ne-stuck m field wire src =
    >>=-ne-stuck (skip_field src wire) _ (skip_field-ne-stuck src wire) (λ n h e. cc)

-- `discardAll` ends on every input.
pub discard_all-ne-stuck : (src : List ℕ) → discard_all src ≢ stuck
unfolding discard_all decode
discard_all-ne-stuck src =
    decode_loop-ne-stuck skip_unknown skip_unknown-ne-stuck (length src) tt src (omega arith)

module _ {M : Type 0} (switch : Switch M) (P : M → Type 0)
    (keeps : (m : M) (field wire : ℕ) (src : List ℕ) (r : M × ℕ)
      → P m
      → switch m field wire src ≡ ok r
      → P (r.0)) where
  -- What each assignment of a switch keeps, a message that is decoded has.
  decode_loop_keeps :
      (fuel : ℕ) (m : M) (src : List ℕ) (m' : M)
      → P m
      → decode_loop switch fuel m src ≡ ok m'
      → P m'
  unfolding decode_loop
  decode_loop_keeps fuel m [] m' h e = subst P (ok-injective e) h
  decode_loop_keeps zero m (b ∷ bs) m' h e = cc
  decode_loop_keeps (suc fuel) m (b ∷ bs) m' h e =
      let (t, more, read) = >>=-eq-ok (consume_tag (b ∷ bs)) _ e in
      let (r, rest, value) = >>=-eq-ok (switch m t.0 t.1 (drop t.2 (b ∷ bs))) _ more in
      decode_loop_keeps fuel (r.0) (drop (r.1) (drop t.2 (b ∷ bs))) m' (keeps m t.0 t.1 _ r h value)
        rest

  pub decode_keeps : (m : M) (src : List ℕ) (m' : M) → P m → decode switch m src ≡ ok m' → P m'
  unfolding decode
  decode_keeps m src m' = decode_loop_keeps (length src) m src m'

decode_stop :
    {M : Type 0} (switch : Switch M) (m : M) (src : List ℕ) (t : ℕ × ℕ × ℕ) (e : WireError)
    → consume_tag src ≡ ok t
    → switch m t.0 t.1 (drop t.2 src) ≡ err e
    → decode switch m src ≡ err e
unfolding decode decode_loop
decode_stop switch m [] t e read refused = absurd (omega (arith, consume_tag_takes [] t read))
decode_stop switch m (b ∷ bs) t e read refused = rw (read, refused)

-- A field whose value the switch refuses is refused by the decoder.
pub decode_refused :
    {M : Type 0} (switch : Switch M) (m : M) (field wire : ℕ) (rest : List ℕ) (e : WireError)
    → IsField field
    → wire < 8
    → switch m field wire rest ≡ err e
    → decode switch m (tag field wire ++ rest) ≡ err e
decode_refused switch m field wire rest e hf hw refused =
    let front : List ℕ = tag field wire in
    decode_stop switch m (front ++ rest) (field, wire, length front) e
      (consume_tag-tag field wire rest hf hw) (rw (drop-append front rest) refused)
