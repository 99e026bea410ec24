-- ===== src/Pbwire/Fields.antt =====
-- The loop that every `Unmarshal` of internal/android/pbwire/messages.go and `discardAll` share:
-- read a tag, let the message's switch on the field number consume the value, go on behind it.
use flowbaton.Prelude.{ℕ, zero, suc, List, [], ◌∷◌, length, drop}
use flowbaton.Pbwire.Result.{Result, ok, stuck, ◌>>=◌}
use flowbaton.Pbwire.Decode.{consume_tag, skip_field}

-- A message's switch: the message so far, the field number, the wire type and the bytes behind the
-- tag give the new message and the count of bytes that the value took.
abbrev pub Switch : Type 0 → Type 0
Switch M = M → ℕ → ℕ → List ℕ → Result (M × ℕ)

-- `for len(data) > 0 { … }` on fuel.
unfoldable pub decode_loop : {M : Type 0} → Switch M → ℕ → M → List ℕ → Result M
decode_loop switch fuel m [] = ok m
decode_loop switch zero m (b ∷ bs) = stuck
decode_loop switch (suc fuel) m (b ∷ bs) = do
  (field, wire, n) ← consume_tag (b ∷ bs)
  let rest = drop n (b ∷ bs)
  (m', k) ← switch m field wire rest
  decode_loop switch fuel m' (drop k rest)

-- Each round takes a byte at least, so the length is fuel enough.
unfoldable pub decode : {M : Type 0} → Switch M → M → List ℕ → Result M
decode switch m src = decode_loop switch (length src) m src

-- The `default` branch of every switch.
unfoldable pub skip_unknown : {M : Type 0} → Switch M
skip_unknown m field wire src = do n ← skip_field src wire; ok (m, n)

-- The body of a message that declares no field.
unfoldable pub discard_all : List ℕ → Result (Unit {0})
discard_all src = decode skip_unknown tt src
