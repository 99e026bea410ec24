-- ===== src/Pbwire/RoundTrip/Input.antt =====
-- The round trips of the messages that touch and type.
use flowbaton.Prelude.{◌≡◌, ◌∙◌, ap, [], ◌++◌, length, arith}
use flowbaton.Pbwire.Result.{ok}
use flowbaton.Pbwire.Encode.{IsU32, IsU64, append_uint32}
use flowbaton.Pbwire.Decode.{consume_varint_field, consume_bytes_field}
use flowbaton.Pbwire.Scalars.{
  Reads-append, Reads→ok, uint32_field, uint32_field-Reads, append_uint32-field,
  append_string-field, bytes_field, bytes_field-Reads,
}
use flowbaton.Pbwire.Messages.Input.{
  TapRequest, marshal_tap_request, switch_tap_request, zero_tap_request, unmarshal_tap_request,
  InputTextRequest, marshal_input_text_request, switch_input_text_request,
  unmarshal_input_text_request, EraseAllTextRequest, marshal_erase_all_text_request,
  switch_erase_all_text_request, unmarshal_erase_all_text_request,
}

pub unmarshal-marshal_tap_request :
    (m : TapRequest) → IsU32 m.x → IsU32 m.y → unmarshal_tap_request (marshal_tap_request m) ≡ ok m
unfolding marshal_tap_request unmarshal_tap_request switch_tap_request consume_varint_field
unmarshal-marshal_tap_request m hx hy =
    let mid : TapRequest = record { x = m.x; y = 0 } in
    ap unmarshal_tap_request (
      append_uint32-field (append_uint32 [] 1 m.x) 2 m.y (omega arith) hy
      ∙ ap (λ b. b ++ uint32_field 2 m.y) (append_uint32-field [] 1 m.x (omega arith) hx))
    ∙ Reads→ok switch_tap_request zero_tap_request m (uint32_field 1 m.x ++ uint32_field 2 m.y) (
        Reads-append switch_tap_request zero_tap_request mid m _ _
          (uint32_field-Reads switch_tap_request zero_tap_request mid 1 m.x (omega arith) hx
            (λ e. ground arith) (λ src n e. ground arith))
          (uint32_field-Reads switch_tap_request mid m 2 m.y (omega arith) hy (λ e. ground arith)
            (λ src n e. ground arith)))

pub unmarshal-marshal_input_text_request :
    (m : InputTextRequest)
    → IsU64 (length m.text)
    → unmarshal_input_text_request (marshal_input_text_request m) ≡ ok m
unfolding marshal_input_text_request unmarshal_input_text_request switch_input_text_request
    consume_bytes_field
unmarshal-marshal_input_text_request m h =
    ap unmarshal_input_text_request (append_string-field [] 1 m.text (omega arith) h)
    ∙ Reads→ok switch_input_text_request (record { text = [] }) m (bytes_field 1 m.text)
        (bytes_field-Reads switch_input_text_request (record { text = [] }) m 1 m.text (omega arith)
          h (λ e. ground arith) (λ src n e. ground arith))

pub unmarshal-marshal_erase_all_text_request :
    (m : EraseAllTextRequest)
    → IsU32 m.characters_to_erase
    → unmarshal_erase_all_text_request (marshal_erase_all_text_request m) ≡ ok m
unfolding marshal_erase_all_text_request unmarshal_erase_all_text_request
    switch_erase_all_text_request consume_varint_field
unmarshal-marshal_erase_all_text_request m h =
    ap unmarshal_erase_all_text_request
      (append_uint32-field [] 1 m.characters_to_erase (omega arith) h)
    ∙ Reads→ok switch_erase_all_text_request (record { characters_to_erase = 0 }) m
        (uint32_field 1 m.characters_to_erase)
        (uint32_field-Reads switch_erase_all_text_request (record { characters_to_erase = 0 }) m 1
          m.characters_to_erase (omega arith) h (λ e. ground arith) (λ src n e. ground arith))
