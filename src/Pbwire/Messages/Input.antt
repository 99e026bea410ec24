-- ===== src/Pbwire/Messages/Input.antt =====
-- internal/android/pbwire/messages.go: the messages that touch and type.
use flowbaton.Prelude.{ℕ, ◌%◌, ◌^◌, List, [], ◌==◌, if◌then◌else◌}
use flowbaton.Pbwire.Result.{Result, ok, ◌>>=◌}
use flowbaton.Pbwire.Encode.{append_uint32, append_string}
use flowbaton.Pbwire.Decode.{consume_varint_field, consume_bytes_field}
use flowbaton.Pbwire.Fields.{Switch, decode, skip_unknown}

pub record TapRequest : Type 0 where
  pub x : ℕ
  pub y : ℕ

unfoldable pub marshal_tap_request : TapRequest → List ℕ
marshal_tap_request m = append_uint32 (append_uint32 [] 1 m.x) 2 m.y

unfoldable pub switch_tap_request : Switch TapRequest
switch_tap_request m field wire src =
    if field == 1
    then (do (v, n) ← consume_varint_field src wire; ok (record m { x = v % 2 ^ 32 }, n))
    else if field == 2
    then (do (v, n) ← consume_varint_field src wire; ok (record m { y = v % 2 ^ 32 }, n))
    else skip_unknown m field wire src

abbrev pub zero_tap_request : TapRequest
zero_tap_request = record { x = 0; y = 0 }

unfoldable pub unmarshal_tap_request : List ℕ → Result TapRequest
unmarshal_tap_request src = decode switch_tap_request zero_tap_request src

pub record InputTextRequest : Type 0 where
  pub text : List ℕ

unfoldable pub marshal_input_text_request : InputTextRequest → List ℕ
marshal_input_text_request m = append_string [] 1 m.text

unfoldable pub switch_input_text_request : Switch InputTextRequest
switch_input_text_request m field wire src =
    if field == 1
    then (do (v, n) ← consume_bytes_field src wire; ok (record m { text = v }, n))
    else skip_unknown m field wire src

unfoldable pub unmarshal_input_text_request : List ℕ → Result InputTextRequest
unmarshal_input_text_request src = decode switch_input_text_request (record { text = [] }) src

pub record EraseAllTextRequest : Type 0 where
  pub characters_to_erase : ℕ

unfoldable pub marshal_erase_all_text_request : EraseAllTextRequest → List ℕ
marshal_erase_all_text_request m = append_uint32 [] 1 m.characters_to_erase

unfoldable pub switch_erase_all_text_request : Switch EraseAllTextRequest
switch_erase_all_text_request m field wire src =
    if field == 1
    then (do
      (v, n) ← consume_varint_field src wire
      ok (record m { characters_to_erase = v % 2 ^ 32 }, n))
    else skip_unknown m field wire src

unfoldable pub unmarshal_erase_all_text_request : List ℕ → Result EraseAllTextRequest
unmarshal_erase_all_text_request src =
    decode switch_erase_all_text_request (record { characters_to_erase = 0 }) src
