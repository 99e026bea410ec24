-- ===== src/Pbwire/Robust/Total.antt =====
-- Every decoder of internal/android/pbwire/messages.go ends, with a message or an error, on any
-- bytes.
use flowbaton.Prelude.{ℕ, ◌≢◌, List, length, arith}
use flowbaton.Pbwire.Result.{stuck}
use flowbaton.Pbwire.Decode.{consume_varint_field, consume_bytes_field, consume_double_field}
use flowbaton.Pbwire.Takes.{consume_varint-ne-stuck, consume_length_delimited-ne-stuck}
use flowbaton.Pbwire.Fields.{Switch, decode}
use flowbaton.Pbwire.Loop.{decode_loop-ne-stuck, skip_unknown-ne-stuck, discard_all-ne-stuck}
use flowbaton.Pbwire.Messages.Device.{
  switch_device_info, unmarshal_device_info, unmarshal_empty, switch_view_hierarchy_request,
  unmarshal_view_hierarchy_request, switch_view_hierarchy_response,
  unmarshal_view_hierarchy_response, switch_screenshot_response, unmarshal_screenshot_response,
  switch_set_location_request, unmarshal_set_location_request, switch_check_window_updating_request,
  unmarshal_check_window_updating_request, switch_check_window_updating_response,
  unmarshal_check_window_updating_response,
}
use flowbaton.Pbwire.Messages.Input.{
  switch_tap_request, unmarshal_tap_request, switch_input_text_request,
  unmarshal_input_text_request, switch_erase_all_text_request, unmarshal_erase_all_text_request,
}
use flowbaton.Pbwire.Messages.App.{
  switch_argument_value, unmarshal_argument_value, switch_launch_app_request,
  unmarshal_launch_app_request, switch_payload, unmarshal_payload, switch_add_media_request,
  unmarshal_add_media_request,
}

-- A switch that always ends with a value or an error.
abbrev pub IsTotal : {M : Type 0} → Switch M → Type 0
IsTotal {M} switch = (m : M) (field wire : ℕ) (src : List ℕ) → switch m field wire src ≢ stuck

decode-ne-stuck :
    {M : Type 0} (switch : Switch M) (m : M) (src : List ℕ)
    → IsTotal switch
    → decode switch m src ≢ stuck
unfolding decode
decode-ne-stuck switch m src total =
    decode_loop-ne-stuck switch total (length src) m src (omega arith)

consume_varint_field-ne-stuck : (src : List ℕ) (wire : ℕ) → consume_varint_field src wire ≢ stuck
unfolding consume_varint_field
consume_varint_field-ne-stuck src wire e = ground (arith, consume_varint-ne-stuck src)

consume_bytes_field-ne-stuck : (src : List ℕ) (wire : ℕ) → consume_bytes_field src wire ≢ stuck
unfolding consume_bytes_field
consume_bytes_field-ne-stuck src wire e = ground (arith, consume_length_delimited-ne-stuck src)

consume_double_field-ne-stuck : (src : List ℕ) (wire : ℕ) → consume_double_field src wire ≢ stuck
unfolding consume_double_field
consume_double_field-ne-stuck src wire e = ground arith

device_info-IsTotal : IsTotal switch_device_info
unfolding switch_device_info
device_info-IsTotal m field wire src e =
    ground (arith, consume_varint_field-ne-stuck src wire, skip_unknown-ne-stuck m field wire src)

view_hierarchy_request-IsTotal : IsTotal switch_view_hierarchy_request
unfolding switch_view_hierarchy_request
view_hierarchy_request-IsTotal m field wire src e =
    ground (arith, consume_varint_field-ne-stuck src wire, skip_unknown-ne-stuck m field wire src)

view_hierarchy_response-IsTotal : IsTotal switch_view_hierarchy_response
unfolding switch_view_hierarchy_response
view_hierarchy_response-IsTotal m field wire src e =
    ground (arith, consume_bytes_field-ne-stuck src wire, skip_unknown-ne-stuck m field wire src)

screenshot_response-IsTotal : IsTotal switch_screenshot_response
unfolding switch_screenshot_response
screenshot_response-IsTotal m field wire src e =
    ground (arith, consume_bytes_field-ne-stuck src wire, skip_unknown-ne-stuck m field wire src)

set_location_request-IsTotal : IsTotal switch_set_location_request
unfolding switch_set_location_request
set_location_request-IsTotal m field wire src e =
    ground (arith, consume_double_field-ne-stuck src wire, skip_unknown-ne-stuck m field wire src)

check_window_updating_request-IsTotal : IsTotal switch_check_window_updating_request
unfolding switch_check_window_updating_request
check_window_updating_request-IsTotal m field wire src e =
    ground (arith, consume_bytes_field-ne-stuck src wire, skip_unknown-ne-stuck m field wire src)

check_window_updating_response-IsTotal : IsTotal switch_check_window_updating_response
unfolding switch_check_window_updating_response
check_window_updating_response-IsTotal m field wire src e =
    ground (arith, consume_varint_field-ne-stuck src wire, skip_unknown-ne-stuck m field wire src)

tap_request-IsTotal : IsTotal switch_tap_request
unfolding switch_tap_request
tap_request-IsTotal m field wire src e =
    ground (arith, consume_varint_field-ne-stuck src wire, skip_unknown-ne-stuck m field wire src)

input_text_request-IsTotal : IsTotal switch_input_text_request
unfolding switch_input_text_request
input_text_request-IsTotal m field wire src e =
    ground (arith, consume_bytes_field-ne-stuck src wire, skip_unknown-ne-stuck m field wire src)

erase_all_text_request-IsTotal : IsTotal switch_erase_all_text_request
unfolding switch_erase_all_text_request
erase_all_text_request-IsTotal m field wire src e =
    ground (arith, consume_varint_field-ne-stuck src wire, skip_unknown-ne-stuck m field wire src)

argument_value-IsTotal : IsTotal switch_argument_value
unfolding switch_argument_value
argument_value-IsTotal m field wire src e =
    ground (arith, consume_bytes_field-ne-stuck src wire, skip_unknown-ne-stuck m field wire src)

unmarshal_argument_value-ne-stuck : (src : List ℕ) → unmarshal_argument_value src ≢ stuck
unfolding unmarshal_argument_value
unmarshal_argument_value-ne-stuck src =
    decode-ne-stuck switch_argument_value _ src argument_value-IsTotal

payload-IsTotal : IsTotal switch_payload
unfolding switch_payload
payload-IsTotal m field wire src e =
    ground (arith, consume_bytes_field-ne-stuck src wire, skip_unknown-ne-stuck m field wire src)

unmarshal_payload-ne-stuck : (src : List ℕ) → unmarshal_payload src ≢ stuck
unfolding unmarshal_payload
unmarshal_payload-ne-stuck src = decode-ne-stuck switch_payload _ src payload-IsTotal

launch_app_request-IsTotal : IsTotal switch_launch_app_request
unfolding switch_launch_app_request
launch_app_request-IsTotal m field wire src e = grind (
  arith,
  consume_bytes_field-ne-stuck src wire,
  skip_unknown-ne-stuck m field wire src,
  unmarshal_argument_value-ne-stuck,
)

add_media_request-IsTotal : IsTotal switch_add_media_request
unfolding switch_add_media_request
add_media_request-IsTotal m field wire src e = grind (
  arith,
  consume_bytes_field-ne-stuck src wire,
  skip_unknown-ne-stuck m field wire src,
  unmarshal_payload-ne-stuck,
)

-- For any bytes, `Unmarshal` of each of the fourteen messages with fields, and of those without,
-- ends with a message or an error: its loop never runs out of its fuel, the count of the bytes.
pub unmarshal-ne-stuck :
    (src : List ℕ)
    → (unmarshal_device_info src ≢ stuck)
      × (unmarshal_view_hierarchy_request src ≢ stuck)
      × (unmarshal_view_hierarchy_response src ≢ stuck)
      × (unmarshal_screenshot_response src ≢ stuck)
      × (unmarshal_set_location_request src ≢ stuck)
      × (unmarshal_check_window_updating_request src ≢ stuck)
      × (unmarshal_check_window_updating_response src ≢ stuck)
      × (unmarshal_tap_request src ≢ stuck)
      × (unmarshal_input_text_request src ≢ stuck)
      × (unmarshal_erase_all_text_request src ≢ stuck)
      × (unmarshal_argument_value src ≢ stuck)
      × (unmarshal_payload src ≢ stuck)
      × (unmarshal_launch_app_request src ≢ stuck)
      × (unmarshal_add_media_request src ≢ stuck)
      × (unmarshal_empty src ≢ stuck)
unfolding unmarshal_device_info unmarshal_view_hierarchy_request unmarshal_view_hierarchy_response
    unmarshal_screenshot_response unmarshal_set_location_request
    unmarshal_check_window_updating_request unmarshal_check_window_updating_response
    unmarshal_tap_request unmarshal_input_text_request unmarshal_erase_all_text_request
    unmarshal_argument_value unmarshal_payload unmarshal_launch_app_request
    unmarshal_add_media_request unmarshal_empty
unmarshal-ne-stuck src = (
  decode-ne-stuck switch_device_info _ src device_info-IsTotal,
  decode-ne-stuck switch_view_hierarchy_request _ src view_hierarchy_request-IsTotal,
  decode-ne-stuck switch_view_hierarchy_response _ src view_hierarchy_response-IsTotal,
  decode-ne-stuck switch_screenshot_response _ src screenshot_response-IsTotal,
  decode-ne-stuck switch_set_location_request _ src set_location_request-IsTotal,
  decode-ne-stuck switch_check_window_updating_request _ src check_window_updating_request-IsTotal,
  decode-ne-stuck switch_check_window_updating_response _ src
      check_window_updating_response-IsTotal,
  decode-ne-stuck switch_tap_request _ src tap_request-IsTotal,
  decode-ne-stuck switch_input_text_request _ src input_text_request-IsTotal,
  decode-ne-stuck switch_erase_all_text_request _ src erase_all_text_request-IsTotal,
  decode-ne-stuck switch_argument_value _ src argument_value-IsTotal,
  decode-ne-stuck switch_payload _ src payload-IsTotal,
  decode-ne-stuck switch_launch_app_request _ src launch_app_request-IsTotal,
  decode-ne-stuck switch_add_media_request _ src add_media_request-IsTotal,
  discard_all-ne-stuck src,
)
