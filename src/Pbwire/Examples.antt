-- ===== src/Pbwire/Examples.antt =====
-- The codec of internal/android/pbwire on small messages.
use flowbaton.Prelude.{
  ℕ, ◌≤◌, ◌<◌, ◌≡◌, refl, ◌≢◌, List, [], ◌∷◌, ◌++◌, length, some, true, false, arith,
}
use flowbaton.Pbwire.Result.{ok, stuck}
use flowbaton.Pbwire.Encode.{append_varint, append_tag, append_string, append_bytes, varint_loop}
use flowbaton.Pbwire.Decode.{
  consume_varint, varint_groups, consume_tag, consume_length_delimited, skip_field,
  consume_varint_field,
}
use flowbaton.Pbwire.Fields.{decode, decode_loop}
use flowbaton.Pbwire.Varint.{consume_varint-append_varint}
use flowbaton.Pbwire.Tokens.{tag}
use flowbaton.Pbwire.Takes.{Delimited, Within, counts-Within}
use flowbaton.Pbwire.RoundTrip.Flat.{unmarshal-marshal_flat}
use flowbaton.Pbwire.Messages.Device.{
  ViewHierarchyRequest, ViewHierarchyResponse, ScreenshotResponse, CheckWindowUpdatingRequest,
  CheckWindowUpdatingResponse, marshal_view_hierarchy_request, marshal_view_hierarchy_response,
  marshal_screenshot_response, marshal_check_window_updating_request,
  marshal_check_window_updating_response, DeviceInfo, marshal_device_info, unmarshal_device_info,
  SetLocationRequest, marshal_set_location_request, unmarshal_set_location_request,
  unmarshal_view_hierarchy_request, unmarshal_view_hierarchy_response,
  unmarshal_screenshot_response, unmarshal_check_window_updating_request,
  unmarshal_check_window_updating_response, unmarshal_empty,
}
use flowbaton.Pbwire.Messages.Input.{
  TapRequest, InputTextRequest, EraseAllTextRequest, marshal_tap_request,
  marshal_input_text_request, marshal_erase_all_text_request, unmarshal_tap_request,
  switch_tap_request, unmarshal_input_text_request, unmarshal_erase_all_text_request,
}
use flowbaton.Pbwire.Messages.App.{
  ArgumentValue, marshal_argument_value, LaunchAppRequest, marshal_launch_app_request,
  unmarshal_launch_app_request, unmarshal_argument_value, unmarshal_payload, marshal_payload,
  AddMediaRequest, marshal_add_media_request, unmarshal_add_media_request,
}
use flowbaton.Pbwire.RoundTrip.App.{ArgumentFits, PayloadFits, unmarshal-marshal_launch_app_request}
use flowbaton.Pbwire.Robust.Total.{unmarshal-ne-stuck}
use flowbaton.Pbwire.Robust.Unknown.{unmarshal_unknown}

round_trip_varint_example :
    consume_varint (append_varint [] 300 ++ (7 ∷ [])) ≡ ok (300, length (append_varint [] 300))
round_trip_varint_example = consume_varint-append_varint 300 (7 ∷ []) (omega arith)

abbrev screen : DeviceInfo
screen = record { width_pixels = 1080; height_pixels = 2400 }

-- The doubles 1 and -2.
abbrev place : SetLocationRequest
place = record { latitude = 0x3ff0000000000000; longitude = 0xc000000000000000 }

abbrev asked : ViewHierarchyRequest
asked = record { exclude_keyboard_elements = true }

abbrev tree : ViewHierarchyResponse
tree = record { hierarchy = b'<' ∷ b'>' ∷ [] }

abbrev shot : ScreenshotResponse
shot = record { bytes = 0x89 ∷ [] }

abbrev check : CheckWindowUpdatingRequest
check = record { app_id = b'a' ∷ [] }

abbrev checked : CheckWindowUpdatingResponse
checked = record { is_window_updating = false }

abbrev argument : ArgumentValue
argument = record { key = b'k' ∷ []; value = b'v' ∷ b'w' ∷ []; type = [] }

abbrev launch : LaunchAppRequest
launch = record { package_name = b'a' ∷ b'.' ∷ b'b' ∷ []; arguments = argument ∷ argument ∷ [] }

argument-fits : ArgumentFits argument
unfolding marshal_argument_value append_string append_tag append_varint varint_loop
argument-fits = record {
  key = omega arith;
  value = omega arith;
  type = omega arith;
  encoded = ground arith;
}

launch_app_example : unmarshal_launch_app_request (marshal_launch_app_request launch) ≡ ok launch
launch_app_example =
    unmarshal-marshal_launch_app_request launch (omega arith) (argument-fits, (argument-fits, tt))

abbrev media : AddMediaRequest
media = record {
  payload = some (record { bytes = 0xff ∷ 0xd8 ∷ [] });
  media_name = b'p' ∷ [];
  media_ext = [];
}

payload-fits : PayloadFits media.payload
unfolding marshal_payload append_bytes append_tag append_varint varint_loop
payload-fits = (omega arith, ground arith)

-- An unknown field 5 in front of a message that holds nothing.
skip_two : skip_field (0x96 ∷ 1 ∷ []) 0 ≡ ok 2
unfolding skip_field consume_varint varint_groups
skip_two = refl

unmarshal_unknown_example :
    (unmarshal_device_info ((tag 5 0 ++ (0x96 ∷ 1 ∷ [])) ++ []) ≡ unmarshal_device_info [])
    × (unmarshal_launch_app_request ((tag 5 0 ++ (0x96 ∷ 1 ∷ [])) ++ [])
        ≡ unmarshal_launch_app_request [])
    × (unmarshal_add_media_request ((tag 5 0 ++ (0x96 ∷ 1 ∷ [])) ++ [])
        ≡ unmarshal_add_media_request [])
unmarshal_unknown_example =
    unmarshal_unknown 5 0 (0x96 ∷ 1 ∷ []) [] (omega arith) (omega arith) (omega arith) skip_two

-- A varint above 32 bits is cut to its low 32.
abbrev wide_tap : List ℕ
wide_tap = 8 ∷ 0x83 ∷ 0x80 ∷ 0x80 ∷ 0x80 ∷ 0x10 ∷ []

wide_tap_reads : unmarshal_tap_request wide_tap ≡ ok (record { x = 3; y = 0 })
unfolding unmarshal_tap_request decode decode_loop switch_tap_request consume_tag
    consume_varint_field consume_varint varint_groups
wide_tap_reads = refl

wide_tag : consume_tag wide_tap ≡ ok (1, 0, 1)
unfolding consume_tag consume_varint varint_groups
wide_tag = refl

two_letters : consume_length_delimited (2 ∷ b'h' ∷ b'i' ∷ 9 ∷ []) ≡ ok (b'h' ∷ b'i' ∷ [], 3)
unfolding consume_length_delimited consume_varint varint_groups
two_letters = refl

unmarshal-ne-stuck_example :
    (unmarshal_device_info wide_tap ≢ stuck)
    × (unmarshal_view_hierarchy_request wide_tap ≢ stuck)
    × (unmarshal_view_hierarchy_response wide_tap ≢ stuck)
    × (unmarshal_screenshot_response wide_tap ≢ stuck)
    × (unmarshal_set_location_request wide_tap ≢ stuck)
    × (unmarshal_check_window_updating_request wide_tap ≢ stuck)
    × (unmarshal_check_window_updating_response wide_tap ≢ stuck)
    × (unmarshal_tap_request wide_tap ≢ stuck)
    × (unmarshal_input_text_request wide_tap ≢ stuck)
    × (unmarshal_erase_all_text_request wide_tap ≢ stuck)
    × (unmarshal_argument_value wide_tap ≢ stuck)
    × (unmarshal_payload wide_tap ≢ stuck)
    × (unmarshal_launch_app_request wide_tap ≢ stuck)
    × (unmarshal_add_media_request wide_tap ≢ stuck)
    × (unmarshal_empty wide_tap ≢ stuck)
unmarshal-ne-stuck_example = unmarshal-ne-stuck wide_tap

abbrev tapped : TapRequest
tapped = record { x = 3; y = 4 }

abbrev typed : InputTextRequest
typed = record { text = b'h' ∷ b'i' ∷ [] }

abbrev erased : EraseAllTextRequest
erased = record { characters_to_erase = 5 }

marshal_flat_example :
    (unmarshal_device_info (marshal_device_info screen) ≡ ok screen)
    × (unmarshal_set_location_request (marshal_set_location_request place) ≡ ok place)
    × (unmarshal_view_hierarchy_request (marshal_view_hierarchy_request asked) ≡ ok asked)
    × (unmarshal_view_hierarchy_response (marshal_view_hierarchy_response tree) ≡ ok tree)
    × (unmarshal_screenshot_response (marshal_screenshot_response shot) ≡ ok shot)
    × (unmarshal_check_window_updating_request (marshal_check_window_updating_request check)
        ≡ ok check)
    × (unmarshal_check_window_updating_response (marshal_check_window_updating_response checked)
        ≡ ok checked)
    × (unmarshal_tap_request (marshal_tap_request tapped) ≡ ok tapped)
    × (unmarshal_input_text_request (marshal_input_text_request typed) ≡ ok typed)
    × (unmarshal_erase_all_text_request (marshal_erase_all_text_request erased) ≡ ok erased)
    × (unmarshal_add_media_request (marshal_add_media_request media) ≡ ok media)
marshal_flat_example =
    unmarshal-marshal_flat screen place asked tree shot check checked tapped typed erased media
      (omega arith) (omega arith) (omega arith) (omega arith) (omega arith) (omega arith)
      (omega arith) (omega arith) (omega arith) (omega arith) (omega arith)
      (payload-fits, omega arith, omega arith)

counts-Within_example :
    Within (λ t. (1 ≤ t.2) × (t.2 ≤ 6) × (1 ≤ t.0) × (t.1 < 8)) (consume_tag wide_tap)
    × Within (Delimited wide_tap) (consume_length_delimited wide_tap)
    × Within (λ n. (1 ≤ n) × (n ≤ 6)) (skip_field wide_tap 0)
counts-Within_example = counts-Within wide_tap 0
