-- ===== src/Pbwire/RoundTrip/Flat.antt =====
-- The round trips of the messages of scalars, strings and one payload, together.
use flowbaton.Prelude.{◌≡◌, length}
use flowbaton.Pbwire.Result.{ok}
use flowbaton.Pbwire.Encode.{IsU32, IsU64}
use flowbaton.Pbwire.Messages.Device.{
  DeviceInfo, marshal_device_info, unmarshal_device_info, SetLocationRequest,
  marshal_set_location_request, unmarshal_set_location_request, ViewHierarchyRequest,
  marshal_view_hierarchy_request, unmarshal_view_hierarchy_request, ViewHierarchyResponse,
  marshal_view_hierarchy_response, unmarshal_view_hierarchy_response, ScreenshotResponse,
  marshal_screenshot_response, unmarshal_screenshot_response, CheckWindowUpdatingRequest,
  marshal_check_window_updating_request, unmarshal_check_window_updating_request,
  CheckWindowUpdatingResponse, marshal_check_window_updating_response,
  unmarshal_check_window_updating_response,
}
use flowbaton.Pbwire.Messages.Input.{
  TapRequest, marshal_tap_request, unmarshal_tap_request, InputTextRequest,
  marshal_input_text_request, unmarshal_input_text_request, EraseAllTextRequest,
  marshal_erase_all_text_request, unmarshal_erase_all_text_request,
}
use flowbaton.Pbwire.Messages.App.{
  AddMediaRequest, marshal_add_media_request, unmarshal_add_media_request,
}
use flowbaton.Pbwire.RoundTrip.Device.{
  unmarshal-marshal_device_info, unmarshal-marshal_set_location_request,
  unmarshal-marshal_view_hierarchy_request, unmarshal-marshal_view_hierarchy_response,
  unmarshal-marshal_screenshot_response, unmarshal-marshal_check_window_updating_request,
  unmarshal-marshal_check_window_updating_response,
}
use flowbaton.Pbwire.RoundTrip.Input.{
  unmarshal-marshal_tap_request, unmarshal-marshal_input_text_request,
  unmarshal-marshal_erase_all_text_request,
}
use flowbaton.Pbwire.RoundTrip.App.{PayloadFits, unmarshal-marshal_add_media_request}

-- The fields of a message fit their types on the wire.
abbrev pub MediaFits : AddMediaRequest → Type 0
MediaFits m = PayloadFits m.payload × IsU64 (length m.media_name) × IsU64 (length m.media_ext)

-- Messages about the screen and the device, of numbers, of two doubles given by any 64 bits, of
-- a Boolean and of bytes, and the requests of a tap, of text, of an erasure and of media, its
-- payload absent or there, are what `Unmarshal` makes of the bytes that `Marshal` writes, as long
-- as the numbers fit 32 bits and the lengths 64.
pub unmarshal-marshal_flat :
    (screen : DeviceInfo) (place : SetLocationRequest) (asked : ViewHierarchyRequest)
    (tree : ViewHierarchyResponse) (shot : ScreenshotResponse) (check : CheckWindowUpdatingRequest)
    (checked : CheckWindowUpdatingResponse) (tap : TapRequest) (typed : InputTextRequest)
    (erase : EraseAllTextRequest) (media : AddMediaRequest)
    → IsU32 screen.width_pixels
    → IsU32 screen.height_pixels
    → IsU64 place.latitude
    → IsU64 place.longitude
    → IsU64 (length tree.hierarchy)
    → IsU64 (length shot.bytes)
    → IsU64 (length check.app_id)
    → IsU32 tap.x
    → IsU32 tap.y
    → IsU64 (length typed.text)
    → IsU32 erase.characters_to_erase
    → MediaFits media
    → (unmarshal_device_info (marshal_device_info screen) ≡ ok screen)
      × (unmarshal_set_location_request (marshal_set_location_request place) ≡ ok place)
      × (unmarshal_view_hierarchy_request (marshal_view_hierarchy_request asked) ≡ ok asked)
      × (unmarshal_view_hierarchy_response (marshal_view_hierarchy_response tree) ≡ ok tree)
      × (unmarshal_screenshot_response (marshal_screenshot_response shot) ≡ ok shot)
      × (unmarshal_check_window_updating_request (marshal_check_window_updating_request check)
          ≡ ok check)
      × (unmarshal_check_window_updating_response (marshal_check_window_updating_response checked)
          ≡ ok checked)
      × (unmarshal_tap_request (marshal_tap_request tap) ≡ ok tap)
      × (unmarshal_input_text_request (marshal_input_text_request typed) ≡ ok typed)
      × (unmarshal_erase_all_text_request (marshal_erase_all_text_request erase) ≡ ok erase)
      × (unmarshal_add_media_request (marshal_add_media_request media) ≡ ok media)
unmarshal-marshal_flat screen place asked tree shot check checked tap typed erase media w h la lo t
      s c x y n e m =
    (
      unmarshal-marshal_device_info screen w h,
      unmarshal-marshal_set_location_request place la lo,
      unmarshal-marshal_view_hierarchy_request asked,
      unmarshal-marshal_view_hierarchy_response tree t,
      unmarshal-marshal_screenshot_response shot s,
      unmarshal-marshal_check_window_updating_request check c,
      unmarshal-marshal_check_window_updating_response checked,
      unmarshal-marshal_tap_request tap x y,
      unmarshal-marshal_input_text_request typed n,
      unmarshal-marshal_erase_all_text_request erase e,
      unmarshal-marshal_add_media_request media m.0 m.1 m.2,
    )
