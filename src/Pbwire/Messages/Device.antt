-- ===== src/Pbwire/Messages/Device.antt =====
-- internal/android/pbwire/messages.go: the messages about the screen and the device.
use flowbaton.Prelude.{ℕ, ◌%◌, ◌^◌, List, [], Bool, false, not, ◌==◌, if◌then◌else◌}
use flowbaton.Pbwire.Result.{Result, ok, ◌>>=◌}
use flowbaton.Pbwire.Encode.{append_uint32, append_bool, append_double, append_string, append_bytes}
use flowbaton.Pbwire.Decode.{consume_varint_field, consume_bytes_field, consume_double_field}
use flowbaton.Pbwire.Fields.{Switch, decode, skip_unknown, discard_all}

-- The messages that declare no field, requests and responses alike.
unfoldable pub marshal_empty : List ℕ
marshal_empty = []

unfoldable pub unmarshal_empty : List ℕ → Result (Unit {0})
unmarshal_empty src = discard_all src

pub record DeviceInfo : Type 0 where
  pub width_pixels : ℕ
  pub height_pixels : ℕ

unfoldable pub marshal_device_info : DeviceInfo → List ℕ
marshal_device_info m = append_uint32 (append_uint32 [] 1 m.width_pixels) 2 m.height_pixels

unfoldable pub switch_device_info : Switch DeviceInfo
switch_device_info m field wire src =
    if field == 1
    then (do (v, n) ← consume_varint_field src wire; ok (record m { width_pixels = v % 2 ^ 32 }, n))
    else if field == 2
    then (do
      (v, n) ← consume_varint_field src wire
      ok (record m { height_pixels = v % 2 ^ 32 }, n))
    else skip_unknown m field wire src

abbrev pub zero_device_info : DeviceInfo
zero_device_info = record { width_pixels = 0; height_pixels = 0 }

unfoldable pub unmarshal_device_info : List ℕ → Result DeviceInfo
unmarshal_device_info src = decode switch_device_info zero_device_info src

pub record ViewHierarchyRequest : Type 0 where
  pub exclude_keyboard_elements : Bool

unfoldable pub marshal_view_hierarchy_request : ViewHierarchyRequest → List ℕ
marshal_view_hierarchy_request m = append_bool [] 1 m.exclude_keyboard_elements

unfoldable pub switch_view_hierarchy_request : Switch ViewHierarchyRequest
switch_view_hierarchy_request m field wire src =
    if field == 1
    then (do
      (v, n) ← consume_varint_field src wire
      ok (record m { exclude_keyboard_elements = not (v == 0) }, n))
    else skip_unknown m field wire src

unfoldable pub unmarshal_view_hierarchy_request : List ℕ → Result ViewHierarchyRequest
unmarshal_view_hierarchy_request src =
    decode switch_view_hierarchy_request (record { exclude_keyboard_elements = false }) src

pub record ViewHierarchyResponse : Type 0 where
  pub hierarchy : List ℕ

unfoldable pub marshal_view_hierarchy_response : ViewHierarchyResponse → List ℕ
marshal_view_hierarchy_response m = append_string [] 1 m.hierarchy

unfoldable pub switch_view_hierarchy_response : Switch ViewHierarchyResponse
switch_view_hierarchy_response m field wire src =
    if field == 1
    then (do (v, n) ← consume_bytes_field src wire; ok (record m { hierarchy = v }, n))
    else skip_unknown m field wire src

unfoldable pub unmarshal_view_hierarchy_response : List ℕ → Result ViewHierarchyResponse
unmarshal_view_hierarchy_response src =
    decode switch_view_hierarchy_response (record { hierarchy = [] }) src

pub record ScreenshotResponse : Type 0 where
  pub bytes : List ℕ

unfoldable pub marshal_screenshot_response : ScreenshotResponse → List ℕ
marshal_screenshot_response m = append_bytes [] 1 m.bytes

unfoldable pub switch_screenshot_response : Switch ScreenshotResponse
switch_screenshot_response m field wire src =
    if field == 1
    then (do (v, n) ← consume_bytes_field src wire; ok (record m { bytes = v }, n))
    else skip_unknown m field wire src

unfoldable pub unmarshal_screenshot_response : List ℕ → Result ScreenshotResponse
unmarshal_screenshot_response src = decode switch_screenshot_response (record { bytes = [] }) src

-- The coordinates are doubles, that is, their bits.
pub record SetLocationRequest : Type 0 where
  pub latitude : ℕ
  pub longitude : ℕ

unfoldable pub marshal_set_location_request : SetLocationRequest → List ℕ
marshal_set_location_request m = append_double (append_double [] 1 m.latitude) 2 m.longitude

unfoldable pub switch_set_location_request : Switch SetLocationRequest
switch_set_location_request m field wire src =
    if field == 1
    then (do (v, n) ← consume_double_field src wire; ok (record m { latitude = v }, n))
    else if field == 2
    then (do (v, n) ← consume_double_field src wire; ok (record m { longitude = v }, n))
    else skip_unknown m field wire src

abbrev pub zero_set_location_request : SetLocationRequest
zero_set_location_request = record { latitude = 0; longitude = 0 }

unfoldable pub unmarshal_set_location_request : List ℕ → Result SetLocationRequest
unmarshal_set_location_request src =
    decode switch_set_location_request zero_set_location_request src

pub record CheckWindowUpdatingRequest : Type 0 where
  pub app_id : List ℕ

unfoldable pub marshal_check_window_updating_request : CheckWindowUpdatingRequest → List ℕ
marshal_check_window_updating_request m = append_string [] 1 m.app_id

unfoldable pub switch_check_window_updating_request : Switch CheckWindowUpdatingRequest
switch_check_window_updating_request m field wire src =
    if field == 1
    then (do (v, n) ← consume_bytes_field src wire; ok (record m { app_id = v }, n))
    else skip_unknown m field wire src

unfoldable pub unmarshal_check_window_updating_request : List ℕ → Result CheckWindowUpdatingRequest
unmarshal_check_window_updating_request src =
    decode switch_check_window_updating_request (record { app_id = [] }) src

pub record CheckWindowUpdatingResponse : Type 0 where
  pub is_window_updating : Bool

unfoldable pub marshal_check_window_updating_response : CheckWindowUpdatingResponse → List ℕ
marshal_check_window_updating_response m = append_bool [] 1 m.is_window_updating

-- Any varint but zero is true.
unfoldable pub switch_check_window_updating_response : Switch CheckWindowUpdatingResponse
switch_check_window_updating_response m field wire src =
    if field == 1
    then (do
      (v, n) ← consume_varint_field src wire
      ok (record m { is_window_updating = not (v == 0) }, n))
    else skip_unknown m field wire src

unfoldable pub unmarshal_check_window_updating_response :
    List ℕ → Result CheckWindowUpdatingResponse
unmarshal_check_window_updating_response src =
    decode switch_check_window_updating_response (record { is_window_updating = false }) src
