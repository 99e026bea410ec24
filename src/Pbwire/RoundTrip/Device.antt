-- ===== src/Pbwire/RoundTrip/Device.antt =====
-- The round trips of the messages about the screen and the device.
use flowbaton.Prelude.{◌≡◌, ◌∙◌, ap, false, [], ◌++◌, length, arith}
use flowbaton.Pbwire.Result.{ok}
use flowbaton.Pbwire.Encode.{IsU32, IsU64, append_uint32, append_double}
use flowbaton.Pbwire.Decode.{consume_varint_field, consume_bytes_field}
use flowbaton.Pbwire.Scalars.{
  Reads-append, Reads→ok, uint32_field, uint32_field-Reads, append_uint32-field,
  append_string-field, append_bytes-field, bytes_field, bytes_field-Reads, append_bool-field,
  bool_field, bool_field-Reads, append_double-field, double_field,
}
use flowbaton.Pbwire.Double.{double_field-Reads}
use flowbaton.Pbwire.Messages.Device.{
  DeviceInfo, marshal_device_info, switch_device_info, zero_device_info, unmarshal_device_info,
  SetLocationRequest, marshal_set_location_request, switch_set_location_request,
  zero_set_location_request, unmarshal_set_location_request, ViewHierarchyRequest,
  marshal_view_hierarchy_request, switch_view_hierarchy_request, unmarshal_view_hierarchy_request,
  ViewHierarchyResponse, marshal_view_hierarchy_response, switch_view_hierarchy_response,
  unmarshal_view_hierarchy_response, ScreenshotResponse, marshal_screenshot_response,
  switch_screenshot_response, unmarshal_screenshot_response, CheckWindowUpdatingRequest,
  marshal_check_window_updating_request, switch_check_window_updating_request,
  unmarshal_check_window_updating_request, CheckWindowUpdatingResponse,
  marshal_check_window_updating_response, switch_check_window_updating_response,
  unmarshal_check_window_updating_response,
}

-- A DeviceInfo of two uint32 numbers is what `Unmarshal` makes of the bytes that `Marshal` writes.
pub unmarshal-marshal_device_info :
    (m : DeviceInfo)
    → IsU32 m.width_pixels
    → IsU32 m.height_pixels
    → unmarshal_device_info (marshal_device_info m) ≡ ok m
unfolding marshal_device_info unmarshal_device_info switch_device_info consume_varint_field
unmarshal-marshal_device_info m ha hb =
    let mid : DeviceInfo = record { width_pixels = m.width_pixels; height_pixels = 0 } in
    ap unmarshal_device_info (
      append_uint32-field (append_uint32 [] 1 m.width_pixels) 2 m.height_pixels (omega arith) hb
      ∙ ap (λ b. b ++ uint32_field 2 m.height_pixels)
          (append_uint32-field [] 1 m.width_pixels (omega arith) ha))
    ∙ Reads→ok switch_device_info zero_device_info m
        (uint32_field 1 m.width_pixels ++ uint32_field 2 m.height_pixels)
        (Reads-append switch_device_info zero_device_info mid m _ _
          (uint32_field-Reads switch_device_info zero_device_info mid 1 m.width_pixels (omega arith)
            ha (λ e. ground arith) (λ src n e. ground arith))
          (uint32_field-Reads switch_device_info mid m 2 m.height_pixels (omega arith) hb
            (λ e. ground arith) (λ src n e. ground arith)))

-- A SetLocationRequest, its two doubles given by any 64 bits, is what `Unmarshal` makes of the bytes
-- that `Marshal` writes.
pub unmarshal-marshal_set_location_request :
    (m : SetLocationRequest)
    → IsU64 m.latitude
    → IsU64 m.longitude
    → unmarshal_set_location_request (marshal_set_location_request m) ≡ ok m
unfolding marshal_set_location_request unmarshal_set_location_request switch_set_location_request
unmarshal-marshal_set_location_request m ha hb =
    let mid : SetLocationRequest = record { latitude = m.latitude; longitude = 0 } in
    ap unmarshal_set_location_request (
      append_double-field (append_double [] 1 m.latitude) 2 m.longitude (omega arith)
      ∙ ap (λ b. b ++ double_field 2 m.longitude)
          (append_double-field [] 1 m.latitude (omega arith)))
    ∙ Reads→ok switch_set_location_request zero_set_location_request m
        (double_field 1 m.latitude ++ double_field 2 m.longitude)
        (Reads-append switch_set_location_request zero_set_location_request mid m _ _
          (double_field-Reads switch_set_location_request zero_set_location_request mid 1 m.latitude
            (omega arith) ha (λ e. ground arith) (λ src e. ground arith))
          (double_field-Reads switch_set_location_request mid m 2 m.longitude (omega arith) hb
            (λ e. ground arith) (λ src e. ground arith)))

pub unmarshal-marshal_view_hierarchy_request :
    (m : ViewHierarchyRequest)
    → unmarshal_view_hierarchy_request (marshal_view_hierarchy_request m) ≡ ok m
unfolding marshal_view_hierarchy_request unmarshal_view_hierarchy_request
    switch_view_hierarchy_request consume_varint_field
unmarshal-marshal_view_hierarchy_request m =
    ap unmarshal_view_hierarchy_request
      (append_bool-field [] 1 m.exclude_keyboard_elements (omega arith))
    ∙ Reads→ok switch_view_hierarchy_request (record { exclude_keyboard_elements = false }) m
        (bool_field 1 m.exclude_keyboard_elements)
        (bool_field-Reads switch_view_hierarchy_request
          (record { exclude_keyboard_elements = false }) m 1 m.exclude_keyboard_elements
          (omega arith) (λ e. ground arith) (λ src n t e. ground arith))

pub unmarshal-marshal_view_hierarchy_response :
    (m : ViewHierarchyResponse)
    → IsU64 (length m.hierarchy)
    → unmarshal_view_hierarchy_response (marshal_view_hierarchy_response m) ≡ ok m
unfolding marshal_view_hierarchy_response unmarshal_view_hierarchy_response
    switch_view_hierarchy_response consume_bytes_field
unmarshal-marshal_view_hierarchy_response m h =
    ap unmarshal_view_hierarchy_response (append_string-field [] 1 m.hierarchy (omega arith) h)
    ∙ Reads→ok switch_view_hierarchy_response (record { hierarchy = [] }) m
        (bytes_field 1 m.hierarchy)
        (bytes_field-Reads switch_view_hierarchy_response (record { hierarchy = [] }) m 1
          m.hierarchy (omega arith) h (λ e. ground arith) (λ src n e. ground arith))

pub unmarshal-marshal_screenshot_response :
    (m : ScreenshotResponse)
    → IsU64 (length m.bytes)
    → unmarshal_screenshot_response (marshal_screenshot_response m) ≡ ok m
unfolding marshal_screenshot_response unmarshal_screenshot_response switch_screenshot_response
    consume_bytes_field
unmarshal-marshal_screenshot_response m h =
    ap unmarshal_screenshot_response (append_bytes-field [] 1 m.bytes (omega arith) h)
    ∙ Reads→ok switch_screenshot_response (record { bytes = [] }) m (bytes_field 1 m.bytes)
        (bytes_field-Reads switch_screenshot_response (record { bytes = [] }) m 1 m.bytes
          (omega arith) h (λ e. ground arith) (λ src n e. ground arith))

pub unmarshal-marshal_check_window_updating_request :
    (m : CheckWindowUpdatingRequest)
    → IsU64 (length m.app_id)
    → unmarshal_check_window_updating_request (marshal_check_window_updating_request m) ≡ ok m
unfolding marshal_check_window_updating_request unmarshal_check_window_updating_request
    switch_check_window_updating_request consume_bytes_field
unmarshal-marshal_check_window_updating_request m h =
    ap unmarshal_check_window_updating_request (append_string-field [] 1 m.app_id (omega arith) h)
    ∙ Reads→ok switch_check_window_updating_request (record { app_id = [] }) m
        (bytes_field 1 m.app_id)
        (bytes_field-Reads switch_check_window_updating_request (record { app_id = [] }) m 1
          m.app_id (omega arith) h (λ e. ground arith) (λ src n e. ground arith))

pub unmarshal-marshal_check_window_updating_response :
    (m : CheckWindowUpdatingResponse)
    → unmarshal_check_window_updating_response (marshal_check_window_updating_response m) ≡ ok m
unfolding marshal_check_window_updating_response unmarshal_check_window_updating_response
    switch_check_window_updating_response consume_varint_field
unmarshal-marshal_check_window_updating_response m =
    ap unmarshal_check_window_updating_response
      (append_bool-field [] 1 m.is_window_updating (omega arith))
    ∙ Reads→ok switch_check_window_updating_response (record { is_window_updating = false }) m
        (bool_field 1 m.is_window_updating)
        (bool_field-Reads switch_check_window_updating_response
          (record { is_window_updating = false }) m 1 m.is_window_updating (omega arith)
          (λ e. ground arith) (λ src n t e. ground arith))
