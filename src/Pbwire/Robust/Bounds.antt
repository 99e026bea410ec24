-- ===== src/Pbwire/Robust/Bounds.antt =====
-- The uint32 fields that internal/android/pbwire/messages.go decodes.
use flowbaton.Prelude.{ℕ, ◌≡◌, List, arith}
use flowbaton.Pbwire.Result.{ok}
use flowbaton.Pbwire.Encode.{IsU32}
use flowbaton.Pbwire.Fields.{skip_unknown}
use flowbaton.Pbwire.Loop.{decode_keeps}
use flowbaton.Pbwire.Messages.Device.{
  DeviceInfo, switch_device_info, zero_device_info, unmarshal_device_info,
}
use flowbaton.Pbwire.Messages.Input.{
  TapRequest, switch_tap_request, zero_tap_request, unmarshal_tap_request,
}

-- Whatever the bytes, a DeviceInfo that is decoded holds numbers of 32 bits.
pub unmarshal_device_info-IsU32 :
    (src : List ℕ) (m : DeviceInfo)
    → unmarshal_device_info src ≡ ok m
    → IsU32 m.width_pixels × IsU32 m.height_pixels
unfolding unmarshal_device_info switch_device_info skip_unknown
unmarshal_device_info-IsU32 src m e =
    decode_keeps switch_device_info (λ m. IsU32 m.width_pixels × IsU32 m.height_pixels)
      (λ m field wire bytes r h k. ground arith) zero_device_info src m (omega arith) e

-- Whatever the bytes, a TapRequest that is decoded holds numbers of 32 bits.
pub unmarshal_tap_request-IsU32 :
    (src : List ℕ) (m : TapRequest) → unmarshal_tap_request src ≡ ok m → IsU32 m.x × IsU32 m.y
unfolding unmarshal_tap_request switch_tap_request skip_unknown
unmarshal_tap_request-IsU32 src m e =
    decode_keeps switch_tap_request (λ m. IsU32 m.x × IsU32 m.y)
      (λ m field wire bytes r h k. ground arith) zero_tap_request src m (omega arith) e
