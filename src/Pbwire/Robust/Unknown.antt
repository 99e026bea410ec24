-- ===== src/Pbwire/Robust/Unknown.antt =====
-- Fields that a decoder of internal/android/pbwire/messages.go does not know, and known fields of
-- another wire type.
use flowbaton.Prelude.{ℕ, ◌<◌, ◌≤◌, ◌≡◌, ◌≢◌, List, ◌++◌, length, arith}
use flowbaton.Pbwire.Result.{ok, err, wire_type}
use flowbaton.Pbwire.Decode.{skip_field, consume_bytes_field, consume_varint_field}
use flowbaton.Pbwire.Tokens.{IsField, tag}
use flowbaton.Pbwire.Fields.{Switch, decode, skip_unknown}
use flowbaton.Pbwire.Loop.{decode_field, decode_refused}
use flowbaton.Pbwire.Messages.Device.{switch_device_info, unmarshal_device_info}
use flowbaton.Pbwire.Messages.App.{
  switch_launch_app_request, unmarshal_launch_app_request, switch_add_media_request,
  unmarshal_add_media_request,
}

module _ {M : Type 0} (switch : Switch M) (known : ℕ) where
  -- A field above `known` goes to the `default` branch.
  abbrev Skips : Type 0
  Skips =
      (m : M) (field wire : ℕ) (src : List ℕ)
      → known < field
      → switch m field wire src ≡ skip_unknown m field wire src

  decode_unknown :
      Skips
      → (m : M) (field wire : ℕ) (value rest : List ℕ) → IsField field
      → wire < 8
      → known < field
      → skip_field (value ++ rest) wire ≡ ok (length value)
      → decode switch m ((tag field wire ++ value) ++ rest) ≡ decode switch m rest
  unfolding skip_unknown
  decode_unknown skips m field wire value rest hf hw new skip =
      decode_field switch m m field wire value rest hf hw
        (ground (arith, skips m field wire (value ++ rest)))

device_info-Skips : Skips switch_device_info 2
unfolding switch_device_info
device_info-Skips m field wire src h = ground arith

launch_app_request-Skips : Skips switch_launch_app_request 2
unfolding switch_launch_app_request
launch_app_request-Skips m field wire src h = ground arith

add_media_request-Skips : Skips switch_add_media_request 3
unfolding switch_add_media_request
add_media_request-Skips m field wire src h = ground arith

-- A field that a newer agent put in front, with a number above 3 and a value that skipField takes
-- whole, changes nothing of what DeviceInfo, LaunchAppRequest and AddMediaRequest decode to.
pub unmarshal_unknown :
    (field wire : ℕ) (value rest : List ℕ)
    → IsField field
    → wire < 8
    → 3 < field
    → skip_field (value ++ rest) wire ≡ ok (length value)
    → (unmarshal_device_info ((tag field wire ++ value) ++ rest) ≡ unmarshal_device_info rest)
      × (unmarshal_launch_app_request ((tag field wire ++ value) ++ rest)
          ≡ unmarshal_launch_app_request rest)
      × (unmarshal_add_media_request ((tag field wire ++ value) ++ rest)
          ≡ unmarshal_add_media_request rest)
unfolding unmarshal_device_info unmarshal_launch_app_request unmarshal_add_media_request
unmarshal_unknown field wire value rest hf hw new skip = (
  decode_unknown switch_device_info 2 device_info-Skips _ field wire value rest hf hw (omega arith)
      skip,
  decode_unknown switch_launch_app_request 2 launch_app_request-Skips _ field wire value rest hf hw
      (omega arith) skip,
  decode_unknown switch_add_media_request 3 add_media_request-Skips _ field wire value rest hf hw
      (omega arith) skip,
)

-- A field 1 or 2 of DeviceInfo, LaunchAppRequest or AddMediaRequest whose wire type is neither
-- varint nor length-delimited is refused with the wire-type error, whatever bytes follow the tag.
pub unmarshal_wrong_wire :
    (field wire : ℕ) (rest : List ℕ)
    → IsField field
    → wire < 8
    → field ≤ 2
    → wire ≢ 0
    → wire ≢ 2
    → (unmarshal_device_info (tag field wire ++ rest) ≡ err wire_type)
      × (unmarshal_launch_app_request (tag field wire ++ rest) ≡ err wire_type)
      × (unmarshal_add_media_request (tag field wire ++ rest) ≡ err wire_type)
unfolding unmarshal_device_info unmarshal_launch_app_request unmarshal_add_media_request
    switch_device_info switch_launch_app_request switch_add_media_request consume_bytes_field
    consume_varint_field
unmarshal_wrong_wire field wire rest hf hw known v b = (
  decode_refused switch_device_info _ field wire rest wire_type hf hw (ground arith),
  decode_refused switch_launch_app_request _ field wire rest wire_type hf hw (ground arith),
  decode_refused switch_add_media_request _ field wire rest wire_type hf hw (ground arith),
)
