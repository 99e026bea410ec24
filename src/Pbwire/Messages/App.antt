-- ===== src/Pbwire/Messages/App.antt =====
-- internal/android/pbwire/messages.go: launching an app and adding media.
use flowbaton.Prelude.{ℕ, List, [], ◌∷◌, ◌++◌, Option, none, some, ◌==◌, ◌||◌, if◌then◌else◌}
use flowbaton.Pbwire.Result.{Result, ok, ◌>>=◌}
use flowbaton.Pbwire.Encode.{append_string, append_bytes, append_message}
use flowbaton.Pbwire.Decode.{consume_bytes_field}
use flowbaton.Pbwire.Fields.{Switch, decode, skip_unknown}

pub record ArgumentValue : Type 0 where
  pub key : List ℕ
  pub value : List ℕ
  pub type : List ℕ

unfoldable pub marshal_argument_value : ArgumentValue → List ℕ
marshal_argument_value m =
    append_string (append_string (append_string [] 1 m.key) 2 m.value) 3 m.type

-- The inner `switch field` of the branch for the fields 1, 2 and 3.
abbrev pub assign_argument_value : ArgumentValue → ℕ → List ℕ → ArgumentValue
assign_argument_value m field v =
    if field == 1
    then record m { key = v }
    else if field == 2
    then record m { value = v }
    else record m { type = v }

unfoldable pub switch_argument_value : Switch ArgumentValue
switch_argument_value m field wire src =
    if field == 1 || field == 2 || field == 3
    then (do (v, n) ← consume_bytes_field src wire; ok (assign_argument_value m field v, n))
    else skip_unknown m field wire src

abbrev pub zero_argument_value : ArgumentValue
zero_argument_value = record { key = []; value = []; type = [] }

unfoldable pub unmarshal_argument_value : List ℕ → Result ArgumentValue
unmarshal_argument_value src = decode switch_argument_value zero_argument_value src

pub record LaunchAppRequest : Type 0 where
  pub package_name : List ℕ
  pub arguments : List ArgumentValue

-- `for _, argument := range m.Arguments`
unfoldable pub append_arguments : List ℕ → List ArgumentValue → List ℕ
append_arguments b [] = b
append_arguments b (argument ∷ arguments) =
    append_arguments (append_message b 2 (marshal_argument_value argument)) arguments

unfoldable pub marshal_launch_app_request : LaunchAppRequest → List ℕ
marshal_launch_app_request m = append_arguments (append_string [] 1 m.package_name) m.arguments

unfoldable pub switch_launch_app_request : Switch LaunchAppRequest
switch_launch_app_request m field wire src =
    if field == 1
    then (do (v, n) ← consume_bytes_field src wire; ok (record m { package_name = v }, n))
    else if field == 2
    then (do
      (v, n) ← consume_bytes_field src wire
      argument ← unmarshal_argument_value v
      ok (record m { arguments = m.arguments ++ (argument ∷ []) }, n))
    else skip_unknown m field wire src

abbrev pub zero_launch_app_request : LaunchAppRequest
zero_launch_app_request = record { package_name = []; arguments = [] }

unfoldable pub unmarshal_launch_app_request : List ℕ → Result LaunchAppRequest
unmarshal_launch_app_request src = decode switch_launch_app_request zero_launch_app_request src

pub record Payload : Type 0 where
  pub bytes : List ℕ

unfoldable pub marshal_payload : Payload → List ℕ
marshal_payload m = append_bytes [] 1 m.bytes

unfoldable pub switch_payload : Switch Payload
switch_payload m field wire src =
    if field == 1
    then (do (v, n) ← consume_bytes_field src wire; ok (record m { bytes = v }, n))
    else skip_unknown m field wire src

unfoldable pub unmarshal_payload : List ℕ → Result Payload
unmarshal_payload src = decode switch_payload (record { bytes = [] }) src

pub record AddMediaRequest : Type 0 where
  pub payload : Option Payload
  pub media_name : List ℕ
  pub media_ext : List ℕ

unfoldable pub append_payload : List ℕ → Option Payload → List ℕ
append_payload b none = b
append_payload b (some payload) = append_message b 1 (marshal_payload payload)

unfoldable pub marshal_add_media_request : AddMediaRequest → List ℕ
marshal_add_media_request m =
    append_string (append_string (append_payload [] m.payload) 2 m.media_name) 3 m.media_ext

unfoldable pub switch_add_media_request : Switch AddMediaRequest
switch_add_media_request m field wire src =
    if field == 1
    then (do
      (v, n) ← consume_bytes_field src wire
      payload ← unmarshal_payload v
      ok (record m { payload = some payload }, n))
    else if field == 2
    then (do (v, n) ← consume_bytes_field src wire; ok (record m { media_name = v }, n))
    else if field == 3
    then (do (v, n) ← consume_bytes_field src wire; ok (record m { media_ext = v }, n))
    else skip_unknown m field wire src

abbrev pub zero_add_media_request : AddMediaRequest
zero_add_media_request = record { payload = none; media_name = []; media_ext = [] }

unfoldable pub unmarshal_add_media_request : List ℕ → Result AddMediaRequest
unmarshal_add_media_request src = decode switch_add_media_request zero_add_media_request src
