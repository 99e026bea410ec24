-- ===== src/Pbwire/RoundTrip/App.antt =====
-- The round trips of the messages that launch an app and add media, with the messages that they
-- embed.
use flowbaton.Prelude.{
  ℕ, ◌≡◌, ◌∙◌, refl, sym, subst, ap, List, [], ◌∷◌, ◌++◌, append-nil, append_assoc, length, All,
  Option, none, some, arith,
}
use flowbaton.Pbwire.Result.{ok}
use flowbaton.Pbwire.Encode.{IsU64, append_string}
use flowbaton.Pbwire.Decode.{consume_bytes_field}
use flowbaton.Pbwire.Scalars.{
  Reads, Reads-nil, Reads-append, Reads→ok, append_string-field, append_bytes-field,
  append_message-field, bytes_field, bytes_field-Reads, message_field, message_field-Reads,
}
use flowbaton.Pbwire.Messages.App.{
  ArgumentValue, marshal_argument_value, switch_argument_value, zero_argument_value,
  unmarshal_argument_value, LaunchAppRequest, append_arguments, marshal_launch_app_request,
  switch_launch_app_request, zero_launch_app_request, unmarshal_launch_app_request, Payload,
  marshal_payload, switch_payload, unmarshal_payload, AddMediaRequest, append_payload,
  marshal_add_media_request, switch_add_media_request, zero_add_media_request,
  unmarshal_add_media_request,
}

-- Lengths that a Go slice can have.
pub record ArgumentFits (m : ArgumentValue) : Type 0 where
  pub key : IsU64 (length m.key)
  pub value : IsU64 (length m.value)
  pub type : IsU64 (length m.type)
  pub encoded : IsU64 (length (marshal_argument_value m))

-- Three strings appended to `b` as the fields `i`, `j` and `k`.
three_strings :
    (b : List ℕ) (u v : List ℕ)
    → IsU64 (length u)
    → IsU64 (length v)
    → append_string (append_string b 2 u) 3 v ≡ b ++ (bytes_field 2 u ++ bytes_field 3 v)
three_strings b u v hu hv =
    append_string-field (append_string b 2 u) 3 v (omega arith) hv
    ∙ ap (λ c. c ++ bytes_field 3 v) (append_string-field b 2 u (omega arith) hu)
    ∙ append_assoc b (bytes_field 2 u) (bytes_field 3 v)

pub unmarshal-marshal_argument_value :
    (m : ArgumentValue)
    → ArgumentFits m
    → unmarshal_argument_value (marshal_argument_value m) ≡ ok m
unfolding marshal_argument_value unmarshal_argument_value switch_argument_value consume_bytes_field
unmarshal-marshal_argument_value m h =
    let one : ArgumentValue = record { key = m.key; value = []; type = [] } in
    let two : ArgumentValue = record { key = m.key; value = m.value; type = [] } in
    let switch = switch_argument_value in
    ap unmarshal_argument_value (
      three_strings (append_string [] 1 m.key) m.value m.type h.value h.type
      ∙ ap (λ b. b ++ (bytes_field 2 m.value ++ bytes_field 3 m.type))
          (append_string-field [] 1 m.key (omega arith) h.key))
    ∙ Reads→ok switch zero_argument_value m _ (
        Reads-append switch zero_argument_value one m _ _
          (bytes_field-Reads switch zero_argument_value one 1 m.key (omega arith) h.key
            (λ e. ground arith) (λ src n e. ground arith))
          (Reads-append switch one two m _ _
            (bytes_field-Reads switch one two 2 m.value (omega arith) h.value (λ e. ground arith)
              (λ src n e. ground arith))
            (bytes_field-Reads switch two m 3 m.type (omega arith) h.type (λ e. ground arith)
              (λ src n e. ground arith))))

arguments_field : List ArgumentValue → List ℕ
arguments_field [] = []
arguments_field (x ∷ rest) = message_field 2 (marshal_argument_value x) ++ arguments_field rest

append_arguments-field :
    (b : List ℕ) (arguments : List ArgumentValue)
    → All ArgumentFits arguments
    → append_arguments b arguments ≡ b ++ arguments_field arguments
unfolding append_arguments arguments_field
append_arguments-field b [] h = sym (append-nil b)
append_arguments-field b (x ∷ rest) h =
    let piece : List ℕ = message_field 2 (marshal_argument_value x) in
    ap (λ c. append_arguments c rest)
      (append_message-field b 2 (marshal_argument_value x) (omega arith) (h.0).encoded)
    ∙ append_arguments-field (b ++ piece) rest h.1
    ∙ append_assoc b piece (arguments_field rest)

arguments_field-Reads :
    (name : List ℕ) (done arguments : List ArgumentValue)
    → All ArgumentFits arguments
    → Reads switch_launch_app_request
        (record { package_name = name; arguments = done })
        (record { package_name = name; arguments = done ++ arguments })
        (arguments_field arguments)
unfolding arguments_field switch_launch_app_request consume_bytes_field
arguments_field-Reads name done [] h =
    Reads-nil switch_launch_app_request _ _
      (ap (λ l. record { package_name = name; arguments = l }) (sym (append-nil done)))
arguments_field-Reads name done (x ∷ rest) h =
    let switch = switch_launch_app_request in
    let before : LaunchAppRequest = record { package_name = name; arguments = done } in
    let after : LaunchAppRequest = record { package_name = name; arguments = done ++ (x ∷ []) } in
    let parsed = unmarshal-marshal_argument_value x (h.0) in
    subst
      (λ l.
        Reads switch before (record { package_name = name; arguments = l })
          (arguments_field (x ∷ rest)))
      (append_assoc done (x ∷ []) rest)
      (Reads-append switch before after _ _ _
        (message_field-Reads switch before after 2 (marshal_argument_value x) (omega arith)
          (h.0).encoded (λ src n e. ground arith))
        (arguments_field-Reads name (done ++ (x ∷ [])) rest h.1))

-- A LaunchAppRequest whose strings and encoded arguments have lengths below 2 ^ 64 is what
-- `Unmarshal` makes of the bytes that `Marshal` writes, its list of arguments in order.
pub unmarshal-marshal_launch_app_request :
    (m : LaunchAppRequest)
    → IsU64 (length m.package_name)
    → All ArgumentFits m.arguments
    → unmarshal_launch_app_request (marshal_launch_app_request m) ≡ ok m
unfolding marshal_launch_app_request unmarshal_launch_app_request switch_launch_app_request
    consume_bytes_field
unmarshal-marshal_launch_app_request m hn ha =
    let switch = switch_launch_app_request in
    let named : LaunchAppRequest = record { package_name = m.package_name; arguments = [] } in
    ap unmarshal_launch_app_request (
      append_arguments-field (append_string [] 1 m.package_name) m.arguments ha
      ∙ ap (λ b. b ++ arguments_field m.arguments)
          (append_string-field [] 1 m.package_name (omega arith) hn))
    ∙ Reads→ok switch zero_launch_app_request m _ (
        Reads-append switch zero_launch_app_request named m _ _
          (bytes_field-Reads switch zero_launch_app_request named 1 m.package_name (omega arith) hn
            (λ e. ground arith) (λ src n e. ground arith))
          (arguments_field-Reads m.package_name [] m.arguments ha))

pub unmarshal-marshal_payload :
    (m : Payload) → IsU64 (length m.bytes) → unmarshal_payload (marshal_payload m) ≡ ok m
unfolding marshal_payload unmarshal_payload switch_payload consume_bytes_field
unmarshal-marshal_payload m h =
    ap unmarshal_payload (append_bytes-field [] 1 m.bytes (omega arith) h)
    ∙ Reads→ok switch_payload (record { bytes = [] }) m (bytes_field 1 m.bytes)
        (bytes_field-Reads switch_payload (record { bytes = [] }) m 1 m.bytes (omega arith) h
          (λ e. ground arith) (λ src n e. ground arith))

-- What `append_payload` adds.
payload_field : Option Payload → List ℕ
payload_field none = []
payload_field (some payload) = message_field 1 (marshal_payload payload)

-- Lengths that the embedded payload can have.
abbrev pub PayloadFits : Option Payload → Type 0
PayloadFits none = Unit {0}
PayloadFits (some payload) = IsU64 (length payload.bytes) × IsU64 (length (marshal_payload payload))

append_payload-field :
    (payload : Option Payload)
    → PayloadFits payload
    → append_payload [] payload ≡ payload_field payload
unfolding append_payload payload_field
append_payload-field none h = refl
append_payload-field (some payload) h =
    append_message-field [] 1 (marshal_payload payload) (omega arith) h.1

payload_field-Reads :
    (payload : Option Payload)
    → PayloadFits payload
    → Reads switch_add_media_request zero_add_media_request
        (record { payload = payload; media_name = []; media_ext = [] })
        (payload_field payload)
unfolding payload_field switch_add_media_request consume_bytes_field
payload_field-Reads none h = Reads-nil switch_add_media_request zero_add_media_request _ refl
payload_field-Reads (some payload) h =
    let parsed = unmarshal-marshal_payload payload h.0 in
    message_field-Reads switch_add_media_request zero_add_media_request _ 1
      (marshal_payload payload) (omega arith) h.1 (λ src n e. ground arith)

-- An AddMediaRequest whose strings and embedded payload have lengths below 2 ^ 64 is what
-- `Unmarshal` makes of the bytes that `Marshal` writes, with a payload or with none.
pub unmarshal-marshal_add_media_request :
    (m : AddMediaRequest)
    → PayloadFits m.payload
    → IsU64 (length m.media_name)
    → IsU64 (length m.media_ext)
    → unmarshal_add_media_request (marshal_add_media_request m) ≡ ok m
unfolding marshal_add_media_request unmarshal_add_media_request switch_add_media_request
    consume_bytes_field
unmarshal-marshal_add_media_request m hp hn he =
    let switch = switch_add_media_request in
    let one : AddMediaRequest = record { payload = m.payload; media_name = []; media_ext = [] } in
    let two : AddMediaRequest = record {
      payload = m.payload;
      media_name = m.media_name;
      media_ext = [];
    } in
    ap unmarshal_add_media_request (
      three_strings (append_payload [] m.payload) m.media_name m.media_ext hn he
      ∙ ap (λ b. b ++ (bytes_field 2 m.media_name ++ bytes_field 3 m.media_ext))
          (append_payload-field m.payload hp))
    ∙ Reads→ok switch zero_add_media_request m _ (
        Reads-append switch zero_add_media_request one m _ _ (payload_field-Reads m.payload hp) (
          Reads-append switch one two m _ _
            (bytes_field-Reads switch one two 2 m.media_name (omega arith) hn (λ e. ground arith)
              (λ src n e. ground arith))
            (bytes_field-Reads switch two m 3 m.media_ext (omega arith) he (λ e. ground arith)
              (λ src n e. ground arith))))
