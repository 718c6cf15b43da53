-- ===== src/Packet/Connect/Frame.antt =====
-- The CONNECT constructor of src/Packets/Packet.cpp against the CONNECT packet of the protocol.
use esp_mqtt_client.Prelude.{
  ℕ, ◌≤◌, ◌<◌, ◌≡◌, ap, ◌∙◌, List, [], ◌∷◌, ◌++◌, Option, none, some, false, length, length-append,
  arith, ◌==◌, ◌⊎◌, inl, inr,
}
use esp_mqtt_client.Packet.{success, malformed_parameter, Memory, fresh_packet}
use esp_mqtt_client.RemainingLength.{encode_remaining_length}
use esp_mqtt_client.Packet.Buffer.{
  concat-append, encode_string, encode_string-short, two_bytes, concat,
}
use esp_mqtt_client.Packet.Frame.{frame, HasMemory, packet_of, build-frame}
use esp_mqtt_client.Packet.Connect.Flags.{connect_flags_lem}
use esp_mqtt_client.Packet.Connect.{
  ConnectArgs, create_connect, create_connect_as, create_connect_for, connect_flags, connect_length,
  string_chunks, will_length,
}
use esp_mqtt_client.Packet.Connect.Body.{
  field, optional_field, IsShort, will_fields, HasWill, connect_body, string_chunks-concat,
  length-optional_field, will_length-given, will_chunks-concat, length-short, length-will,
}

connect_length-body :
    (args : ConnectArgs) (client_id : List ℕ) (will : Option (List ℕ × List ℕ))
    → HasWill args will
    → connect_length args client_id ≡ length (connect_body args client_id will)
unfolding connect_length
connect_length-body args client_id none h =
    let user = optional_field args.username in
    let pass = optional_field args.password in
    rw h (
      omega (
        arith,
        length-append client_id (user ++ pass),
        length-append user pass,
        length-optional_field args.username,
        length-optional_field args.password,
      ))
connect_length-body args client_id (some (topic, payload)) h =
    let user = optional_field args.username in
    let pass = optional_field args.password in
    let will = field topic ++ field payload in
    let whole : will_length args ≡ length payload = will_length-given args topic payload h in
    rw (h.0, whole)
      (omega (
        arith,
        length-append client_id (will ++ (user ++ pass)),
        length-append will (user ++ pass),
        length-append topic (field payload),
        length-append user pass,
        length-optional_field args.username,
        length-optional_field args.password,
      ))

connect_chunks :
    (args : ConnectArgs) (client_id : List ℕ) (will : Option (List ℕ × List ℕ)) (cs : List (List ℕ))
    (rl : ℕ)
    → length client_id ≤ 65535
    → IsShort args.username
    → IsShort args.password
    → args.will_qos ≤ 2
    → rl ≡ length (connect_body args client_id will)
    → concat cs ≡ will_fields will
    → concat (
        (0x10 ∷ [])
        ∷ encode_remaining_length rl
        ∷ encode_string (b'M' ∷ b'Q' ∷ b'T' ∷ b'T' ∷ [])
        ∷ (4 ∷ [])
        ∷ (connect_flags args ∷ [])
        ∷ two_bytes args.keep_alive
        ∷ encode_string client_id
        ∷ (cs ++ (string_chunks args.username ++ string_chunks args.password)))
      ≡ frame 0x10 (connect_body args client_id will)
connect_chunks args client_id will cs rl c u p q e w = rw (
  e,
  connect_flags_lem args q,
  concat-append cs,
  w,
  concat-append (string_chunks args.username),
  string_chunks-concat args.username u,
  string_chunks-concat args.password p,
  encode_string-short client_id c,
  encode_string-short (b'M' ∷ b'Q' ∷ b'T' ∷ b'T' ∷ []) (omega arith),
)

pub length-connect_body :
    (args : ConnectArgs) (client_id : List ℕ) (will : Option (List ℕ × List ℕ))
    → length client_id ≤ 65535
    → IsShort args.username
    → IsShort args.password
    → HasWill args will
    → length (connect_body args client_id will) ≤ 268435455
length-connect_body args client_id will c u p h = omega (
  arith,
  length-append client_id
      (will_fields will ++ (optional_field args.username ++ optional_field args.password)),
  length-append (will_fields will) (optional_field args.username ++ optional_field args.password),
  length-append (optional_field args.username) (optional_field args.password),
  length-short args.username u,
  length-short args.password p,
  length-will args will h,
)

create_connect_as-frame :
    (mem : Memory) (args : ConnectArgs) (client_id : List ℕ) (will : Option (List ℕ × List ℕ))
    → HasMemory mem
    → length client_id ≤ 65535
    → IsShort args.username
    → IsShort args.password
    → args.will_qos ≤ 2
    → HasWill args will
    → create_connect_as mem args client_id
      ≡ some (packet_of 0 (frame 0x10 (connect_body args client_id will)), success)
unfolding create_connect_as
create_connect_as-frame mem args client_id will ok c u p q h =
    let (cs, run, w) = will_chunks-concat args will h in
    let e = connect_length-body args client_id will h in
    rw run (
      build-frame mem 0 _ 0x10 (connect_body args client_id will) false _ ok e
        (length-connect_body args client_id will c u p h)
        (connect_chunks args client_id will cs _ c u p q e w))

pub create_connect_named :
    (mem : Memory) (args : ConnectArgs) (client_id : List ℕ)
    → args.client_id ≡ some client_id
    → 0 < length client_id
    → create_connect mem args ≡ create_connect_as mem args client_id
unfolding create_connect create_connect_for
create_connect_named mem args client_id named h =
    let test : (length client_id == 0) ≡ false = ground arith in
    ap (create_connect_for mem args) named ∙ rw test

-- With memory, strings of at most 65535 bytes, a client id that is not empty, a will QoS of at most 2
-- and a will that is absent or has a payload, the CONNECT constructor succeeds, and its buffer holds
-- exactly the CONNECT packet of the protocol.
pub create_connect-frame :
    (mem : Memory) (args : ConnectArgs) (client_id : List ℕ) (will : Option (List ℕ × List ℕ))
    → HasMemory mem
    → args.client_id ≡ some client_id
    → 0 < length client_id
    → length client_id ≤ 65535
    → IsShort args.username
    → IsShort args.password
    → args.will_qos ≤ 2
    → HasWill args will
    → create_connect mem args
      ≡ some (packet_of 0 (frame 0x10 (connect_body args client_id will)), success)
create_connect-frame mem args client_id will ok named some_id c u p q h =
    create_connect_named mem args client_id named some_id
    ∙ create_connect_as-frame mem args client_id will ok c u p q h

-- A missing or empty client id is refused with MALFORMED_PARAMETER, whatever the memory and the other
-- arguments, and leaves a packet that holds no bytes.
pub create_connect_unnamed :
    (mem : Memory) (args : ConnectArgs)
    → (args.client_id ≡ none) ⊎ (args.client_id ≡ some [])
    → create_connect mem args ≡ some (fresh_packet 0 none, malformed_parameter)
unfolding create_connect create_connect_for
create_connect_unnamed mem args (inl e) = ap (create_connect_for mem args) e
create_connect_unnamed mem args (inr e) = ap (create_connect_for mem args) e
