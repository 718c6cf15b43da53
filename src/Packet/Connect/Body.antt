-- ===== src/Packet/Connect/Body.antt =====
-- The body of a CONNECT packet, and the parts of it that the constructor in src/Packets/Packet.cpp writes.
use esp_mqtt_client.Prelude.{
  ℕ, ◌≤◌, ◌<◌, ◌≡◌, refl, List, [], ◌∷◌, ◌++◌, Option, none, some, true, false, length,
  length-append, arith, append_assoc, append-nil, ◌==◌, take_all, leb,
}
use esp_mqtt_client.Packet.Buffer.{encode_string, encode_string-short, two_bytes, concat}
use esp_mqtt_client.Packet.Connect.Flags.{protocol_flags}
use esp_mqtt_client.Packet.Connect.{
  ConnectArgs, will_chunks, string_chunks, string_size, will_length,
}

-- A string of the protocol: its length in two bytes, then its bytes.
abbrev pub field : List ℕ → List ℕ
field s = two_bytes (length s) ++ s

abbrev pub optional_field : Option (List ℕ) → List ℕ
optional_field none = []
optional_field (some s) = field s

abbrev pub IsShort : Option (List ℕ) → Type 0
IsShort none = Unit {0}
IsShort (some s) = length s ≤ 65535

-- The will of a CONNECT packet: topic and payload.
abbrev pub will_fields : Option (List ℕ × List ℕ) → List ℕ
will_fields none = []
will_fields (some (topic, payload)) = field topic ++ field payload

-- What the arguments say of the will: both pointers null, or a topic and a payload of the stated
-- length, not empty.
abbrev pub HasWill : ConnectArgs → Option (List ℕ × List ℕ) → Type 0
HasWill args none = args.will_topic ≡ none
HasWill args (some (topic, payload)) =
    (args.will_topic ≡ some topic)
    × (args.will_payload ≡ some payload)
    × (args.will_payload_length ≡ length payload)
    × (0 < length payload)
    × (length payload ≤ 65535)
    × (length topic ≤ 65535)

-- The CONNECT packet of the protocol behind the fixed header.
abbrev pub connect_body : ConnectArgs → List ℕ → Option (List ℕ × List ℕ) → List ℕ
connect_body args client_id will =
    field (b'M' ∷ b'Q' ∷ b'T' ∷ b'T' ∷ [])
    ++ (4
        ∷ protocol_flags args
        ∷ (two_bytes args.keep_alive
            ++ (field client_id
                ++ (will_fields will
                    ++ (optional_field args.username ++ optional_field args.password)))))

pub string_chunks-concat :
    (s : Option (List ℕ)) → IsShort s → concat (string_chunks s) ≡ optional_field s
string_chunks-concat none h = refl
string_chunks-concat (some s) h = rw (encode_string-short s h, append-nil)

pub length-optional_field : (s : Option (List ℕ)) → length (optional_field s) ≡ string_size s
length-optional_field none = refl
length-optional_field (some s) = omega arith

pub will_length-given :
    (args : ConnectArgs) (topic payload : List ℕ)
    → HasWill args (some (topic, payload))
    → will_length args ≡ length payload
unfolding will_length
will_length-given args topic payload h =
    let given : (args.will_payload_length == 0) ≡ false = ground arith in rw (h.1, given) h.2

-- The writes of the will spell out its fields.
abbrev WillWritten : ConnectArgs → Option (List ℕ × List ℕ) → Type 0
WillWritten args will =
    (cs : List (List ℕ)) × (will_chunks args ≡ some cs) × (concat cs ≡ will_fields will)

pub will_chunks-concat :
    (args : ConnectArgs) (will : Option (List ℕ × List ℕ))
    → HasWill args will
    → WillWritten args will
unfolding will_chunks
will_chunks-concat args none h = ([], rw h, refl)
will_chunks-concat args (some (topic, payload)) h =
    let whole : will_length args ≡ length payload = will_length-given args topic payload h in
    let enough : leb (length payload) (length payload) ≡ true = ground arith in
    (
      encode_string topic ∷ two_bytes (length payload) ∷ payload ∷ [],
      rw (h.0, h.1, whole, enough, take_all payload),
      rw (encode_string-short topic h.5, append-nil)
          (append_assoc (two_bytes (length topic)) topic _),
    )

pub length-short : (s : Option (List ℕ)) → IsShort s → length (optional_field s) ≤ 65537
length-short none h = omega arith
length-short (some s) h = omega arith

pub length-will :
    (args : ConnectArgs) (will : Option (List ℕ × List ℕ))
    → HasWill args will
    → length (will_fields will) ≤ 131074
length-will args none h = omega arith
length-will args (some (topic, payload)) h = omega (arith, length-append topic (field payload))
