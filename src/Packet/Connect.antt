-- ===== src/Packet/Connect.antt =====
-- The CONNECT constructor of src/Packets/Packet.cpp.
pub mod Flags
pub mod Body
pub mod Frame
pub mod Makes
use esp_mqtt_client.Prelude.{
  ℕ, zero, suc, ◌+◌, ◌-◌, ◌/◌, ◌%◌, ◌^◌, List, [], ◌∷◌, ◌++◌, Option, none, some, Bool, true, false,
  ◌&&◌, ◌||◌, not, ltb, leb, ◌==◌, if◌then◌else◌, bit_and, bit_or, length, take, ◌>>=◌,
}
use esp_mqtt_client.Config.{connect_type}
use esp_mqtt_client.RemainingLength.{encode_remaining_length}
use esp_mqtt_client.Packet.{Packet, Error, success, malformed_parameter, Memory, fresh_packet}
use esp_mqtt_client.Packet.Buffer.{encode_string, two_bytes}
use esp_mqtt_client.Packet.Create.{build}

-- What the constructor is given. A will payload is the memory behind the pointer.
pub record ConnectArgs : Type 0 where
  pub clean_session : Bool
  pub username : Option (List ℕ)
  pub password : Option (List ℕ)
  pub will_topic : Option (List ℕ)
  pub will_retain : Bool
  pub will_qos : ℕ
  pub will_payload : Option (List ℕ)
  pub will_payload_length : ℕ
  pub keep_alive : ℕ
  pub client_id : Option (List ℕ)

-- strlen on memory that may hold more bytes than the string
unfoldable pub strlen : List ℕ → ℕ
strlen [] = 0
strlen (zero ∷ bytes) = 0
strlen (suc b ∷ bytes) = suc (strlen bytes)

-- The length of the will payload: counted where the caller gave none, and cut at UINT16_MAX.
unfoldable pub will_length : ConnectArgs → ℕ
unfolding strlen
will_length args = elim args.will_payload [
  | none ↦ args.will_payload_length
  | some bytes ↦
      if args.will_payload_length == 0
      then if ltb 65535 (strlen bytes) then 65535 else strlen bytes
      else args.will_payload_length
]

abbrev pub string_size : Option (List ℕ) → ℕ
string_size none = 0
string_size (some s) = 2 + length s

abbrev pub is_some {ℓ} : {A : Type ℓ} → Option A → Bool
is_some none = false
is_some (some a) = true

-- The remaining length. The terms are strlen of strings in memory and a uint16_t.
unfoldable pub connect_length : ConnectArgs → List ℕ → ℕ
unfolding will_length
connect_length args client_id =
    6
    + 1
    + 1
    + 2
    + 2
    + length client_id
    + (elim args.will_topic [ none ↦ 0 | some t ↦ 2 + length t + 2 + will_length args ])
    + string_size args.username
    + string_size args.password

-- The flags byte, from which pointers are set and from the options of the will.
unfoldable pub connect_flags_of : (session user password will retain : Bool) → ℕ → ℕ
connect_flags_of session user password will retain qos =
    let a : ℕ = if session then 0x02 else 0 in
    let b : ℕ = if user then bit_or a 0x80 else a in
    let c : ℕ = if password then bit_or b 0x40 else b in
    let d : ℕ = if retain then bit_or (bit_or c 0x04) 0x20 else bit_or c 0x04 in
    if will then (if qos == 1 then bit_or d 0x08 else if qos == 2 then bit_or d 0x10 else d) else c

unfoldable pub connect_flags : ConnectArgs → ℕ
connect_flags args =
    connect_flags_of args.clean_session (is_some args.username) (is_some args.password)
      (is_some args.will_topic) args.will_retain args.will_qos

-- memcpy's source: `none` if the memory is shorter than asked for.
unfoldable pub read_memory : List ℕ → ℕ → Option (List ℕ)
read_memory bytes n = if leb n (length bytes) then some (take n bytes) else none

-- The will is written only if both pointers are set.
unfoldable pub will_chunks : ConnectArgs → Option (List (List ℕ))
unfolding will_length read_memory
will_chunks args = elim args.will_topic [
  | none ↦ some []
  | some topic ↦ elim args.will_payload [
    | none ↦ some []
    | some bytes ↦ (do
      payload ← read_memory bytes (will_length args)
      some (encode_string topic ∷ two_bytes (will_length args) ∷ payload ∷ []))
  ]
]

abbrev pub string_chunks : Option (List ℕ) → List (List ℕ)
string_chunks none = []
string_chunks (some s) = encode_string s ∷ []

-- Everything behind the test of the client id.
unfoldable pub create_connect_as : Memory → ConnectArgs → List ℕ → Option (Packet × Error)
unfolding build
create_connect_as mem args client_id = do
  will ← will_chunks args
  build mem (fresh_packet 0 none) (connect_length args client_id) false (
      (connect_type ∷ [])
      ∷ encode_remaining_length (connect_length args client_id)
      ∷ encode_string (b'M' ∷ b'Q' ∷ b'T' ∷ b'T' ∷ [])
      ∷ (4 ∷ [])
      ∷ (connect_flags args ∷ [])
      ∷ two_bytes args.keep_alive
      ∷ encode_string client_id
      ∷ (will ++ (string_chunks args.username ++ string_chunks args.password)))

-- The test of the client id.
unfoldable pub create_connect_for : Memory → ConnectArgs → Option (List ℕ) → Option (Packet × Error)
create_connect_for mem args none = some (fresh_packet 0 none, malformed_parameter)
create_connect_for mem args (some client_id) =
    if length client_id == 0
    then some (fresh_packet 0 none, malformed_parameter)
    else create_connect_as mem args client_id

unfoldable pub create_connect : Memory → ConnectArgs → Option (Packet × Error)
create_connect mem args = create_connect_for mem args args.client_id
