-- ===== src/Packet.antt =====
-- src/Packets/Packet.h, Packet.cpp and StringUtil.cpp: outgoing packets (the build without the
-- memory pool). A C string is the list of its bytes and a pointer that may be null is an option.
-- A constructor returns `none` where the C++ code would write outside the allocated buffer or read
-- outside the memory it was given.
pub mod Buffer
pub mod Create
pub mod Frame
pub mod Publish
pub mod Subscribe
pub mod Connect
pub mod Chunked
pub mod Dup
pub mod Makes
use esp_mqtt_client.Prelude.{
  ℕ, ◌+◌, ◌-◌, ◌/◌, ◌%◌, ◌^◌, List, [], ◌∷◌, ◌++◌, Option, none, some, Bool, true, false, ◌&&◌,
  ◌||◌, not, ltb, leb, ◌==◌, if◌then◌else◌, bit_and, bit_or, length, replicate, drop, min,
}
use esp_mqtt_client.Config.{
  size_mod, emc_min_free_memory, emc_tx_buffer_size, publish_type, puback_type, pubcomp_type,
}
use esp_mqtt_client.RemainingLength.{remaining_length_length}

-- espMqttClientTypes::Error
pub data Error : Type 0 where
  success out_of_memory max_retries malformed_parameter misc_error : Error

-- A PayloadCallback, given the room and the index: the bytes that it copies.
abbrev pub PayloadCallback : Type 0
PayloadCallback = ℕ → ℕ → List ℕ

-- `contents` is what `_data` points to.
pub record Packet : Type 0 where
  pub packet_id : ℕ
  pub contents : Option (List ℕ)
  pub size : ℕ
  pub payload_index : ℕ
  pub payload_start_index : ℕ
  pub payload_end_index : ℕ
  pub get_payload : Option PayloadCallback

-- What a constructor starts from.
abbrev pub fresh_packet : ℕ → Option PayloadCallback → Packet
fresh_packet packet_id callback = record {
  packet_id = packet_id;
  contents = none;
  size = 0;
  payload_index = 0;
  payload_start_index = 0;
  payload_end_index = 0;
  get_payload = callback;
}

-- size_t addition and subtraction
abbrev pub add_size : ℕ → ℕ → ℕ
add_size a b = (a + b) % size_mod

abbrev pub sub_size : ℕ → ℕ → ℕ
sub_size a b = (a + size_mod - b) % size_mod

-- What the platform answers: EMC_GET_FREE_MEMORY(), and whether malloc succeeds.
pub record Memory : Type 0 where
  pub free_memory : ℕ
  pub malloc_succeeds : Bool

abbrev pub packet_size : ℕ → ℕ
packet_size remaining_length =
    add_size (1 + remaining_length_length remaining_length) remaining_length

-- Packet::_allocate; `check` asks for the low-memory test.
unfoldable pub allocate : Memory → ℕ → Bool → Packet → Packet × Bool
allocate mem remaining_length check p =
    if check && ltb mem.free_memory emc_min_free_memory
    then (p, false)
    else if mem.malloc_succeeds
    then (
      record p {
        size = packet_size remaining_length;
        contents = some (replicate (packet_size remaining_length) 0);
      },
      true,
    )
    else (record p { size = 0; contents = none }, false)

first_byte : List ℕ → ℕ
first_byte [] = 0
first_byte (b ∷ bs) = b

-- Packet::packetType
unfoldable pub packet_type : Packet → ℕ
unfolding first_byte
packet_type p = elim p.contents [ none ↦ 0 | some bytes ↦ bit_and (first_byte bytes) 0xf0 ]

-- Packet::removable
unfoldable pub removable : Packet → Bool
unfolding packet_type
removable p =
    if p.packet_id == 0 then true else packet_type p == puback_type || packet_type p == pubcomp_type

unfoldable pub mark_dup : List ℕ → List ℕ
mark_dup [] = []
mark_dup (b ∷ bs) = bit_or b 0x08 ∷ bs

-- Packet::setDup
unfoldable pub set_dup : Packet → Packet
unfolding packet_type mark_dup
set_dup p = elim p.contents [
  | none ↦ p
  | some bytes ↦
      if not (packet_type p == publish_type)
      then p
      else if p.packet_id == 0
      then p
      else record p { contents = some (mark_dup bytes) }
]
