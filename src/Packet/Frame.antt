-- ===== src/Packet/Frame.antt =====
-- The format of an MQTT packet, and when a constructor of src/Packets/Packet.cpp meets it.
use esp_mqtt_client.Prelude.{
  ℕ, ◌≤◌, ◌≡◌, ap, ◌∙◌, List, ◌∷◌, ◌++◌, none, some, Bool, true, length, length-append, replicate,
  arith,
}
use esp_mqtt_client.Config.{emc_min_free_memory}
use esp_mqtt_client.RemainingLength.{encode_remaining_length}
use esp_mqtt_client.RemainingLength.Encode.{length-encode}
use esp_mqtt_client.Packet.{Packet, success, Memory, allocate, packet_size, fresh_packet}
use esp_mqtt_client.Packet.Buffer.{serialize-exact, concat}
use esp_mqtt_client.Packet.Create.{build}

-- A packet on the wire: the first byte, the length of the rest, and the rest.
abbrev pub frame : ℕ → List ℕ → List ℕ
frame first body = first ∷ (encode_remaining_length (length body) ++ body)

-- The platform has memory for a packet.
pub record HasMemory (mem : Memory) : Type 0 where
  pub allocates : mem.malloc_succeeds ≡ true
  pub enough : emc_min_free_memory ≤ mem.free_memory

-- The packet that holds `bytes` and has no portion of a payload to fetch.
abbrev pub packet_of : ℕ → List ℕ → Packet
packet_of packet_id bytes = record (fresh_packet packet_id none) {
  contents = some bytes;
  size = length bytes;
}

pub allocate-HasMemory :
    (mem : Memory) (rl : ℕ) (check : Bool) (p : Packet)
    → HasMemory mem
    → allocate mem rl check p
      ≡ (record p { size = packet_size rl; contents = some (replicate (packet_size rl) 0) }, true)
unfolding allocate
allocate-HasMemory mem rl true p h = ground arith
allocate-HasMemory mem rl _ p h = ground arith

pub packet_size-frame :
    (first : ℕ) (body : List ℕ)
    → length body ≤ 268435455
    → packet_size (length body) ≡ length (frame first body)
packet_size-frame first body h = omega (
  arith,
  length-append (encode_remaining_length (length body)) body,
  length-encode (length body) h,
)

pub length-frame :
    (first : ℕ) (body : List ℕ)
    → length body ≤ 268435455
    → (2 ≤ length (frame first body)) × (length (frame first body) ≤ 268435460)
length-frame first body h =
    let sum = length-append (encode_remaining_length (length body)) body in
    let field = length-encode (length body) h in
    (omega (arith, sum, field), omega (arith, sum, field))

-- Chunks that spell out a frame fill the buffer that was allocated for them exactly.
pub build-frame :
    (mem : Memory) (packet_id rl first : ℕ) (body : List ℕ) (check : Bool) (chunks : List (List ℕ))
    → HasMemory mem
    → rl ≡ length body
    → length body ≤ 268435455
    → concat chunks ≡ frame first body
    → build mem (fresh_packet packet_id none) rl check chunks
      ≡ some (packet_of packet_id (frame first body), success)
unfolding build
build-frame mem packet_id rl first body check chunks ok is_length small e =
    let fits : length (concat chunks) ≡ packet_size rl =
      ap length e ∙ (rw is_length (omega (arith, packet_size-frame first body small))) in
    rw (
      allocate-HasMemory mem rl check (fresh_packet packet_id none) ok,
      serialize-exact (packet_size rl) chunks fits,
      e,
      is_length,
      packet_size-frame first body small,
    )
