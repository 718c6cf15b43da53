-- ===== src/Packet/Publish.antt =====
-- The PUBLISH and acknowledgement constructors of src/Packets/Packet.cpp write the packets of the
-- protocol.
use esp_mqtt_client.Prelude.{
  ℕ, zero, suc, ◌+◌, ◌*◌, ◌≤◌, ◌<◌, ◌≡◌, refl, List, [], ◌∷◌, ◌++◌, none, some, Bool, true, false,
  length, length-append, arith, ltb, ◌==◌, if◌then◌else◌, append_assoc, append-nil, ◌⊎◌,
}
use esp_mqtt_client.Config.{publish_type, pubrel_type, emc_min_free_memory}
use esp_mqtt_client.RemainingLength.{encode_remaining_length, remaining_length_length}
use esp_mqtt_client.Packet.{success, out_of_memory, Memory, allocate, fresh_packet}
use esp_mqtt_client.Packet.Buffer.{serialize, encode_string-short, two_bytes, concat}
use esp_mqtt_client.Packet.Create.{
  build, create_publish, create_ack, create_simple, publish_header, publish_byte, publish_length,
}
use esp_mqtt_client.Packet.Frame.{frame, HasMemory, packet_of, build-frame, allocate-HasMemory}

-- The packet identifier is there for QoS 1 and 2 only.
abbrev pub id_bytes : ℕ → ℕ → List ℕ
id_bytes zero packet_id = []
id_bytes (suc q) packet_id = two_bytes packet_id

abbrev pub publish_body : ℕ → List ℕ → List ℕ → ℕ → List ℕ
publish_body packet_id topic payload qos =
    two_bytes (length topic) ++ (topic ++ (id_bytes qos packet_id ++ payload))

abbrev pub retain_bit : Bool → ℕ
retain_bit true = 1
retain_bit false = 0

-- The PUBLISH packet of the protocol, first sent.
abbrev pub publish_frame : ℕ → List ℕ → List ℕ → ℕ → Bool → List ℕ
publish_frame packet_id topic payload qos retain =
    frame (publish_type + 2 * qos + retain_bit retain) (publish_body packet_id topic payload qos)

-- The identifier that the packet object keeps.
abbrev pub kept_id : ℕ → ℕ → ℕ
kept_id zero packet_id = 0
kept_id (suc q) packet_id = packet_id

pub length-publish_body :
    (packet_id : ℕ) (topic payload : List ℕ) (qos : ℕ)
    → length (publish_body packet_id topic payload qos)
      ≡ 2 + length topic + length (id_bytes qos packet_id) + length payload
length-publish_body packet_id topic payload qos = omega (
  arith,
  length-append topic (id_bytes qos packet_id ++ payload),
  length-append (id_bytes qos packet_id) payload,
)

pub publish_length_lem :
    (packet_id : ℕ) (topic : List ℕ) (n qos : ℕ)
    → 2 + length topic + length (id_bytes qos packet_id) + n ≤ 268435455
    → publish_length topic n qos ≡ 2 + length topic + length (id_bytes qos packet_id) + n
unfolding publish_length
publish_length_lem packet_id topic n zero h = omega arith
publish_length_lem packet_id topic n (suc q) h = ground arith

publish_length-body :
    (packet_id : ℕ) (topic payload : List ℕ) (qos : ℕ)
    → length (publish_body packet_id topic payload qos) ≤ 268435455
    → publish_length topic (length payload) qos ≡ length (publish_body packet_id topic payload qos)
publish_length-body packet_id topic payload qos h = omega (
  arith,
  length-publish_body packet_id topic payload qos,
  publish_length_lem packet_id topic (length payload) qos,
)

pub publish_byte_lem :
    (qos : ℕ) (retain : Bool)
    → qos ≤ 2
    → publish_byte qos retain ≡ (publish_type + 2 * qos + retain_bit retain) ∷ []
unfolding publish_byte
publish_byte_lem zero true h = refl
publish_byte_lem zero false h = refl
publish_byte_lem (suc zero) true h = refl
publish_byte_lem (suc zero) false h = refl
publish_byte_lem (suc (suc zero)) true h = refl
publish_byte_lem (suc (suc zero)) false h = refl
publish_byte_lem (suc (suc (suc q))) retain h = absurd (omega arith)

publish_chunks :
    (packet_id rl : ℕ) (topic payload : List ℕ) (qos : ℕ) (retain : Bool)
    → qos ≤ 2
    → length topic ≤ 65535
    → rl ≡ length (publish_body packet_id topic payload qos)
    → concat (publish_header packet_id topic rl qos retain ++ (payload ∷ []))
      ≡ publish_frame packet_id topic payload qos retain
unfolding publish_header
publish_chunks packet_id rl topic payload zero retain q t e =
    simp (publish_byte_lem zero retain q, encode_string-short topic t, append-nil, append_assoc, e)
publish_chunks packet_id rl topic payload (suc n) retain q t e =
    let sent : ltb 0 (suc n) ≡ true = ground arith in
    simp (
      sent,
      publish_byte_lem (suc n) retain q,
      encode_string-short topic t,
      append-nil,
      append_assoc,
      e,
    )

-- With memory, a topic of at most 65535 bytes, a QoS of at most 2 and a body that fits the packet
-- format, the PUBLISH constructor succeeds, and its buffer holds exactly the packet of the protocol:
-- nothing is written outside, and no byte of the buffer is left over.
pub create_publish-frame :
    (mem : Memory) (packet_id : ℕ) (topic payload : List ℕ) (qos : ℕ) (retain : Bool)
    → HasMemory mem
    → length topic ≤ 65535
    → qos ≤ 2
    → length (publish_body packet_id topic payload qos) ≤ 268435455
    → create_publish mem packet_id topic payload qos retain
      ≡ some (
        packet_of (kept_id qos packet_id) (publish_frame packet_id topic payload qos retain),
        success,
      )
unfolding create_publish
create_publish-frame mem packet_id topic payload zero retain ok t q h =
    let e = publish_length-body packet_id topic payload zero h in
    build-frame mem 0 _ _ (publish_body packet_id topic payload 0) true _ ok e h
      (publish_chunks packet_id _ topic payload zero retain q t e)
create_publish-frame mem packet_id topic payload (suc n) retain ok t q h =
    let e = publish_length-body packet_id topic payload (suc n) h in
    let sent : (suc n == 0) ≡ false = ground arith in
    rw sent (
      build-frame mem packet_id _ _ (publish_body packet_id topic payload (suc n)) true _ ok e h
        (publish_chunks packet_id _ topic payload (suc n) retain q t e))

-- The four acknowledgement packets: the reserved flag of PUBREL is 2, the others are 0.
abbrev pub ack_frame : ℕ → ℕ → List ℕ
ack_frame type packet_id =
    (if type == pubrel_type then type + 2 else type) ∷ 2 ∷ two_bytes packet_id

-- With memory, the acknowledgement constructor succeeds on each of the four types, keeps the
-- identifier, and its buffer holds the four bytes of the protocol.
pub create_ack-frame :
    (mem : Memory) (n packet_id : ℕ)
    → HasMemory mem
    → n < 4
    → create_ack mem ((4 + n) * 16) packet_id
      ≡ some (packet_of packet_id (ack_frame ((4 + n) * 16) packet_id), success)
unfolding create_ack encode_remaining_length
create_ack-frame mem zero packet_id ok h =
    build-frame mem packet_id 2 0x40 (two_bytes packet_id) true _ ok refl (omega arith) refl
create_ack-frame mem (suc zero) packet_id ok h =
    build-frame mem packet_id 2 0x50 (two_bytes packet_id) true _ ok refl (omega arith) refl
create_ack-frame mem (suc (suc zero)) packet_id ok h =
    build-frame mem packet_id 2 0x62 (two_bytes packet_id) true _ ok refl (omega arith) refl
create_ack-frame mem (suc (suc (suc zero))) packet_id ok h =
    build-frame mem packet_id 2 0x70 (two_bytes packet_id) true _ ok refl (omega arith) refl
create_ack-frame mem (suc (suc (suc (suc n)))) packet_id ok h = absurd (omega arith)

-- The two packets without a body.
pub create_simple-frame :
    (mem : Memory) (type : ℕ)
    → HasMemory mem
    → create_simple mem type ≡ some (packet_of 0 (type ∷ 0 ∷ []), success)
unfolding create_simple serialize remaining_length_length
create_simple-frame mem type ok = rw (allocate-HasMemory mem 0 true (fresh_packet 0 none) ok)

-- Without memory a constructor reports OUT_OF_MEMORY and leaves a packet that holds no bytes.
pub build_fails :
    (mem : Memory) (packet_id rl : ℕ) (check : Bool) (chunks : List (List ℕ))
    → (mem.malloc_succeeds ≡ false) ⊎ ((check ≡ true) × (mem.free_memory < emc_min_free_memory))
    → build mem (fresh_packet packet_id none) rl check chunks
      ≡ some (fresh_packet packet_id none, out_of_memory)
unfolding build allocate
build_fails mem packet_id rl true chunks h = ground arith
build_fails mem packet_id rl _ chunks h = ground arith
