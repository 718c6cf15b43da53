-- ===== src/Packet/Makes.antt =====
-- The constructors of src/Packets/Packet.cpp on every answer of the memory: they return, and what they
-- report as a success is a packet that is filled.
use esp_mqtt_client.Prelude.{
  ℕ, ◌+◌, ◌*◌, ◌≤◌, ◌<◌, ◌≡◌, List, [], ◌∷◌, ◌++◌, Option, none, some, Bool, true, false, length,
  arith, refl, ◌==◌, ltb, Bool-cases, inl, inr, if◌then◌else◌, ltb→lt, ◌⊎◌, All,
}
use esp_mqtt_client.Config.{emc_min_free_memory}
use esp_mqtt_client.Packet.{Packet, Error, Memory, success, out_of_memory, fresh_packet}
use esp_mqtt_client.Packet.Buffer.{two_bytes}
use esp_mqtt_client.Packet.Create.{
  create_ack, create_simple, create_publish, create_subscribe, create_unsubscribe, SubscribeItem,
}
use esp_mqtt_client.Packet.Frame.{frame, packet_of, HasMemory, length-frame}
use esp_mqtt_client.Packet.Publish.{
  create_ack-frame, ack_frame, create_simple-frame, build_fails, create_publish-frame, publish_body,
  kept_id,
}
use esp_mqtt_client.Packet.Subscribe.{
  topics_with_qos, topics_only, create_subscribe-frame, create_unsubscribe-frame,
}

-- A packet of so many bytes at most, all of them in its buffer
pub record IsFilled (limit : ℕ) (p : Packet) : Type 0 where
  pub bytes : List ℕ
  pub same : (id : ℕ) × (p ≡ packet_of id bytes)
  pub nonempty : 0 < length bytes
  pub short : length bytes ≤ limit

-- The constructor returns, and its packet is filled or it reports an error.
abbrev pub Makes : ℕ → Option (Packet × Error) → Type 0
Makes limit made = (r : Packet × Error) × (made ≡ some r) × (r.1 ≡ success → IsFilled limit r.0)

-- A constructor that succeeds with memory and fails without
pub makes :
    (mem : Memory) (made : Option (Packet × Error)) (limit id failed : ℕ) (bytes : List ℕ)
    → 0 < length bytes
    → length bytes ≤ limit
    → (HasMemory mem → made ≡ some (packet_of id bytes, success))
    → ((mem.malloc_succeeds ≡ false) ⊎ ((true ≡ true) × (mem.free_memory < emc_min_free_memory))
        → made ≡ some (fresh_packet failed none, out_of_memory))
    → Makes limit made
makes mem made limit id failed bytes n s works fails = elim (Bool-cases mem.malloc_succeeds) [
  | inr e ↦ ((fresh_packet failed none, out_of_memory), fails (inl e), λ good. cc)
  | inl e ↦ elim (Bool-cases (ltb mem.free_memory emc_min_free_memory)) [
    | inl l ↦
        ((fresh_packet failed none, out_of_memory), fails (inr (refl, ltb→lt _ _ l)), λ good. cc)
    | inr l ↦ (
      (packet_of id bytes, success),
      works (record { allocates = e; enough = ground arith }),
      λ good. record { bytes = bytes; same = (id, refl); nonempty = n; short = s },
    )
  ]
]

-- The greatest packet of the format
abbrev pub greatest : ℕ
greatest = 268435460

pub create_simple-Makes : (mem : Memory) (type : ℕ) → Makes 2 (create_simple mem type)
unfolding create_simple
create_simple-Makes mem type =
    makes mem (create_simple mem type) 2 0 0 (type ∷ 0 ∷ []) (omega arith) (omega arith)
      (create_simple-frame mem type) (build_fails mem 0 0 true _)

pub Makes-frame :
    (mem : Memory) (made : Option (Packet × Error)) (id failed first : ℕ) (body : List ℕ)
    → length body ≤ 268435455
    → (HasMemory mem → made ≡ some (packet_of id (frame first body), success))
    → ((mem.malloc_succeeds ≡ false) ⊎ ((true ≡ true) × (mem.free_memory < emc_min_free_memory))
        → made ≡ some (fresh_packet failed none, out_of_memory))
    → Makes greatest made
Makes-frame mem made id failed first body h works fails =
    let long = length-frame first body h in
    makes mem made greatest id failed (frame first body) (omega (arith, long.0)) long.1 works fails

pub create_ack-Makes :
    (mem : Memory) (n id : ℕ) → n < 4 → Makes 4 (create_ack mem ((4 + n) * 16) id)
unfolding create_ack
create_ack-Makes mem n id h =
    makes mem (create_ack mem ((4 + n) * 16) id) 4 id id (ack_frame ((4 + n) * 16) id) (omega arith)
      (omega arith) (λ ok. create_ack-frame mem n id ok h) (build_fails mem id 2 true _)

pub create_publish-Makes :
    (mem : Memory) (packet_id : ℕ) (topic payload : List ℕ) (qos : ℕ) (retain : Bool)
    → length topic ≤ 65535
    → qos ≤ 2
    → length (publish_body packet_id topic payload qos) ≤ 268435455
    → Makes greatest (create_publish mem packet_id topic payload qos retain)
unfolding create_publish
create_publish-Makes mem packet_id topic payload qos retain t q h =
    Makes-frame mem (create_publish mem packet_id topic payload qos retain) (kept_id qos packet_id)
      (if qos == 0 then 0 else packet_id) _ (publish_body packet_id topic payload qos) h
      (λ ok. create_publish-frame mem packet_id topic payload qos retain ok t q h)
      (build_fails mem (if qos == 0 then 0 else packet_id) _ true _)

pub create_subscribe-Makes :
    (mem : Memory) (packet_id : ℕ) (list : List SubscribeItem)
    → All (λ item. length item.topic ≤ 65535) list
    → 2 + length (topics_with_qos list) ≤ 268435455
    → Makes greatest (create_subscribe mem packet_id list)
unfolding create_subscribe
create_subscribe-Makes mem packet_id list short h =
    Makes-frame mem (create_subscribe mem packet_id list) packet_id packet_id _
      (two_bytes packet_id ++ topics_with_qos list) (omega (arith, h))
      (λ ok. create_subscribe-frame mem packet_id list ok short h)
      (build_fails mem packet_id _ true _)

pub create_unsubscribe-Makes :
    (mem : Memory) (packet_id : ℕ) (list : List (List ℕ))
    → All (λ topic. length topic ≤ 65535) list
    → 2 + length (topics_only list) ≤ 268435455
    → Makes greatest (create_unsubscribe mem packet_id list)
unfolding create_unsubscribe
create_unsubscribe-Makes mem packet_id list short h =
    Makes-frame mem (create_unsubscribe mem packet_id list) packet_id packet_id _
      (two_bytes packet_id ++ topics_only list) (omega (arith, h))
      (λ ok. create_unsubscribe-frame mem packet_id list ok short h)
      (build_fails mem packet_id _ true _)
