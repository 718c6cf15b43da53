-- ===== src/Client/Queueing.antt =====
-- _addPacket, _addPacketFront and _clearQueue of src/MqttClient.h and MqttClient.cpp.
use esp_mqtt_client.Prelude.{
  ℕ, zero, suc, ◌-◌, Option, none, some, Bool, true, false, not, ◌&&◌, ◌||◌, ◌==◌, if◌then◌else◌,
  length, get_elem?, ◌>>=◌,
}
use esp_mqtt_client.Config.{publish_type, pubrec_type, pubrel_type}
use esp_mqtt_client.Packet.{Packet, Error, Memory, packet_type}
use esp_mqtt_client.Outbox.Queue
use esp_mqtt_client.Outbox.Queue.{Queue}
use esp_mqtt_client.Client.{Client, OutgoingPacket}

-- What the platform answers while a packet is added: whether the node is allocated, and then what the
-- packet's constructor is told.
pub record Alloc : Type 0 where
  pub node_allocated : Bool
  pub memory : Memory

abbrev pub is_success : Error → Bool
is_success Error.success = true
is_success _ = false

abbrev pub new_packet : Packet → OutgoingPacket
new_packet p = record { time_sent = 0; packet = p }

-- _addPacket; `make` is the packet's constructor with its arguments.
unfoldable pub add_packet :
    Alloc → (Memory → Option (Packet × Error)) → Client → Option (Client × Bool)
add_packet a make c = if not a.node_allocated then some (c, false) else do
  (p, error) ← make a.memory
  let queue = Queue.push_back (new_packet p) c.outbox
  some (
      if is_success error
      then (record c { outbox = queue }, true)
      else (record c { outbox = Queue.remove_at (length (Queue.items queue) - 1) queue }, false))

-- _addPacketFront
unfoldable pub add_packet_front :
    Alloc → (Memory → Option (Packet × Error)) → Client → Option (Client × Bool)
add_packet_front a make c = if not a.node_allocated then some (c, false) else do
  (p, error) ← make a.memory
  let queue = Queue.push_front (new_packet p) c.outbox
  some (
      if is_success error
      then (record c { outbox = queue }, true)
      else (record c { outbox = Queue.remove_at 0 queue }, false))

-- The loops of _clearQueue: the iterator, at an index of the queue, steps over what is kept.
unfoldable pub clear_loop :
    (fuel : ℕ) → (OutgoingPacket → Bool) → ℕ → Queue OutgoingPacket → Queue OutgoingPacket
clear_loop zero keep index q = q
clear_loop (suc fuel) keep index q = elim (get_elem? (Queue.items q) index) [
  | none ↦ q
  | some o ↦ elim (keep o) [
    | true ↦ clear_loop fuel keep (suc index) q
    | false ↦ clear_loop fuel keep index (Queue.remove_at index q)
  ]
]

-- The tests of the three loops.
unfoldable pub keeps : ℕ → OutgoingPacket → Bool
keeps zero o =
    packet_type o.packet == pubrec_type
    || (packet_type o.packet == pubrel_type
        || (packet_type o.packet == publish_type && not (o.packet.packet_id == 0)))
keeps (suc zero) o = packet_type o.packet == publish_type
keeps (suc (suc n)) o = false

-- _clearQueue; the loop turns at most once for each packet.
unfoldable pub clear_queue : ℕ → Client → Client
unfolding clear_loop keeps
clear_queue clear_data c = record c {
  outbox = clear_loop (length (Queue.items c.outbox)) (keeps clear_data) 0 c.outbox;
}
