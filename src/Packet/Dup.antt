-- ===== src/Packet/Dup.antt =====
-- setDup, packetType and removable of src/Packets/Packet.cpp on the packets that the constructors
-- make.
use esp_mqtt_client.Prelude.{
  ℕ, zero, suc, ◌+◌, ◌*◌, ◌≤◌, ◌<◌, ◌≡◌, List, Bool, true, false, arith, ◌==◌,
}
use esp_mqtt_client.Packet.{set_dup, packet_type}
use esp_mqtt_client.Packet.Frame.{packet_of, frame}
use esp_mqtt_client.Packet.Publish.{publish_frame, publish_body, retain_bit}

-- setDup on a PUBLISH packet of QoS 1 or 2 adds the DUP flag to the first byte, leaves every other
-- byte and the packet type as they are, and doing it again changes nothing.
pub set_dup-publish :
    (packet_id qos : ℕ) (topic payload : List ℕ) (retain : Bool)
    → 1 ≤ qos
    → qos ≤ 2
    → 0 < packet_id
    → (set_dup (packet_of packet_id (publish_frame packet_id topic payload qos retain))
        ≡ packet_of packet_id
            (frame (0x38 + 2 * qos + retain_bit retain) (publish_body packet_id topic payload qos)))
      × (packet_type
            (set_dup (packet_of packet_id (publish_frame packet_id topic payload qos retain)))
          ≡ 0x30)
      × (set_dup (set_dup (packet_of packet_id (publish_frame packet_id topic payload qos retain)))
          ≡ set_dup (packet_of packet_id (publish_frame packet_id topic payload qos retain)))
unfolding set_dup
set_dup-publish packet_id zero topic payload retain l h i = absurd (omega arith)
set_dup-publish packet_id (suc zero) topic payload true l h i =
    let kept : (packet_id == 0) ≡ false = ground arith in (rw kept, rw kept, rw (kept, kept))
set_dup-publish packet_id (suc zero) topic payload false l h i =
    let kept : (packet_id == 0) ≡ false = ground arith in (rw kept, rw kept, rw (kept, kept))
set_dup-publish packet_id (suc (suc zero)) topic payload true l h i =
    let kept : (packet_id == 0) ≡ false = ground arith in (rw kept, rw kept, rw (kept, kept))
set_dup-publish packet_id (suc (suc zero)) topic payload false l h i =
    let kept : (packet_id == 0) ≡ false = ground arith in (rw kept, rw kept, rw (kept, kept))
set_dup-publish packet_id (suc (suc (suc q))) topic payload retain l h i = absurd (omega arith)
