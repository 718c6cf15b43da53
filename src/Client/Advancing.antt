-- ===== src/Client/Advancing.antt =====
-- _advanceOutbox of src/MqttClient.cpp: what it leaves of the packets that have been sent.
use esp_mqtt_client.Prelude.{
  ◌<◌, ◌≡◌, refl, ap, List, [], ◌∷◌, ◌++◌, true, arith, Bool-cases, inl, inr, ◌==◌, if◌then◌else◌,
  append_assoc,
}
use esp_mqtt_client.Config.{publish_type}
use esp_mqtt_client.Packet.{Packet, packet_type, removable, set_dup}
use esp_mqtt_client.Outbox.Queue
use esp_mqtt_client.Outbox.Queue.{Queue}
use esp_mqtt_client.Client.{Client, OutgoingPacket}
use esp_mqtt_client.Client.Sending.{advance_outbox, advanced}

abbrev pub packets : List OutgoingPacket → List Packet
packets [] = []
packets (o ∷ os) = o.packet ∷ packets os

-- What is kept of a packet that has been sent: nothing, or the packet to be acknowledged, which is
-- marked as a duplicate if it is a PUBLISH packet.
unfoldable pub kept_of : Packet → List Packet
kept_of p =
    if removable p then [] else (if packet_type p == publish_type then set_dup p else p) ∷ []

unfoldable pub kept : List OutgoingPacket → List Packet
kept [] = []
kept (o ∷ os) = kept_of o.packet ++ kept os

packets-append : (xs ys : List OutgoingPacket) → packets (xs ++ ys) ≡ packets xs ++ packets ys
packets-append [] ys = refl
packets-append (x ∷ xs) ys = ap (◌∷◌ x.packet) (packets-append xs ys)

-- The packets of the outbox once everything pending is sent
abbrev pub settled : List OutgoingPacket → List OutgoingPacket → List Packet
settled sent pending = packets sent ++ kept pending

-- The current packet `o` is done, and `os` follow.
abbrev pub Advances : Queue OutgoingPacket → OutgoingPacket → List OutgoingPacket → Client → Type 0
Advances q o os c =
    (c.outbox.pending ≡ os)
    × (c.bytes_sent ≡ 0)
    × (settled c.outbox.sent os ≡ settled q.sent (o ∷ os))

settled-append :
    (sent : List OutgoingPacket) (o : OutgoingPacket) (os : List OutgoingPacket)
    → settled (sent ++ (o ∷ [])) os ≡ packets sent ++ (o.packet ∷ kept os)
settled-append sent o os = simp (packets-append, append_assoc)

advanced_lem :
    (c : Client) (o : OutgoingPacket) (os : List OutgoingPacket)
    → c.outbox.pending ≡ o ∷ os
    → Advances c.outbox o os (advanced o c)
unfolding advanced kept kept_of
advanced_lem c o os e = elim (Bool-cases (removable o.packet)) [
  | inl r ↦ rw r (ap Queue.tail e, refl, refl)
  | inr k ↦ elim (Bool-cases (packet_type o.packet == publish_type)) [
    | inl y ↦ rw (k, y, e) (refl, refl, settled-append _ _ os)
    | inr n ↦ rw (k, n, e) (refl, refl, settled-append _ _ os)
  ]
]

pub advance-done :
    (c : Client) (o : OutgoingPacket) (os : List OutgoingPacket)
    → c.outbox.pending ≡ o ∷ os
    → c.bytes_sent ≡ o.packet.size
    → Advances c.outbox o os (advance_outbox c)
unfolding advance_outbox
advance-done c o os e full =
    let test : (c.bytes_sent == o.packet.size) ≡ true = ground arith in
    rw (advance_outbox, e, test) (advanced_lem c o os e)

pub advance-more :
    (c : Client) (o : OutgoingPacket) (os : List OutgoingPacket)
    → c.outbox.pending ≡ o ∷ os
    → c.bytes_sent < o.packet.size
    → advance_outbox c ≡ c
unfolding advance_outbox
advance-more c o os e less = ground arith
