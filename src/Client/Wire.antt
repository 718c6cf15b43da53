-- ===== src/Client/Wire.antt =====
-- The bytes that _checkOutbox of src/MqttClient.cpp hands to the transport.
use esp_mqtt_client.Prelude.{
  length-drop, take-append-drop, drop-add, ℕ, ◌+◌, ◌-◌, ◌<◌, ◌≡◌, refl, sym, ap, ◌∙◌, List, [], ◌∷◌,
  ◌++◌, none, some, true, false, take, drop, arith, append_assoc,
}
use esp_mqtt_client.Packet.Chunked.{available, data_from}
use esp_mqtt_client.Outbox.Queue
use esp_mqtt_client.Client.{Client, OutgoingPacket}
use esp_mqtt_client.Client.Sending.{Answer, send_packet, advance_outbox, has_current, is_positive}
use esp_mqtt_client.Client.Outgoing.{
  IsPlain, bytes_of, offered, available-plain, data_from-plain, take-whole,
}

-- The bytes that _sendPacket gives to write
unfoldable pub offer : Client → List ℕ
offer c = elim (Queue.current c.outbox) [
  | none ↦ []
  | some o ↦ elim (available o.packet c.bytes_sent) [
    | none ↦ []
    | some r ↦ elim (data_from r.1 c.bytes_sent) [ none ↦ [] | some bytes ↦ take r.0 bytes ]
  ]
]

-- The bytes that the transport accepts during _checkOutbox, in order
unfoldable pub wire : List Answer → Client → List ℕ
unfolding offer
wire [] c = []
wire (w ∷ ws) c = elim (send_packet w c) [
  | none ↦ []
  | some r ↦ elim (is_positive r.1) [
    | false ↦ []
    | true ↦ take r.1 (offer c) ++ elim (has_current (advance_outbox r.0)) [
      | false ↦ []
      | true ↦ wire ws (advance_outbox r.0)
    ]
  ]
]

-- The bytes of packets, one after the other
unfoldable pub stream : List OutgoingPacket → List ℕ
stream [] = []
stream (o ∷ os) = bytes_of o.packet ++ stream os

-- What is still to be sent of the pending packets
unfoldable pub unsent : List OutgoingPacket → ℕ → List ℕ
unfolding stream
unsent [] n = []
unsent (o ∷ os) n = drop n (bytes_of o.packet) ++ stream os

pub unsent-zero : (os : List OutgoingPacket) → unsent os 0 ≡ stream os
unfolding unsent stream
unsent-zero [] = refl
unsent-zero (o ∷ os) = refl

pub offer-plain :
    (c : Client) (o : OutgoingPacket) (os : List OutgoingPacket)
    → c.outbox.pending ≡ o ∷ os
    → IsPlain o.packet
    → c.bytes_sent < o.packet.size
    → offer c ≡ offered c o.packet
unfolding offer
offer-plain c o os e h lt =
    let room = available-plain o.packet c.bytes_sent h lt in
    let bytes = data_from-plain o.packet c.bytes_sent h lt in
    let rest = length-drop c.bytes_sent (bytes_of o.packet) in
    let all =
      take-whole (offered c o.packet) (o.packet.size - c.bytes_sent)
        (omega (arith, h.whole, rest)) in
    rw (offer, e, room, bytes, all) refl

-- The equations of one turn that sends `n` bytes.
pub turn-full :
    (c : Client) (o : OutgoingPacket) (os : List OutgoingPacket) (n : ℕ)
    → IsPlain o.packet
    → c.bytes_sent + n ≡ o.packet.size
    → take n (offered c o.packet) ++ unsent os 0 ≡ unsent (o ∷ os) c.bytes_sent
unfolding unsent
turn-full c o os n h full =
    let rest = length-drop c.bytes_sent (bytes_of o.packet) in
    let all = take-whole (offered c o.packet) n (omega (arith, h.whole, rest)) in
    rw all (ap (λ t. offered c o.packet ++ t) (unsent-zero os))

pub turn-more :
    (c : Client) (o : OutgoingPacket) (os : List OutgoingPacket) (n : ℕ)
    → take n (offered c o.packet) ++ unsent (o ∷ os) (c.bytes_sent + n)
      ≡ unsent (o ∷ os) c.bytes_sent
unfolding unsent
turn-more c o os n = rw (drop-add c.bytes_sent n (bytes_of o.packet)) (
    sym (append_assoc (take n (offered c o.packet)) (drop n (offered c o.packet)) (stream os))
    ∙ ap (λ t. t ++ stream os) (take-append-drop n (offered c o.packet)))
