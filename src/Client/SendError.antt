-- ===== src/Client/SendError.antt =====
-- What follows when the transport's write reports an error as -1, which _sendPacket of
-- src/MqttClient.cpp adds to _bytesSent as a size_t.
use esp_mqtt_client.Prelude.{
  ℕ, ◌-◌, ◌≤◌, ◌<◌, ◌≡◌, refl, List, ◌∷◌, some, true, false, arith, leb, ◌==◌, take,
}
use esp_mqtt_client.Config.{size_mod}
use esp_mqtt_client.Packet.{Packet}
use esp_mqtt_client.Packet.Chunked.{available}
use esp_mqtt_client.Client.{Client, OutgoingPacket}
use esp_mqtt_client.Client.Sending.{
  Answer, send_packet, write_packet, check_outbox, check_timeout, is_positive,
}
use esp_mqtt_client.Client.Outgoing.{IsPlain, bytes_of, available-plain, data_from-plain}

-- The client after the failed call
abbrev pub failed : Answer → Client → OutgoingPacket → List OutgoingPacket → Client
failed w c o os = record c {
  outbox = record c.outbox { pending = record o { time_sent = w.time_sent } ∷ os };
  last_client_activity = w.time_active;
  bytes_sent = size_mod - 1;
}

abbrev pub current_bytes : Packet → List ℕ
current_bytes p = take p.size (bytes_of p)

send_packet-fails :
    (w : Answer) (c : Client) (o : OutgoingPacket) (os : List OutgoingPacket)
    → c.outbox.pending ≡ o ∷ os
    → IsPlain o.packet
    → c.bytes_sent ≡ 0
    → w.accepts (current_bytes o.packet) ≡ size_mod - 1
    → send_packet w c ≡ some (failed w c o os, size_mod - 1)
unfolding send_packet write_packet
send_packet-fails w c o os e h z fails =
    let room = available-plain o.packet 0 h h.nonempty in
    let bytes = data_from-plain o.packet 0 h h.nonempty in
    let want : (o.packet.size == 0) ≡ false = ground (arith, h.nonempty) in
    let whole : o.packet.size - 0 ≡ o.packet.size = omega arith in
    rw (e, z, room, whole, want, bytes, fails) refl

pub send_packet-stuck :
    (w : Answer) (c : Client) (o : OutgoingPacket) (os : List OutgoingPacket)
    → c.outbox.pending ≡ o ∷ os
    → o.packet.size ≤ c.bytes_sent
    → send_packet w c ≡ some (c, 0)
unfolding send_packet write_packet available
send_packet-stuck w c o os e past =
    let test : leb o.packet.size c.bytes_sent ≡ true = ground arith in ground arith

pub check_outbox-stuck :
    (w : Answer) (ws : List Answer) (c : Client) (o : OutgoingPacket) (os : List OutgoingPacket)
    → c.outbox.pending ≡ o ∷ os
    → o.packet.size ≤ c.bytes_sent
    → check_outbox (w ∷ ws) c ≡ some c
unfolding check_outbox is_positive
check_outbox-stuck w ws c o os e past = rw (check_outbox, send_packet-stuck w c o os e past) refl

check_timeout-busy : (now : ℕ) (c : Client) → 0 < c.bytes_sent → check_timeout now c ≡ c
unfolding check_timeout
check_timeout-busy now c h = ground arith

-- An error of the transport, reported as -1, stops the outbox: when nothing of a filled packet of less
-- than 2 GB has been sent and write fails on it, _checkOutbox returns with _bytesSent at the largest
-- size_t; in that state no call of _checkOutbox sends or changes anything, whatever the transport would
-- accept, and _checkTimeout does not make the cursor go back.
pub send_error-stops :
    (w : Answer) (ws : List Answer) (c : Client) (o : OutgoingPacket) (os : List OutgoingPacket)
    (w' : Answer) (ws' : List Answer) (now : ℕ)
    → c.outbox.pending ≡ o ∷ os
    → IsPlain o.packet
    → c.bytes_sent ≡ 0
    → w.accepts (current_bytes o.packet) ≡ size_mod - 1
    → (check_outbox (w ∷ ws) c ≡ some (failed w c o os))
      × (check_outbox (w' ∷ ws') (failed w c o os) ≡ some (failed w c o os))
      × (check_timeout now (failed w c o os) ≡ failed w c o os)
unfolding check_outbox is_positive
send_error-stops w ws c o os w' ws' now e h z fails = (
  rw (check_outbox, send_packet-fails w c o os e h z fails) refl,
  check_outbox-stuck w' ws' (failed w c o os) (record o { time_sent = w.time_sent }) os refl
      (omega (arith, h.short)),
  check_timeout-busy now (failed w c o os) (omega arith),
)
