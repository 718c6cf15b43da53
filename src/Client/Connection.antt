-- ===== src/Client/Connection.antt =====
-- From the CONNECT packet to State::connected in MqttClient::loop (src/MqttClient.cpp).
use esp_mqtt_client.Prelude.{
  ℕ, ◌+◌, ◌^◌, ◌≤◌, ◌<◌, ◌≡◌, List, ◌∷◌, some, true, length, arith, refl, ap, ◌∙◌,
}
use esp_mqtt_client.Config.{connect_type}
use esp_mqtt_client.Packet.{Packet, packet_type}
use esp_mqtt_client.Parser.{fixed_header}
use esp_mqtt_client.Parser.Connack.{connack_frame}
use esp_mqtt_client.Client.{Client, OutgoingPacket, connecting_mqtt}
use esp_mqtt_client.Client.Queueing.{Alloc}
use esp_mqtt_client.Client.Sending.{send_packet, check_ping, since}
use esp_mqtt_client.Client.Loop.{Environment, loop, loop_in, mqtt_connecting}
use esp_mqtt_client.Client.Outgoing.{IsPlain, offered, accepted, send_packet-plain, bytes_of}
use esp_mqtt_client.Client.Accepting.{check_incoming-connack, accepted_client, on_connack-accepts}

-- A time is no longer ago than the keepalive.
abbrev pub IsRecent : (keep_alive now then_ : ℕ) → Type 0
IsRecent keep_alive now then_ = since now then_ ≤ keep_alive

check_ping-quiet :
    (a : Alloc) (now : ℕ) (c : Client)
    → c.keep_alive < 2 ^ 31
    → IsRecent c.keep_alive now c.last_server_activity
    → IsRecent c.keep_alive now c.last_client_activity
    → check_ping a now c ≡ some c
unfolding check_ping
check_ping-quiet a now c k server client = ground arith

-- The transport takes the whole CONNECT packet, the first pending one, and the CONNACK has been read.
pub record Answers (e : Environment) (session : ℕ) (p : Packet) (keep_alive : ℕ) : Type 0 where
  pub connected : e.is_connected ≡ true
  pub takes : e.first_write.accepts (bytes_of p) ≡ p.size
  pub received : e.received ≡ connack_frame session 0
  pub flag : session < 2
  pub client_recent : IsRecent keep_alive e.ping_time e.first_write.time_active
  pub server_recent : IsRecent keep_alive e.ping_time e.now

-- The client with the CONNECT packet sent
abbrev pub sent_connect : Environment → Client → OutgoingPacket → List OutgoingPacket → Client
sent_connect e c o os = record c {
  outbox = record c.outbox { pending = record o { time_sent = e.first_write.time_sent } ∷ os };
  last_client_activity = e.first_write.time_active;
  bytes_sent = o.packet.size;
}

send-connect :
    (e : Environment) (session : ℕ) (c : Client) (o : OutgoingPacket) (os : List OutgoingPacket)
    → Answers e session o.packet c.keep_alive
    → c.outbox.pending ≡ o ∷ os
    → c.bytes_sent ≡ 0
    → IsPlain o.packet
    → send_packet e.first_write c ≡ some (sent_connect e c o os, o.packet.size)
send-connect e session c o os ok pending z plain =
    let w = e.first_write in
    let all : accepted w c o.packet ≡ o.packet.size = rw z ok.takes in
    let fits : accepted w c o.packet ≤ length (offered c o.packet) =
      rw (all, z) (omega (arith, plain.whole)) in
    let sum : c.bytes_sent + accepted w c o.packet ≡ o.packet.size = omega (arith, z, all) in
    send_packet-plain w c o os pending plain (omega (arith, z, plain.nonempty)) fits
    ∙ rw (sum, all) refl

pub loop-accepted :
    (e : Environment) (session : ℕ) (c : Client) (o : OutgoingPacket) (os : List OutgoingPacket)
    → Answers e session o.packet c.keep_alive
    → c.state ≡ connecting_mqtt
    → c.parser.state ≡ fixed_header
    → c.outbox.pending ≡ o ∷ os
    → c.bytes_sent ≡ 0
    → c.keep_alive < 2 ^ 31
    → IsPlain o.packet
    → o.packet.packet_id ≡ 0
    → packet_type o.packet ≡ connect_type
    → loop e c ≡ some (accepted_client e.now session os (sent_connect e c o os))
unfolding loop loop_in mqtt_connecting
loop-accepted e session c o os ok state fresh pending z k plain id type =
    let d = sent_connect e c o os in
    let sent = send-connect e session c o os ok pending z plain in
    let read = check_incoming-connack e.now e.acks session 0 d fresh ok.flag (omega arith) in
    let accepts =
      on_connack-accepts e.now session d (record o { time_sent = e.first_write.time_sent }) os
        ok.flag refl refl id type in
    let quiet =
      check_ping-quiet e.ping e.ping_time (accepted_client e.now session os d) k ok.server_recent
        ok.client_recent in
    ap (λ s. loop_in s e c) state
    ∙ rw (ok.connected, mqtt_connecting, sent, ok.received, read, accepts, quiet) refl
