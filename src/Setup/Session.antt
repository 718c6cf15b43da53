-- ===== src/Setup/Session.antt =====
-- A whole connection: the setters of src/MqttClientSetup.h, then MqttClient::connect and two calls of
-- MqttClient::loop (src/MqttClient.cpp).
use esp_mqtt_client.Prelude.{
  ℕ, ◌*◌, ◌≡◌, [], ◌∷◌, some, true, not, arith, refl, ap, ◌∙◌, ◌==◌, ◌>>=◌,
}
use esp_mqtt_client.Config.{connect_type}
use esp_mqtt_client.Packet.{packet_type}
use esp_mqtt_client.Packet.Frame.{packet_of}
use esp_mqtt_client.Packet.Connect.Body.{connect_body}
use esp_mqtt_client.Packet.Connect.Frame.{length-connect_body}
use esp_mqtt_client.Outbox.Queue
use esp_mqtt_client.Parser.{reset_parser}
use esp_mqtt_client.Client.{
  Client, connected, connecting_tcp1, connecting_mqtt, disconnected, on_connect,
}
use esp_mqtt_client.Client.Queueing.{Alloc, new_packet}
use esp_mqtt_client.Client.Requests.{connect}
use esp_mqtt_client.Client.Loop.{Environment, loop, loop_in, tcp_connecting}
use esp_mqtt_client.Client.Outgoing.{IsPlain, frame-IsPlain}
use esp_mqtt_client.Client.Handshake.{HasAlloc}
use esp_mqtt_client.Client.Accepting.{resumed, accepted_client}
use esp_mqtt_client.Client.Connection.{Answers, loop-accepted, sent_connect}
use esp_mqtt_client.Setup.{Setup}
use esp_mqtt_client.Setup.Connecting.{
  Options, IsAllowed, configure, connect_packet, requested, connect-configure,
}

-- The client when the transport has connected
abbrev pub with_tcp : Environment → Client → Client
with_tcp e c = record c {
  parser = reset_parser c.parser;
  last_client_activity = e.now;
  last_server_activity = e.now;
  state = connecting_mqtt;
}

loop-with_tcp :
    (e : Environment) (c : Client)
    → c.state ≡ connecting_tcp1
    → e.connects ≡ true
    → e.is_connected ≡ true
    → loop e c ≡ some (with_tcp e c)
unfolding loop loop_in tcp_connecting
loop-with_tcp e c state opens up = ap (λ s. loop_in s e c) state ∙ rw (opens, up) refl

connect_packet-type : (o : Options) → packet_type (packet_of 0 (connect_packet o)) ≡ connect_type
unfolding packet_type
connect_packet-type o = refl

connect_packet-IsPlain : (o : Options) → IsAllowed o → IsPlain (packet_of 0 (connect_packet o))
connect_packet-IsPlain o h =
    frame-IsPlain 0 0x10
      (connect_body (requested o) o.client_id (some (o.will_topic, o.will_payload)))
      (length-connect_body (requested o) o.client_id (some (o.will_topic, o.will_payload))
        h.client_id_short h.username_short h.password_short
        (refl, refl, refl, h.will_payload_some, h.will_payload_short, h.will_topic_short))

-- A connection, from the setters to State::connected: with memory, a disconnected client with nothing
-- partly sent is configured, connect is called, and then loop() twice. If the transport connects at once,
-- takes the whole CONNECT packet, and has read a CONNACK packet with return code 0 at the second call, and
-- if millis() has then not gone on by more than the keepalive, then the client is connected and calls
-- the callback for connecting with the session flag; the CONNECT packet is gone, and the outbox, back at
-- its first packet, holds all the packets that were in it, or, if the server has no session, those of
-- them that _clearQueue(1) keeps; nothing is partly sent.
pub connect-session :
    (a : Alloc) (o : Options) (s : Setup) (e1 e2 : Environment) (session : ℕ)
    → HasAlloc a
    → IsAllowed o
    → s.client.state ≡ disconnected
    → s.client.bytes_sent ≡ 0
    → e1.connects ≡ true
    → e1.is_connected ≡ true
    → Answers e2 session (packet_of 0 (connect_packet o)) (o.keep_alive * 1000)
    → (c : Client) × ((connect a (configure o s).client >>= (λ r. loop e1 r.0) >>= loop e2)
        ≡ some c)
      × (c.state ≡ connected)
      × (c.events ≡ on_connect (not (session == 0)) ∷ s.client.events)
      × (c.outbox ≡ resumed session (record { sent = []; pending = Queue.items s.client.outbox }))
      × (c.bytes_sent ≡ 0)
unfolding configure
connect-session a o s e1 e2 session ok h down idle opens up answers =
    let first = new_packet (packet_of 0 (connect_packet o)) in
    let c1 = record (configure o s).client {
      state = connecting_tcp1;
      outbox = Queue.push_front first s.client.outbox;
    } in
    let d1 = with_tcp e1 c1 in
    let seconds : d1.keep_alive ≡ o.keep_alive * 1000 = omega (arith, h.keep_alive_word) in
    let answers' : Answers e2 session first.packet d1.keep_alive = rw seconds answers in
    let connecting = connect-configure a o s ok h down in
    let tcp = loop-with_tcp e1 c1 refl opens up in
    let accepted =
      loop-accepted e2 session d1 first (Queue.items s.client.outbox) answers' refl refl refl idle
        (omega (arith, seconds, h.keep_alive_word)) (connect_packet-IsPlain o h) refl
        (connect_packet-type o) in
    (
      accepted_client e2.now session (Queue.items s.client.outbox)
          (sent_connect e2 d1 first (Queue.items s.client.outbox)),
      ap (λ r. r >>= (λ r. loop e1 r.0) >>= loop e2) connecting
          ∙ ap (λ r. r >>= loop e2) tcp
          ∙ accepted,
      refl,
      refl,
      refl,
      refl,
    )
