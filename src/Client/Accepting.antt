-- ===== src/Client/Accepting.antt =====
-- A CONNACK packet that _checkIncoming of src/MqttClient.cpp reads, and what _onConnack makes of it.
use esp_mqtt_client.Prelude.{
  ℕ, zero, suc, ◌+◌, ◌*◌, ◌/◌, ◌%◌, ◌≤◌, ◌<◌, ◌≡◌, List, [], ◌∷◌, some, Bool, true, false, not,
  arith, refl, ap, ◌==◌, Bool-cases, inl, inr, if◌then◌else◌,
}
use esp_mqtt_client.Config.{connect_type}
use esp_mqtt_client.Packet.{packet_type, removable}
use esp_mqtt_client.Outbox.Queue.{Queue}
use esp_mqtt_client.Parser.{fixed_header}
use esp_mqtt_client.Parser.Connack.{connack_frame, after_connack, connack-parse}
use esp_mqtt_client.Client.{
  Client, OutgoingPacket, connected, connecting_mqtt, disconnecting_tcp1, is_state, emit,
  on_connect,
}
use esp_mqtt_client.Client.Queueing.{Alloc, clear_queue, keeps}
use esp_mqtt_client.Client.Clear.{filter, clear_queue-filter}
use esp_mqtt_client.Client.Sending.{advance_outbox, advanced}
use esp_mqtt_client.Client.Incoming.{
  check_incoming, incoming_loop, handle_packet, dispatch, on_connack, connack_accepted,
}

-- The client when _onConnack is called
abbrev pub reading_connack : (now session code : ℕ) → Client → Client
reading_connack now session code c = record c {
  last_server_activity = now;
  parser = after_connack c.parser session code;
}

after_handling :
    (fuel : ℕ) (allocs : ℕ → Alloc) (d : Client) (on : Bool)
    → (elim on [ false ↦ some d | true ↦ incoming_loop fuel allocs [] d ]) ≡ some d
unfolding incoming_loop
after_handling zero allocs d true = refl
after_handling (suc fuel) allocs d true = refl
after_handling fuel allocs d false = refl

handle_packet-connack :
    (a : Alloc) (d : Client)
    → d.parser.incoming.packet_type ≡ 0x20
    → handle_packet a d ≡ some (on_connack d, is_state connected (on_connack d))
unfolding handle_packet dispatch
handle_packet-connack a d e = elim (Bool-cases (is_state connecting_mqtt d)) [
  | inl y ↦ rw (e, y) refl
  | inr n ↦ rw (e, n) refl
]

pub check_incoming-connack :
    (now : ℕ) (allocs : ℕ → Alloc) (session code : ℕ) (c : Client)
    → c.parser.state ≡ fixed_header
    → session < 2
    → code ≤ 5
    → check_incoming now allocs (connack_frame session code) c
      ≡ some (on_connack (reading_connack now session code c))
unfolding check_incoming incoming_loop handle_packet dispatch
check_incoming-connack now allocs session code c s h k =
    let d = reading_connack now session code c in
    let run = connack-parse c.parser session code s h k in
    let handled = handle_packet-connack (allocs 0) d refl in
    rw (incoming_loop, run, handled)
      (after_handling 3 allocs (on_connack d) (is_state connected (on_connack d)))

-- The outbox that a session goes on with: of a new one, only the packets that its messages need.
abbrev pub resumed : ℕ → Queue OutgoingPacket → Queue OutgoingPacket
resumed zero q = record { sent = filter (keeps 1) q.sent; pending = filter (keeps 1) q.pending }
resumed (suc session) q = q

advance-connect :
    (c : Client) (o : OutgoingPacket) (os : List OutgoingPacket)
    → c.outbox.pending ≡ o ∷ os
    → c.bytes_sent ≡ o.packet.size
    → o.packet.packet_id ≡ 0
    → packet_type o.packet ≡ connect_type
    → advance_outbox c ≡ record c { outbox = record c.outbox { pending = os }; bytes_sent = 0 }
unfolding advance_outbox advanced removable
advance-connect c o os e full id type = ground arith

clear-resumed :
    (session : ℕ) (c : Client)
    → (if session == 0 then clear_queue 1 c else c) ≡ record c { outbox = resumed session c.outbox }
clear-resumed zero c = clear_queue-filter 1 c
clear-resumed (suc session) c = ground arith

-- The client that a CONNACK packet with return code 0 leaves, when its CONNECT packet, the current one,
-- has been sent and `os` follow
abbrev pub accepted_client : (now session : ℕ) → List OutgoingPacket → Client → Client
accepted_client now session os c = record (reading_connack now session 0 c) {
  ping_sent = false;
  state = connected;
  outbox = resumed session (record c.outbox { pending = os });
  bytes_sent = 0;
  events = on_connect (not (session == 0)) ∷ c.events;
}

pub on_connack-accepts :
    (now session : ℕ) (c : Client) (o : OutgoingPacket) (os : List OutgoingPacket)
    → session < 2
    → c.outbox.pending ≡ o ∷ os
    → c.bytes_sent ≡ o.packet.size
    → o.packet.packet_id ≡ 0
    → packet_type o.packet ≡ connect_type
    → on_connack (reading_connack now session 0 c) ≡ accepted_client now session os c
unfolding on_connack connack_accepted
on_connack-accepts now session c o os h e full id type =
    let d = record (reading_connack now session 0 c) { ping_sent = false; state = connected } in
    let code : (session + 0 * 256) / 256 ≡ 0 = omega arith in
    let flag : (session + 0 * 256) % 256 ≡ session = omega arith in
    let sent = advance-connect d o os e full id type in
    let cleared =
      clear-resumed session
        (record d { outbox = record c.outbox { pending = os }; bytes_sent = 0 }) in
    rw (code, flag, sent) (ap (λ x. emit (on_connect (not (session == 0))) x) cleared)

pub on_connack-refuses :
    (now session code : ℕ) (c : Client)
    → session < 2
    → 1 ≤ code
    → on_connack (reading_connack now session code c)
      ≡ record (reading_connack now session code c) {
        state = disconnecting_tcp1;
        disconnect_reason = code;
      }
unfolding on_connack
on_connack-refuses now session code c h k =
    let word : (session + code * 256) / 256 ≡ code = omega arith in
    let test : (code == 0) ≡ false = ground arith in rw (word, test) refl
