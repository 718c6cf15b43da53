-- ===== src/Client/Sending.antt =====
-- _sendPacket, _advanceOutbox, _checkOutbox, _checkPing and _checkTimeout of src/MqttClient.cpp.
use esp_mqtt_client.Prelude.{
  ℕ, ◌+◌, ◌-◌, ◌*◌, ◌%◌, ◌^◌, List, [], ◌∷◌, Option, none, some, Bool, true, false, not, ◌&&◌, ◌||◌,
  ◌==◌, if◌then◌else◌, ltb, take, ◌>>=◌,
}
use esp_mqtt_client.Config.{publish_type, disconnect_type, pingreq_type}
use esp_mqtt_client.Packet.{packet_type, removable, set_dup, add_size}
use esp_mqtt_client.Packet.Create.{create_simple}
use esp_mqtt_client.Packet.Chunked.{available, data_from}
use esp_mqtt_client.Outbox.Queue
use esp_mqtt_client.Outbox.Queue.{Queue}
use esp_mqtt_client.Client.{Client, OutgoingPacket, disconnecting_tcp1, user_ok, tcp_disconnected}
use esp_mqtt_client.Client.Queueing.{Alloc, add_packet}

-- What the platform answers during one call of _sendPacket: how many of the bytes that it is given the
-- transport accepts, and millis() twice.
pub record Answer : Type 0 where
  pub accepts : List ℕ → ℕ
  pub time_sent : ℕ
  pub time_active : ℕ

abbrev pub set_current : OutgoingPacket → Queue OutgoingPacket → Queue OutgoingPacket
set_current o q = record q { pending = o ∷ Queue.tail q.pending }

-- _sendPacket behind the call of available; the bytes written and the client. `none` is a read outside
-- the packet.
unfoldable pub write_packet : Answer → OutgoingPacket → ℕ → Client → Option (Client × ℕ)
write_packet w o want c =
    if want == 0 then some (record c { outbox = set_current o c.outbox }, 0) else do
      bytes ← data_from o.packet c.bytes_sent
      let written = w.accepts (take want bytes)
      some (
        record c {
          outbox = set_current (record o { time_sent = w.time_sent }) c.outbox;
          last_client_activity = w.time_active;
          bytes_sent = add_size c.bytes_sent written;
        },
        written,
      )

unfoldable pub send_packet : Answer → Client → Option (Client × ℕ)
unfolding write_packet
send_packet w c = elim (Queue.current c.outbox) [
  | none ↦ some (c, 0)
  | some o ↦ do
    (want, packet) ← available o.packet c.bytes_sent
    write_packet w (record o { packet = packet }) want c
]

-- _advanceOutbox, when the current packet `o` has been sent
unfoldable pub advanced : OutgoingPacket → Client → Client
advanced o c =
    let c' =
      if packet_type o.packet == disconnect_type
      then record c { state = disconnecting_tcp1; disconnect_reason = user_ok }
      else c in
    if removable o.packet
    then record c' { outbox = Queue.drop_current c.outbox; bytes_sent = 0 }
    else record c' {
      outbox = Queue.step (
          if packet_type o.packet == publish_type
          then set_current (record o { packet = set_dup o.packet }) c.outbox
          else c.outbox);
      bytes_sent = 0;
    }

-- whether there is a current packet afterwards
abbrev pub has_current : Client → Bool
has_current c = elim (Queue.current c.outbox) [ none ↦ false | some o ↦ true ]

-- _advanceOutbox; the result is `has_current` of the client.
unfoldable pub advance_outbox : Client → Client
unfolding advanced
advance_outbox c = elim (Queue.current c.outbox) [
  | none ↦ c
  | some o ↦ if c.bytes_sent == o.packet.size then advanced o c else c
]

-- whether the size_t is positive as the int that _sendPacket returns
unfoldable pub is_positive : ℕ → Bool
is_positive n = ltb 0 n && ltb n (2 ^ 31)

-- _checkOutbox, for the answers of the turns to come; `none` is a fault, or no answer is left.
unfoldable pub check_outbox : List Answer → Client → Option Client
unfolding send_packet advance_outbox
check_outbox [] c = none
check_outbox (w ∷ ws) c = elim (send_packet w c) [
  | none ↦ none
  | some r ↦ elim (is_positive r.1) [
    | false ↦ some r.0
    | true ↦ elim (has_current (advance_outbox r.0)) [
      | false ↦ some (advance_outbox r.0)
      | true ↦ check_outbox ws (advance_outbox r.0)
    ]
  ]
]

-- uint32_t subtraction of two times
abbrev pub since : ℕ → ℕ → ℕ
since now then_ = (now + 2 ^ 32 - then_) % 2 ^ 32

-- _checkPing behind its tests
unfoldable pub send_ping : Alloc → Client → Option Client
send_ping a c = do
  (c', added) ← add_packet a (λ mem. create_simple mem pingreq_type) c
  some (if added then record c' { ping_sent = true } else c')

-- _checkPing
unfoldable pub check_ping : Alloc → ℕ → Client → Option Client
unfolding send_ping
check_ping a now c =
    if c.keep_alive == 0
    then some c
    else if ltb (2 * c.keep_alive % 2 ^ 32) (since now c.last_server_activity)
    then some (record c { state = disconnecting_tcp1; disconnect_reason = tcp_disconnected })
    else if not c.ping_sent
        && (ltb c.keep_alive (since now c.last_client_activity)
            || ltb c.keep_alive (since now c.last_server_activity))
    then send_ping a c
    else some c

-- _checkTimeout: the first packet is not the current one exactly if the cursor has passed a packet.
unfoldable pub check_timeout : ℕ → Client → Client
check_timeout now c = elim c.outbox.sent [
  | [] ↦ c
  | o ∷ os ↦
      if c.bytes_sent == 0 && ltb c.timeout (since now o.time_sent)
      then record c { outbox = Queue.rewind c.outbox }
      else c
]
