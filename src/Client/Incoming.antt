-- ===== src/Client/Incoming.antt =====
-- _checkIncoming of src/MqttClient.cpp and the handlers of incoming packets.
use esp_mqtt_client.Prelude.{
  ℕ, zero, suc, List, [], ◌∷◌, Option, none, some, Bool, true, false, not, ◌&&◌, ◌==◌,
  if◌then◌else◌, length, ltb, take, drop, ◌>>=◌, bit_and,
}
use esp_mqtt_client.Config.{
  publish_type, puback_type, pubrec_type, pubrel_type, pubcomp_type, subscribe_type, connack_type,
  suback_type, unsuback_type, pingresp_type,
}
use esp_mqtt_client.Packet.{packet_type, add_size}
use esp_mqtt_client.Packet.Create.{create_ack}
use esp_mqtt_client.Parser.{
  Parser, IncomingPacket, qos, retain, dup, session_present, return_code, await_data, packet,
  protocol_error, nowhere, payload_buffer, input,
}
use esp_mqtt_client.Parser.Parse.{parse}
use esp_mqtt_client.Outbox.Queue
use esp_mqtt_client.Outbox.Queue.{Queue}
use esp_mqtt_client.Client.{
  Client, OutgoingPacket, connecting_mqtt, connected, disconnecting_mqtt1, disconnecting_tcp1,
  number, is_state, set_state, emit, tcp_disconnected, Message, on_connect, on_subscribe,
  on_unsubscribe, on_message, on_publish,
}
use esp_mqtt_client.Client.Queueing.{Alloc, add_packet, clear_queue}
use esp_mqtt_client.Client.Sending.{advance_outbox}

-- The iterator's loops: the index of the first packet that passes a test, from an index on.
abbrev pub find_first :
    (OutgoingPacket → Bool) → List OutgoingPacket → ℕ → Option (ℕ × OutgoingPacket)
find_first test [] index = none
find_first test (o ∷ os) index = if test o then some (index, o) else find_first test os (suc index)

abbrev pub has_type : ℕ → OutgoingPacket → Bool
has_type type o = packet_type o.packet == type

-- Only the first packet of the type is looked at; its index, if it has the packet id.
unfoldable pub match_first : ℕ → ℕ → Client → Option ℕ
match_first type packet_id c = elim (find_first (has_type type) (Queue.items c.outbox) 0) [
  | none ↦ none
  | some r ↦ if r.1.packet.packet_id == packet_id then some r.0 else none
]

abbrev pub remove : ℕ → Client → Client
remove index c = record c { outbox = Queue.remove_at index c.outbox }

-- _onConnack for the return code 0
unfoldable pub connack_accepted : Client → Client
connack_accepted c =
    let p = c.parser.incoming in
    let c' = advance_outbox (record c { ping_sent = false; state = connected }) in
    emit (on_connect (not (session_present p == 0)))
      (if session_present p == 0 then clear_queue 1 c' else c')

-- _onConnack
unfoldable pub on_connack : Client → Client
unfolding connack_accepted
on_connack c =
    if return_code c.parser.incoming == 0
    then connack_accepted c
    else record c { state = disconnecting_tcp1; disconnect_reason = return_code c.parser.incoming }

-- The bytes that the message callback can read.
abbrev pub payload_bytes : Parser → List ℕ
payload_bytes p = elim p.incoming.payload_data [
  | nowhere ↦ []
  | payload_buffer ↦ take p.incoming.payload_length p.payload_bytes
  | input n ↦ take p.incoming.payload_length (drop n p.input_data)
]

abbrev pub message_of : Parser → Message
message_of p = record {
  qos = qos p.incoming;
  dup = dup p.incoming;
  retain = retain p.incoming;
  packet_id = p.incoming.fixed;
  topic = p.incoming.topic;
  payload = payload_bytes p;
  index = p.incoming.payload_index;
  total = p.incoming.payload_total;
}

-- whether the portion is the last of the payload
abbrev pub is_last : IncomingPacket → Bool
is_last p = add_size p.payload_index p.payload_length == p.payload_total

-- An acknowledgement is added; that it could not be created is only logged.
unfoldable pub acknowledge : Alloc → ℕ → ℕ → Client → Option Client
acknowledge a type packet_id c = do
  (c', _) ← add_packet a (λ mem. create_ack mem type packet_id) c
  some c'

abbrev pub is_delivered : ℕ → OutgoingPacket → Bool
is_delivered packet_id o = packet_type o.packet == pubrec_type && o.packet.packet_id == packet_id

-- The answer to the last portion of a payload
unfoldable pub answer_last : Alloc → ℕ → Client → Option Client
unfolding acknowledge
answer_last a type c =
    if is_last c.parser.incoming then acknowledge a type c.parser.incoming.fixed c else some c

-- The message callback of a QoS 2 packet is called unless its PUBREC was in the outbox before.
abbrev pub deliver_once : Queue OutgoingPacket → Client → Client
deliver_once outbox c =
    elim (find_first (is_delivered c.parser.incoming.fixed) (Queue.items outbox) 0) [
      | none ↦ emit (on_message (message_of c.parser)) c
      | some _ ↦ c
    ]

-- _onPublish
unfoldable pub on_publish_packet : Alloc → Client → Option Client
unfolding answer_last acknowledge
on_publish_packet a c =
    if qos c.parser.incoming == 1
    then answer_last a puback_type c >>= (λ c'. some (emit (on_message (message_of c'.parser)) c'))
    else if qos c.parser.incoming == 2
    then answer_last a pubrec_type c >>= (λ c'. some (deliver_once c.outbox c'))
    else some (emit (on_message (message_of c.parser)) c)

-- _onPuback and _onPubcomp: the packet is removed and its publication reported.
unfoldable pub complete : ℕ → Client → Client
complete type c = elim (match_first type c.parser.incoming.fixed c) [
  | none ↦ c
  | some index ↦ emit (on_publish c.parser.incoming.fixed) (remove index c)
]

unfoldable pub on_puback : Client → Client
unfolding complete
on_puback c = complete publish_type c

unfoldable pub on_pubcomp : Client → Client
unfolding complete
on_pubcomp c = complete pubrel_type c

-- _onPubrec and _onPubrel: the packet is replaced by one of another type, which is put at the end.
unfoldable pub replace : Alloc → (type answer : ℕ) → Client → Option Client
replace a type answer c = elim (match_first type c.parser.incoming.fixed c) [
  | none ↦ some c
  | some index ↦ acknowledge a answer c.parser.incoming.fixed c >>= (λ c'. some (remove index c'))
]

unfoldable pub on_pubrec : Alloc → Client → Option Client
unfolding replace acknowledge
on_pubrec a c = replace a publish_type pubrel_type c

unfoldable pub on_pubrel : Alloc → Client → Option Client
unfolding replace acknowledge
on_pubrel a c = replace a pubrec_type pubcomp_type c

-- _onSuback; the return codes are in the parser's buffer.
unfoldable pub on_suback : Client → Client
on_suback c =
    let id = c.parser.incoming.fixed in
    elim (find_first (λ o. has_type subscribe_type o && o.packet.packet_id == id)
      (Queue.items c.outbox) 0) [
        | none ↦ c
        | some r ↦
            emit (on_subscribe id (take c.parser.incoming.payload_total c.parser.payload_bytes))
              (remove r.0 c)
      ]

-- _onUnsuback: the type of the packet is not looked at.
unfoldable pub on_unsuback : Client → Client
on_unsuback c =
    let id = c.parser.incoming.fixed in
    elim (find_first (λ o. o.packet.packet_id == id) (Queue.items c.outbox) 0) [
      | none ↦ c
      | some r ↦ emit (on_unsubscribe id) (remove r.0 c)
    ]

-- The switch of _checkIncoming, and whether the loop goes on.
unfoldable pub dispatch : Alloc → ℕ → Client → Option (Client × Bool)
dispatch a type c =
    if type == connack_type
    then some (on_connack c, is_state connected (on_connack c))
    else if type == publish_type
    then if ltb (number c.state) (number disconnecting_mqtt1)
      then on_publish_packet a c >>= (λ c'. some (c', true))
      else some (c, true)
    else if type == puback_type
    then some (on_puback c, true)
    else if type == pubrec_type
    then on_pubrec a c >>= (λ c'. some (c', true))
    else if type == pubrel_type
    then on_pubrel a c >>= (λ c'. some (c', true))
    else if type == pubcomp_type
    then some (on_pubcomp c, true)
    else if type == suback_type
    then some (on_suback c, true)
    else if type == unsuback_type
    then some (on_unsuback c, true)
    else if type == pingresp_type
    then some (record c { ping_sent = false }, true)
    else some (c, true)

-- A complete packet in the parser
unfoldable pub handle_packet : Alloc → Client → Option (Client × Bool)
unfolding dispatch
handle_packet a c =
    let type = bit_and c.parser.incoming.packet_type 0xf0 in
    if is_state connecting_mqtt c && not (type == connack_type)
    then some (set_state disconnecting_tcp1 c, false)
    else dispatch a type c

-- The loop over the bytes that have been received; `allocs` answers for the packet with so many bytes
-- left. `none` is a fault, or the end of the fuel.
unfoldable pub incoming_loop : (fuel : ℕ) → (ℕ → Alloc) → List ℕ → Client → Option Client
unfolding handle_packet
incoming_loop fuel allocs [] c = some c
incoming_loop zero allocs (b ∷ bytes) c = none
incoming_loop (suc fuel) allocs (b ∷ bytes) c = elim (parse (b ∷ bytes) c.parser) [
  | none ↦ none
  | some r ↦
      let c' = record c { parser = r.1 } in
      let rest = drop r.1.bytes_read (b ∷ bytes) in
      elim r.0 [
        | await_data ↦ incoming_loop fuel allocs rest c'
        | packet ↦ elim (handle_packet (allocs (length rest)) c') [
          | none ↦ none
          | some h ↦ elim h.1 [ false ↦ some h.0 | true ↦ incoming_loop fuel allocs rest h.0 ]
        ]
        | protocol_error ↦
            some (record c' { state = disconnecting_tcp1; disconnect_reason = tcp_disconnected })
      ]
]

-- _checkIncoming, for what the transport has read into the buffer.
unfoldable pub check_incoming : (now : ℕ) → (ℕ → Alloc) → List ℕ → Client → Option Client
unfolding incoming_loop
check_incoming now allocs [] c = some c
check_incoming now allocs (b ∷ bytes) c =
    incoming_loop (length (b ∷ bytes)) allocs (b ∷ bytes) (record c { last_server_activity = now })
