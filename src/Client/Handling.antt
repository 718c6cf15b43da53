-- ===== src/Client/Handling.antt =====
-- The handlers of src/MqttClient.cpp return and keep the parser.
use esp_mqtt_client.Prelude.{
  ℕ, ◌+◌, ◌*◌, ◌<◌, ◌≡◌, refl, ◌∙◌, Option, none, some, Bool, true, false, arith, if◌then◌else◌,
  Bool-cases, inl, inr, ◌==◌, ltb, bit_and, ◌>>=◌,
}
use esp_mqtt_client.Config.{publish_type, pubrec_type, emc_min_free_memory}
use esp_mqtt_client.Packet.{Packet, Error, Memory}
use esp_mqtt_client.Packet.Create.{create_ack}
use esp_mqtt_client.Packet.Publish.{create_ack-frame, build_fails}
use esp_mqtt_client.Parser.{qos}
use esp_mqtt_client.Outbox.Queue
use esp_mqtt_client.Client.{Client, OutgoingPacket, emit, on_message}
use esp_mqtt_client.Client.Queueing.{Alloc, is_success, add_packet, clear_queue}
use esp_mqtt_client.Client.Sending.{advance_outbox, advanced}
use esp_mqtt_client.Client.Incoming.{
  acknowledge, on_connack, connack_accepted, on_publish_packet, on_puback, on_pubrec, on_pubrel,
  on_pubcomp, on_suback, on_unsuback, complete, replace, dispatch, handle_packet, match_first,
  remove, answer_last, deliver_once, is_last, message_of,
}

-- A handler that returns, and leaves the parser alone.
abbrev Handles : Client → Option Client → Type 0
Handles c none = ⊥
Handles c (some c') = c'.parser ≡ c.parser

abbrev pub HandlesOn : Client → Option (Client × Bool) → Type 0
HandlesOn c none = ⊥
HandlesOn c (some r) = r.0.parser ≡ c.parser

create_ack-some :
    (mem : Memory) (n id : ℕ)
    → n < 4
    → (r : Packet × Error) × (create_ack mem ((4 + n) * 16) id ≡ some r)
unfolding create_ack
create_ack-some mem n id h = elim (Bool-cases mem.malloc_succeeds) [
  | inr e ↦ (_, build_fails mem id 2 true _ (inl e))
  | inl e ↦ elim (Bool-cases (ltb mem.free_memory emc_min_free_memory)) [
    | inl l ↦ (_, build_fails mem id 2 true _ (inr (refl, ground arith)))
    | inr l ↦ (_, create_ack-frame mem n id (record { allocates = e; enough = ground arith }) h)
  ]
]

acknowledge-Handles :
    (a : Alloc) (n id : ℕ) (c : Client) → n < 4 → Handles c (acknowledge a ((4 + n) * 16) id c)
unfolding acknowledge add_packet
acknowledge-Handles a n id c h = elim (Bool-cases a.node_allocated) [
  | inr e ↦ rw (acknowledge, e) refl
  | inl e ↦
      let made = create_ack-some a.memory n id h in
      rw (acknowledge, e, made.1) (added _ _ (is_success made.0.1))
]
  where
    added :
        (q r : Queue.Queue OutgoingPacket) (b : Bool)
        → (if◌then◌else◌ {A = Client × Bool} b
            (record c { outbox = q }, true)
            (record c { outbox = r }, false)).0.parser
          ≡ c.parser
    added q r true = refl
    added q r false = refl

on_connack-parser : (c : Client) → (on_connack c).parser ≡ c.parser
unfolding on_connack connack_accepted advance_outbox advanced clear_queue
on_connack-parser c = ground arith

on_puback-parser : (c : Client) → (on_puback c).parser ≡ c.parser
unfolding on_puback complete match_first
on_puback-parser c = ground arith

on_pubcomp-parser : (c : Client) → (on_pubcomp c).parser ≡ c.parser
unfolding on_pubcomp complete match_first
on_pubcomp-parser c = ground arith

on_suback-parser : (c : Client) → (on_suback c).parser ≡ c.parser
unfolding on_suback
on_suback-parser c = ground arith

on_unsuback-parser : (c : Client) → (on_unsuback c).parser ≡ c.parser
unfolding on_unsuback
on_unsuback-parser c = ground arith

continue-Handles :
    (c : Client) (f : Client → Client) (o : Option Client)
    → ((c' : Client) → (f c').parser ≡ c'.parser)
    → Handles c o
    → Handles c (o >>= (λ c'. some (f c')))
continue-Handles c f none k h = h
continue-Handles c f (some c') k h = k c' ∙ h

go_on-Handles :
    (c : Client) (o : Option Client) → Handles c o → HandlesOn c (o >>= (λ c'. some (c', true)))
go_on-Handles c none h = h
go_on-Handles c (some c') h = h

replace-Handles :
    (a : Alloc) (type n : ℕ) (c : Client) → n < 4 → Handles c (replace a type ((4 + n) * 16) c)
unfolding replace
replace-Handles a type n c h =
    elim (match_first type c.parser.incoming.fixed c)
      as (λ m. Handles c (elim m as (λ _. Option Client) [
        | none ↦ some c
        | some index ↦
            acknowledge a ((4 + n) * 16) c.parser.incoming.fixed c
            >>= (λ c'. some (remove index c'))
      ])) [
        | none ↦ refl
        | some index ↦
            continue-Handles c (remove index) _ (λ c'. refl)
              (acknowledge-Handles a n c.parser.incoming.fixed c h)
      ]

answer_last-Handles :
    (a : Alloc) (n : ℕ) (c : Client) → n < 4 → Handles c (answer_last a ((4 + n) * 16) c)
unfolding answer_last
answer_last-Handles a n c h = elim (Bool-cases (is_last c.parser.incoming)) [
  | inl y ↦ rw y (acknowledge-Handles a n c.parser.incoming.fixed c h)
  | inr m ↦ rw m refl
]

deliver_once-parser :
    (q : Queue.Queue OutgoingPacket) (c : Client) → (deliver_once q c).parser ≡ c.parser
deliver_once-parser q c = ground arith

on_publish-Handles : (a : Alloc) (c : Client) → Handles c (on_publish_packet a c)
unfolding on_publish_packet
on_publish-Handles a c = elim (Bool-cases (qos c.parser.incoming == 1)) [
  | inl y ↦ rw y (
      continue-Handles c (λ c'. emit (on_message (message_of c'.parser)) c') _ (λ c'. refl)
        (answer_last-Handles a 0 c (omega arith)))
  | inr n ↦ elim (Bool-cases (qos c.parser.incoming == 2)) [
    | inl y ↦
        rw (n, y)
          (continue-Handles c (deliver_once c.outbox) _ (deliver_once-parser c.outbox)
            (answer_last-Handles a 1 c (omega arith)))
    | inr m ↦ rw (n, m) refl
  ]
]

dispatch-Handles : (a : Alloc) (type : ℕ) (c : Client) → HandlesOn c (dispatch a type c)
unfolding dispatch on_pubrec on_pubrel
dispatch-Handles a type c = ground (
  arith,
  on_connack-parser c,
  on_puback-parser c,
  on_pubcomp-parser c,
  on_suback-parser c,
  on_unsuback-parser c,
  go_on-Handles c (on_publish_packet a c) (on_publish-Handles a c),
  go_on-Handles c (on_pubrec a c) (replace-Handles a publish_type 2 c (omega arith)),
  go_on-Handles c (on_pubrel a c) (replace-Handles a pubrec_type 3 c (omega arith)),
)

pub handle_packet-Handles : (a : Alloc) (c : Client) → HandlesOn c (handle_packet a c)
unfolding handle_packet
handle_packet-Handles a c =
    ground (arith, dispatch-Handles a (bit_and c.parser.incoming.packet_type 0xf0) c)
