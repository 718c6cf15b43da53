-- ===== src/Client/Reading.antt =====
-- The handlers of _checkIncoming in src/MqttClient.cpp keep an outbox of filled packets.
use esp_mqtt_client.Prelude.{
  ℕ, ◌+◌, ◌*◌, ◌<◌, ◌≡◌, sym, Option, none, some, Bool, true, false, arith, subst, Bool-cases,
  Option-cases, inl, inr, ◌==◌, bit_and, ◌>>=◌,
}
use esp_mqtt_client.Config.{publish_type, pubrec_type, pubrel_type}
use esp_mqtt_client.Outbox.Queue.{Queue}
use esp_mqtt_client.Parser.{qos}
use esp_mqtt_client.Packet.Create.{create_ack}
use esp_mqtt_client.Packet.Makes.{create_ack-Makes}
use esp_mqtt_client.Client.{Client, OutgoingPacket, Event, emit, on_message, connected}
use esp_mqtt_client.Client.Queueing.{Alloc, add_packet}
use esp_mqtt_client.Client.Sending.{advance_outbox}
use esp_mqtt_client.Client.Incoming.{
  acknowledge, on_connack, connack_accepted, on_publish_packet, on_puback, on_pubrec, on_pubrel,
  on_pubcomp, on_suback, on_unsuback, complete, replace, dispatch, handle_packet, match_first,
  remove, answer_last, deliver_once, is_last, message_of,
}
use esp_mqtt_client.Client.Plain.{
  HasPlain, remove_at-HasPlain, clear_queue-HasPlain, add_packet-HasPlain, Makes-MakesPlain,
  LeavesPlain,
}
use esp_mqtt_client.Client.Keeping.{advance_outbox-Kept}

-- The outbox of what a handler leaves, if it leaves a client
abbrev IsPlainAfter : Option Client → Type 0
IsPlainAfter none = Unit {0}
IsPlainAfter (some c) = HasPlain c.outbox

remove-HasPlain : (index : ℕ) (c : Client) → HasPlain c.outbox → HasPlain (remove index c).outbox
remove-HasPlain index c h = remove_at-HasPlain index c.outbox h

first_of : (r : Option (Client × Bool)) → LeavesPlain r → IsPlainAfter (r >>= (λ x. some x.0))
first_of none h = tt
first_of (some r) h = h

acknowledge-Plain :
    (a : Alloc) (n id : ℕ) (c : Client)
    → n < 4
    → HasPlain c.outbox
    → IsPlainAfter (acknowledge a ((4 + n) * 16) id c)
unfolding acknowledge
acknowledge-Plain a n id c k h =
    first_of (add_packet a (λ mem. create_ack mem ((4 + n) * 16) id) c) (
      add_packet-HasPlain a (λ mem. create_ack mem ((4 + n) * 16) id) c
        (Makes-MakesPlain 4 _ (omega arith) (create_ack-Makes a.memory n id k)) h)

on_connack-Plain : (c : Client) → HasPlain c.outbox → HasPlain (on_connack c).outbox
unfolding on_connack connack_accepted
on_connack-Plain c h =
    let d = record c { ping_sent = false; state = connected } in
    let advanced = advance_outbox-Kept d h in
    ground (arith, advanced, clear_queue-HasPlain 1 (advance_outbox d) advanced.0, h)

complete-Plain : (type : ℕ) (c : Client) → HasPlain c.outbox → HasPlain (complete type c).outbox
unfolding complete
complete-Plain type c h = elim (Option-cases (match_first type c.parser.incoming.fixed c)) [
  | inl e ↦ rw (complete, e) h
  | inr (index, e) ↦ rw (complete, e) (remove-HasPlain index c h)
]

and_then :
    (o : Option Client) (f : Client → Client)
    → ((c : Client) → HasPlain c.outbox → HasPlain (f c).outbox)
    → IsPlainAfter o
    → IsPlainAfter (o >>= (λ c. some (f c)))
and_then none f k h = tt
and_then (some c) f k h = k c h

replace-Plain :
    (a : Alloc) (type n : ℕ) (c : Client)
    → n < 4
    → HasPlain c.outbox
    → IsPlainAfter (replace a type ((4 + n) * 16) c)
unfolding replace
replace-Plain a type n c k h = elim (Option-cases (match_first type c.parser.incoming.fixed c)) [
  | inl e ↦ rw (replace, e) h
  | inr (index, e) ↦
      rw (replace, e)
        (and_then _ (remove index) (remove-HasPlain index)
          (acknowledge-Plain a n c.parser.incoming.fixed c k h))
]

-- Removing the packet that a search has found, with an event
found-Plain :
    (c : Client) (event : ℕ × OutgoingPacket → Event) (found : Option (ℕ × OutgoingPacket))
    → HasPlain c.outbox
    → HasPlain
        (elim found as (λ _. Client) [ none ↦ c | some r ↦ emit (event r) (remove r.0 c) ]).outbox
found-Plain c event none h = h
found-Plain c event (some r) h = remove-HasPlain r.0 c h

on_suback-Plain : (c : Client) → HasPlain c.outbox → HasPlain (on_suback c).outbox
unfolding on_suback
on_suback-Plain c h = found-Plain c _ _ h

on_unsuback-Plain : (c : Client) → HasPlain c.outbox → HasPlain (on_unsuback c).outbox
unfolding on_unsuback
on_unsuback-Plain c h = found-Plain c _ _ h

answer_last-Plain :
    (a : Alloc) (n : ℕ) (c : Client)
    → n < 4
    → HasPlain c.outbox
    → IsPlainAfter (answer_last a ((4 + n) * 16) c)
unfolding answer_last
answer_last-Plain a n c k h = elim (Bool-cases (is_last c.parser.incoming)) [
  | inl y ↦ rw y (acknowledge-Plain a n c.parser.incoming.fixed c k h)
  | inr m ↦ rw m h
]

deliver_once-outbox : (q : Queue OutgoingPacket) (c : Client) → (deliver_once q c).outbox ≡ c.outbox
deliver_once-outbox q c = ground arith

on_publish-Plain :
    (a : Alloc) (c : Client) → HasPlain c.outbox → IsPlainAfter (on_publish_packet a c)
unfolding on_publish_packet
on_publish-Plain a c h = elim (Bool-cases (qos c.parser.incoming == 1)) [
  | inl y ↦ rw y (
      and_then _ (λ c'. emit (on_message (message_of c'.parser)) c') (λ c' k. k)
        (answer_last-Plain a 0 c (omega arith) h))
  | inr n ↦ elim (Bool-cases (qos c.parser.incoming == 2)) [
    | inl y ↦
        rw (n, y)
          (and_then _ (deliver_once c.outbox)
            (λ c' k. subst HasPlain (sym (deliver_once-outbox c.outbox c')) k)
            (answer_last-Plain a 1 c (omega arith) h))
    | inr m ↦ rw (n, m) h
  ]
]

go_on : (o : Option Client) → IsPlainAfter o → LeavesPlain (o >>= (λ c. some (c, true)))
go_on none h = h
go_on (some c) h = h

dispatch-Plain :
    (a : Alloc) (type : ℕ) (c : Client) → HasPlain c.outbox → LeavesPlain (dispatch a type c)
unfolding dispatch on_pubrec on_pubrel on_puback on_pubcomp
dispatch-Plain a type c h = ground (
  arith,
  on_connack-Plain c h,
  complete-Plain publish_type c h,
  complete-Plain pubrel_type c h,
  on_suback-Plain c h,
  on_unsuback-Plain c h,
  go_on (on_publish_packet a c) (on_publish-Plain a c h),
  go_on (on_pubrec a c) (replace-Plain a publish_type 2 c (omega arith) h),
  go_on (on_pubrel a c) (replace-Plain a pubrec_type 3 c (omega arith) h),
)

pub handle_packet-Plain :
    (a : Alloc) (c : Client) → HasPlain c.outbox → LeavesPlain (handle_packet a c)
unfolding handle_packet
handle_packet-Plain a c h =
    ground (arith, h, dispatch-Plain a (bit_and c.parser.incoming.packet_type 0xf0) c h)
