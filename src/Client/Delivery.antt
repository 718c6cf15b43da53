-- ===== src/Client/Delivery.antt =====
-- QoS 2 reception in src/MqttClient.cpp: a message is delivered once.
use esp_mqtt_client.Prelude.{
  ℕ, suc, ◌≡◌, refl, ap, ◌∙◌, List, [], ◌∷◌, none, some, Bool, true, false, arith, All, ◌==◌,
  Bool-cases, inl, inr, ◌++◌,
}
use esp_mqtt_client.Config.{pubrec_type}
use esp_mqtt_client.Parser.{qos}
use esp_mqtt_client.Outbox.Queue
use esp_mqtt_client.Outbox.Queue.{Queue}
use esp_mqtt_client.Client.{Client, OutgoingPacket, on_message}
use esp_mqtt_client.Client.Queueing.{Alloc}
use esp_mqtt_client.Client.Incoming.{
  find_first, is_delivered, is_last, message_of, on_publish_packet, answer_last, deliver_once,
}
use esp_mqtt_client.Client.Handshake.{answer, HasAlloc, acknowledge-HasAlloc}

find_first-none :
    (test : OutgoingPacket → Bool) (xs : List OutgoingPacket) (k : ℕ)
    → All (λ x. test x ≡ false) xs
    → find_first test xs k ≡ none
find_first-none test [] k h = refl
find_first-none test (x ∷ xs) k h = rw h.0 (find_first-none test xs (suc k) h.1)

find_first-some :
    (test : OutgoingPacket → Bool) (before : List OutgoingPacket) (o : OutgoingPacket)
    (after : List OutgoingPacket) (k : ℕ)
    → test o ≡ true
    → (r : ℕ × OutgoingPacket) × (find_first test (before ++ (o ∷ after)) k ≡ some r)
find_first-some test [] o after k y = ((k, o), rw y refl)
find_first-some test (x ∷ before) o after k y = elim (Bool-cases (test x)) [
  | inl t ↦ ((k, x), rw t refl)
  | inr f ↦ let rest = find_first-some test before o after (suc k) y in (rest.0, rw f rest.1)
]

-- The parser holds the last portion of a QoS 2 PUBLISH packet.
pub record HasQos2 (c : Client) : Type 0 where
  pub has_qos2 : (qos c.parser.incoming == 2) ≡ true
  pub at_end : is_last c.parser.incoming ≡ true

-- The client with one more PUBREC for the packet in its parser
abbrev pub answered_again : Client → Client
answered_again c = record c {
  outbox = Queue.push_back (answer pubrec_type c.parser.incoming.fixed) c.outbox;
}

-- The client after a QoS 2 PUBLISH that has not been delivered before.
abbrev pub received_once : Client → Client
received_once c = record (answered_again c) { events = on_message (message_of c.parser) ∷ c.events }

answered :
    (a : Alloc) (c : Client)
    → HasAlloc a
    → is_last c.parser.incoming ≡ true
    → answer_last a pubrec_type c ≡ some (answered_again c)
unfolding answer_last
answered a c h l = rw l (acknowledge-HasAlloc a 1 c.parser.incoming.fixed c h (omega arith))

-- What _onPublish does for such a packet, from what the test for a PUBREC has found.
on_publish-qos2 :
    (a : Alloc) (c : Client)
    → HasAlloc a
    → HasQos2 c
    → on_publish_packet a c ≡ some (deliver_once c.outbox (answered_again c))
unfolding on_publish_packet
on_publish-qos2 a c h q =
    let not_one : (qos c.parser.incoming == 1) ≡ false = ground (arith, q.has_qos2) in
    rw (not_one, q.has_qos2, answered a c h q.at_end) refl

-- When the parser holds the last portion of a QoS 2 PUBLISH packet of which no PUBREC is in the outbox,
-- then, with memory, that portion is given to the message callback and the PUBREC is put at the end of
-- the outbox. When the last portion of a QoS 2 PUBLISH packet with the same packet id comes at whatever later time while a PUBREC with that id is in the outbox, before or
-- behind the cursor, it is, with memory, answered with one more PUBREC, and nothing else of the client
-- changes: it is not given to the callback a second time.
pub on_publish-once :
    (a again : Alloc) (c later : Client) (before : List OutgoingPacket) (o : OutgoingPacket)
    (after : List OutgoingPacket)
    → HasAlloc a
    → HasAlloc again
    → HasQos2 c
    → HasQos2 later
    → All (λ x. is_delivered c.parser.incoming.fixed x ≡ false) (Queue.items c.outbox)
    → later.parser.incoming.fixed ≡ c.parser.incoming.fixed
    → Queue.items later.outbox ≡ before ++ (o ∷ after)
    → is_delivered c.parser.incoming.fixed o ≡ true
    → (on_publish_packet a c ≡ some (received_once c))
      × (on_publish_packet again later ≡ some (answered_again later))
on_publish-once a again c later before o after h h' q q' fresh same there found =
    let id = later.parser.incoming.fixed in
    let none_before =
      find_first-none (is_delivered c.parser.incoming.fixed) (Queue.items c.outbox) 0 fresh in
    let (r, e) = find_first-some (is_delivered id) before o after 0 (rw same found) in
    let held : find_first (is_delivered id) (Queue.items later.outbox) 0 ≡ some r =
      ap (λ xs. find_first (is_delivered id) xs 0) there ∙ e in
    let first : deliver_once c.outbox (answered_again c) ≡ received_once c =
      rw (deliver_once, none_before) refl in
    let second : deliver_once later.outbox (answered_again later) ≡ answered_again later =
      rw (deliver_once, held) refl in
    (on_publish-qos2 a c h q ∙ ap some first, on_publish-qos2 again later h' q' ∙ ap some second)
