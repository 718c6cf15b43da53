-- ===== src/Client/Asked.antt =====
-- The calls of the user in src/MqttClient.cpp return, and keep what loop() relies on.
use esp_mqtt_client.Prelude.{
  ℕ, ◌+◌, ◌≤◌, ◌≡◌, refl, sym, Option, some, Bool, true, false, length, arith, if◌then◌else◌, subst,
  Bool-cases, inl, inr, ltb, take, All,
}
use esp_mqtt_client.Packet.{Packet, Error, Memory, out_of_memory}
use esp_mqtt_client.Packet.Connect.{strlen}
use esp_mqtt_client.Packet.Create.{create_publish, create_subscribe, create_unsubscribe}
use esp_mqtt_client.Packet.Makes.{
  Makes, greatest, create_publish-Makes, create_subscribe-Makes, create_unsubscribe-Makes,
}
use esp_mqtt_client.Packet.Publish.{publish_body}
use esp_mqtt_client.Packet.Subscribe.{topics_with_qos, topics_only}
use esp_mqtt_client.Parser.Invariant.{Arrays}
use esp_mqtt_client.Client.{Client, emit, on_error, get_next_packet_id}
use esp_mqtt_client.Client.Queueing.{Alloc}
use esp_mqtt_client.Client.Requests.{
  publish, publish_string, publish_with, publish_id, subscribe, unsubscribe, request_with,
}
use esp_mqtt_client.Client.Outcomes.{
  Request, publishing, publishing_string, publishing_chunked, subscribing, unsubscribing, request,
}
use esp_mqtt_client.Client.Plain.{HasPlain}
use esp_mqtt_client.Client.Adding.{add_packet-Adds}
use esp_mqtt_client.Client.Sound.{IsSound, IsReady}

-- A sound client with another outbox
pub still :
    (c c' : Client)
    → HasPlain c'.outbox
    → c'.parser ≡ c.parser
    → c'.state ≡ c.state
    → IsSound c
    → IsSound c'
still c c' h p s i = record {
  plain = h;
  arrays = subst Arrays (sym p) i.arrays;
  ready = subst (λ q. IsReady c'.state q) (sym p) (subst (λ t. IsReady t c.parser) (sym s) i.ready);
}

-- What a request may be given: strings of at most 65535 bytes, a QoS of at most 2, a packet of the
-- protocol's format, and a payload that is in memory.
abbrev pub IsFair : Request → Type 0
IsFair (publishing topic qos retain payload) =
    (length topic ≤ 65535)
    × (qos ≤ 2)
    × ((id : ℕ) → length (publish_body id topic payload qos) ≤ 268435455)
IsFair (publishing_string topic qos retain payload) =
    (length topic ≤ 65535)
    × (qos ≤ 2)
    × ((id : ℕ) → length (publish_body id topic (take (strlen payload) payload) qos) ≤ 268435455)
IsFair (publishing_chunked topic qos retain callback n) = ⊥
IsFair (subscribing list) =
    All (λ item. length item.topic ≤ 65535) list × (2 + length (topics_with_qos list) ≤ 268435455)
IsFair (unsubscribing list) =
    All (λ topic. length topic ≤ 65535) list × (2 + length (topics_only list) ≤ 268435455)

-- A request returns a sound client.
abbrev Answers : Option (Client × ℕ) → Type 0
Answers o = (r : Client × ℕ) × (o ≡ some r) × IsSound r.0

guarded :
    (c : Client) (test : Bool) (go : Option (Client × ℕ))
    → IsSound c
    → Answers go
    → Answers (if test then some (c, 0) else go)
guarded c true go i h = ((c, 0), refl, i)
guarded c false go i h = h

numbered : (c : Client) → IsSound c → IsSound (get_next_packet_id c)
unfolding get_next_packet_id
numbered c i = record { plain = i.plain; arrays = i.arrays; ready = i.ready }

publish_id-IsSound : (qos : ℕ) (c : Client) → IsSound c → IsSound (publish_id qos c).0
publish_id-IsSound qos c i = elim (Bool-cases (ltb 0 qos)) [
  | inl y ↦ rw y (numbered c i)
  | inr n ↦ rw n i
]

module _ (a : Alloc) (make : ℕ → Memory → Option (Packet × Error)) (c : Client) (i : IsSound c)
    (makes : (id : ℕ) → Makes greatest (make id a.memory)) where
  publish_with-IsSound : (qos : ℕ) → Answers (publish_with a qos make c)
  unfolding publish_with
  publish_with-IsSound qos =
      let before = publish_id qos c in
      let j = publish_id-IsSound qos c i in
      let ((c1, added), run, adds) =
        add_packet-Adds greatest (omega arith) a (make before.1) before.0 j.plain
          (makes before.1) in
      let k = still before.0 c1 adds.plain adds.parser adds.state j in
      elim (Bool-cases added) [
        | inl y ↦ ((c1, before.1), rw (publish_with, run, y) refl, k)
        | inr n ↦ (
          (emit (on_error before.1 out_of_memory) c1, 0),
          rw (publish_with, run, n) refl,
          record { plain = k.plain; arrays = k.arrays; ready = k.ready },
        )
      ]

  request_with-IsSound : Answers (request_with a make c)
  unfolding request_with
  request_with-IsSound =
      let d = get_next_packet_id c in
      let j = numbered c i in
      let ((c1, added), run, adds) =
        add_packet-Adds greatest (omega arith) a (make d.packet_id) d j.plain (makes d.packet_id) in
      (
        (c1, if added then d.packet_id else 0),
        rw (request_with, run) refl,
        still d c1 adds.plain adds.parser adds.state j,
      )

pub request-IsSound :
    (r : Request) (a : Alloc) (c : Client) → IsFair r → IsSound c → Answers (request r a c)
unfolding publish publish_string subscribe unsubscribe
request-IsSound (publishing topic qos retain payload) a c f i = guarded c _ _ i (
    publish_with-IsSound a (λ id mem. create_publish mem id topic payload qos retain) c i
      (λ id. create_publish-Makes a.memory id topic payload qos retain f.0 f.1 (f.2 id)) qos)
request-IsSound (publishing_string topic qos retain payload) a c f i = guarded c _ _ i (
    publish_with-IsSound a
      (λ id mem. create_publish mem id topic (take (strlen payload) payload) qos retain) c i
      (λ id.
        create_publish-Makes a.memory id topic (take (strlen payload) payload) qos retain f.0 f.1
          (f.2 id))
      qos)
request-IsSound (publishing_chunked topic qos retain callback n) a c f i = absurd f
request-IsSound (subscribing list) a c f i = guarded c _ _ i (
    request_with-IsSound a (λ id mem. create_subscribe mem id list) c i
      (λ id. create_subscribe-Makes a.memory id list f.0 f.1))
request-IsSound (unsubscribing list) a c f i = guarded c _ _ i (
    request_with-IsSound a (λ id mem. create_unsubscribe mem id list) c i
      (λ id. create_unsubscribe-Makes a.memory id list f.0 f.1))
