-- ===== src/Client/Outcomes.antt =====
-- What a request of src/MqttClient.cpp or MqttClient.h that returns an identifier says of the outbox.
use esp_mqtt_client.Prelude.{
  ℕ, zero, suc, ◌+◌, ◌-◌, ◌≡◌, refl, ap, ◌∙◌, List, [], ◌∷◌, ◌++◌, Option, none, some, Bool, true,
  false, length, arith, ltb, if◌then◌else◌, inl, inr, ◌>>=◌, Bool-cases, Option-cases,
  length-append, append-nil, subst, take,
}
use esp_mqtt_client.Outbox.Queue
use esp_mqtt_client.Outbox.Queue.{Queue}
use esp_mqtt_client.Packet.{Packet, Error, Memory, PayloadCallback}
use esp_mqtt_client.Packet.Create.{
  SubscribeItem, create_publish, create_chunked_publish, create_subscribe, create_unsubscribe,
}
use esp_mqtt_client.Packet.Connect.{strlen}
use esp_mqtt_client.Client.{Client, OutgoingPacket, Event, get_next_packet_id, emit}
use esp_mqtt_client.Client.Queueing.{Alloc, add_packet, new_packet, is_success}
use esp_mqtt_client.Client.Clear.{remove_nth-middle}
use esp_mqtt_client.Client.Requests.{
  publish, publish_string, publish_chunked, publish_with, subscribe, unsubscribe, request_with,
}

-- The packet that was appended is taken away again.
pub remove_at-push_back :
    (x : OutgoingPacket) (q : Queue OutgoingPacket)
    → Queue.remove_at (length (Queue.items (Queue.push_back x q)) - 1) (Queue.push_back x q) ≡ q
remove_at-push_back x q =
    let size = length-append q.sent (q.pending ++ (x ∷ [])) in
    let more = length-append q.pending (x ∷ []) in
    let last : length (Queue.items (Queue.push_back x q)) - 1 ≡ length q.sent + length q.pending =
      omega (arith, size, more) in
    let past : ltb (length q.sent + length q.pending) (length q.sent) ≡ false = ground arith in
    let place : length q.sent + length q.pending - length q.sent ≡ length q.pending = omega arith in
    rw (last, past, place)
      (ap (λ l. record q { pending = l }) (remove_nth-middle q.pending x [] ∙ append-nil q.pending))

-- What _addPacket leaves: the client as it was, or with one packet more at the end of the outbox, which
-- its constructor has made.
abbrev pub Added : Option (Packet × Error) → Client → Option (Client × Bool) → Type 0
Added made c none = Unit {0}
Added made c (some (c', false)) = c' ≡ c
Added made c (some (c', true)) =
    (r : Packet × Error) × (made ≡ some r)
    × (is_success r.1 ≡ true)
    × (c' ≡ record c { outbox = Queue.push_back (new_packet r.0) c.outbox })

pub add_packet-Added :
    (a : Alloc) (make : Memory → Option (Packet × Error)) (c : Client)
    → Added (make a.memory) c (add_packet a make c)
unfolding add_packet
add_packet-Added a make c = elim (Bool-cases a.node_allocated) [
  | inr n ↦ rw (add_packet, n) refl
  | inl y ↦ elim (Option-cases (make a.memory)) [
    | inl e ↦ rw (add_packet, y, e) tt
    | inr (r, e) ↦ elim (Bool-cases (is_success r.1)) [
      | inl good ↦ rw (add_packet, y, e, good) (r, refl, good, refl)
      | inr bad ↦
          rw (add_packet, y, e, bad)
            (ap (λ q. record c { outbox = q }) (remove_at-push_back (new_packet r.0) c.outbox))
    ]
  ]
]

-- The outbox after a request that returned a number: 0 for nothing queued, else one packet more.
abbrev pub Outcome : Queue OutgoingPacket → Queue OutgoingPacket → ℕ → Type 0
Outcome before after zero = after ≡ before
Outcome before after (suc id) = (p : Packet) × (after ≡ Queue.push_back (new_packet p) before)

abbrev Requested : Client → Option (Client × ℕ) → Type 0
Requested c none = Unit {0}
Requested c (some (c', id)) = Outcome c.outbox c'.outbox id

module _ (c c1 : Client) (id n : ℕ) (made : Option (Packet × Error)) (e : id ≡ suc n)
    (taken : c1.outbox ≡ c.outbox) where
  published :
      (error : Event) (r : Option (Client × Bool))
      → Added made c1 r
      → Requested c (r >>= λ (c'', added). some (if added then (c'', id) else (emit error c'', 0)))
  published error none h = tt
  published error (some (c', false)) h = ap (λ (d : Client). d.outbox) h ∙ taken
  published error (some (c', true)) (p, _, _, h) =
      rw e (p.0, ap (λ (d : Client). d.outbox) h ∙ ap (Queue.push_back (new_packet p.0)) taken)

  asked :
      (r : Option (Client × Bool))
      → Added made c1 r
      → Requested c (r >>= λ (c'', added). some (c'', if added then id else 0))
  asked none h = tt
  asked (some (c', false)) h = ap (λ (d : Client). d.outbox) h ∙ taken
  asked (some (c', true)) (p, _, _, h) =
      rw e (p.0, ap (λ (d : Client). d.outbox) h ∙ ap (Queue.push_back (new_packet p.0)) taken)

next_id-suc :
    (c : Client) → (get_next_packet_id c).packet_id ≡ suc ((get_next_packet_id c).packet_id - 1)
unfolding get_next_packet_id
next_id-suc c = ground arith

next_id-outbox : (c : Client) → (get_next_packet_id c).outbox ≡ c.outbox
unfolding get_next_packet_id
next_id-outbox c = refl

request_with-Requested :
    (a : Alloc) (make : ℕ → Memory → Option (Packet × Error)) (c : Client)
    → Requested c (request_with a make c)
unfolding request_with
request_with-Requested a make c =
    let c1 = get_next_packet_id c in
    asked c c1 c1.packet_id (c1.packet_id - 1) _ (next_id-suc c) (next_id-outbox c) _
      (add_packet-Added a _ c1)

publish_with-Requested :
    (a : Alloc) (qos : ℕ) (make : ℕ → Memory → Option (Packet × Error)) (c : Client)
    → Requested c (publish_with a qos make c)
unfolding publish_with
publish_with-Requested a qos make c = elim (Bool-cases (ltb 0 qos)) [
  | inr n ↦ rw n (published c c 1 0 _ refl refl _ _ (add_packet-Added a _ c))
  | inl y ↦
      let c1 = get_next_packet_id c in
      rw y (
        published c c1 c1.packet_id (c1.packet_id - 1) _ (next_id-suc c) (next_id-outbox c) _ _
          (add_packet-Added a _ c1))
]

-- The requests that queue a packet and return its identifier
pub data Request : Type 0 where
  publishing : List ℕ → ℕ → Bool → List ℕ → Request
  publishing_string : List ℕ → ℕ → Bool → List ℕ → Request
  publishing_chunked : List ℕ → ℕ → Bool → PayloadCallback → ℕ → Request
  subscribing : List SubscribeItem → Request
  unsubscribing : List (List ℕ) → Request

abbrev pub request : Request → Alloc → Client → Option (Client × ℕ)
request (publishing topic qos retain payload) a = publish a topic qos retain payload
request (publishing_string topic qos retain payload) a = publish_string a topic qos retain payload
request (publishing_chunked topic qos retain callback total) a =
    publish_chunked a topic qos retain callback total
request (subscribing list) a = subscribe a list
request (unsubscribing list) a = unsubscribe a list

-- A request is refused by its guard, or goes on.
guarded :
    (c : Client) (test : Bool) (go : Option (Client × ℕ))
    → Requested c go
    → Requested c (if test then some (c, 0) else go)
guarded c true go h = refl
guarded c false go h = h

request-Requested : (r : Request) (a : Alloc) (c : Client) → Requested c (request r a c)
unfolding publish publish_string publish_chunked subscribe unsubscribe
request-Requested (publishing topic qos retain payload) a c =
    guarded c _ _
      (publish_with-Requested a qos (λ i mem. create_publish mem i topic payload qos retain) c)
request-Requested (publishing_string topic qos retain payload) a c = guarded c _ _ (
    publish_with-Requested a qos
      (λ i mem. create_publish mem i topic (take (strlen payload) payload) qos retain) c)
request-Requested (publishing_chunked topic qos retain callback total) a c = guarded c _ _ (
    publish_with-Requested a qos
      (λ i mem. create_chunked_publish mem i topic callback total qos retain) c)
request-Requested (subscribing list) a c =
    guarded c _ _ (request_with-Requested a (λ i mem. create_subscribe mem i list) c)
request-Requested (unsubscribing list) a c =
    guarded c _ _ (request_with-Requested a (λ i mem. create_unsubscribe mem i list) c)

-- The returned number says what happened: whatever the client's state, the memory and the arguments, if
-- publish with a payload, a C string or a callback, subscribe or unsubscribe returns 0, the outbox and
-- its cursor are as they were, also where a packet's constructor failed after the node was allocated;
-- and if it returns another number, one packet has been appended and nothing else has changed in the
-- outbox.
pub request-Outcome :
    (r : Request) (a : Alloc) (c c' : Client) (id : ℕ)
    → request r a c ≡ some (c', id)
    → Outcome c.outbox c'.outbox id
request-Outcome r a c c' id run = subst (Requested c) run (request-Requested r a c)
