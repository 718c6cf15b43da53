-- ===== src/Tests/OutgoingTests.antt =====
-- The theorems of the outgoing side of src/MqttClient.cpp at a concrete outbox and transport.
use esp_mqtt_client.Prelude.{
  ℕ, zero, suc, List, [], ◌∷◌, some, true, refl, arith, ◌≡◌, length, All, replicate, if◌then◌else◌,
  ltb,
}
use esp_mqtt_client.Config.{publish_type, puback_type}
use esp_mqtt_client.Outbox.Queue
use esp_mqtt_client.Packet.Frame.{packet_of}
use esp_mqtt_client.Packet.Publish.{publish_frame}
use esp_mqtt_client.Client.{Client, OutgoingPacket, get_next_packet_id}
use esp_mqtt_client.Client.Queueing.{new_packet}
use esp_mqtt_client.Client.Sending.{Answer, check_outbox}
use esp_mqtt_client.Client.Requests.{publish}
use esp_mqtt_client.Client.Outgoing.{IsPlain}
use esp_mqtt_client.Client.Advancing.{settled}
use esp_mqtt_client.Client.Pending.{IsHonest, IsOpen, ArePlain, IsWithin}
use esp_mqtt_client.Client.Draining.{check_outbox-returns}
use esp_mqtt_client.Client.Outcomes.{publishing, Outcome, request-Outcome}
use esp_mqtt_client.Client.Asking.{publish-queues}
use esp_mqtt_client.Client.Reach.{
  Call, asking, connecting, perform, IsFairCall, Reachable, start, after, perform-goes_on,
}
use esp_mqtt_client.Client.Sound.{IsSound}
use esp_mqtt_client.Client.Outcomes.{publishing}
use esp_mqtt_client.Packet.Connect.Makes.{IsConnectable}
use esp_mqtt_client.Prelude.{none}
use esp_mqtt_client.Tests.ClientTests.{args}
use esp_mqtt_client.Tests.{topic_ab, payload_three}
use esp_mqtt_client.Tests.ClientTests.{client, alloc, alloc-HasAlloc, stored}

-- A transport that accepts at most three bytes at a time.
abbrev pub turn : Answer
turn = record {
  accepts = λ bytes. if ltb 3 (length bytes) then 3 else length bytes;
  time_sent = 5;
  time_active = 5;
}

pub turn-IsHonest : IsHonest turn
turn-IsHonest bytes = ground arith

pub turn-IsOpen : IsOpen turn
turn-IsOpen bytes h = ground arith

pub All-turns : (P : Answer → Type 0) (n : ℕ) → P turn → All P (replicate n turn)
All-turns P zero h = tt
All-turns P (suc n) h = (h, All-turns P n h)

abbrev two : List OutgoingPacket
two = stored publish_type 6 ∷ stored puback_type 7 ∷ []

pub stored-IsPlain : (type id : ℕ) → IsPlain (stored type id).packet
stored-IsPlain type id = record {
  no_callback = refl;
  filled = refl;
  whole = refl;
  nonempty = omega arith;
  short = omega arith;
}

two-ArePlain : ArePlain two
two-ArePlain = (stored-IsPlain publish_type 6, (stored-IsPlain puback_type 7, tt))

-- One byte of the first packet has been sent.
abbrev sending : Client
sending = record client { outbox = record { sent = []; pending = two }; bytes_sent = 1 }

check_outbox-returns_example :
    (c' : Client) × (check_outbox (replicate 8 turn) sending ≡ some c')
    × ArePlain c'.outbox.pending
    × IsWithin c'.bytes_sent c'.outbox.pending
    × (settled c'.outbox.sent c'.outbox.pending ≡ settled [] two)
check_outbox-returns_example =
    check_outbox-returns (replicate 8 turn) sending two-ArePlain (omega arith)
      (All-turns IsHonest 8 turn-IsHonest) (omega arith)

-- The first packet has been sent and is not acknowledged.
abbrev waiting : Client
waiting = record client {
  outbox = record { sent = stored publish_type 6 ∷ []; pending = stored puback_type 7 ∷ [] };
}

publish-queues_example :
    publish alloc topic_ab 1 true payload_three client
    ≡ some (
      record (get_next_packet_id client) {
        outbox =
            Queue.push_back
              (new_packet (packet_of 1 (publish_frame 1 topic_ab payload_three 1 true)))
              Queue.empty_queue;
      },
      1,
    )
unfolding get_next_packet_id
publish-queues_example =
    publish-queues alloc topic_ab 1 true payload_three client alloc-HasAlloc (omega arith)
      (omega arith) (omega arith) (omega arith)

-- The client of publish-queues_example
abbrev published : Client
published = record (get_next_packet_id client) {
  outbox =
      Queue.push_back (new_packet (packet_of 1 (publish_frame 1 topic_ab payload_three 1 true)))
        Queue.empty_queue;
}

request-Outcome_example : Outcome Queue.empty_queue published.outbox 1
unfolding get_next_packet_id
request-Outcome_example =
    request-Outcome (publishing topic_ab 1 true payload_three) alloc client published 1 (
      publish-queues alloc topic_ab 1 true payload_three client alloc-HasAlloc (omega arith)
        (omega arith) (omega arith) (omega arith))

-- The first packet is sent again and one of its bytes is out, when its PUBACK has been read.
abbrev sent_again : Client
sent_again = record client {
  outbox = record { sent = []; pending = two };
  bytes_sent = 1;
  parser = record client.parser { incoming = record client.parser.incoming { fixed = 6 } };
}

abbrev publishing_three : Call
publishing_three = asking (publishing topic_ab 1 true payload_three) alloc

publishing_three-IsFair : IsFairCall publishing_three client
publishing_three-IsFair = (omega arith, omega arith, λ id. omega arith)

published-Reachable : Reachable published
unfolding get_next_packet_id
published-Reachable =
    let run =
      publish-queues alloc topic_ab 1 true payload_three client alloc-HasAlloc (omega arith)
        (omega arith) (omega arith) (omega arith) in
    after publishing_three client published (start args 15000 10000) publishing_three-IsFair
      (rw run refl)

args-IsConnectable : IsConnectable args
args-IsConnectable = record {
  client_id = topic_ab;
  will = none;
  named = refl;
  nonempty = omega arith;
  short_id = omega arith;
  short_username = tt;
  short_password = tt;
  will_qos = omega arith;
  has_will = refl;
}

-- The connection is opened when something has been published.
perform-goes_on_example :
    (c' : Client) × (perform (connecting alloc) published ≡ some c') × IsSound c'
unfolding get_next_packet_id
perform-goes_on_example =
    perform-goes_on (connecting alloc) published published-Reachable args-IsConnectable
