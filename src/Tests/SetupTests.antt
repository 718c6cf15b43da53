-- ===== src/Tests/SetupTests.antt =====
-- The theorems of src/MqttClientSetup.h at concrete settings and callbacks.
use esp_mqtt_client.Prelude.{[], ◌∷◌, none, some, true, false, refl, arith, ◌≡◌}
use esp_mqtt_client.Outbox.Queue
use esp_mqtt_client.Packet.Frame.{packet_of}
use esp_mqtt_client.Client.{connecting_tcp1, on_publish}
use esp_mqtt_client.Client.Queueing.{new_packet}
use esp_mqtt_client.Client.Requests.{connect}
use esp_mqtt_client.Setup.{Setup, new_setup}
use esp_mqtt_client.Setup.Handlers.{dispatch}
use esp_mqtt_client.Setup.Kinds.{publishes, add_on, remove_on}
use esp_mqtt_client.Setup.Slots.{register, called, invoke}
use esp_mqtt_client.Setup.Connecting.{
  Options, IsAllowed, configure, connect_packet, connect-configure,
}
use esp_mqtt_client.Setup.Removing.{others, remove_on-add_on}
use esp_mqtt_client.Setup.Dispatch.{dispatch-add_on, dispatch-remove_on}
use esp_mqtt_client.Prelude.{not, ◌>>=◌, ◌==◌}
use esp_mqtt_client.Client.{Client, connected, on_connect}
use esp_mqtt_client.Client.Loop.{Environment, loop}
use esp_mqtt_client.Parser.Connack.{connack_frame}
use esp_mqtt_client.Client.Accepting.{resumed}
use esp_mqtt_client.Client.Connection.{Answers}
use esp_mqtt_client.Setup.Session.{connect-session}
use esp_mqtt_client.Tests.{topic_ab}
use esp_mqtt_client.Tests.ClientTests.{environment, alloc, alloc-HasAlloc}

abbrev options : Options
options = record {
  keep_alive = 60;
  client_id = b'm' ∷ b'e' ∷ [];
  clean_session = false;
  username = some (b'u' ∷ []);
  password = none;
  will_topic = topic_ab;
  will_qos = 1;
  will_retain = true;
  will_payload = b'x' ∷ [];
}

abbrev setup : Setup
setup = new_setup true (b'e' ∷ b's' ∷ b'p' ∷ [])

options-IsAllowed : IsAllowed options
options-IsAllowed = record {
  keep_alive_word = omega arith;
  client_id_some = omega arith;
  client_id_short = omega arith;
  username_short = omega arith;
  password_short = tt;
  will_topic_short = omega arith;
  will_qos_low = omega arith;
  will_payload_some = omega arith;
  will_payload_short = omega arith;
}

connect-configure_example :
    connect alloc (configure options setup).client
    ≡ some (
      record (configure options setup).client {
        state = connecting_tcp1;
        outbox =
            Queue.push_front (new_packet (packet_of 0 (connect_packet options))) Queue.empty_queue;
      },
      true,
    )
connect-configure_example =
    connect-configure alloc options setup alloc-HasAlloc options-IsAllowed refl

-- Two callbacks for acknowledged messages, of which the first has the id 7.
abbrev two : Setup
two = add_on publishes (some 200) 8 (add_on publishes (some 100) 7 setup)

dispatch-add_on_example :
    dispatch (add_on publishes (some 300) 9 setup).callbacks (on_publish 5) ≡ 300 ∷ []
unfolding called
dispatch-add_on_example = dispatch-add_on publishes (some 300) 9 setup (on_publish 5)

dispatch-remove_on_example :
    dispatch (remove_on publishes 7 two).callbacks (on_publish 5) ≡ 200 ∷ []
unfolding add_on register called invoke others
dispatch-remove_on_example =
    dispatch-remove_on publishes 7 two (on_publish 5) ((refl, tt), (tt, tt))

remove_on-publish_restores : remove_on publishes 9 (add_on publishes (some 300) 9 two) ≡ two
unfolding add_on register
remove_on-publish_restores = remove_on-add_on publishes 9 (some 300) two (refl, (refl, tt))

-- The transport of connect-session_example: it connects at once, and has read the CONNACK packet of a
-- server that has the session at the second call of loop().
abbrev opening : Environment
opening = record environment { connects = true; is_connected = true }

abbrev answering : Environment
answering = record environment { is_connected = true; received = connack_frame 1 0 }

answering-Answers : Answers answering 1 (packet_of 0 (connect_packet options)) 60000
answering-Answers = record {
  connected = refl;
  takes = refl;
  received = refl;
  flag = omega arith;
  client_recent = omega arith;
  server_recent = omega arith;
}

connect-session_example :
    (c : Client) × ((connect alloc (configure options setup).client
        >>= (λ r. loop opening r.0)
        >>= loop answering)
      ≡ some c)
    × (c.state ≡ connected)
    × (c.events ≡ on_connect (not (1 == 0)) ∷ [])
    × (c.outbox ≡ resumed 1 (record { sent = []; pending = [] }))
    × (c.bytes_sent ≡ 0)
connect-session_example =
    connect-session alloc options setup opening answering 1 alloc-HasAlloc options-IsAllowed refl
      refl refl refl answering-Answers
