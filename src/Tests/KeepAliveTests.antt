-- ===== src/Tests/KeepAliveTests.antt =====
-- The theorem on the keepalive (src/MqttClient.cpp) where the clock wraps around.
use esp_mqtt_client.Prelude.{◌≡◌, refl, [], some, true, false, arith, replicate}
use esp_mqtt_client.Parser.Total.{new_parser-Invariant}
use esp_mqtt_client.Client.{Client, connected}
use esp_mqtt_client.Client.Sending.{check_outbox}
use esp_mqtt_client.Client.Loop.{Environment, loop}
use esp_mqtt_client.Client.Pending.{IsHonest}
use esp_mqtt_client.Client.Sound.{IsSound}
use esp_mqtt_client.Client.KeepAlive.{Watched, loop-keepalive}
use esp_mqtt_client.Tests.ClientTests.{client, alloc, alloc-HasAlloc}
use esp_mqtt_client.Tests.OutgoingTests.{turn, turn-IsHonest, All-turns}

-- The server was last heard of one second before the clock wraps around.
abbrev waiting : Client
waiting = record client { state = connected; last_server_activity = 4294966296 }

abbrev later : Environment
later = record {
  connects = true;
  is_connected = true;
  is_disconnected = false;
  first_write = turn;
  writes = replicate 3 turn;
  received = [];
  now = 20000;
  ping_time = 20000;
  timeout_time = 20000;
  ping = alloc;
  disconnect = alloc;
  acks = λ left. alloc;
}

waiting-IsSound : IsSound waiting
waiting-IsSound = record {
  plain = record { sent = tt; pending = tt };
  arrays = new_parser-Invariant.arrays;
  ready = new_parser-Invariant;
}

loop-keepalive_example :
    (c1 : Client) × (c' : Client) × (check_outbox (replicate 4 turn) waiting ≡ some c1)
    × (loop later waiting ≡ some c')
    × (c1.keep_alive ≡ 15000)
    × (c1.ping_sent ≡ false)
    × Watched 21000 c1 c'
loop-keepalive_example =
    loop-keepalive later waiting 4294987296 4294966296 waiting-IsSound refl refl refl
      (All-turns IsHonest 4 turn-IsHonest) (omega arith) alloc-HasAlloc (omega arith) (omega arith)
      (omega arith) (omega arith) (omega arith) (omega arith) (omega arith)
