-- ===== src/Tests/TransportTests.antt =====
-- The theorems of src/Transport and src/espMqttClientAsync.cpp at concrete answers of the system.
use esp_mqtt_client.Prelude.{
  ℕ, List, [], ◌∷◌, none, some, true, false, refl, arith, ◌≡◌, length, take, min, replicate, ◌>>=◌,
  ◌==◌, if◌then◌else◌,
}
use esp_mqtt_client.Config.{publish_type, emc_rx_buffer_size}
use esp_mqtt_client.Client.{Client, connected, set_state}
use esp_mqtt_client.Client.Sending.{check_outbox, check_timeout}
use esp_mqtt_client.Client.SendError.{failed}
use esp_mqtt_client.Client.Loop.{loop}
use esp_mqtt_client.Setup.{new_setup}
use esp_mqtt_client.Setup.Settings.{server, set_server_host}
use esp_mqtt_client.Transport.Posix.{
  System, ClientPosix, new_client_posix, opening, stop, answer_of,
}
use esp_mqtt_client.Transport.Descriptors.{
  Call, connect_to_ip, connect_to_host, calls, calls-opened,
}
use esp_mqtt_client.Transport.Server.{connect_to, set_server_host-connect, posix_send_error}
use esp_mqtt_client.Transport.Async.{
  AsyncMqttClient, new_client_async, on_data_cb, on_poll_cb, on_disconnect_cb,
}
use esp_mqtt_client.Transport.AsyncClient.{
  closed_down, client_of, on_disconnect_cb-closes, on_data_cb-truncates,
}
use esp_mqtt_client.Tests.{topic_ab}
use esp_mqtt_client.Tests.ClientTests.{client, environment, stored}
use esp_mqtt_client.Tests.OutgoingTests.{stored-IsPlain}

-- htonl on the addresses of the tests: 127.0.0.1
abbrev swap : ℕ → ℕ
swap a = if a == 0x7f000001 then 0x0100007f else if a == 0x0100007f then 0x7f000001 else 0

-- A system on which the descriptor 3 is free, send fails and getaddrinfo finds 127.0.0.1 behind a
-- result without an IPv4 address.
abbrev system : System
system = record {
  socket = some 3;
  connects = λ fd address port. true;
  send = λ bytes. none;
  recv = λ size. none;
  getaddrinfo = λ host. some (0 ∷ 0x0100007f ∷ []);
  htonl = swap;
  htons = λ port. port;
}

abbrev two_connects : List Call
two_connects =
    connect_to_host system (some topic_ab) 1883 ∷ connect_to_ip system 0x7f000001 1883 ∷ []

calls-opened_example :
    ((calls two_connects new_client_posix).opened
      ≡ opening (calls two_connects new_client_posix).sockfd [])
    × ((stop (calls two_connects new_client_posix)).opened ≡ [])
calls-opened_example = calls-opened two_connects

set_server_host-connect_example :
    (p : ClientPosix) × (connect_to system
        (server (set_server_host (some topic_ab) 1883 (new_setup false topic_ab)))
        new_client_posix
      ≡ (p, system.connects system.socket 0x0100007f (system.htons 1883)))
    × (p.sockfd ≡ system.socket)
    × (p.address ≡ 0x0100007f)
    × (p.port ≡ system.htons 1883)
set_server_host-connect_example =
    set_server_host-connect system topic_ab 1883 0x0100007f (0 ∷ []) [] (new_setup false topic_ab)
      new_client_posix refl (refl, tt) (omega arith) refl

abbrev sending : Client
sending = record client { outbox = record { sent = []; pending = stored publish_type 6 ∷ [] } }

abbrev after_error : Client
after_error = failed (answer_of system 5 5) sending (stored publish_type 6) []

posix_send_error_example :
    (check_outbox (answer_of system 5 5 ∷ []) sending ≡ some after_error)
    × (check_outbox (answer_of system 5 5 ∷ []) after_error ≡ some after_error)
    × (check_timeout 20000 after_error ≡ after_error)
posix_send_error_example =
    posix_send_error system system 5 5 20000 [] [] sending (stored publish_type 6) [] refl
      (stored-IsPlain publish_type 6) refl refl

abbrev async : AsyncMqttClient
async = record { client = set_state connected client; transport = new_client_async }

on_disconnect_cb-closes_example :
    on_disconnect_cb (record environment { is_disconnected = true }) async
    ≡ some (record async { client = closed_down async.client })
on_disconnect_cb-closes_example =
    on_disconnect_cb-closes (record environment { is_disconnected = true }) async refl

-- More than the buffer holds
abbrev long : List ℕ
long = replicate 1500 0xd0

on_data_cb-truncates_example :
    client_of (on_data_cb environment long async >>= on_poll_cb environment) ≡ (
      loop
        (record environment { received = take (min emc_rx_buffer_size (length long)) long })
        async.client
      >>= loop (record environment { received = [] }))
on_data_cb-truncates_example = on_data_cb-truncates environment environment long async refl refl
