-- ===== src/Transport/Async.antt =====
-- src/Transport/ClientAsync.cpp and src/espMqttClientAsync.cpp. The AsyncClient below them is the
-- platform's; its answers are part of the environment of loop().
use esp_mqtt_client.Prelude.{
  ℕ, List, [], Option, some, Bool, true, false, length, take, min, ◌>>=◌, if◌then◌else◌,
}
use esp_mqtt_client.Config.{emc_rx_buffer_size}
use esp_mqtt_client.Client.{
  Client, State, connecting_tcp2, connecting_mqtt, connected, disconnecting_mqtt1,
  disconnecting_mqtt2, disconnecting_tcp2, set_state,
}
use esp_mqtt_client.Client.Queueing.{Alloc}
use esp_mqtt_client.Client.Requests.{connect}
use esp_mqtt_client.Client.Loop.{Environment, loop}

-- ClientAsync: `received` is what `bufData` points to; `available` is `availableData`.
pub record ClientAsync : Type 0 where
  pub received : List ℕ
  pub available : ℕ

abbrev pub new_client_async : ClientAsync
new_client_async = record { received = []; available = 0 }

-- ClientAsync::read; the bytes copied to the buffer and the object
unfoldable pub read : ℕ → ClientAsync → List ℕ × ClientAsync
read size c = (take (min size c.available) c.received, record c { available = 0 })

-- espMqttClientAsync: the client and its transport
pub record AsyncMqttClient : Type 0 where
  pub client : Client
  pub transport : ClientAsync

-- Whether a call of loop() gets to the read of _checkIncoming
unfoldable pub reads : State → Environment → Bool
reads connecting_mqtt e = e.is_connected
reads connected e = e.is_connected
reads disconnecting_mqtt1 e = true
reads disconnecting_mqtt2 e = e.is_connected
reads _ e = false

-- What the transport has for _checkIncoming
abbrev pub with_received : ClientAsync → Environment → Environment
with_received t e = record e { received = (read emc_rx_buffer_size t).0 }

-- MqttClient::loop over this transport
unfoldable pub async_loop : Environment → AsyncMqttClient → Option AsyncMqttClient
unfolding read reads
async_loop e m = do
  c ← loop (with_received m.transport e) m.client
  some (record {
    client = c;
    transport =
        if reads m.client.state e then (read emc_rx_buffer_size m.transport).1 else m.transport;
  })

-- espMqttClientAsync::connect
unfoldable pub async_connect :
    Alloc → Environment → AsyncMqttClient → Option (AsyncMqttClient × Bool)
unfolding async_loop
async_connect a e m = do
  (c, result) ← connect a m.client
  m' ← async_loop e (record m { client = c })
  some (m', result)

-- onConnectCb
unfoldable pub on_connect_cb : Environment → AsyncMqttClient → Option AsyncMqttClient
unfolding async_loop
on_connect_cb e m = async_loop e (record m { client = set_state connecting_tcp2 m.client })

-- onDataCb
unfoldable pub on_data_cb : Environment → List ℕ → AsyncMqttClient → Option AsyncMqttClient
unfolding async_loop
on_data_cb e bytes m =
    async_loop e (record m { transport = record { received = bytes; available = length bytes } })

-- onDisconnectCb
unfoldable pub on_disconnect_cb : Environment → AsyncMqttClient → Option AsyncMqttClient
unfolding async_loop
on_disconnect_cb e m = async_loop e (record m { client = set_state disconnecting_tcp2 m.client })

-- onPollCb
unfoldable pub on_poll_cb : Environment → AsyncMqttClient → Option AsyncMqttClient
unfolding async_loop
on_poll_cb e m = async_loop e m
