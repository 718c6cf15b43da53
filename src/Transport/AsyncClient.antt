-- ===== src/Transport/AsyncClient.antt =====
-- The callbacks of src/espMqttClientAsync.cpp.
use esp_mqtt_client.Prelude.{
  ℕ, ◌≡◌, refl, List, [], Option, none, some, true, length, take, min, ◌>>=◌, ◌∷◌, ap, Option-cases,
  inl, inr,
}
use esp_mqtt_client.Config.{emc_rx_buffer_size}
use esp_mqtt_client.Client.{
  Client, disconnected, connected, disconnecting_tcp2, on_disconnect, emit, set_state,
}
use esp_mqtt_client.Client.Queueing.{keeps}
use esp_mqtt_client.Client.Clear.{filter, clear_queue-filter}
use esp_mqtt_client.Client.Loop.{Environment, loop, closed}
use esp_mqtt_client.Transport.Async.{
  AsyncMqttClient, read, reads, async_loop, with_received, on_data_cb, on_poll_cb, on_disconnect_cb,
}

-- The client after it has been closed down
abbrev pub closed_down : Client → Client
closed_down c = record c {
  state = disconnected;
  bytes_sent = 0;
  outbox = record {
    sent = filter (keeps 0) c.outbox.sent;
    pending = filter (keeps 0) c.outbox.pending;
  };
  events = on_disconnect c.disconnect_reason ∷ c.events;
}

closed-closed_down : (c : Client) → closed c ≡ closed_down c
unfolding closed
closed-closed_down c =
    ap
      (λ (c' : Client).
        emit (on_disconnect c.disconnect_reason)
          (record c' { bytes_sent = 0; state = disconnected }))
      (clear_queue-filter 0 c)

-- When the connection goes, in whatever state the client is, onDisconnectCb closes it down in one call
-- and without a fault: the client is disconnected, nothing is partly sent, the outbox keeps, in order,
-- exactly the packets of the session, the callback for disconnecting is called with the reason that was
-- set last, and nothing else changes.
pub on_disconnect_cb-closes :
    (e : Environment) (m : AsyncMqttClient)
    → e.is_disconnected ≡ true
    → on_disconnect_cb e m ≡ some (record m { client = closed_down m.client })
unfolding on_disconnect_cb async_loop loop reads
on_disconnect_cb-closes e m down = rw down (
    ap (λ (c : Client). some (record m { client = c }))
      (closed-closed_down (set_state disconnecting_tcp2 m.client)))

-- the client of a result
abbrev pub client_of : Option AsyncMqttClient → Option Client
client_of none = none
client_of (some m) = some m.client

async_loop-client :
    (e : Environment) (m : AsyncMqttClient)
    → client_of (async_loop e m) ≡ loop (with_received m.transport e) m.client
unfolding async_loop
async_loop-client e m = elim (Option-cases (loop (with_received m.transport e) m.client)) [
  | inl n ↦ rw (async_loop, n) refl
  | inr (c, y) ↦ rw (async_loop, y) refl
]

-- The client and its transport after a call of loop() that reads
after_read :
    (e : Environment) (m : AsyncMqttClient) (c : Client)
    → loop (with_received m.transport e) m.client ≡ some c
    → reads m.client.state e ≡ true
    → async_loop e m
      ≡ some (record { client = c; transport = record m.transport { available = 0 } })
unfolding async_loop read
after_read e m c run y = rw (async_loop, run, y) refl

-- Data that does not fit the buffer is lost: while the client is connected, onDataCb runs loop() on at
-- most the first EMC_RX_BUFFER_SIZE bytes, and the onPollCb behind it runs loop() on no bytes, so that
-- the rest is never parsed.
pub on_data_cb-truncates :
    (e e' : Environment) (bytes : List ℕ) (m : AsyncMqttClient)
    → m.client.state ≡ connected
    → e.is_connected ≡ true
    → client_of (on_data_cb e bytes m >>= on_poll_cb e') ≡ (
        loop (record e { received = take (min emc_rx_buffer_size (length bytes)) bytes }) m.client
        >>= loop (record e' { received = [] }))
unfolding on_data_cb on_poll_cb reads read
on_data_cb-truncates e e' bytes m state up =
    let given = record m { transport = record { received = bytes; available = length bytes } } in
    let read_now : reads m.client.state e ≡ true = rw (state, reads) up in
    elim (Option-cases (loop (with_received given.transport e) m.client)) [
      | inl n ↦ rw (async_loop, n) refl
      | inr (c, y) ↦
          let poll : AsyncMqttClient = record {
            client = c;
            transport = record given.transport { available = 0 };
          } in
          rw (after_read e given c y read_now, y) (async_loop-client e' poll)
    ]
