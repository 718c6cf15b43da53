-- ===== src/Client/Looping.antt =====
-- One turn of the loop of _checkIncoming (src/MqttClient.cpp), for whatever is shown of the loop.
use esp_mqtt_client.Prelude.{ℕ, ◌≡◌, refl, List, Option, none, some, Bool, true, false, length}
use esp_mqtt_client.Parser.{ParserResult, await_data, packet, protocol_error}
use esp_mqtt_client.Client.{Client, disconnecting_tcp1, tcp_disconnected}
use esp_mqtt_client.Client.Queueing.{Alloc}
use esp_mqtt_client.Client.Incoming.{handle_packet, incoming_loop}

-- `Q` is shown of what the loop leaves, and `D` of every client that goes on with it.
module _ (D : Client → Type 0) (Q : Option Client → Type 0) where
  -- What a handler has to leave
  abbrev pub Handled : Option (Client × Bool) → Type 0
  Handled none = Q none
  Handled (some (c, false)) = Q (some c)
  Handled (some (c, true)) = D c

  module _ (fuel : ℕ) (allocs : ℕ → Alloc) (rest : List ℕ)
      (again : (c : Client) → D c → Q (incoming_loop fuel allocs rest c)) where
    after_handling :
        (o : Option (Client × Bool))
        → Handled o
        → Q (elim o as (λ _. Option Client) [
          | none ↦ none
          | some h ↦ elim h.1 as (λ _. Option Client) [
            | false ↦ some h.0
            | true ↦ incoming_loop fuel allocs rest h.0
          ]
        ])
    after_handling none h = h
    after_handling (some (c, false)) h = h
    after_handling (some (c, true)) h = again c h

    pub after_parsing :
        (c : Client) (r : ParserResult)
        → (r ≡ await_data → D c)
        → (r ≡ packet → Handled (handle_packet (allocs (length rest)) c))
        → Q (some (record c { state = disconnecting_tcp1; disconnect_reason = tcp_disconnected }))
        → Q (elim r as (λ _. Option Client) [
          | await_data ↦ incoming_loop fuel allocs rest c
          | packet ↦ elim (handle_packet (allocs (length rest)) c) as (λ _. Option Client) [
            | none ↦ none
            | some h ↦ elim h.1 as (λ _. Option Client) [
              | false ↦ some h.0
              | true ↦ incoming_loop fuel allocs rest h.0
            ]
          ]
          | protocol_error ↦
              some (record c { state = disconnecting_tcp1; disconnect_reason = tcp_disconnected })
        ])
    after_parsing c await_data waits handles lost = again c (waits refl)
    after_parsing c packet waits handles lost =
        after_handling (handle_packet (allocs (length rest)) c) (handles refl)
    after_parsing c protocol_error waits handles lost = lost
