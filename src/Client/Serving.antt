-- ===== src/Client/Serving.antt =====
-- One turn of _checkOutbox (src/MqttClient.cpp) with a packet whose payload a callback supplies.
use esp_mqtt_client.Prelude.{
  ℕ, ◌+◌, ◌^◌, ◌<◌, ◌≡◌, refl, List, [], ◌∷◌, some, false, arith, ◌==◌, take,
}
use esp_mqtt_client.Packet.{Packet, add_size}
use esp_mqtt_client.Packet.Chunked.{available, data_from}
use esp_mqtt_client.Client.{Client, OutgoingPacket}
use esp_mqtt_client.Client.Sending.{Answer, send_packet, write_packet}
use esp_mqtt_client.Client.Wire.{offer}

-- The client after a turn that sent `k` bytes of its only packet
abbrev pub after_portion : Answer → Client → Packet → ℕ → Client
after_portion w c p k = record c {
  outbox = record c.outbox { pending = record { time_sent = w.time_sent; packet = p } ∷ [] };
  last_client_activity = w.time_active;
  bytes_sent = c.bytes_sent + k;
}

-- A turn, from what available and data return.
pub send_packet-served :
    (w : Answer) (c : Client) (o : OutgoingPacket) (p : Packet) (n : ℕ) (bytes : List ℕ)
    → c.outbox.pending ≡ o ∷ []
    → available o.packet c.bytes_sent ≡ some (n, p)
    → data_from p c.bytes_sent ≡ some bytes
    → 0 < n
    → c.bytes_sent + w.accepts (take n bytes) < 2 ^ 32
    → send_packet w c
      ≡ some (after_portion w c p (w.accepts (take n bytes)), w.accepts (take n bytes))
unfolding send_packet write_packet
send_packet-served w c o p n bytes e a d pos small =
    let want : (n == 0) ≡ false = ground arith in
    let sum : add_size c.bytes_sent (w.accepts (take n bytes))
        ≡ c.bytes_sent + w.accepts (take n bytes) =
      omega (arith, small) in
    rw (e, a, want, d, sum) refl

pub offer-served :
    (c : Client) (o : OutgoingPacket) (p : Packet) (n : ℕ) (bytes : List ℕ)
    → c.outbox.pending ≡ o ∷ []
    → available o.packet c.bytes_sent ≡ some (n, p)
    → data_from p c.bytes_sent ≡ some bytes
    → offer c ≡ take n bytes
unfolding offer
offer-served c o p n bytes e a d = rw (offer, e, a, d) refl
