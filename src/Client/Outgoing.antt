-- ===== src/Client/Outgoing.antt =====
-- What _checkOutbox of src/MqttClient.cpp does with packets whose bytes are in memory.
use esp_mqtt_client.Prelude.{
  length-drop, ℕ, ◌+◌, ◌-◌, ◌%◌, ◌^◌, ◌≤◌, ◌<◌, ◌≡◌, refl, List, [], ◌∷◌, none, some, false, length,
  take, drop, arith, ◌==◌, leb, take_all,
}
use esp_mqtt_client.Packet.{Packet}
use esp_mqtt_client.Packet.Frame.{frame, packet_of, length-frame}
use esp_mqtt_client.Packet.Chunked.{available, data_from}
use esp_mqtt_client.Client.{Client, OutgoingPacket}
use esp_mqtt_client.Client.Sending.{Answer, send_packet, write_packet}

abbrev pub bytes_of : Packet → List ℕ
bytes_of p = elim p.contents [ none ↦ [] | some bytes ↦ bytes ]

-- A packet that a constructor has filled, of less than 2 GB.
pub record IsPlain (p : Packet) : Type 0 where
  pub no_callback : p.get_payload ≡ none
  pub filled : p.contents ≡ some (bytes_of p)
  pub whole : length (bytes_of p) ≡ p.size
  pub nonempty : 0 < p.size
  pub short : p.size < 2 ^ 31

pub take-whole : (xs : List ℕ) (n : ℕ) → length xs ≡ n → take n xs ≡ xs
take-whole xs n e = rw (← e) (take_all xs)

-- The bytes of the current packet that are still to be sent
abbrev pub offered : Client → Packet → List ℕ
offered c p = drop c.bytes_sent (bytes_of p)

abbrev pub accepted : Answer → Client → Packet → ℕ
accepted w c p = w.accepts (offered c p)

pub available-plain :
    (p : Packet) (n : ℕ) → IsPlain p → n < p.size → available p n ≡ some (p.size - n, p)
unfolding available
available-plain p n h lt = rw (h.no_callback) (ground arith)

pub data_from-plain :
    (p : Packet) (n : ℕ) → IsPlain p → n < p.size → data_from p n ≡ some (drop n (bytes_of p))
unfolding data_from
data_from-plain p n h lt =
    let test : leb p.size n ≡ false = ground arith in rw (h.no_callback, h.filled, test)

-- The client after a call of _sendPacket
abbrev pub after_turn : Answer → Client → OutgoingPacket → List OutgoingPacket → Client
after_turn w c o os = record c {
  outbox = record c.outbox { pending = record o { time_sent = w.time_sent } ∷ os };
  last_client_activity = w.time_active;
  bytes_sent = c.bytes_sent + accepted w c o.packet;
}

-- One call of _sendPacket: the transport is offered the rest of the current packet, and what it
-- accepts is counted.
pub send_packet-plain :
    (w : Answer) (c : Client) (o : OutgoingPacket) (os : List OutgoingPacket)
    → c.outbox.pending ≡ o ∷ os
    → IsPlain o.packet
    → c.bytes_sent < o.packet.size
    → accepted w c o.packet ≤ length (offered c o.packet)
    → send_packet w c ≡ some (after_turn w c o os, accepted w c o.packet)
unfolding send_packet write_packet
send_packet-plain w c o os e h lt fits =
    let room = available-plain o.packet c.bytes_sent h lt in
    let bytes = data_from-plain o.packet c.bytes_sent h lt in
    let rest = length-drop c.bytes_sent (bytes_of o.packet) in
    let want : (o.packet.size - c.bytes_sent == 0) ≡ false = ground arith in
    let all =
      take-whole (offered c o.packet) (o.packet.size - c.bytes_sent)
        (omega (arith, h.whole, rest)) in
    let sum : (c.bytes_sent + accepted w c o.packet) % 2 ^ 32
        ≡ c.bytes_sent + accepted w c o.packet =
      omega (arith, h.whole, h.short, rest) in
    rw (e, room, want, bytes, all, sum) refl

-- What the constructors build for a body that fits the packet format
pub frame-IsPlain :
    (packet_id first : ℕ) (body : List ℕ)
    → length body ≤ 268435455
    → IsPlain (packet_of packet_id (frame first body))
frame-IsPlain packet_id first body h =
    let size = length-frame first body h in
    record {
      no_callback = refl;
      filled = refl;
      whole = refl;
      nonempty = omega (arith, size);
      short = omega (arith, size);
    }
