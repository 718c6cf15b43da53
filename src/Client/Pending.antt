-- ===== src/Client/Pending.antt =====
-- What the loop of _checkOutbox (src/MqttClient.cpp) relies on: the transport's answers and the packets
-- that are pending.
use esp_mqtt_client.Prelude.{
  ℕ, ◌+◌, ◌^◌, ◌≤◌, ◌<◌, ◌≡◌, List, [], ◌∷◌, some, true, false, length, arith, All, ◌==◌,
}
use esp_mqtt_client.Client.{Client, OutgoingPacket}
use esp_mqtt_client.Client.Sending.{Answer, send_packet, has_current, is_positive}
use esp_mqtt_client.Client.Outgoing.{IsPlain}

-- The transport accepts no more than it is offered.
abbrev pub IsHonest : Answer → Type 0
IsHonest w = (bytes : List ℕ) → w.accepts bytes ≤ length bytes

-- The transport accepts something of what it is offered.
abbrev pub IsOpen : Answer → Type 0
IsOpen w = (bytes : List ℕ) → 0 < length bytes → 0 < w.accepts bytes

-- The packets of a list are filled.
abbrev pub ArePlain : List OutgoingPacket → Type 0
ArePlain = All (λ o. IsPlain o.packet)

-- So many bytes of the first packet have been sent, and not all of it.
abbrev pub IsWithin : ℕ → List OutgoingPacket → Type 0
IsWithin n [] = Unit {0}
IsWithin n (o ∷ os) = n < o.packet.size

abbrev pub total : List OutgoingPacket → ℕ
total [] = 0
total (o ∷ os) = o.packet.size + total os

pub IsWithin-zero : (os : List OutgoingPacket) → ArePlain os → IsWithin 0 os
IsWithin-zero [] h = tt
IsWithin-zero (o ∷ os) h = h.0.nonempty

pub send_packet-idle :
    (w : Answer) (c : Client) → c.outbox.pending ≡ [] → send_packet w c ≡ some (c, 0)
unfolding send_packet
send_packet-idle w c e = ground arith

pub has_current-pending :
    (c : Client) (o : OutgoingPacket) (os : List OutgoingPacket)
    → c.outbox.pending ≡ o ∷ os
    → has_current c ≡ true
has_current-pending c o os e = ground arith

pub n-zero : (n : ℕ) → (n == 0) ≡ true → n ≡ 0
n-zero n h = ground arith

pub n-some : (n : ℕ) → (n == 0) ≡ false → 0 < n
n-some n h = ground arith

pub positive : (n : ℕ) → (n == 0) ≡ false → n < 2 ^ 31 → is_positive n ≡ true
unfolding is_positive
positive n h lt = ground arith
