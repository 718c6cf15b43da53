-- ===== src/Client/Keeping.antt =====
-- _sendPacket, _advanceOutbox and _checkOutbox of src/MqttClient.cpp keep an outbox of filled packets and
-- the parser.
use esp_mqtt_client.Prelude.{
  ℕ, ◌<◌, ◌≡◌, List, [], ◌∷◌, some, length, arith, refl, ◌∙◌, ◌==◌, ltb, Bool-cases, inl, inr, All,
  subst, ltb→lt,
}
use esp_mqtt_client.Config.{publish_type}
use esp_mqtt_client.Packet.{set_dup, packet_type, removable}
use esp_mqtt_client.Outbox.Queue
use esp_mqtt_client.Outbox.Queue.{Queue}
use esp_mqtt_client.Client.{Client, OutgoingPacket}
use esp_mqtt_client.Client.Always.{Always, AlwaysWith, check_outbox-Always}
use esp_mqtt_client.Client.Sending.{Answer, send_packet, advance_outbox, advanced, check_outbox}
use esp_mqtt_client.Client.Outgoing.{offered, accepted, after_turn, send_packet-plain}
use esp_mqtt_client.Client.Pending.{ArePlain, IsHonest, total, send_packet-idle}
use esp_mqtt_client.Client.Draining.{check_outbox-returns}
use esp_mqtt_client.Client.SendError.{send_packet-stuck, check_outbox-stuck}
use esp_mqtt_client.Client.Plain.{HasPlain, ArePlain-append, ArePlain-tail, set_dup-IsPlain}

-- What an operation leaves of a client with filled packets
abbrev pub Kept : Client → Client → Type 0
Kept c c' = HasPlain c'.outbox × (c'.parser ≡ c.parser)

send-Kept :
    (w : Answer) (c : Client) (p : List OutgoingPacket)
    → IsHonest w
    → c.outbox.pending ≡ p
    → HasPlain c.outbox
    → (r : Client × ℕ) × (send_packet w c ≡ some r) × Kept c r.0
send-Kept w c [] a e h = ((c, 0), send_packet-idle w c e, (h, refl))
send-Kept w c (o ∷ os) a e h =
    let plain : ArePlain (o ∷ os) = subst ArePlain e h.pending in
    elim (Bool-cases (ltb c.bytes_sent o.packet.size)) [
      | inl y ↦ (
        (after_turn w c o os, accepted w c o.packet),
        send_packet-plain w c o os e plain.0 (ltb→lt _ _ y) (a (offered c o.packet)),
        (record { sent = h.sent; pending = plain }, refl),
      )
      | inr n ↦ ((c, 0), send_packet-stuck w c o os e (ground arith), (h, refl))
    ]

pub send_packet-Kept :
    (w : Answer) (c : Client)
    → IsHonest w
    → HasPlain c.outbox
    → (r : Client × ℕ) × (send_packet w c ≡ some r) × Kept c r.0
send_packet-Kept w c a h = send-Kept w c c.outbox.pending a refl h

step-HasPlain :
    (sent : List OutgoingPacket) (o : OutgoingPacket) (os : List OutgoingPacket)
    → ArePlain sent
    → ArePlain (o ∷ os)
    → HasPlain (Queue.step_pending sent (o ∷ os))
step-HasPlain sent o os h k = record {
  sent = ArePlain-append sent (o ∷ []) h (k.0, tt);
  pending = k.1;
}

advanced-HasPlain :
    (c : Client) (o : OutgoingPacket) (os : List OutgoingPacket)
    → c.outbox.pending ≡ o ∷ os
    → HasPlain c.outbox
    → HasPlain (advanced o c).outbox
unfolding advanced
advanced-HasPlain c o os e h =
    let plain : ArePlain (o ∷ os) = subst ArePlain e h.pending in
    elim (Bool-cases (removable o.packet)) [
      | inl r ↦
          rw (advanced, r)
            (record { sent = h.sent; pending = ArePlain-tail c.outbox.pending h.pending })
      | inr k ↦ elim (Bool-cases (packet_type o.packet == publish_type)) [
        | inl y ↦
            rw (advanced, k, y, e)
              (step-HasPlain c.outbox.sent (record o { packet = set_dup o.packet }) os h.sent
                (set_dup-IsPlain o.packet plain.0, plain.1))
        | inr n ↦ rw (advanced, k, n, e) (step-HasPlain c.outbox.sent o os h.sent plain)
      ]
    ]

advance_outbox-parser : (c : Client) → (advance_outbox c).parser ≡ c.parser
unfolding advance_outbox advanced
advance_outbox-parser c = ground arith

advance-HasPlain :
    (c : Client) (p : List OutgoingPacket)
    → c.outbox.pending ≡ p
    → HasPlain c.outbox
    → HasPlain (advance_outbox c).outbox
unfolding advance_outbox
advance-HasPlain c [] e h = let same : advance_outbox c ≡ c = ground arith in rw same h
advance-HasPlain c (o ∷ os) e h = elim (Bool-cases (c.bytes_sent == o.packet.size)) [
  | inl y ↦
      let done : advance_outbox c ≡ advanced o c = ground arith in
      rw done (advanced-HasPlain c o os e h)
  | inr n ↦ let same : advance_outbox c ≡ c = ground arith in rw same h
]

pub advance_outbox-Kept : (c : Client) → HasPlain c.outbox → Kept c (advance_outbox c)
advance_outbox-Kept c h = (advance-HasPlain c c.outbox.pending refl h, advance_outbox-parser c)

send_packet_keeps :
    (w : Answer) (c d : Client) → IsHonest w → Kept c d → AlwaysWith (Kept c) (send_packet w d)
send_packet_keeps w c d a (h, same) =
    let (r, s, k) = send_packet-Kept w d a h in let k' : Kept c r.0 = (k.0, k.1 ∙ same) in rw s k'

check-Kept :
    (ws : List Answer) (c : Client)
    → All IsHonest ws
    → HasPlain c.outbox
    → Always (Kept c) (check_outbox ws c)
check-Kept ws c a h =
    check_outbox-Always IsHonest (Kept c) (λ w d. send_packet_keeps w c d)
      (λ d (k, same). let n = advance_outbox-Kept d k in (n.0, n.1 ∙ same)) ws c a (h, refl)

-- The loop returns, also where more is counted as sent than the current packet has.
returns :
    (ws : List Answer) (c : Client) (p : List OutgoingPacket)
    → c.outbox.pending ≡ p
    → All IsHonest ws
    → HasPlain c.outbox
    → total c.outbox.pending < length ws
    → (c' : Client) × (check_outbox ws c ≡ some c')
returns [] c p e a h enough = absurd (omega arith)
returns (w ∷ ws) c [] e a h enough =
    let run = check_outbox-returns (w ∷ ws) c h.pending (rw e tt) a (omega (arith, enough)) in
    (run.0, run.1)
returns (w ∷ ws) c (o ∷ os) e a h enough = elim (Bool-cases (ltb c.bytes_sent o.packet.size)) [
  | inl y ↦
      let run =
        check_outbox-returns (w ∷ ws) c h.pending (rw e (ltb→lt _ _ y)) a (omega (arith, enough)) in
      (run.0, run.1)
  | inr n ↦ (c, check_outbox-stuck w ws c o os e (ground arith))
]

pub check_outbox-Kept :
    (ws : List Answer) (c : Client)
    → All IsHonest ws
    → HasPlain c.outbox
    → total c.outbox.pending < length ws
    → (c' : Client) × (check_outbox ws c ≡ some c') × Kept c c'
check_outbox-Kept ws c a h enough =
    let (c', run) = returns ws c c.outbox.pending refl a h enough in
    (c', run, subst (Always (Kept c)) run (check-Kept ws c a h))
