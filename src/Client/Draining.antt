-- ===== src/Client/Draining.antt =====
-- The loop of _checkOutbox in src/MqttClient.cpp: it ends, and what it leaves in the outbox.
use esp_mqtt_client.Prelude.{
  length-drop, ℕ, ◌-◌, ◌≤◌, ◌<◌, ◌≡◌, refl, List, [], ◌∷◌, Option, none, some, true, false, length,
  arith, All, Bool-cases, inl, inr, ◌==◌, subst, ==_iff,
}
use esp_mqtt_client.Packet.{Packet}
use esp_mqtt_client.Outbox.Queue
use esp_mqtt_client.Outbox.Queue.{Queue}
use esp_mqtt_client.Client.{Client, OutgoingPacket}
use esp_mqtt_client.Client.Sending.{
  Answer, send_packet, advance_outbox, check_outbox, has_current, is_positive,
}
use esp_mqtt_client.Client.Outgoing.{bytes_of, offered, accepted, after_turn, send_packet-plain}
use esp_mqtt_client.Client.Pending.{
  IsHonest, IsOpen, ArePlain, IsWithin, total, IsWithin-zero, n-zero, n-some, positive,
  send_packet-idle, has_current-pending,
}
use esp_mqtt_client.Client.Advancing.{kept, settled, advance-done, advance-more}

-- What the loop ends with: it returns, the packets that will be left are as planned, and nothing is
-- pending if the transport accepted something at each turn.
abbrev pub Drains : List Answer → List Packet → Option Client → Type 0
Drains ws plan none = ⊥
Drains ws plan (some c) =
    ArePlain c.outbox.pending
    × IsWithin c.bytes_sent c.outbox.pending
    × (settled c.outbox.sent c.outbox.pending ≡ plan)
    × (All IsOpen ws → c.outbox.pending ≡ [])

Drains-later :
    (w : Answer) (ws : List Answer) (plan : List Packet) (r : Option Client)
    → Drains ws plan r
    → Drains (w ∷ ws) plan r
Drains-later w ws plan none h = h
Drains-later w ws plan (some c) (p, n, s, d) = (p, n, s, λ o. d o.1)

-- A turn that sends something, from what the later turns do.
resume :
    (w : Answer) (ws : List Answer) (c c1 : Client) (n : ℕ) (p : List OutgoingPacket)
    (plan : List Packet)
    → send_packet w c ≡ some (c1, n)
    → is_positive n ≡ true
    → (advance_outbox c1).outbox.pending ≡ p
    → settled (advance_outbox c1).outbox.sent p ≡ plan
    → Drains ws plan (check_outbox ws (advance_outbox c1))
    → Drains (w ∷ ws) plan (check_outbox (w ∷ ws) c)
unfolding check_outbox
resume w ws c c1 n [] plan s y e k later =
    let none_left : has_current (advance_outbox c1) ≡ false = ground arith in
    rw (check_outbox, s, y, none_left) (rw e tt, rw e tt, rw e k, λ _. e)
resume w ws c c1 n (o ∷ os) plan s y e k later =
    rw (check_outbox, s, y, has_current-pending (advance_outbox c1) o os e)
      (Drains-later w ws plan (check_outbox ws (advance_outbox c1)) later)

drains :
    (ws : List Answer) (c : Client) (p : List OutgoingPacket)
    → c.outbox.pending ≡ p
    → ArePlain p
    → IsWithin c.bytes_sent p
    → All IsHonest ws
    → total p - c.bytes_sent < length ws
    → Drains ws (settled c.outbox.sent p) (check_outbox ws c)
unfolding check_outbox is_positive kept
drains [] c p e h l a enough = absurd (omega arith)
drains (w ∷ ws) c [] e h l a enough =
    rw (check_outbox, send_packet-idle w c e) (rw e tt, rw e tt, rw e refl, λ _. e)
drains (w ∷ ws) c (o ∷ os) e h l a enough =
    let n = accepted w c o.packet in
    let sent_now = record o { time_sent = w.time_sent } in
    let c1 = after_turn w c o os in
    let s = send_packet-plain w c o os e h.0 l (a.0 (offered c o.packet)) in
    let rest = length-drop c.bytes_sent (bytes_of o.packet) in
    let fits : n ≤ o.packet.size - c.bytes_sent =
      omega (arith, h.0.whole, rest, a.0 (offered c o.packet)) in
    elim (Bool-cases (n == 0)) [
      | inl none_sent ↦
          let stop : is_positive n ≡ false = ground arith in
          rw (check_outbox, s, stop)
            (
              h,
              omega (arith, n-zero n none_sent),
              refl,
              λ open_. absurd (
                  omega (
                    arith,
                    n-zero n none_sent,
                    open_.0 (offered c o.packet) (omega (arith, h.0.whole, rest)),
                  )),
            )
      | inr some_sent ↦
          let go : is_positive n ≡ true = positive n some_sent (omega (arith, h.0.short)) in
          elim (Bool-cases (c1.bytes_sent == o.packet.size)) [
            | inl full ↦
                let adv = advance-done c1 sent_now os refl ((==_iff _ _).0 full) in
                let within : IsWithin (advance_outbox c1).bytes_sent os =
                  rw (adv.1) (IsWithin-zero os h.1) in
                let left : total os - (advance_outbox c1).bytes_sent < length ws =
                  omega (arith, adv.1, (==_iff _ _).0 full, n-some n some_sent) in
                resume w ws c c1 n os _ s go adv.0 adv.2 (
                  subst (λ plan. Drains ws plan (check_outbox ws (advance_outbox c1))) adv.2
                    (drains ws (advance_outbox c1) os adv.0 h.1 within a.1 left))
            | inr more ↦
                let less : c1.bytes_sent < o.packet.size = ground arith in
                let same = advance-more c1 sent_now os refl less in
                resume w ws c c1 n (sent_now ∷ os) _ s go (rw same refl) (rw same refl) (
                  rw same (
                    drains ws c1 (sent_now ∷ os) refl h less a.1
                      (omega (arith, n-some n some_sent))))
          ]
    ]

module _ (ws : List Answer) (plan : List Packet) where
  returned :
      (r : Option Client)
      → Drains ws plan r
      → (c : Client) × (r ≡ some c)
        × ArePlain c.outbox.pending
        × IsWithin c.bytes_sent c.outbox.pending
        × (settled c.outbox.sent c.outbox.pending ≡ plan)
  returned none h = elim h [ ]
  returned (some c) (p, n, s, d) = (c, refl, p, n, s)

-- _checkOutbox returns: if the pending packets are filled and of less than 2 GB, if less than all of the
-- current one has been sent, if the transport never accepts more than it is offered, and if it answers
-- one turn more than there are bytes left, then the loop ends without a fault, the same holds of the
-- pending packets again, and the packets that the outbox will hold once everything is sent (those
-- sent before, and of the pending ones those to be acknowledged, PUBLISH marked as duplicate) are the
-- same as before.
pub check_outbox-returns :
    (ws : List Answer) (c : Client)
    → ArePlain c.outbox.pending
    → IsWithin c.bytes_sent c.outbox.pending
    → All IsHonest ws
    → total c.outbox.pending - c.bytes_sent < length ws
    → (c' : Client) × (check_outbox ws c ≡ some c')
      × ArePlain c'.outbox.pending
      × IsWithin c'.bytes_sent c'.outbox.pending
      × (settled c'.outbox.sent c'.outbox.pending ≡ settled c.outbox.sent c.outbox.pending)
check_outbox-returns ws c h l a enough =
    returned ws _ (check_outbox ws c) (drains ws c c.outbox.pending refl h l a enough)
