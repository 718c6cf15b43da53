-- ===== src/Client/Watching.antt =====
-- The keepalive of src/MqttClient.cpp: what _checkOutbox keeps of it, and _checkPing by itself.
use esp_mqtt_client.Prelude.{
  ℕ, ◌*◌, ◌-◌, ◌%◌, ◌^◌, ◌≤◌, ◌<◌, ◌≡◌, refl, sym, ap, ◌∙◌, List, [], ◌∷◌, some, true, false, ◌||◌,
  arith, ltb, ◌==◌, if◌then◌else◌, Bool-cases, inl, inr, lt→ltb,
}
use esp_mqtt_client.Config.{pingreq_type}
use esp_mqtt_client.Packet.Create.{create_simple}
use esp_mqtt_client.Packet.Frame.{packet_of}
use esp_mqtt_client.Packet.Publish.{create_simple-frame}
use esp_mqtt_client.Outbox.Queue
use esp_mqtt_client.Client.{Client, OutgoingPacket, disconnecting_tcp1, tcp_disconnected}
use esp_mqtt_client.Client.Queueing.{Alloc, add_packet, new_packet}
use esp_mqtt_client.Client.Always.{Always, AlwaysWith, AlwaysWith-map, check_outbox_keeps}
use esp_mqtt_client.Client.Sending.{
  Answer, send_packet, write_packet, advance_outbox, advanced, check_outbox, check_ping, send_ping,
  check_timeout, since,
}
use esp_mqtt_client.Client.Handshake.{HasAlloc}

-- What _checkOutbox does not touch
abbrev pub Watches : Client → Client → Type 0
Watches c c' =
    (c'.last_server_activity ≡ c.last_server_activity)
    × (c'.keep_alive ≡ c.keep_alive)
    × (c'.ping_sent ≡ c.ping_sent)

send_packet-Watches : (w : Answer) (c : Client) → AlwaysWith (Watches c) (send_packet w c)
unfolding send_packet write_packet
send_packet-Watches w c = ground arith

advance_outbox-Watches : (c : Client) → Watches c (advance_outbox c)
unfolding advance_outbox advanced
advance_outbox-Watches c = ground arith

both : (c d e : Client) → Watches c d → Watches d e → Watches c e
both c d e (a, b, g) (a', b', g') = (a' ∙ a, b' ∙ b, g' ∙ g)

pub check_outbox-Watches : (ws : List Answer) (c : Client) → Always (Watches c) (check_outbox ws c)
check_outbox-Watches ws c =
    check_outbox_keeps (Watches c)
      (λ w d k. AlwaysWith-map (send_packet w d) (λ e l. both c d e k l) (send_packet-Watches w d))
      (λ d k. both c d (advance_outbox d) k (advance_outbox-Watches d)) ws c (refl, refl, refl)

-- The difference of two readings of the 32-bit clock is the time between them.
since-elapsed :
    (now then_ : ℕ)
    → then_ ≤ now
    → now - then_ < 2 ^ 32
    → since (now % 2 ^ 32) (then_ % 2 ^ 32) ≡ now - then_
since-elapsed now then_ h k = omega arith

-- The PINGREQ packet in the outbox
abbrev pub ping_item : OutgoingPacket
ping_item = new_packet (packet_of 0 (pingreq_type ∷ 0 ∷ []))

pub check_timeout-items :
    (now : ℕ) (c : Client) → Queue.items (check_timeout now c).outbox ≡ Queue.items c.outbox
unfolding check_timeout
check_timeout-items now c = ground arith

-- What _checkPing makes of a server that has been silent for more than the keepalive.
abbrev pub given_up : Client → Client
given_up c = record c { state = disconnecting_tcp1; disconnect_reason = tcp_disconnected }

abbrev pub pinged : Client → Client
pinged c =
    if c.ping_sent
    then c
    else record c { outbox = Queue.push_back ping_item c.outbox; ping_sent = true }

module _ (a : Alloc) (ok : HasAlloc a) (now server : ℕ) (c : Client)
    (at : c.last_server_activity ≡ server % 2 ^ 32) (before : server ≤ now)
    (recent : now - server < 2 ^ 32) (k : c.keep_alive < 2 ^ 31) where
  silence : since (now % 2 ^ 32) c.last_server_activity ≡ now - server
  silence = ap (since (now % 2 ^ 32)) at ∙ since-elapsed now server before recent

  pub check_ping-gives_up :
      0 < c.keep_alive
      → 2 * c.keep_alive < now - server
      → check_ping a (now % 2 ^ 32) c ≡ some (given_up c)
  unfolding check_ping
  check_ping-gives_up pos late =
      let on : (c.keep_alive == 0) ≡ false = ground arith in
      let over : ltb (2 * c.keep_alive % 2 ^ 32) (since (now % 2 ^ 32) c.last_server_activity)
          ≡ true =
        lt→ltb _ _ (omega (arith, silence, late, k)) in
      rw (check_ping, on, over) refl

  add_ping :
      add_packet a (λ mem. create_simple mem pingreq_type) c
      ≡ some (record c { outbox = Queue.push_back ping_item c.outbox }, true)
  unfolding add_packet
  add_ping = rw (ok.node, create_simple-frame a.memory pingreq_type ok.memory) refl

  send_added :
      send_ping a c
      ≡ some (record c { outbox = Queue.push_back ping_item c.outbox; ping_sent = true })
  unfolding send_ping
  send_added = rw (send_ping, add_ping) refl

  pub check_ping-pings :
      0 < c.keep_alive
      → c.keep_alive < now - server
      → now - server ≤ 2 * c.keep_alive
      → check_ping a (now % 2 ^ 32) c ≡ some (pinged c)
  unfolding check_ping send_ping
  check_ping-pings pos quiet in_time =
      let on : (c.keep_alive == 0) ≡ false = ground arith in
      let over : ltb (2 * c.keep_alive % 2 ^ 32) (since (now % 2 ^ 32) c.last_server_activity)
          ≡ false =
        let s = silence in ground arith in
      let due : ltb c.keep_alive (since (now % 2 ^ 32) c.last_server_activity) ≡ true =
        lt→ltb _ _ (omega (arith, silence, quiet)) in
      let any : (ltb c.keep_alive (since (now % 2 ^ 32) c.last_client_activity)
            || ltb c.keep_alive (since (now % 2 ^ 32) c.last_server_activity))
          ≡ true =
        ground arith in
      elim (Bool-cases c.ping_sent) [
        | inl y ↦ ground arith
        | inr n ↦
            let goes : check_ping a (now % 2 ^ 32) c ≡ send_ping a c = ground arith in
            let done : pinged c
                ≡ record c { outbox = Queue.push_back ping_item c.outbox; ping_sent = true } =
              ground arith in
            goes ∙ send_added ∙ ap some (sym done)
      ]
