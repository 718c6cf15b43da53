-- ===== src/Client/KeepAlive.antt =====
-- The keepalive of src/MqttClient.cpp: _checkPing in MqttClient::loop, while the server is silent.
use esp_mqtt_client.Prelude.{
  ℕ, ◌*◌, ◌-◌, ◌%◌, ◌^◌, ◌≤◌, ◌<◌, ◌≡◌, refl, sym, ap, ◌∙◌, [], ◌∷◌, ◌++◌, some, true, length,
  arith, ltb, if◌then◌else◌, Bool-cases, inl, inr, All, subst, append_assoc, ltb→lt,
}
use esp_mqtt_client.Outbox.Queue
use esp_mqtt_client.Client.{Client, connected, disconnecting_tcp1, tcp_disconnected}
use esp_mqtt_client.Client.Queueing.{Alloc}
use esp_mqtt_client.Client.Always.{Always}
use esp_mqtt_client.Client.Sending.{check_outbox, check_ping, check_timeout}
use esp_mqtt_client.Client.Incoming.{check_incoming}
use esp_mqtt_client.Client.Loop.{Environment, loop, loop_in}
use esp_mqtt_client.Client.Handshake.{HasAlloc}
use esp_mqtt_client.Client.Pending.{IsHonest, total}
use esp_mqtt_client.Client.Keeping.{check_outbox-Kept}
use esp_mqtt_client.Client.Sound.{IsSound}
use esp_mqtt_client.Client.Watching.{
  Watches, check_outbox-Watches, check_timeout-items, ping_item, given_up, pinged,
  check_ping-gives_up, check_ping-pings,
}

-- What a call of loop() makes of the client `c1` that _checkOutbox leaves, `silent` milliseconds after the
-- last byte from the server.
abbrev pub Watched : ℕ → Client → Client → Type 0
Watched silent c1 c' =
    (2 * c1.keep_alive < silent
      → (c'.state ≡ disconnecting_tcp1) × (c'.disconnect_reason ≡ tcp_disconnected))
    × (silent ≤ 2 * c1.keep_alive
        → (c'.ping_sent ≡ true)
          × (Queue.items c'.outbox ≡ (
              if c1.ping_sent
              then Queue.items c1.outbox
              else Queue.items c1.outbox ++ (ping_item ∷ []))))

pinged-items :
    (c : Client)
    → ((pinged c).ping_sent ≡ true)
      × (Queue.items (pinged c).outbox ≡ (
          if c.ping_sent then Queue.items c.outbox else Queue.items c.outbox ++ (ping_item ∷ [])))
pinged-items c = elim (Bool-cases c.ping_sent) [
  | inl y ↦ (ground arith, ground arith)
  | inr n ↦
      let added : pinged c
          ≡ record c { outbox = Queue.push_back ping_item c.outbox; ping_sent = true } =
        ground arith in
      (
        ap (λ (d : Client). d.ping_sent) added,
        ap (λ (d : Client). Queue.items d.outbox) added
            ∙ sym (append_assoc c.outbox.sent c.outbox.pending (ping_item ∷ []))
            ∙ (ground arith),
      )
]

check_timeout-Watches :
    (now : ℕ) (c : Client)
    → ((check_timeout now c).ping_sent ≡ c.ping_sent)
      × ((check_timeout now c).state ≡ c.state)
      × ((check_timeout now c).disconnect_reason ≡ c.disconnect_reason)
unfolding check_timeout
check_timeout-Watches now c = ground arith

watched :
    (a : Alloc) (t now server : ℕ) (c : Client)
    → HasAlloc a
    → c.last_server_activity ≡ server % 2 ^ 32
    → server ≤ now
    → now - server < 2 ^ 32
    → c.keep_alive < 2 ^ 31
    → 0 < c.keep_alive
    → c.keep_alive < now - server
    → (c3 : Client) × (check_ping a (now % 2 ^ 32) c ≡ some c3)
      × Watched (now - server) c (check_timeout t c3)
watched a t now server c ok at before recent k pos quiet =
    elim (Bool-cases (ltb (2 * c.keep_alive) (now - server))) [
      | inl y ↦
          let late = ltb→lt _ _ y in
          let kept = check_timeout-Watches t (given_up c) in
          (
            given_up c,
            check_ping-gives_up a ok now server c at before recent k pos late,
            ((λ _. (kept.1, kept.2)), λ in_time. absurd (omega arith)),
          )
      | inr n ↦
          let in_time : now - server ≤ 2 * c.keep_alive = ground arith in
          let kept = check_timeout-Watches t (pinged c) in
          let items = pinged-items c in
          (
            pinged c,
            check_ping-pings a ok now server c at before recent k pos quiet in_time,
            (
              (λ late. absurd (omega arith)),
              λ _. (kept.0 ∙ items.0, check_timeout-items t (pinged c) ∙ items.1),
            ),
          )
    ]

-- A call of loop() on a connected client, when nothing is received
loop-connected :
    (e : Environment) (c c1 c3 : Client)
    → c.state ≡ connected
    → e.is_connected ≡ true
    → e.received ≡ []
    → check_outbox (e.first_write ∷ e.writes) c ≡ some c1
    → check_ping e.ping e.ping_time c1 ≡ some c3
    → loop e c ≡ some (check_timeout e.timeout_time c3)
unfolding loop loop_in check_incoming
loop-connected e c c1 c3 state up nothing run ping =
    ap (λ s. loop_in s e c) state ∙ rw (loop_in, up, run, nothing, ping) refl

-- A server that falls silent is asked for a sign of life and then given up: let nothing have come from it for
-- longer than the keepalive when loop() is called on a connected client with a connection, and let nothing
-- come during the call. Then loop() returns. If the silence is longer than twice the keepalive, the client
-- closes the connection, with the reason TCP_DISCONNECTED. If not, a PINGREQ packet is at the end of what
-- _checkOutbox has left of the outbox, unless one is outstanding, in which case no other is added, and one
-- is outstanding then. Times are those of an unbounded clock, of which millis() shows the last 32 bits, so
-- this holds across its wrap-around; the silence is below 2^32 ms, the keepalive is on and below 2^31 ms,
-- there is memory for the packet, and the client and the transport are as in perform-goes_on.
pub loop-keepalive :
    (e : Environment) (c : Client) (now server : ℕ)
    → IsSound c
    → c.state ≡ connected
    → e.is_connected ≡ true
    → e.received ≡ []
    → All IsHonest (e.first_write ∷ e.writes)
    → total c.outbox.pending < length (e.first_write ∷ e.writes)
    → HasAlloc e.ping
    → c.last_server_activity ≡ server % 2 ^ 32
    → e.ping_time ≡ now % 2 ^ 32
    → server ≤ now
    → now - server < 2 ^ 32
    → 0 < c.keep_alive
    → c.keep_alive < 2 ^ 31
    → c.keep_alive < now - server
    → (c1 : Client) × (c' : Client) × (check_outbox (e.first_write ∷ e.writes) c ≡ some c1)
      × (loop e c ≡ some c')
      × (c1.keep_alive ≡ c.keep_alive)
      × (c1.ping_sent ≡ c.ping_sent)
      × Watched (now - server) c1 c'
loop-keepalive e c now server sound state up nothing honest enough ok at clock before recent pos k
      quiet =
    let (c1, run, kept) =
      check_outbox-Kept (e.first_write ∷ e.writes) c honest sound.plain enough in
    let same : Watches c c1 =
      subst (Always (Watches c)) run (check_outbox-Watches (e.first_write ∷ e.writes) c) in
    let (c3, ping, result) =
      watched e.ping e.timeout_time now server c1 ok (same.0 ∙ at) before recent
        (omega (arith, same.1, k)) (omega (arith, same.1, pos)) (omega (arith, same.1, quiet)) in
    (
      c1,
      check_timeout e.timeout_time c3,
      run,
      loop-connected e c c1 c3 state up nothing run (ap (λ t. check_ping e.ping t c1) clock ∙ ping),
      same.1,
      same.2,
      result,
    )
