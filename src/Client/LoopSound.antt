-- ===== src/Client/LoopSound.antt =====
-- MqttClient::loop of src/MqttClient.cpp as a whole: what holds of the client between two calls.
use esp_mqtt_client.Prelude.{
  ℕ, ◌+◌, ◌<◌, ◌≡◌, refl, sym, ◌∷◌, Option, some, length, arith, if◌then◌else◌, subst, Bool-cases,
  inl, inr, ◌>>=◌, All,
}
use esp_mqtt_client.Config.{size_mod}
use esp_mqtt_client.Parser.Invariant.{Invariant}
use esp_mqtt_client.Packet.Connect.{ConnectArgs}
use esp_mqtt_client.Client.{
  Client, State, disconnected, connecting_tcp1, connecting_tcp2, connecting_mqtt, connected,
  disconnecting_mqtt1, disconnecting_mqtt2, disconnecting_tcp1, disconnecting_tcp2, new_client,
  set_state,
}
use esp_mqtt_client.Client.Queueing.{clear_queue}
use esp_mqtt_client.Client.Loop.{
  Environment, check_all, lose_connection, tcp_connecting, mqtt_connecting, leave, empty, closed,
  loop_in, loop,
}
use esp_mqtt_client.Client.Pending.{IsHonest, total}
use esp_mqtt_client.Client.Plain.{HasPlain, clear_queue-HasPlain}
use esp_mqtt_client.Client.Sound.{
  IsSound, IsReady, tcp_connecting-IsSound, mqtt_connecting-IsSound, check_all-IsSound, leave-Adds,
}

-- A call of loop() that returns a sound client
abbrev Goes : State → Environment → Client → Type 0
Goes s e c = (c' : Client) × (loop_in s e c ≡ some c') × IsSound c'

module _ (e : Environment) (ws : All IsHonest (e.first_write ∷ e.writes))
    (m : length e.received < size_mod) where
  -- The branches that first ask whether the connection is there
  while_connected :
      (c : Client) (go : Option Client)
      → IsSound c
      → ((c' : Client) × (go ≡ some c') × IsSound c')
      → (c' : Client) × ((if e.is_connected then go else some (lose_connection c)) ≡ some c')
        × IsSound c'
  while_connected c go h (c', run, k) = elim (Bool-cases e.is_connected) [
    | inl y ↦ (c', rw y run, k)
    | inr n ↦
        (lose_connection c, rw n refl, record { plain = h.plain; arrays = h.arrays; ready = tt })
  ]

  leaving :
      (c : Client)
      → HasPlain c.outbox
      → Invariant c.parser
      → total c.outbox.pending + 2 < length (e.first_write ∷ e.writes)
      → (c' : Client) × (((if empty c then leave e c else some c) >>= check_all e) ≡ some c')
        × IsSound c'
  leaving c h i enough = elim (Bool-cases (empty c)) [
    | inl y ↦
        let (c1, run1, h1, same, more) = leave-Adds e c h in
        let (c2, run2, k) =
          check_all-IsSound e c1 ws (omega (arith, enough, more)) m h1
            (subst Invariant (sym same) i) in
        (c2, rw (y, run1) run2, k)
    | inr n ↦
        let (c2, run2, k) = check_all-IsSound e c ws (omega (arith, enough)) m h i in
        (c2, rw n run2, k)
  ]

  loop_in-IsSound :
      (s : State) (c : Client)
      → c.state ≡ s
      → IsSound c
      → IsReady s c.parser
      → total c.outbox.pending + 2 < length (e.first_write ∷ e.writes)
      → Goes s e c
  unfolding loop_in closed clear_queue
  loop_in-IsSound disconnected c same h r enough = (c, refl, h)
  loop_in-IsSound connecting_tcp1 c same h r enough = elim (Bool-cases e.connects) [
    | inl y ↦ (
      tcp_connecting e (set_state connecting_tcp2 c),
      rw (loop_in, y) refl,
      tcp_connecting-IsSound e (set_state connecting_tcp2 c) h.plain h.arrays tt,
    )
    | inr n ↦ (
      lose_connection c,
      rw (loop_in, n) refl,
      record { plain = h.plain; arrays = h.arrays; ready = tt },
    )
  ]
  loop_in-IsSound connecting_tcp2 c same h r enough =
      (tcp_connecting e c, refl, tcp_connecting-IsSound e c h.plain h.arrays h.ready)
  loop_in-IsSound connecting_mqtt c same h r enough =
      while_connected c (mqtt_connecting e c) h (mqtt_connecting-IsSound e c ws.0 m h.plain r)
  loop_in-IsSound connected c same h r enough =
      while_connected c (check_all e c) h
        (check_all-IsSound e c ws (omega (arith, enough)) m h.plain r)
  loop_in-IsSound disconnecting_mqtt1 c same h r enough = leaving c h.plain r enough
  loop_in-IsSound disconnecting_mqtt2 c same h r enough =
      while_connected c (check_all e c) h
        (check_all-IsSound e c ws (omega (arith, enough)) m h.plain r)
  loop_in-IsSound disconnecting_tcp1 c same h r enough = (
    set_state disconnecting_tcp2 c,
    refl,
    record { plain = h.plain; arrays = h.arrays; ready = tt },
  )
  loop_in-IsSound disconnecting_tcp2 c same h r enough = elim (Bool-cases e.is_disconnected) [
    | inl y ↦ (
      closed c,
      rw (loop_in, y) refl,
      record { plain = clear_queue-HasPlain 0 c h.plain; arrays = h.arrays; ready = tt },
    )
    | inr n ↦ (c, rw (loop_in, n) refl, h)
  ]

-- loop() goes on for ever: called on a client all of whose outgoing packets are filled, whose parser's
-- arrays have their sizes and whose parser can go on in the states in which the client reads, it
-- returns in every state, with no access outside a buffer, and leaves a client of which the same holds;
-- whatever fewer than 2^32 bytes are received, the memory answers and the clocks say. The transport
-- accepts at most what it is offered, and answers at least as many turns as the pending packets and a
-- DISCONNECT have bytes, and one more.
pub loop-IsSound :
    (e : Environment) (c : Client)
    → IsSound c
    → All IsHonest (e.first_write ∷ e.writes)
    → total c.outbox.pending + 2 < length (e.first_write ∷ e.writes)
    → length e.received < size_mod
    → (c' : Client) × (loop e c ≡ some c') × IsSound c'
unfolding loop
loop-IsSound e c h ws enough m = loop_in-IsSound e ws m c.state c refl h h.ready enough

-- The constructor's client
pub new_client-IsSound :
    (args : ConnectArgs) (keep_alive timeout : ℕ) → IsSound (new_client args keep_alive timeout)
new_client-IsSound args keep_alive timeout = record {
  plain = record { sent = tt; pending = tt };
  arrays = record { raw = refl; topic = refl; buffer = refl };
  ready = tt;
}
