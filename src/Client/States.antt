-- ===== src/Client/States.antt =====
-- The state machine of MqttClient::loop (src/MqttClient.cpp) as a relation.
use esp_mqtt_client.Prelude.{
  ◌≡◌, refl, sym, Option, none, some, arith, if◌then◌else◌, Bool-cases, inl, inr, ◌⊎◌, ◌>>=◌, ◌∙◌,
  subst, ◌∷◌, Option-cases,
}
use esp_mqtt_client.Packet.Create.{create_simple}
use esp_mqtt_client.Config.{disconnect_type}
use esp_mqtt_client.Client.{
  set_state, Client, State, disconnected, connecting_tcp1, connecting_tcp2, connecting_mqtt,
  connected, disconnecting_mqtt1, disconnecting_mqtt2, disconnecting_tcp1, disconnecting_tcp2,
}
use esp_mqtt_client.Client.Queueing.{add_packet}
use esp_mqtt_client.Client.Sending.{send_packet}
use esp_mqtt_client.Client.Loop.{
  Environment, check_all, tcp_connecting, mqtt_connecting, leave, closed, loop_in, loop, empty,
}
use esp_mqtt_client.Client.Transitions.{
  Leaves, LeavesWith, check_outbox-Leaves, check_incoming-Leaves, check_ping-Leaves,
  send_packet-state, check_timeout-state, add_packet-state,
}

-- One call of loop(): the state before and the state after.
pub data Follows : State → State → Type 0 where
  same : (s : State) → Follows s s
  tcp_started : Follows connecting_tcp1 connecting_tcp2
  tcp_open_at_once : Follows connecting_tcp1 connecting_mqtt
  tcp_open : Follows connecting_tcp2 connecting_mqtt
  accepted : Follows connecting_mqtt connected
  accepted_again1 : Follows disconnecting_mqtt1 connected
  accepted_again2 : Follows disconnecting_mqtt2 connected
  left : Follows disconnecting_mqtt1 disconnecting_mqtt2
  tcp1_lost : Follows connecting_tcp1 disconnecting_tcp1
  tcp2_lost : Follows connecting_tcp2 disconnecting_tcp1
  mqtt_lost : Follows connecting_mqtt disconnecting_tcp1
  connection_lost : Follows connected disconnecting_tcp1
  leaving1_lost : Follows disconnecting_mqtt1 disconnecting_tcp1
  leaving2_lost : Follows disconnecting_mqtt2 disconnecting_tcp1
  stopped : Follows disconnecting_tcp1 disconnecting_tcp2
  closed_down : Follows disconnecting_tcp2 disconnected

module _ (P : State → Type 0) where
  then-Leaves :
      (f : Client → Option Client) (o : Option Client)
      → ((c : Client) → P c.state → Leaves P (f c))
      → Leaves P o
      → Leaves P (o >>= f)
  then-Leaves f none next p = tt
  then-Leaves f (some c) next p = next c p

  module _ (lost : P disconnecting_tcp1) (online : P connected) where
    check_all-Leaves : (e : Environment) (c : Client) → P c.state → Leaves P (check_all e c)
    check_all-Leaves e c p =
        then-Leaves _ _
          (λ c1 p1.
            then-Leaves _ _
              (λ c2 p2.
                then-Leaves _ _ (λ c3 p3. subst P (sym (check_timeout-state e.timeout_time c3)) p3)
                  (check_ping-Leaves P lost e.ping e.ping_time c2 p2))
              (check_incoming-Leaves P lost online e.now e.acks e.received c1 p1))
          (check_outbox-Leaves P lost (e.first_write ∷ e.writes) c p)

    mqtt_connecting-Leaves :
        (e : Environment) (c : Client) → P c.state → Leaves P (mqtt_connecting e c)
    unfolding mqtt_connecting
    mqtt_connecting-Leaves e c p = elim (Option-cases (send_packet e.first_write c)) [
      | inl x ↦ rw (mqtt_connecting, x) tt
      | inr (r, x) ↦
          let sent : r.0.state ≡ c.state =
            subst (LeavesWith (λ s. s ≡ c.state)) x (send_packet-state e.first_write c) in
          rw (mqtt_connecting, x)
            (then-Leaves _ _ (λ c2 p2. check_ping-Leaves P lost e.ping e.ping_time c2 p2)
              (check_incoming-Leaves P lost online e.now e.acks e.received r.0
                (subst P (sym sent) p)))
    ]

leave-Leaves :
    (e : Environment) (c : Client)
    → c.state ≡ disconnecting_mqtt1
    → Leaves (Follows disconnecting_mqtt1) (leave e c)
unfolding leave
leave-Leaves e c s =
    elim (Option-cases (add_packet e.disconnect (λ mem. create_simple mem disconnect_type) c)) [
      | inl x ↦ rw (leave, x) tt
      | inr ((c', added), x) ↦
          let kept : c'.state ≡ c.state =
            subst (LeavesWith (λ t. t ≡ c.state)) x (add_packet-state e.disconnect _ c) in
          elim (Bool-cases added) [
            | inl y ↦ rw (leave, x, y) left
            | inr n ↦ rw (leave, x, n, kept, s) (same disconnecting_mqtt1)
          ]
    ]

tcp_connecting-Leaves :
    (e : Environment) (c : Client)
    → ((tcp_connecting e c).state ≡ connecting_mqtt)
      ⊎ (((tcp_connecting e c).state ≡ disconnecting_tcp1) ⊎ ((tcp_connecting e c).state ≡ c.state))
unfolding tcp_connecting
tcp_connecting-Leaves e c = ground arith

loop_in-Leaves :
    (s : State) (e : Environment) (c : Client) → c.state ≡ s → Leaves (Follows s) (loop_in s e c)
unfolding loop_in closed
loop_in-Leaves disconnected e c h = rw h (same disconnected)
loop_in-Leaves connecting_tcp1 e c h = elim (Bool-cases e.connects) [
  | inr n ↦ rw (loop_in, n) tcp1_lost
  | inl y ↦
      rw (loop_in, y)
        (elim (tcp_connecting-Leaves e (set_state connecting_tcp2 c)) [
          | inl x ↦ subst (Follows connecting_tcp1) (sym x) tcp_open_at_once
          | inr (inl x) ↦ subst (Follows connecting_tcp1) (sym x) tcp1_lost
          | inr (inr x) ↦ subst (Follows connecting_tcp1) (sym x) tcp_started
        ])
]
loop_in-Leaves connecting_tcp2 e c h = elim (tcp_connecting-Leaves e c) [
  | inl x ↦ subst (Follows connecting_tcp2) (sym x) tcp_open
  | inr (inl x) ↦ subst (Follows connecting_tcp2) (sym x) tcp2_lost
  | inr (inr x) ↦ subst (Follows connecting_tcp2) (sym (x ∙ h)) (same connecting_tcp2)
]
loop_in-Leaves connecting_mqtt e c h = elim (Bool-cases e.is_connected) [
  | inl y ↦
      rw (loop_in, y)
        (mqtt_connecting-Leaves (Follows connecting_mqtt) mqtt_lost accepted e c
          (rw h (same connecting_mqtt)))
  | inr n ↦ rw (loop_in, n) mqtt_lost
]
loop_in-Leaves connected e c h = elim (Bool-cases e.is_connected) [
  | inl y ↦
      rw (loop_in, y)
        (check_all-Leaves (Follows connected) connection_lost (same connected) e c
          (rw h (same connected)))
  | inr n ↦ rw (loop_in, n) connection_lost
]
loop_in-Leaves disconnecting_mqtt1 e c h =
    then-Leaves (Follows disconnecting_mqtt1) (check_all e) (if empty c then leave e c else some c)
      (λ d p. check_all-Leaves (Follows disconnecting_mqtt1) leaving1_lost accepted_again1 e d p)
      (elim (Bool-cases (empty c)) [
        | inl y ↦ rw y (leave-Leaves e c h)
        | inr n ↦ rw (n, h) (same disconnecting_mqtt1)
      ])
loop_in-Leaves disconnecting_mqtt2 e c h = elim (Bool-cases e.is_connected) [
  | inl y ↦
      rw (loop_in, y)
        (check_all-Leaves (Follows disconnecting_mqtt2) leaving2_lost accepted_again2 e c
          (rw h (same disconnecting_mqtt2)))
  | inr n ↦ rw (loop_in, n) leaving2_lost
]
loop_in-Leaves disconnecting_tcp1 e c h = stopped
loop_in-Leaves disconnecting_tcp2 e c h = elim (Bool-cases e.is_disconnected) [
  | inl y ↦ rw (loop_in, y) closed_down
  | inr n ↦ rw (loop_in, n, h) (same disconnecting_tcp2)
]

-- Whatever the transport, the clock and the memory answer, a call of loop() that returns leaves
-- the state or moves along a transition of `Follows`: connectingTcp1 leads to connectingTcp2 or at
-- once to connectingMqtt, connectingTcp2 to connectingMqtt, and connectingMqtt to connected;
-- disconnectingMqtt1 leads to disconnectingMqtt2; both lead to connected too, by a CONNACK that
-- comes late; each of these states and connected may lead to disconnectingTcp1, and from there the
-- client passes disconnectingTcp2 and ends in disconnected.
pub loop-Follows : (e : Environment) (c : Client) → Leaves (Follows c.state) (loop e c)
unfolding loop
loop-Follows e c = loop_in-Leaves c.state e c refl
