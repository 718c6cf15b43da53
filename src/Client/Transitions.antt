-- ===== src/Client/Transitions.antt =====
-- The states that MqttClient::loop of src/MqttClient.cpp moves between.
use esp_mqtt_client.Prelude.{
  ℕ, zero, suc, ◌≡◌, refl, sym, List, [], ◌∷◌, Option, none, some, Bool, true, false, length, arith,
  Bool-cases, Option-cases, subst, inl, inr, ◌⊎◌, ◌==◌, ◌>>=◌, bit_and, drop,
}
use esp_mqtt_client.Packet.{Packet, Error, Memory}
use esp_mqtt_client.Outbox.Queue
use esp_mqtt_client.Client.{Client, State, OutgoingPacket, connected, disconnecting_tcp1}
use esp_mqtt_client.Config.{publish_type, puback_type, pubrec_type, pubrel_type, pubcomp_type}
use esp_mqtt_client.Parser.{qos}
use esp_mqtt_client.Parser.Parse.{parse}
use esp_mqtt_client.Client.{emit, on_message}
use esp_mqtt_client.Client.Incoming.{
  acknowledge, on_connack, connack_accepted, on_publish_packet, on_puback, on_pubrec, on_pubrel,
  on_pubcomp, on_suback, on_unsuback, complete, replace, dispatch, handle_packet, incoming_loop,
  check_incoming, match_first, remove, answer_last, deliver_once, is_last, message_of,
}
use esp_mqtt_client.Client.Looping.{Handled, after_parsing}
use esp_mqtt_client.Client.Queueing.{Alloc, add_packet, clear_queue}
use esp_mqtt_client.Client.Always.{Always, AlwaysWith, AlwaysWith-map, check_outbox_keeps}
use esp_mqtt_client.Client.Sending.{
  Answer, send_packet, write_packet, advance_outbox, advanced, check_outbox, check_ping, send_ping,
  check_timeout,
}

-- What holds of the client that an operation leaves, if it leaves one.
abbrev pub Leaves : (State → Type 0) → Option Client → Type 0
Leaves P = Always (λ c. P c.state)

abbrev pub LeavesWith {ℓ} : {A : Type ℓ} → (State → Type 0) → Option (Client × A) → Type 0
LeavesWith P = AlwaysWith (λ c. P c.state)

pub send_packet-state : (w : Answer) (c : Client) → LeavesWith (λ s. s ≡ c.state) (send_packet w c)
unfolding send_packet write_packet
send_packet-state w c = ground arith

advance_outbox-state :
    (c : Client)
    → ((advance_outbox c).state ≡ c.state) ⊎ ((advance_outbox c).state ≡ disconnecting_tcp1)
unfolding advance_outbox advanced
advance_outbox-state c = ground arith

pub check_timeout-state : (now : ℕ) (c : Client) → (check_timeout now c).state ≡ c.state
unfolding check_timeout
check_timeout-state now c = ground arith

pub add_packet-state :
    (a : Alloc) (make : Memory → Option (Packet × Error)) (c : Client)
    → LeavesWith (λ s. s ≡ c.state) (add_packet a make c)
unfolding add_packet
add_packet-state a make c = ground arith

on_connack-state :
    (c : Client) → ((on_connack c).state ≡ connected) ⊎ ((on_connack c).state ≡ disconnecting_tcp1)
unfolding on_connack connack_accepted advance_outbox advanced clear_queue
on_connack-state c = ground arith

on_puback-state : (c : Client) → (on_puback c).state ≡ c.state
unfolding on_puback complete match_first
on_puback-state c = ground arith

on_pubcomp-state : (c : Client) → (on_pubcomp c).state ≡ c.state
unfolding on_pubcomp complete match_first
on_pubcomp-state c = ground arith

on_suback-state : (c : Client) → (on_suback c).state ≡ c.state
unfolding on_suback
on_suback-state c = ground arith

on_unsuback-state : (c : Client) → (on_unsuback c).state ≡ c.state
unfolding on_unsuback
on_unsuback-state c = ground arith

deliver_once-state :
    (q : Queue.Queue OutgoingPacket) (c : Client) → (deliver_once q c).state ≡ c.state
deliver_once-state q c = ground arith

module _ (P : State → Type 0) (lost : P disconnecting_tcp1) where
  from_advanced : (c : Client) → P c.state → P (advance_outbox c).state
  from_advanced c p = elim (advance_outbox-state c) [
    | inl e ↦ subst P (sym e) p
    | inr e ↦ subst P (sym e) lost
  ]

  pub check_outbox-Leaves :
      (ws : List Answer) (c : Client) → P c.state → Leaves P (check_outbox ws c)
  check_outbox-Leaves =
      check_outbox_keeps (λ c. P c.state)
        (λ w c p.
          AlwaysWith-map (send_packet w c) (λ d e. subst P (sym e) p) (send_packet-state w c))
        from_advanced

  pub check_ping-Leaves :
      (a : Alloc) (now : ℕ) (c : Client) → P c.state → Leaves P (check_ping a now c)
  unfolding check_ping send_ping add_packet
  check_ping-Leaves a now c p = ground arith

  acknowledge-Leaves :
      (a : Alloc) (type id : ℕ) (c : Client) → P c.state → Leaves P (acknowledge a type id c)
  unfolding acknowledge add_packet
  acknowledge-Leaves a type id c p = ground arith

  bind-Leaves :
      (f : Client → Client) (o : Option Client)
      → ((c : Client) → (f c).state ≡ c.state)
      → Leaves P o
      → Leaves P (o >>= (λ c. some (f c)))
  bind-Leaves f none same p = tt
  bind-Leaves f (some c) same p = subst P (sym (same c)) p

  go_on-Leaves : (o : Option Client) → Leaves P o → LeavesWith P (o >>= (λ c. some (c, true)))
  go_on-Leaves none p = tt
  go_on-Leaves (some c) p = p

  answer_last-Leaves :
      (a : Alloc) (type : ℕ) (c : Client) → P c.state → Leaves P (answer_last a type c)
  unfolding answer_last
  answer_last-Leaves a type c p = elim (Bool-cases (is_last c.parser.incoming)) [
    | inl y ↦ rw (answer_last, y) (acknowledge-Leaves a type c.parser.incoming.fixed c p)
    | inr n ↦ rw (answer_last, n) p
  ]

  on_publish-Leaves : (a : Alloc) (c : Client) → P c.state → Leaves P (on_publish_packet a c)
  unfolding on_publish_packet
  on_publish-Leaves a c p = elim (Bool-cases (qos c.parser.incoming == 1)) [
    | inl y ↦
        rw (on_publish_packet, y)
          (bind-Leaves (λ c'. emit (on_message (message_of c'.parser)) c') _ (λ c'. refl)
            (answer_last-Leaves a puback_type c p))
    | inr n ↦ elim (Bool-cases (qos c.parser.incoming == 2)) [
      | inl y ↦
          rw (on_publish_packet, n, y)
            (bind-Leaves (deliver_once c.outbox) _ (deliver_once-state c.outbox)
              (answer_last-Leaves a pubrec_type c p))
      | inr m ↦ rw (on_publish_packet, n, m) p
    ]
  ]

  replace-Leaves :
      (a : Alloc) (type reply : ℕ) (c : Client) → P c.state → Leaves P (replace a type reply c)
  unfolding replace
  replace-Leaves a type reply c p =
      elim (Option-cases (match_first type c.parser.incoming.fixed c)) [
        | inl e ↦ rw (replace, e) p
        | inr (index, e) ↦
            rw (replace, e)
              (bind-Leaves (remove index) _ (λ c'. refl)
                (acknowledge-Leaves a reply c.parser.incoming.fixed c p))
      ]

  module _ (accepted : P connected) where
    on_connack-Leaves : (c : Client) → P (on_connack c).state
    on_connack-Leaves c = elim (on_connack-state c) [
      | inl e ↦ subst P (sym e) accepted
      | inr e ↦ subst P (sym e) lost
    ]

    dispatch-Leaves :
        (a : Alloc) (type : ℕ) (c : Client) → P c.state → LeavesWith P (dispatch a type c)
    unfolding dispatch on_pubrec on_pubrel
    dispatch-Leaves a type c p = ground (
      arith,
      on_connack-Leaves c,
      on_puback-state c,
      on_pubcomp-state c,
      on_suback-state c,
      on_unsuback-state c,
      go_on-Leaves (on_publish_packet a c) (on_publish-Leaves a c p),
      go_on-Leaves (on_pubrec a c) (replace-Leaves a publish_type pubrel_type c p),
      go_on-Leaves (on_pubrel a c) (replace-Leaves a pubrec_type pubcomp_type c p),
    )

    handle_packet-Leaves : (a : Alloc) (c : Client) → P c.state → LeavesWith P (handle_packet a c)
    unfolding handle_packet
    handle_packet-Leaves a c p =
        ground (arith, lost, dispatch-Leaves a (bit_and c.parser.incoming.packet_type 0xf0) c p)

    handled : (o : Option (Client × Bool)) → LeavesWith P o → Handled (λ d. P d.state) (Leaves P) o
    handled none l = tt
    handled (some (d, false)) l = l
    handled (some (d, true)) l = l

    incoming_loop-Leaves :
        (fuel : ℕ) (allocs : ℕ → Alloc) (bytes : List ℕ) (c : Client)
        → P c.state
        → Leaves P (incoming_loop fuel allocs bytes c)
    unfolding incoming_loop
    incoming_loop-Leaves zero allocs [] c p = p
    incoming_loop-Leaves (suc fuel) allocs [] c p = p
    incoming_loop-Leaves zero allocs (b ∷ bytes) c p = tt
    incoming_loop-Leaves (suc fuel) allocs (b ∷ bytes) c p =
        elim (Option-cases (parse (b ∷ bytes) c.parser)) [
          | inl e ↦ rw (incoming_loop, e) tt
          | inr ((r, q), e) ↦
              let rest = drop q.bytes_read (b ∷ bytes) in
              let turned = record c { parser = q } in
              rw (incoming_loop, e)
                (after_parsing (λ d. P d.state) (Leaves P) fuel allocs rest
                  (incoming_loop-Leaves fuel allocs rest) turned r (λ e. p)
                  (λ e.
                    handled (handle_packet (allocs (length rest)) turned)
                      (handle_packet-Leaves (allocs (length rest)) turned p))
                  lost)
        ]

    pub check_incoming-Leaves :
        (now : ℕ) (allocs : ℕ → Alloc) (bytes : List ℕ) (c : Client)
        → P c.state
        → Leaves P (check_incoming now allocs bytes c)
    unfolding check_incoming
    check_incoming-Leaves now allocs [] c p = p
    check_incoming-Leaves now allocs (b ∷ bytes) c p =
        incoming_loop-Leaves (length (b ∷ bytes)) allocs (b ∷ bytes)
          (record c { last_server_activity = now }) p
