-- ===== src/Client/Sound.antt =====
-- MqttClient::loop of src/MqttClient.cpp in parts: what holds of the client between two operations, and that each part of loop()
-- keeps it.
use esp_mqtt_client.Prelude.{
  ℕ, ◌+◌, ◌*◌, ◌%◌, ◌^◌, ◌≤◌, ◌<◌, ◌≡◌, refl, sym, List, [], ◌∷◌, some, true, not, ◌&&◌, ◌||◌,
  length, arith, subst, Bool-cases, inl, inr, ◌==◌, ltb, ◌∙◌, All,
}
use esp_mqtt_client.Config.{size_mod, disconnect_type, pingreq_type}
use esp_mqtt_client.Outbox.Queue
use esp_mqtt_client.Packet.{out_of_memory}
use esp_mqtt_client.Parser.{Parser, reset_parser}
use esp_mqtt_client.Parser.Invariant.{Invariant, Arrays}
use esp_mqtt_client.Client.{
  Client, State, disconnected, connecting_tcp1, connecting_tcp2, connecting_mqtt, connected,
  disconnecting_mqtt1, disconnecting_mqtt2, disconnecting_tcp1, disconnecting_tcp2, set_state,
  OutgoingPacket, emit, on_error,
}
use esp_mqtt_client.Client.Queueing.{Alloc}
use esp_mqtt_client.Client.Sending.{send_ping, check_ping, check_timeout, since}
use esp_mqtt_client.Client.Loop.{
  Environment, check_all, lose_connection, tcp_connecting, mqtt_connecting, leave,
}
use esp_mqtt_client.Client.Pending.{IsHonest, total}
use esp_mqtt_client.Client.Plain.{HasPlain, rewind-HasPlain}
use esp_mqtt_client.Client.Keeping.{send_packet-Kept, check_outbox-Kept}
use esp_mqtt_client.Client.Fine.{IsFine, check_incoming-IsFine}
use esp_mqtt_client.Client.Adding.{add_packet-Adds}
use esp_mqtt_client.Packet.Create.{create_simple}
use esp_mqtt_client.Packet.Makes.{create_simple-Makes}

-- Where the client reads, the parser can go on.
abbrev pub IsReady : State → Parser → Type 0
IsReady disconnected p = Unit {0}
IsReady connecting_tcp1 p = Unit {0}
IsReady connecting_tcp2 p = Unit {0}
IsReady connecting_mqtt p = Invariant p
IsReady connected p = Invariant p
IsReady disconnecting_mqtt1 p = Invariant p
IsReady disconnecting_mqtt2 p = Invariant p
IsReady disconnecting_tcp1 p = Unit {0}
IsReady disconnecting_tcp2 p = Unit {0}

-- What holds of the client between two operations: every packet of the outbox is filled, the parser's
-- arrays have their sizes, and the parser can go on where the client reads.
pub record IsSound (c : Client) : Type 0 where
  pub plain : HasPlain c.outbox
  pub arrays : Arrays c.parser
  pub ready : IsReady c.state c.parser

IsReady-in : (s : State) (p : Parser) → Invariant p → IsReady s p
IsReady-in disconnected p i = tt
IsReady-in connecting_tcp1 p i = tt
IsReady-in connecting_tcp2 p i = tt
IsReady-in connecting_mqtt p i = i
IsReady-in connected p i = i
IsReady-in disconnecting_mqtt1 p i = i
IsReady-in disconnecting_mqtt2 p i = i
IsReady-in disconnecting_tcp1 p i = tt
IsReady-in disconnecting_tcp2 p i = tt

IsFine-IsSound : (c : Client) → IsFine c → IsSound c
IsFine-IsSound c h = record {
  plain = h.plain;
  arrays = h.arrays;
  ready = elim h.ready [
    | inl i ↦ IsReady-in c.state c.parser i
    | inr e ↦ subst (λ s. IsReady s c.parser) (sym e) tt
  ];
}

-- The parser is kept, and so is the state.
same-IsFine :
    (c c' : Client)
    → HasPlain c'.outbox
    → c'.parser ≡ c.parser
    → c'.state ≡ c.state
    → IsFine c
    → IsFine c'
same-IsFine c c' h p s f = record {
  plain = h;
  arrays = subst Arrays (sym p) f.arrays;
  ready = elim f.ready [ inl i ↦ inl (subst Invariant (sym p) i) | inr e ↦ inr (s ∙ e) ];
}

send_ping-IsFine :
    (a : Alloc) (c : Client) → IsFine c → (c' : Client) × (send_ping a c ≡ some c') × IsFine c'
unfolding send_ping
send_ping-IsFine a c f =
    let ((c1, added), run, adds) =
      add_packet-Adds 2 (omega arith) a (λ mem. create_simple mem pingreq_type) c f.plain
        (create_simple-Makes a.memory pingreq_type) in
    let fine1 = same-IsFine c c1 adds.plain adds.parser adds.state f in
    elim (Bool-cases added) [
      | inl y ↦ (
        record c1 { ping_sent = true },
        rw (send_ping, run, y) refl,
        record { plain = fine1.plain; arrays = fine1.arrays; ready = fine1.ready },
      )
      | inr n ↦ (c1, rw (send_ping, run, n) refl, fine1)
    ]

check_ping-IsFine :
    (a : Alloc) (now : ℕ) (c : Client)
    → IsFine c
    → (c' : Client) × (check_ping a now c ≡ some c') × IsFine c'
unfolding check_ping
check_ping-IsFine a now c f = elim (Bool-cases (c.keep_alive == 0)) [
  | inl y ↦ (c, rw (check_ping, y) refl, f)
  | inr n ↦ elim (Bool-cases (ltb (2 * c.keep_alive % 2 ^ 32) (since now c.last_server_activity))) [
    | inl l ↦ (
      lose_connection c,
      rw (check_ping, n, l) refl,
      record { plain = f.plain; arrays = f.arrays; ready = inr refl },
    )
    | inr l ↦
        elim (Bool-cases (
          not c.ping_sent
          && (ltb c.keep_alive (since now c.last_client_activity)
              || ltb c.keep_alive (since now c.last_server_activity)))) [
                | inl t ↦
                    let (c', run, g) = send_ping-IsFine a c f in
                    (c', rw (check_ping, n, l, t) run, g)
                | inr t ↦ (c, rw (check_ping, n, l, t) refl, f)
              ]
  ]
]

check_timeout-IsFine : (now : ℕ) (c : Client) → IsFine c → IsFine (check_timeout now c)
unfolding check_timeout
check_timeout-IsFine now c f = in_sent c.outbox.sent refl
  where
    in_sent : (sent : List OutgoingPacket) → c.outbox.sent ≡ sent → IsFine (check_timeout now c)
    in_sent [] e = let same : check_timeout now c ≡ c = ground arith in rw same f
    in_sent (o ∷ os) e =
        elim (Bool-cases (c.bytes_sent == 0 && ltb c.timeout (since now o.time_sent))) [
          | inl y ↦
              let back : check_timeout now c ≡ record c { outbox = Queue.rewind c.outbox } =
                ground arith in
              rw back (record {
                plain = rewind-HasPlain c.outbox f.plain;
                arrays = f.arrays;
                ready = f.ready;
              })
          | inr n ↦ let same : check_timeout now c ≡ c = ground arith in rw same f
        ]

pub tcp_connecting-IsSound :
    (e : Environment) (c : Client)
    → HasPlain c.outbox
    → Arrays c.parser
    → IsReady c.state c.parser
    → IsSound (tcp_connecting e c)
unfolding tcp_connecting
tcp_connecting-IsSound e c h a r = elim (Bool-cases e.is_connected) [
  | inl y ↦
      let same : Arrays (reset_parser c.parser) = record {
        raw = a.raw;
        topic = a.topic;
        buffer = a.buffer;
      } in
      rw (tcp_connecting, y)
        (record { plain = h; arrays = same; ready = record { arrays = same; ready = tt } })
  | inr n ↦ elim (Bool-cases e.is_disconnected) [
    | inl y ↦ rw (tcp_connecting, n, y) (record { plain = h; arrays = a; ready = tt })
    | inr k ↦ rw (tcp_connecting, n, k) (record { plain = h; arrays = a; ready = r })
  ]
]

pub mqtt_connecting-IsSound :
    (e : Environment) (c : Client)
    → IsHonest e.first_write
    → length e.received < size_mod
    → HasPlain c.outbox
    → Invariant c.parser
    → (c' : Client) × (mqtt_connecting e c ≡ some c') × IsSound c'
unfolding mqtt_connecting
mqtt_connecting-IsSound e c w m h i =
    let ((c1, n), run1, k) = send_packet-Kept e.first_write c w h in
    let (c2, run2, f) =
      check_incoming-IsFine e.now e.acks e.received c1 m k.0 (subst Invariant (sym k.1) i) in
    let (c3, run3, g) = check_ping-IsFine e.ping e.ping_time c2 f in
    (c3, rw (mqtt_connecting, run1, run2) run3, IsFine-IsSound c3 g)

pub check_all-IsSound :
    (e : Environment) (c : Client)
    → All IsHonest (e.first_write ∷ e.writes)
    → total c.outbox.pending < length (e.first_write ∷ e.writes)
    → length e.received < size_mod
    → HasPlain c.outbox
    → Invariant c.parser
    → (c' : Client) × (check_all e c ≡ some c') × IsSound c'
check_all-IsSound e c ws enough m h i =
    let (c1, run1, k) = check_outbox-Kept (e.first_write ∷ e.writes) c ws h enough in
    let (c2, run2, f) =
      check_incoming-IsFine e.now e.acks e.received c1 m k.0 (subst Invariant (sym k.1) i) in
    let (c3, run3, g) = check_ping-IsFine e.ping e.ping_time c2 f in
    let c4 = check_timeout e.timeout_time c3 in
    (c4, rw (run1, run2, run3) refl, IsFine-IsSound c4 (check_timeout-IsFine e.timeout_time c3 g))

pub leave-Adds :
    (e : Environment) (c : Client)
    → HasPlain c.outbox
    → (c' : Client) × (leave e c ≡ some c')
      × HasPlain c'.outbox
      × (c'.parser ≡ c.parser)
      × (total c'.outbox.pending ≤ total c.outbox.pending + 2)
unfolding leave
leave-Adds e c h =
    let ((c1, added), run, adds) =
      add_packet-Adds 2 (omega arith) e.disconnect (λ mem. create_simple mem disconnect_type) c h
        (create_simple-Makes e.disconnect.memory disconnect_type) in
    elim (Bool-cases added) [
      | inl y ↦ (
        set_state disconnecting_mqtt2 c1,
        rw (leave, run, y) refl,
        adds.plain,
        adds.parser,
        adds.more,
      )
      | inr n ↦ (
        emit (on_error 0 out_of_memory) c1,
        rw (leave, run, n) refl,
        adds.plain,
        adds.parser,
        adds.more,
      )
    ]
