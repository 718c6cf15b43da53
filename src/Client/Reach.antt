-- ===== src/Client/Reach.antt =====
-- Whole runs of the client of src/MqttClient.cpp: calls of the user and of loop() in any order.
use esp_mqtt_client.Prelude.{
  ℕ, ◌+◌, ◌/◌, ◌<◌, ◌≡◌, refl, sym, ◌∷◌, Option, some, Bool, true, false, length, arith,
  if◌then◌else◌, subst, Bool-cases, inl, inr, ◌>>=◌, ◌==◌, All, ◌⊎◌,
}
use esp_mqtt_client.Config.{size_mod}
use esp_mqtt_client.Packet.{out_of_memory}
use esp_mqtt_client.Packet.Connect.{ConnectArgs, create_connect}
use esp_mqtt_client.Packet.Connect.Makes.{IsConnectable, create_connect-Makes}
use esp_mqtt_client.Packet.Makes.{greatest}
use esp_mqtt_client.Parser.{Parser}
use esp_mqtt_client.Parser.Invariant.{Invariant}
use esp_mqtt_client.Client.{
  Client, State, disconnected, connecting_tcp1, connecting_tcp2, connecting_mqtt, connected,
  disconnecting_mqtt1, disconnecting_mqtt2, disconnecting_tcp1, disconnecting_tcp2, set_state, emit,
  on_error, is_state, number, new_client,
}
use esp_mqtt_client.Client.Queueing.{Alloc, clear_queue}
use esp_mqtt_client.Client.Requests.{connect, disconnect, clear_queue_request}
use esp_mqtt_client.Client.Outcomes.{Request, request}
use esp_mqtt_client.Client.Loop.{Environment, loop}
use esp_mqtt_client.Client.Pending.{IsHonest, total}
use esp_mqtt_client.Client.Plain.{clear_queue-HasPlain}
use esp_mqtt_client.Client.Adding.{add_packet_front-HasPlain}
use esp_mqtt_client.Client.Sound.{IsSound, IsReady}
use esp_mqtt_client.Client.LoopSound.{loop-IsSound, new_client-IsSound}
use esp_mqtt_client.Client.Asked.{IsFair, request-IsSound, still}

-- The operations of the client
pub data Call : Type 0 where
  asking : Request → Alloc → Call
  connecting : Alloc → Call
  disconnecting : Bool → Call
  clearing : Bool → Call
  looping : Environment → Call

abbrev pub perform : Call → Client → Option Client
perform (asking r a) c = request r a c >>= λ (c', id). some c'
perform (connecting a) c = connect a c >>= λ (c', started). some c'
perform (disconnecting force) c = some (disconnect force c).0
perform (clearing all) c = some (clear_queue_request all c)
perform (looping e) c = loop e c

-- What a call may be given: requests within the protocol's bounds, options that make a CONNECT packet,
-- and a transport that accepts no more than it is offered, is asked often enough, and has read fewer
-- than 2^32 bytes.
abbrev pub IsFairCall : Call → Client → Type 0
IsFairCall (asking r a) c = IsFair r
IsFairCall (connecting a) c = IsConnectable c.connect_args
IsFairCall (disconnecting force) c = Unit {0}
IsFairCall (clearing all) c = Unit {0}
IsFairCall (looping e) c =
    All IsHonest (e.first_write ∷ e.writes)
    × (total c.outbox.pending + 2 < length (e.first_write ∷ e.writes))
    × (length e.received < size_mod)

-- The clients that calls lead to, from a new client.
pub data Reachable : Client → Type 0 where
  start :
      (args : ConnectArgs) (keep_alive timeout : ℕ) → Reachable (new_client args keep_alive timeout)
  after :
      (call : Call) (c c' : Client)
      → Reachable c
      → IsFairCall call c
      → perform call c ≡ some c'
      → Reachable c'

connect-IsSound :
    (a : Alloc) (c : Client)
    → IsConnectable c.connect_args
    → IsSound c
    → (r : Client × Bool) × (connect a c ≡ some r) × IsSound r.0
unfolding connect
connect-IsSound a c k i = elim (Bool-cases (is_state disconnected c)) [
  | inr n ↦ ((c, false), rw (connect, n) refl, i)
  | inl y ↦
      let args : ConnectArgs = record c.connect_args { keep_alive = c.keep_alive / 1000 } in
      let fair : IsConnectable args = record {
        client_id = k.client_id;
        will = k.will;
        named = k.named;
        nonempty = k.nonempty;
        short_id = k.short_id;
        short_username = k.short_username;
        short_password = k.short_password;
        will_qos = k.will_qos;
        has_will = k.has_will;
      } in
      let ((c1, added), run, h, p, s) =
        add_packet_front-HasPlain greatest (omega arith) a (λ mem. create_connect mem args) c
          i.plain (create_connect-Makes a.memory args fair) in
      let j = still c c1 h p s i in
      elim (Bool-cases added) [
        | inl z ↦ (
          (set_state connecting_tcp1 c1, true),
          rw (connect, y, run, z) refl,
          record { plain = j.plain; arrays = j.arrays; ready = tt },
        )
        | inr n ↦ (
          (emit (on_error 0 out_of_memory) c1, false),
          rw (connect, y, run, n) refl,
          record { plain = j.plain; arrays = j.arrays; ready = j.ready },
        )
      ]
]

ready_connected :
    (s : State) (p : Parser) → (number s == number connected) ≡ true → IsReady s p → Invariant p
ready_connected disconnected p e r = absurd (ground arith)
ready_connected connecting_tcp1 p e r = absurd (ground arith)
ready_connected connecting_tcp2 p e r = absurd (ground arith)
ready_connected connecting_mqtt p e r = r
ready_connected connected p e r = r
ready_connected disconnecting_mqtt1 p e r = r
ready_connected disconnecting_mqtt2 p e r = r
ready_connected disconnecting_tcp1 p e r = absurd (ground arith)
ready_connected disconnecting_tcp2 p e r = absurd (ground arith)

-- disconnect changes the state only.
disconnect_cases :
    (force : Bool) (c : Client)
    → ((disconnect force c).0 ≡ c)
      ⊎ (((disconnect force c).0 ≡ set_state disconnecting_tcp1 c)
          ⊎ (((disconnect force c).0 ≡ set_state disconnecting_mqtt1 c)
              × (is_state connected c ≡ true)))
unfolding disconnect
disconnect_cases force c = ground arith

disconnect-IsSound : (force : Bool) (c : Client) → IsSound c → IsSound (disconnect force c).0
disconnect-IsSound force c i = elim (disconnect_cases force c) [
  | inl e ↦ subst IsSound (sym e) i
  | inr other ↦ elim other [
    | inl e ↦ subst IsSound (sym e) (record { plain = i.plain; arrays = i.arrays; ready = tt })
    | inr (e, on) ↦ subst IsSound (sym e) (record {
      plain = i.plain;
      arrays = i.arrays;
      ready = ready_connected c.state c.parser on i.ready;
    })
  ]
]

clear_queue-IsSound : (mode : ℕ) (c : Client) → IsSound c → IsSound (clear_queue mode c)
unfolding clear_queue
clear_queue-IsSound mode c i = record {
  plain = clear_queue-HasPlain mode c i.plain;
  arrays = i.arrays;
  ready = i.ready;
}

perform-IsSound :
    (call : Call) (c : Client)
    → IsFairCall call c
    → IsSound c
    → (c' : Client) × (perform call c ≡ some c') × IsSound c'
unfolding clear_queue_request
perform-IsSound (asking r a) c f i =
    let ((c1, id), run, j) = request-IsSound r a c f i in (c1, rw run refl, j)
perform-IsSound (connecting a) c f i =
    let ((c1, started), run, j) = connect-IsSound a c f i in (c1, rw run refl, j)
perform-IsSound (disconnecting force) c f i =
    ((disconnect force c).0, refl, disconnect-IsSound force c i)
perform-IsSound (clearing all) c f i =
    (clear_queue_request all c, refl, clear_queue-IsSound (if all then 2 else 0) c i)
perform-IsSound (looping e) c f i = loop-IsSound e c i f.0 f.1 f.2

Reachable-IsSound : (c : Client) → Reachable c → IsSound c
Reachable-IsSound _ (start args keep_alive timeout) = new_client-IsSound args keep_alive timeout
Reachable-IsSound _ (after call c c' r f run) =
    let (d, same, i) = perform-IsSound call c f (Reachable-IsSound c r) in subst IsSound (cc) i

-- Any run goes on: from a new client, let publish, subscribe, unsubscribe, connect, disconnect, clearQueue
-- and loop() be called in any order. Then the next call of one of them returns, with no access outside
-- a buffer, and leaves a client whose outgoing packets are all filled, whose parser's arrays have their
-- sizes, and whose parser can go on in the states in which the client reads. Strings are of at most 65535
-- bytes, QoS values at most 2, packets of the size of the format, and payloads in memory, not
-- from a callback; the options make a CONNECT packet; the transport accepts no more than it is offered,
-- answers at least as many turns of each loop() as the pending packets and a DISCONNECT have bytes, and
-- one more, and has read fewer than 2^32 bytes. The memory and the clocks may answer anything.
pub perform-goes_on :
    (call : Call) (c : Client)
    → Reachable c
    → IsFairCall call c
    → (c' : Client) × (perform call c ≡ some c') × IsSound c'
perform-goes_on call c r f = perform-IsSound call c f (Reachable-IsSound c r)
