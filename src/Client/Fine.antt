-- ===== src/Client/Fine.antt =====
-- MqttClient::loop of src/MqttClient.cpp reads: _checkIncoming keeps the outbox and the parser in order.
use esp_mqtt_client.Prelude.{
  ℕ, zero, suc, ◌<◌, ◌≡◌, ◌≢◌, refl, sym, List, [], ◌∷◌, Option, none, some, Bool, true, false,
  length, arith, subst, inl, inr, ◌⊎◌, drop, length-drop,
}
use esp_mqtt_client.Config.{size_mod}
use esp_mqtt_client.Parser.{protocol_error}
use esp_mqtt_client.Parser.Parse.{parse}
use esp_mqtt_client.Parser.Invariant.{Invariant, Arrays}
use esp_mqtt_client.Parser.Total.{parse-Returns, not_error}
use esp_mqtt_client.Client.{Client, disconnecting_tcp1}
use esp_mqtt_client.Client.Queueing.{Alloc}
use esp_mqtt_client.Client.Incoming.{check_incoming, incoming_loop, handle_packet}
use esp_mqtt_client.Client.Looping.{Handled, after_parsing}
use esp_mqtt_client.Client.Handling.{handle_packet-Handles, HandlesOn}
use esp_mqtt_client.Client.Receiving.{Parsed-by, check_incoming-returns}
use esp_mqtt_client.Client.Plain.{HasPlain, LeavesPlain}
use esp_mqtt_client.Client.Reading.{handle_packet-Plain}

-- What reading leaves: the parser may be broken only if the connection is to be closed.
pub record IsFine (c : Client) : Type 0 where
  pub plain : HasPlain c.outbox
  pub arrays : Arrays c.parser
  pub ready : Invariant c.parser ⊎ (c.state ≡ disconnecting_tcp1)

abbrev pub FineAfter : Option Client → Type 0
FineAfter none = Unit {0}
FineAfter (some c) = IsFine c

pub fine : (c : Client) → HasPlain c.outbox → Invariant c.parser → IsFine c
fine c h i = record { plain = h; arrays = i.arrays; ready = inl i }

-- The clients that the loop goes on with
abbrev IsReady : Client → Type 0
IsReady c = HasPlain c.outbox × Invariant c.parser

handled :
    (c : Client) (o : Option (Client × Bool))
    → Invariant c.parser
    → HandlesOn c o
    → LeavesPlain o
    → Handled IsReady FineAfter o
handled c none i same h = tt
handled c (some (c', false)) i same h = fine c' h (subst Invariant (sym same) i)
handled c (some (c', true)) i same h = (h, subst Invariant (sym same) i)

incoming_loop-IsFine :
    (fuel : ℕ) (allocs : ℕ → Alloc) (bytes : List ℕ) (c : Client)
    → length bytes < size_mod
    → HasPlain c.outbox
    → Invariant c.parser
    → FineAfter (incoming_loop fuel allocs bytes c)
unfolding incoming_loop
incoming_loop-IsFine zero allocs [] c m h i = fine c h i
incoming_loop-IsFine (suc fuel) allocs [] c m h i = fine c h i
incoming_loop-IsFine zero allocs (b ∷ bytes) c m h i = tt
incoming_loop-IsFine (suc fuel) allocs (b ∷ bytes) c m h i =
    let (r, q, run, p) =
      Parsed-by (b ∷ bytes) (parse (b ∷ bytes) c.parser) (parse-Returns (b ∷ bytes) c.parser i m) in
    let rest = drop q.bytes_read (b ∷ bytes) in
    let turned = record c { parser = q } in
    let ready : r ≢ protocol_error → Invariant q =
      λ n. record { arrays = p.arrays; ready = not_error p.ready n } in
    rw (incoming_loop, run)
      (after_parsing IsReady FineAfter fuel allocs rest
        (λ d k.
          incoming_loop-IsFine fuel allocs rest d
            (omega (arith, length-drop q.bytes_read (b ∷ bytes))) k.0 k.1)
        turned r (λ e. (h, ready (λ n. cc)))
        (λ e.
          handled turned (handle_packet (allocs (length rest)) turned) (ready (λ n. cc))
            (handle_packet-Handles (allocs (length rest)) turned)
            (handle_packet-Plain (allocs (length rest)) turned h))
        (record { plain = h; arrays = p.arrays; ready = inr refl }))

pub check_incoming-IsFine :
    (now : ℕ) (allocs : ℕ → Alloc) (bytes : List ℕ) (c : Client)
    → length bytes < size_mod
    → HasPlain c.outbox
    → Invariant c.parser
    → (c' : Client) × (check_incoming now allocs bytes c ≡ some c') × IsFine c'
unfolding check_incoming
check_incoming-IsFine now allocs [] c m h i = (c, refl, fine c h i)
check_incoming-IsFine now allocs (b ∷ bytes) c m h i =
    let (c', run) = check_incoming-returns now allocs (b ∷ bytes) c i m in
    (
      c',
      run,
      subst FineAfter run (
          incoming_loop-IsFine (length (b ∷ bytes)) allocs (b ∷ bytes)
            (record c { last_server_activity = now }) m h i),
    )
