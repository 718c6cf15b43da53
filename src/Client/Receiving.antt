-- ===== src/Client/Receiving.antt =====
-- _checkIncoming of src/MqttClient.cpp as a whole: it ends, without a fault.
use esp_mqtt_client.Prelude.{
  length-drop, ℕ, zero, suc, ◌≤◌, ◌<◌, ◌≡◌, ◌≢◌, refl, sym, List, [], ◌∷◌, Option, none, some, Bool,
  true, false, length, arith, subst, drop,
}
use esp_mqtt_client.Config.{size_mod}
use esp_mqtt_client.Parser.{Parser, protocol_error, ParserResult}
use esp_mqtt_client.Parser.FixedHeader.{Stepped}
use esp_mqtt_client.Parser.Parse.{parse}
use esp_mqtt_client.Parser.Invariant.{Invariant}
use esp_mqtt_client.Parser.StepSafety.{Returns, Parsed}
use esp_mqtt_client.Parser.Total.{parse-Returns, not_error}
use esp_mqtt_client.Client.{Client}
use esp_mqtt_client.Client.Queueing.{Alloc}
use esp_mqtt_client.Client.Incoming.{handle_packet, incoming_loop, check_incoming}
use esp_mqtt_client.Client.Looping.{Handled, after_parsing}
use esp_mqtt_client.Client.Handling.{HandlesOn, handle_packet-Handles}

abbrev Ends : Option Client → Type 0
Ends none = ⊥
Ends (some c) = Unit {0}

-- The clients that the loop goes on with
abbrev Ready : Client → Type 0
Ready c = Invariant c.parser

handled : (c : Client) (o : Option (Client × Bool)) → Ready c → HandlesOn c o → Handled Ready Ends o
handled c none i h = h
handled c (some (c', false)) i h = tt
handled c (some (c', true)) i h = subst Invariant (sym h) i

pub Parsed-by :
    (bytes : List ℕ) (o : Stepped)
    → Returns bytes o
    → (r : ParserResult) × (q : Parser) × (o ≡ some (r, q)) × Parsed bytes r q
Parsed-by bytes none h = elim h [ ]
Parsed-by bytes (some r) h = (r.0, r.1, refl, h)

incoming_loop-Ends :
    (fuel : ℕ) (allocs : ℕ → Alloc) (bytes : List ℕ) (c : Client)
    → Invariant c.parser
    → length bytes ≤ fuel
    → length bytes < size_mod
    → Ends (incoming_loop fuel allocs bytes c)
unfolding incoming_loop
incoming_loop-Ends zero allocs [] c i h m = tt
incoming_loop-Ends (suc fuel) allocs [] c i h m = tt
incoming_loop-Ends zero allocs (b ∷ bytes) c i h m = absurd (omega arith)
incoming_loop-Ends (suc fuel) allocs (b ∷ bytes) c i h m =
    let (r, q, run, p) =
      Parsed-by (b ∷ bytes) (parse (b ∷ bytes) c.parser) (parse-Returns (b ∷ bytes) c.parser i m) in
    let rest = drop q.bytes_read (b ∷ bytes) in
    let shorter : length rest ≤ fuel =
      omega (arith, length-drop q.bytes_read (b ∷ bytes), p.progress (omega arith)) in
    let turned = record c { parser = q } in
    let ready : r ≢ protocol_error → Ready turned =
      λ n. record { arrays = p.arrays; ready = not_error p.ready n } in
    rw (incoming_loop, run)
      (after_parsing Ready Ends fuel allocs rest
        (λ d j.
          incoming_loop-Ends fuel allocs rest d j shorter
            (omega (arith, shorter, length-drop q.bytes_read (b ∷ bytes))))
        turned r (λ e. ready (λ n. cc))
        (λ e.
          handled turned (handle_packet (allocs (length rest)) turned) (ready (λ n. cc))
            (handle_packet-Handles (allocs (length rest)) turned))
        tt)

ended : (o : Option Client) → Ends o → (c : Client) × (o ≡ some c)
ended none h = elim h [ ]
ended (some c) h = (c, refl)

-- Whatever bytes the transport has read, and whether or not there is memory for the answers,
-- _checkIncoming returns: with the parser's invariant, its loop ends after at most as many turns as
-- there are bytes, and nothing outside the parser's arrays or a packet's buffer is touched.
pub check_incoming-returns :
    (now : ℕ) (allocs : ℕ → Alloc) (bytes : List ℕ) (c : Client)
    → Invariant c.parser
    → length bytes < size_mod
    → (c' : Client) × (check_incoming now allocs bytes c ≡ some c')
unfolding check_incoming
check_incoming-returns now allocs [] c i m = (c, refl)
check_incoming-returns now allocs (b ∷ bytes) c i m = ended _ (
    incoming_loop-Ends (length (b ∷ bytes)) allocs (b ∷ bytes)
      (record c { last_server_activity = now }) i (omega arith) m)
