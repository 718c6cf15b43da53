-- ===== src/Parser/Turns.antt =====
-- The turns of the loop of Parser::parse (src/Packets/Parser.cpp) one by one.
use esp_mqtt_client.Prelude.{
  ℕ, zero, suc, ◌+◌, ◌<◌, ◌≡◌, ◌≢◌, List, [], ◌∷◌, ◌++◌, none, some, length, arith, refl, sym, ◌∙◌,
  ap, get_elem?, subst,
}
use esp_mqtt_client.Config.{size_mod}
use esp_mqtt_client.Parser.{Parser, ParserResult, ParserFunc, await_data, packet, payload_publish}
use esp_mqtt_client.Parser.FixedHeader.{Stepped}
use esp_mqtt_client.Parser.Step.{step_payload_publish}
use esp_mqtt_client.Parser.Parse.{call, step, increment}
use esp_mqtt_client.Parser.Invariant.{Invariant, Stays, Safe}
use esp_mqtt_client.Parser.StepSafety.{call-Safe, get_elem?_inside}
use esp_mqtt_client.Parser.Placed.{placed}

-- A turn of the loop inside the input
pub record Turn (q : Parser) : Type 0 where
  pub b : ℕ
  pub r : ParserResult × Parser
  pub at : get_elem? q.input_data q.bytes_read ≡ some b
  pub run : call q.state b q ≡ some r
  pub stays : Stays q r.0 r.1

pub turn :
    (q : Parser)
    → Invariant q
    → q.bytes_read < length q.input_data
    → length q.input_data < size_mod
    → Turn q
turn q i k m =
    let here = get_elem?_inside q.input_data q.bytes_read k in
    from (here.0) here.1 (call q.state here.0 q) refl
      (call-Safe q.state here.0 q refl i.arrays i.ready k m)
  where
    from :
        (b : ℕ)
        → get_elem? q.input_data q.bytes_read ≡ some b
        → (o : Stepped) → call q.state b q ≡ o
        → Safe q o
        → Turn q
    from b e none run s = elim s [ ]
    from b e (some r) run s = record { b = b; r = r; at = e; run = run; stays = s }

pub step_called :
    (q : Parser) (b : ℕ) (r : ParserResult × Parser)
    → get_elem? q.input_data q.bytes_read ≡ some b
    → call q.state b q ≡ some r
    → step q ≡ some (r.0, increment r.1)
unfolding step
step_called q b r at run = rw (step, at, run) refl

pub step_turn : (q : Parser) (t : Turn q) → step q ≡ some (t.r.0, increment t.r.1)
step_turn q t = step_called q t.b t.r t.at t.run

pub both_same :
    {r s : ParserResult} {p q : Parser}
    → r ≡ s
    → p ≡ q
    → ◌≡◌ {A = Stepped} (some (r, p)) (some (s, q))
both_same e f = cc

pub get_elem?-left :
    (xs ys : List ℕ) (i b : ℕ) → get_elem? xs i ≡ some b → get_elem? (xs ++ ys) i ≡ some b
get_elem?-left [] ys i b e = absurd cc
get_elem?-left (x ∷ xs) ys zero b e = e
get_elem?-left (x ∷ xs) ys (suc i) b e = get_elem?-left xs ys i b e

pub get_elem?-right :
    (xs ys : List ℕ) (i : ℕ) → get_elem? (xs ++ ys) (length xs + i) ≡ get_elem? ys i
get_elem?-right [] ys i =
    let none_left : length {A = ℕ} [] + i ≡ i = omega arith in ap (get_elem? ys) none_left
get_elem?-right (x ∷ xs) ys i =
    let shifts : length (x ∷ xs) + i ≡ suc (length xs + i) = omega arith in
    ap (get_elem? (x ∷ (xs ++ ys))) shifts ∙ get_elem?-right xs ys i

pub publish-packet :
    (b : ℕ) (q : Parser) (r : ParserResult × Parser)
    → call payload_publish b q ≡ some r
    → r.0 ≡ packet
unfolding call step_payload_publish
publish-packet b q r e = ground arith

pub payload_call :
    (b : ℕ) (q : Parser) (r : ParserResult × Parser)
    → call payload_publish b q ≡ some r
    → step_payload_publish q ≡ r
unfolding call
payload_call b q r e = cc

-- A function that asks for more is not that of the payload.
pub not_publish :
    (f : ParserFunc) (b : ℕ) (q : Parser) (r : ParserResult × Parser)
    → call f b q ≡ some r
    → r.0 ≡ await_data
    → f ≢ payload_publish
not_publish f b q r e w h =
    let both : await_data ≡ packet =
      sym w ∙ publish-packet b q r (subst (λ g. call g b q ≡ some r) h e) in
    cc

-- The parser on the whole input `xs ++ ys`, where it has read `m` bytes
abbrev pub whole : List ℕ → List ℕ → ℕ → Parser → Parser
whole xs ys m q = placed (xs ++ ys) m (length xs) q
