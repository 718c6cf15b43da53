-- ===== src/Parser/Total.antt =====
-- Parser::parse of src/Packets/Parser.cpp as a whole: no access outside an array, and an end.
use esp_mqtt_client.Prelude.{
  ℕ, zero, suc, ◌+◌, ◌≤◌, ◌<◌, ◌≡◌, ◌≢◌, List, none, some, length, arith, ltb, ◌⊎◌, inl, inr, refl,
  false, Bool-cases, ap, subst, ◌∙◌,
}
use esp_mqtt_client.Config.{size_mod}
use esp_mqtt_client.Parser.{
  Parser, ParserResult, await_data, packet, protocol_error, reset_parser, new_parser,
}
use esp_mqtt_client.Parser.FixedHeader.{Stepped}
use esp_mqtt_client.Parser.Parse.{increment, parse_loop, parse}
use esp_mqtt_client.Parser.Invariant.{AtState, Arrays, Invariant, Stays}
use esp_mqtt_client.Parser.Moved.{moved-AtState, moved-Invariant, awaiting}
use esp_mqtt_client.Parser.StepSafety.{Returns, step-Safe}

-- What Parsed says of a call, from any place in the input.
record Ends (p : Parser) (r : ParserResult) (q : Parser) : Type 0 where
  inside : q.bytes_read ≤ length p.input_data
  arrays : Arrays q
  ready : (r ≡ protocol_error) ⊎ AtState q.state q
  all_read : r ≡ await_data → q.bytes_read ≡ length p.input_data
  forward : p.bytes_read ≤ q.bytes_read
  progress : p.bytes_read < length p.input_data → p.bytes_read < q.bytes_read

abbrev EndsWith : Parser → Stepped → Type 0
EndsWith p none = ⊥
EndsWith p (some r) = Ends p r.0 r.1

at_end :
    (p : Parser)
    → Invariant p
    → p.bytes_read ≤ length p.input_data
    → length p.input_data ≤ p.bytes_read
    → Ends p await_data p
at_end p i k e = record {
  inside = k;
  arrays = i.arrays;
  ready = inr i.ready;
  all_read = λ _. omega arith;
  forward = omega arith;
  progress = λ h. absurd (omega arith);
}

-- A result that ends the loop.
stop :
    (p q : Parser) (r : ParserResult)
    → Stays p r q
    → length p.input_data < size_mod
    → (r ≢ await_data)
    → Ends p r (increment q)
stop p q r s m not_await = record {
  inside = omega (arith, s.inside);
  arrays = record { raw = s.arrays.raw; topic = s.arrays.topic; buffer = s.arrays.buffer };
  ready = elim s.ready [ inl e ↦ inl e | inr h ↦ inr (moved-AtState q.state q q.input_data _ h) ];
  all_read = λ e. absurd (not_await e);
  forward = omega (arith, s.inside, s.forward);
  progress = λ h. omega (arith, s.inside, s.forward);
}

-- An end seen from further back.
back :
    (p q : Parser) (o : Stepped)
    → q.input_data ≡ p.input_data
    → p.bytes_read < q.bytes_read
    → q.bytes_read ≤ length p.input_data
    → EndsWith q o
    → EndsWith p o
back p q none e k m h = elim h [ ]
back p q (some r) e k m h = record {
  inside = subst (λ d. r.1.bytes_read ≤ length d) e h.inside;
  arrays = h.arrays;
  ready = h.ready;
  all_read = λ w. h.all_read w ∙ ap length e;
  forward = omega (arith, h.forward);
  progress = λ _. omega (arith, h.forward);
}

abbrev Loop : ℕ → Type 0
Loop fuel =
    (p : Parser)
    → Invariant p
    → p.bytes_read ≤ length p.input_data
    → length p.input_data ≤ p.bytes_read + fuel
    → length p.input_data < size_mod
    → EndsWith p (parse_loop fuel p)

-- The loop after one turn.
turned :
    (fuel : ℕ) (p : Parser) (r : ParserResult) (q : Parser)
    → Loop fuel
    → length p.input_data ≤ p.bytes_read + suc fuel
    → length p.input_data < size_mod
    → Stays p r q
    → EndsWith p (elim r as (λ _. Stepped) [
      | await_data ↦ parse_loop fuel (increment q)
      | packet ↦ some (r, increment q)
      | protocol_error ↦ some (r, increment q)
    ])
turned fuel p await_data q again e m s =
    let same = ap length s.same_input in
    back p (increment q) (parse_loop fuel (increment q)) s.same_input
      (omega (arith, s.inside, s.forward)) (omega (arith, s.inside))
      (again (increment q)
        (moved-Invariant q q.input_data _ (record { arrays = s.arrays; ready = awaiting s }))
        (omega (arith, s.inside, same)) (omega (arith, s.inside, s.forward, same))
        (omega (arith, same)))
turned fuel p packet q again e m s = stop p q packet s m (λ e. cc)
turned fuel p protocol_error q again e m s = stop p q protocol_error s m (λ e. cc)

Loop-Ends : (fuel : ℕ) → Loop fuel
unfolding parse_loop
Loop-Ends zero p i k e m =
    let over : ltb p.bytes_read (length p.input_data) ≡ false = ground arith in
    rw over (at_end p i k (omega arith))
Loop-Ends (suc fuel) p i k e m = elim (Bool-cases (ltb p.bytes_read (length p.input_data))) [
  | inr over ↦ rw over (at_end p i k (ground arith))
  | inl more ↦
      let turn = step-Safe p i (ground arith) m in
      rw (more, turn.1) (turned fuel p turn.0.0 turn.0.1 (Loop-Ends fuel) e m turn.2)
]

-- Called on any input of a size_t's length and in any state that satisfies the invariant, the parser
-- returns: it stays inside its arrays and the input, it reads at least one byte of an input that is
-- not empty, it has read all of the input when it asks for more, and unless it reports a protocol
-- error, the invariant holds again.
pub parse-Returns :
    (bytes : List ℕ) (p : Parser)
    → Invariant p
    → length bytes < size_mod
    → Returns bytes (parse bytes p)
unfolding parse
parse-Returns bytes p i m =
    returns (parse_loop (length bytes) start)
      (Loop-Ends (length bytes) start ready (omega arith) (omega arith) m)
  where
    start : Parser
    start = record p { input_data = bytes; bytes_read = 0 }

    ready : Invariant start
    ready = moved-Invariant p bytes 0 i

    returns : (o : Stepped) → EndsWith start o → Returns bytes o
    returns none h = h
    returns (some r) h = record {
      inside = h.inside;
      arrays = h.arrays;
      ready = h.ready;
      all_read = h.all_read;
      progress = h.progress;
    }

-- Parser::reset restores the invariant, also after a protocol error; a new parser satisfies it.
pub reset_parser-Invariant : (p : Parser) → Arrays p → Invariant (reset_parser p)
reset_parser-Invariant p a = record {
  arrays = record { raw = a.raw; topic = a.topic; buffer = a.buffer };
  ready = tt;
}

pub new_parser-Invariant : Invariant new_parser
new_parser-Invariant = record {
  arrays = record { raw = refl; topic = refl; buffer = refl };
  ready = tt;
}

-- What holds behind a result that is no error
pub not_error : {r : ParserResult} {P : Type 0} → (r ≡ protocol_error) ⊎ P → r ≢ protocol_error → P
not_error (inl e) n = absurd (n e)
not_error (inr h) n = h
