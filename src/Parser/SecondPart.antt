-- ===== src/Parser/SecondPart.antt =====
-- The loop of Parser::parse (src/Packets/Parser.cpp) on the second part of an input.
use esp_mqtt_client.Prelude.{
  ℕ, zero, suc, ◌+◌, ◌-◌, ◌≤◌, ◌<◌, ◌≡◌, ◌≢◌, List, ◌++◌, none, some, length, arith, ltb, inl, inr,
  ◌==◌, refl, sym, ◌∙◌, ap, Bool-cases, true, ◌⊎◌, get_elem?, subst, length-append, lt→ltb, min,
  ltb→lt, if◌then◌else◌,
}
use esp_mqtt_client.Config.{size_mod}
use esp_mqtt_client.Packet.{add_size, sub_size}
use esp_mqtt_client.Parser.{
  Parser, ParserResult, ParserFunc, input, await_data, packet, protocol_error, fixed_header,
  remaining_length_fixed, remaining_length_none, remaining_length_variable, var_header_connack1,
  var_header_connack2, var_header_packet_id1, var_header_packet_id2, var_header_topic_length1,
  var_header_topic_length2, var_header_topic, payload_suback, payload_publish,
}
use esp_mqtt_client.Parser.FixedHeader.{Stepped, goto}
use esp_mqtt_client.Parser.Step.{step_payload_publish}
use esp_mqtt_client.Parser.Parse.{call, step, increment, parse_loop}
use esp_mqtt_client.Parser.Invariant.{Invariant, Stays}
use esp_mqtt_client.Parser.Moved.{moved-Invariant, awaiting}
use esp_mqtt_client.Parser.Placed.{placed, placed_result, call-placed, call-bytes_read}
use esp_mqtt_client.Parser.Turns.{
  Turn, turn, step_called, step_turn, both_same, get_elem?-right, payload_call, whole,
}

-- What a call on the second part returns, seen as a call on both: the parser stands `length xs` bytes
-- further in the input, and so does its pointer into it.
abbrev pub behind : List ℕ → List ℕ → Stepped → Stepped
behind xs ys none = none
behind xs ys (some r) = some (r.0, placed (xs ++ ys) (length xs + r.1.bytes_read) (length xs) r.1)

-- The parser on the whole, where it has read the first part and what `q` has read of the second
abbrev pub shifted : List ℕ → List ℕ → Parser → Parser
shifted xs ys q = whole xs ys (length xs + q.bytes_read) q

is_publish : (f : ParserFunc) → (f ≡ payload_publish) ⊎ (f ≢ payload_publish)
is_publish fixed_header = inr (λ e. cc)
is_publish remaining_length_fixed = inr (λ e. cc)
is_publish remaining_length_none = inr (λ e. cc)
is_publish remaining_length_variable = inr (λ e. cc)
is_publish var_header_connack1 = inr (λ e. cc)
is_publish var_header_connack2 = inr (λ e. cc)
is_publish var_header_packet_id1 = inr (λ e. cc)
is_publish var_header_packet_id2 = inr (λ e. cc)
is_publish var_header_topic_length1 = inr (λ e. cc)
is_publish var_header_topic_length2 = inr (λ e. cc)
is_publish var_header_topic = inr (λ e. cc)
is_publish payload_suback = inr (λ e. cc)
is_publish payload_publish = inl refl

-- The payload that has been handed over
abbrev index_of : Parser → ℕ
index_of p = add_size p.incoming.payload_index p.incoming.payload_length

-- The size of the next portion, where so much input is left
abbrev portion : Parser → ℕ → ℕ
portion p left = min left (sub_size p.incoming.payload_total (index_of p))

-- _payloadPublish with a portion of this size
abbrev hand_over : Parser → ℕ → ParserResult × Parser
hand_over p available =
    let q = record p {
      bytes_read = sub_size (add_size p.bytes_read available) 1;
      incoming = record p.incoming {
        payload_index = index_of p;
        payload_data = input p.bytes_read;
        payload_length = available;
      };
    } in
    if add_size (index_of p) available == p.incoming.payload_total
    then (packet, goto q fixed_header)
    else (packet, q)

module _ (xs ys : List ℕ) (small : length (xs ++ ys) < size_mod) where
  left_of :
      (r : ℕ)
      → r < length ys
      → sub_size (length (xs ++ ys)) (length xs + r) ≡ sub_size (length ys) r
  left_of r k = let sum = length-append xs ys in omega (arith, sum, small, k)

  read_on :
      (r a : ℕ)
      → r < length ys
      → a ≤ length ys - r
      → add_size (sub_size (add_size (length xs + r) a) 1) 1
        ≡ length xs + add_size (sub_size (add_size r a) 1) 1
  read_on r a k l = let sum = length-append xs ys in omega (arith, sum, small, k, l)

  hand_over-shifted :
      (q : Parser) (a : ℕ)
      → q.bytes_read < length ys
      → a ≤ length ys - q.bytes_read
      → ((hand_over (shifted xs ys q) a).0 ≡ (hand_over q a).0)
        × (increment (hand_over (shifted xs ys q) a).1
            ≡ shifted xs ys (increment (hand_over q a).1))
  hand_over-shifted q a k l =
      elim (Bool-cases (add_size (index_of q) a == q.incoming.payload_total)) [
        | inl y ↦ rw (y, read_on q.bytes_read a k l) (refl, refl)
        | inr n ↦ rw (n, read_on q.bytes_read a k l) (refl, refl)
      ]

  payload_shifted :
      (q : Parser)
      → q.input_data ≡ ys
      → q.bytes_read < length ys
      → ((step_payload_publish (shifted xs ys q)).0 ≡ (step_payload_publish q).0)
        × (increment (step_payload_publish (shifted xs ys q)).1
            ≡ shifted xs ys (increment (step_payload_publish q).1))
  unfolding step_payload_publish
  payload_shifted q e k =
      let rest : sub_size (length q.input_data) q.bytes_read ≡ sub_size (length ys) q.bytes_read =
        ap (λ d. sub_size (length d) q.bytes_read) e in
      let fits : portion q (sub_size (length ys) q.bytes_read) ≤ length ys - q.bytes_read =
        let sum = length-append xs ys in omega (arith, sum, small, k) in
      rw (left_of q.bytes_read k, rest)
        (hand_over-shifted q (portion q (sub_size (length ys) q.bytes_read)) k fits)

  -- A turn in the second part is a turn on the whole.
  second_turn :
      (q : Parser) (t : Turn q)
      → q.input_data ≡ ys
      → q.bytes_read < length ys
      → step (shifted xs ys q) ≡ some (t.r.0, shifted xs ys (increment t.r.1))
  unfolding step
  second_turn q t e k =
      let at =
        get_elem?-right xs ys q.bytes_read
        ∙ subst (λ d. get_elem? d q.bytes_read ≡ some t.b) e t.at in
      elim (is_publish q.state) [
        | inr other ↦
            let run =
              call-placed q.state (xs ++ ys) (length xs + q.bytes_read) (length xs) t.b q other
              ∙ ap (placed_result (xs ++ ys) (length xs + q.bytes_read) (length xs)) t.run in
            let same = call-bytes_read q.state t.b q t.r other t.run in
            let counts : add_size (length xs + q.bytes_read) 1
                ≡ length xs + add_size q.bytes_read 1 =
              let sum = length-append xs ys in omega (arith, sum, small, k) in
            rw (step, at, run, same, counts) refl
        | inl f ↦
            let run : step_payload_publish q ≡ t.r =
              payload_call t.b q t.r (subst (λ g. call g t.b q ≡ some t.r) f t.run) in
            let (first, second) = payload_shifted q e k in
            let there : call q.state t.b (shifted xs ys q)
                ≡ some (step_payload_publish (shifted xs ys q)) =
              ap (λ g. call g t.b (shifted xs ys q)) f in
            step_called (shifted xs ys q) t.b (step_payload_publish (shifted xs ys q)) at there
            ∙ both_same first second
            ∙ ap (λ (r : ParserResult × Parser). some (r.0, shifted xs ys (increment r.1))) run
      ]

  inside_second : (r : ℕ) → ltb (length xs + r) (length (xs ++ ys)) ≡ ltb r (length ys)
  inside_second r = let sum = length-append xs ys in ground arith

  abbrev SecondPart : ℕ → Type 0
  SecondPart fuel =
      (q : Parser)
      → Invariant q
      → q.input_data ≡ ys
      → parse_loop fuel (shifted xs ys q) ≡ behind xs ys (parse_loop fuel q)

  second_turned :
      (fuel : ℕ) (q : Parser) (t : Turn q) (r : ParserResult)
      → t.r.0 ≡ r
      → SecondPart fuel
      → q.input_data ≡ ys
      → q.bytes_read < length ys
      → ltb q.bytes_read (length q.input_data) ≡ true
      → parse_loop (suc fuel) (shifted xs ys q) ≡ behind xs ys (parse_loop (suc fuel) q)
  unfolding parse_loop
  second_turned fuel q t packet w again e k here =
      rw
        (
          parse_loop,
          here,
          inside_second q.bytes_read ∙ lt→ltb _ _ k,
          step_turn q t,
          second_turn q t e k,
          w,
        )
        refl
  second_turned fuel q t protocol_error w again e k here =
      rw
        (
          parse_loop,
          here,
          inside_second q.bytes_read ∙ lt→ltb _ _ k,
          step_turn q t,
          second_turn q t e k,
          w,
        )
        refl
  second_turned fuel q t await_data w again e k here =
      let goes : parse_loop (suc fuel) q ≡ parse_loop fuel (increment t.r.1) =
        rw (parse_loop, here, step_turn q t, w) refl in
      let inside : ltb (length xs + q.bytes_read) (length (xs ++ ys)) ≡ true =
        inside_second q.bytes_read ∙ lt→ltb _ _ k in
      let ready = awaiting {p = q} {q = t.r.1} (subst (λ r. Stays q r t.r.1) w t.stays) in
      let later =
        again (increment t.r.1)
          (moved-Invariant t.r.1 t.r.1.input_data (add_size t.r.1.bytes_read 1)
            (record { arrays = t.stays.arrays; ready = ready }))
          (t.stays.same_input ∙ e) in
      let goes_there : parse_loop (suc fuel) (shifted xs ys q)
          ≡ parse_loop fuel (shifted xs ys (increment t.r.1)) =
        rw (parse_loop, inside, second_turn q t e k, w) refl in
      goes_there ∙ later ∙ ap (behind xs ys) (sym goes)

  pub second_part : (fuel : ℕ) → SecondPart fuel
  unfolding parse_loop
  second_part zero q i e = elim (Bool-cases (ltb q.bytes_read (length ys))) [
    | inl y ↦ rw (parse_loop, inside_second q.bytes_read, e, y) refl
    | inr n ↦ rw (parse_loop, inside_second q.bytes_read, e, n) refl
  ]
  second_part (suc fuel) q i e = elim (Bool-cases (ltb q.bytes_read (length ys))) [
    | inr n ↦ rw (parse_loop, inside_second q.bytes_read, e, n) refl
    | inl y ↦
        let k : q.bytes_read < length q.input_data = rw e (ltb→lt _ _ y) in
        let small_second : length ys < size_mod =
          let sum = length-append xs ys in omega (arith, small, sum) in
        let t = turn q i k (rw e small_second) in
        second_turned fuel q t t.r.0 refl (second_part fuel) e (ltb→lt _ _ y) (lt→ltb _ _ k)
  ]
