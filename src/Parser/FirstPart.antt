-- ===== src/Parser/FirstPart.antt =====
-- The loop of Parser::parse (src/Packets/Parser.cpp) on the first part of an input.
use esp_mqtt_client.Prelude.{
  ℕ, zero, suc, ◌+◌, ◌<◌, ◌≡◌, List, ◌++◌, some, length, arith, ltb, refl, sym, ◌∙◌, ap, true,
  false, get_elem?, subst, length-append, lt→ltb,
}
use esp_mqtt_client.Config.{size_mod}
use esp_mqtt_client.Packet.{add_size}
use esp_mqtt_client.Parser.{Parser, ParserResult, await_data, packet, protocol_error}
use esp_mqtt_client.Parser.Parse.{step, increment, parse_loop}
use esp_mqtt_client.Parser.Invariant.{Invariant, Stays}
use esp_mqtt_client.Parser.Moved.{moved-Invariant, awaiting}
use esp_mqtt_client.Parser.Placed.{placed_result, call-placed}
use esp_mqtt_client.Parser.Turns.{Turn, turn, step_turn, get_elem?-left, not_publish, whole}

module _ (xs ys : List ℕ) (small : length (xs ++ ys) < size_mod) where
  -- A turn in the first part is a turn on the whole.
  first_turn :
      (q : Parser) (t : Turn q)
      → q.input_data ≡ xs
      → q.bytes_read < length xs
      → t.r.0 ≡ await_data
      → step (whole xs ys q.bytes_read q)
        ≡ some (await_data, whole xs ys (increment t.r.1).bytes_read (increment t.r.1))
  unfolding step
  first_turn q t e k w =
      let at =
        get_elem?-left xs ys q.bytes_read t.b
          (subst (λ d. get_elem? d q.bytes_read ≡ some t.b) e t.at) in
      let run =
        call-placed q.state (xs ++ ys) q.bytes_read (length xs) t.b q
          (not_publish q.state t.b q t.r t.run w)
        ∙ ap (placed_result (xs ++ ys) q.bytes_read (length xs)) t.run in
      let same : t.r.1.bytes_read ≡ q.bytes_read = t.stays.awaits w in
      rw (step, at, run, w, same) refl

  pub small_first : length xs < size_mod
  small_first = let sum = length-append xs ys in omega (arith, small)

  inside_whole : (n : ℕ) → n < length xs → ltb n (length (xs ++ ys)) ≡ true
  inside_whole n k = let sum = length-append xs ys in lt→ltb n _ (omega (arith, sum))

  abbrev FirstPart : ℕ → ℕ → Parser → Type 0
  FirstPart fuel k q1 =
      (q : Parser)
      → Invariant q
      → q.input_data ≡ xs
      → q.bytes_read + fuel ≡ length xs
      → parse_loop fuel q ≡ some (await_data, q1)
      → parse_loop (fuel + k) (whole xs ys q.bytes_read q)
        ≡ parse_loop k (whole xs ys (length xs) q1)

  first_turned :
      (fuel k : ℕ) (q q1 : Parser) (t : Turn q) (r : ParserResult)
      → t.r.0 ≡ r
      → FirstPart fuel k q1
      → q.input_data ≡ xs
      → q.bytes_read + suc fuel ≡ length xs
      → parse_loop (suc fuel) q ≡ some (await_data, q1)
      → ltb q.bytes_read (length q.input_data) ≡ true
      → parse_loop (suc fuel + k) (whole xs ys q.bytes_read q)
        ≡ parse_loop k (whole xs ys (length xs) q1)
  unfolding parse_loop
  first_turned fuel k q q1 t packet w again e n run here =
      let ends : parse_loop (suc fuel) q ≡ some (packet, increment t.r.1) =
        rw (parse_loop, here, step_turn q t, w) (ap (λ x. some (x, increment t.r.1)) w) in
      let both = sym ends ∙ run in absurd cc
  first_turned fuel k q q1 t protocol_error w again e n run here =
      let ends : parse_loop (suc fuel) q ≡ some (protocol_error, increment t.r.1) =
        rw (parse_loop, here, step_turn q t, w) (ap (λ x. some (x, increment t.r.1)) w) in
      let both = sym ends ∙ run in absurd cc
  first_turned fuel k q q1 t await_data w again e n run here =
      let goes : parse_loop (suc fuel) q ≡ parse_loop fuel (increment t.r.1) =
        rw (parse_loop, here, step_turn q t, w) refl in
      let inside : q.bytes_read < length xs = omega (arith, n) in
      let read : (increment t.r.1).bytes_read ≡ suc q.bytes_read =
        let at = t.stays.awaits w in omega (arith, at, small_first, inside) in
      let ready = awaiting {p = q} {q = t.r.1} (subst (λ r. Stays q r t.r.1) w t.stays) in
      let later =
        again (increment t.r.1)
          (moved-Invariant t.r.1 t.r.1.input_data (add_size t.r.1.bytes_read 1)
            (record { arrays = t.stays.arrays; ready = ready }))
          (t.stays.same_input ∙ e) (omega (arith, read, n)) (sym goes ∙ run) in
      let more : suc fuel + k ≡ suc (fuel + k) = omega arith in
      rw (more, parse_loop, inside_whole q.bytes_read inside, first_turn q t e inside w) later

  -- The loop on the first part is the loop on the whole, up to the end of the part.
  pub first_part : (fuel k : ℕ) (q1 : Parser) → FirstPart fuel k q1
  unfolding parse_loop
  first_part zero k q1 q i e n run =
      let over : ltb q.bytes_read (length q.input_data) ≡ false = rw e (ground arith) in
      let ends : parse_loop zero q ≡ some (await_data, q) = rw (parse_loop, over) refl in
      let same : q ≡ q1 = let both = sym ends ∙ run in cc in
      let at : q.bytes_read ≡ length xs = omega (arith, n) in
      let none_more : 0 + k ≡ k = omega arith in rw (none_more, at, same) refl
  first_part (suc fuel) k q1 q i e n run =
      let here : q.bytes_read < length q.input_data = rw e (omega (arith, n)) in
      let t = turn q i here (rw e small_first) in
      first_turned fuel k q q1 t t.r.0 refl (first_part fuel k q1) e n run (lt→ltb _ _ here)
