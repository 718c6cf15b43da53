-- ===== src/Client/Streaming.antt =====
-- _checkOutbox of src/MqttClient.cpp on a PUBLISH packet whose payload a callback supplies.
use esp_mqtt_client.Prelude.{
  ℕ, ◌+◌, ◌-◌, ◌^◌, ◌≤◌, ◌<◌, ◌≡◌, refl, sym, ap, ◌∙◌, List, [], ◌∷◌, ◌++◌, some, true, false,
  length, length-append, arith, ltb, min, take, drop, Bool-cases, inl, inr, All, length-take,
  length-drop, take-take, take-append-drop, drop-add, append-nil, take_all, ltb→lt,
}
use esp_mqtt_client.Packet.{Packet, PayloadCallback}
use esp_mqtt_client.Packet.Chunked.{available, data_from}
use esp_mqtt_client.Packet.Chunked.Portions.{Supplies, HasPortion, Serves, at_hand, data-served}
use esp_mqtt_client.Packet.Chunked.Streams.{Fetchable, available-Serves}
use esp_mqtt_client.Client.{Client, OutgoingPacket}
use esp_mqtt_client.Client.Sending.{
  Answer, send_packet, advance_outbox, check_outbox, has_current, is_positive,
}
use esp_mqtt_client.Client.Advancing.{advance-done, advance-more}
use esp_mqtt_client.Client.Pending.{IsHonest, IsOpen, has_current-pending, positive}
use esp_mqtt_client.Client.Wire.{offer, wire}
use esp_mqtt_client.Client.Serving.{after_portion, send_packet-served, offer-served}

-- A turn after which nothing is pending.
last_turn :
    (w : Answer) (ws : List Answer) (c c1 : Client) (n : ℕ)
    → send_packet w c ≡ some (c1, n)
    → is_positive n ≡ true
    → (advance_outbox c1).outbox.pending ≡ []
    → (check_outbox (w ∷ ws) c ≡ some (advance_outbox c1)) × (wire (w ∷ ws) c ≡ take n (offer c))
unfolding check_outbox wire
last_turn w ws c c1 n s y e =
    let idle : has_current (advance_outbox c1) ≡ false = ground arith in
    (rw (check_outbox, s, y, idle) refl, rw (wire, s, y, idle) (append-nil (take n (offer c))))

-- A turn that is not the last one.
next_turn :
    (w : Answer) (ws : List Answer) (c c1 : Client) (n : ℕ) (o : OutgoingPacket)
    (os : List OutgoingPacket)
    → send_packet w c ≡ some (c1, n)
    → is_positive n ≡ true
    → (advance_outbox c1).outbox.pending ≡ o ∷ os
    → (check_outbox (w ∷ ws) c ≡ check_outbox ws (advance_outbox c1))
      × (wire (w ∷ ws) c ≡ take n (offer c) ++ wire ws (advance_outbox c1))
unfolding check_outbox wire
next_turn w ws c c1 n o os s y e =
    let busy = has_current-pending (advance_outbox c1) o os e in
    (rw (check_outbox, s, y, busy) refl, rw (wire, s, y, busy) refl)

module _ (packet_id : ℕ) (head payload : List ℕ) (callback : PayloadCallback)
    (small : length head + length payload < 2 ^ 31) (supplies : Supplies head payload callback)
    (pos : 0 < length head) where
  -- The packet with a portion in its buffer
  abbrev packet_with : List ℕ → ℕ → ℕ → Packet
  packet_with rest first last = at_hand packet_id head payload callback rest first last

  -- The bytes of the packet
  abbrev whole : List ℕ
  whole = head ++ payload

  -- A turn that sends `k` bytes, and the packet that it leaves
  record Turned (w : Answer) (c : Client) (rest : List ℕ) : Type 0 where
    new : List ℕ
    first : ℕ
    last : ℕ
    k : ℕ
    some_sent : 0 < k
    within : c.bytes_sent + k ≤ length whole
    room : length new ≡ length rest
    portion : HasPortion head payload new first last
    run : send_packet w c ≡ some (after_portion w c (packet_with new first last) k, k)
    same : take k (offer c) ≡ take k (drop c.bytes_sent whole)

  turned :
      (w : Answer) (c : Client) (t : ℕ) (rest : List ℕ) (first last : ℕ)
      → c.outbox.pending ≡ record { time_sent = t; packet = packet_with rest first last } ∷ []
      → IsHonest w
      → IsOpen w
      → min 1440 (length payload) ≤ length rest
      → Fetchable packet_id head payload callback small rest first last c.bytes_sent
      → c.bytes_sent < length head + length payload
      → Turned w c rest
  turned w c t rest first last e honest open_ room ready inside =
      let (new, start, end_, a, long, serves) =
        available-Serves packet_id head payload callback small supplies pos rest first last
          c.bytes_sent room ready inside in
      let (bytes, d, same) =
        data-served packet_id head payload callback small new start end_ c.bytes_sent serves in
      from new start end_ bytes a long serves d same
    where
      from :
          (new : List ℕ) (start end_ : ℕ) (bytes : List ℕ)
          → available (packet_with rest first last) c.bytes_sent
            ≡ some (end_ + 1 - c.bytes_sent, packet_with new start end_)
          → length new ≡ length rest
          → Serves head payload new start end_ c.bytes_sent
          → data_from (packet_with new start end_) c.bytes_sent ≡ some bytes
          → take (end_ + 1 - c.bytes_sent) bytes
            ≡ take (end_ + 1 - c.bytes_sent) (drop c.bytes_sent (head ++ payload))
          → Turned w c rest
      from new start end_ bytes a long (portion, before, place) d same =
          let n = end_ + 1 - c.bytes_sent in
          let o : OutgoingPacket = record { time_sent = t; packet = packet_with rest first last } in
          let within = portion.inside in
          let total = length-append head payload in
          let left = length-drop c.bytes_sent (head ++ payload) in
          let size : length (take n bytes) ≡ n =
            ap length same
            ∙ length-take n (drop c.bytes_sent (head ++ payload))
                (omega (arith, total, left, within)) in
          let k = w.accepts (take n bytes) in
          let most : k ≤ n = let h = honest (take n bytes) in omega (arith, h, size) in
          let some_sent : 0 < k = open_ (take n bytes) (omega (arith, size, before)) in
          let given = offer-served c o (packet_with new start end_) n bytes e a d in
          record {
            new = new;
            first = start;
            last = end_;
            k = k;
            some_sent = some_sent;
            within = omega (arith, total, most, within, before);
            room = long;
            portion = portion;
            run =
                send_packet-served w c o (packet_with new start end_) n bytes e a d
                  (omega (arith, before)) (omega (arith, most, within, small, before));
            same =
                ap (take k) (given ∙ same)
                ∙ take-take k n (drop c.bytes_sent (head ++ payload)) most;
          }

  -- The loop ends, nothing is pending, and what it sent is the rest of the packet.
  abbrev Streams : List Answer → Client → Type 0
  Streams ws c =
      (c' : Client) × (check_outbox ws c ≡ some c')
      × (wire ws c ≡ drop c.bytes_sent whole)
      × (c'.outbox.pending ≡ [])

  -- A turn that completes the packet.
  Streams-last :
      (w : Answer) (ws : List Answer) (c : Client) (rest : List ℕ) (t : Turned w c rest)
      → is_positive t.k ≡ true
      → c.bytes_sent + t.k ≡ length head + length payload
      → Streams (w ∷ ws) c
  Streams-last w ws c rest t go full =
      let c1 = after_portion w c (packet_with t.new t.first t.last) t.k in
      let adv =
        advance-done c1
          (record { time_sent = w.time_sent; packet = packet_with t.new t.first t.last }) [] refl
          full in
      let left = length-drop c.bytes_sent whole in
      let all : length (drop c.bytes_sent whole) ≡ t.k =
        omega (arith, left, length-append head payload, full) in
      let ends = last_turn w ws c c1 t.k t.run go adv.0 in
      (
        advance_outbox c1,
        ends.0,
        ends.1
            ∙ t.same
            ∙ ap (λ k. take k (drop c.bytes_sent whole)) (sym all)
            ∙ take_all (drop c.bytes_sent whole),
        adv.0,
      )

  -- A turn that leaves something of the packet.
  Streams-more :
      (w : Answer) (ws : List Answer) (c : Client) (rest : List ℕ) (t : Turned w c rest)
      → is_positive t.k ≡ true
      → c.bytes_sent + t.k < length head + length payload
      → Streams ws (after_portion w c (packet_with t.new t.first t.last) t.k)
      → Streams (w ∷ ws) c
  Streams-more w ws c rest t go less (c', run, sent, none_left) =
      let c1 = after_portion w c (packet_with t.new t.first t.last) t.k in
      let o : OutgoingPacket = record {
        time_sent = w.time_sent;
        packet = packet_with t.new t.first t.last;
      } in
      let stays = advance-more c1 o [] refl less in
      let goes =
        next_turn w ws c c1 t.k o [] t.run go (ap (λ (d : Client). d.outbox.pending) stays) in
      (
        c',
        goes.0 ∙ ap (check_outbox ws) stays ∙ run,
        goes.1
            ∙ ap (λ d. take t.k (offer c) ++ wire ws d) stays
            ∙ ap (λ l. l ++ wire ws c1) t.same
            ∙ ap (λ l. take t.k (drop c.bytes_sent whole) ++ l)
                (sent ∙ drop-add c.bytes_sent t.k whole)
            ∙ take-append-drop t.k (drop c.bytes_sent whole),
        none_left,
      )

  pub streams :
      (ws : List Answer) (c : Client) (t : ℕ) (rest : List ℕ) (first last : ℕ)
      → c.outbox.pending ≡ record { time_sent = t; packet = packet_with rest first last } ∷ []
      → All IsHonest ws
      → All IsOpen ws
      → min 1440 (length payload) ≤ length rest
      → Fetchable packet_id head payload callback small rest first last c.bytes_sent
      → c.bytes_sent < length head + length payload
      → length head + length payload - c.bytes_sent < length ws
      → Streams ws c
  streams [] c t rest first last e honest open_ room ready inside enough = absurd (omega arith)
  streams (w ∷ ws) c t rest first last e honest open_ room ready inside enough =
      let turn = turned w c t rest first last e honest.0 open_.0 room ready inside in
      let total = length-append head payload in
      let some_sent = turn.some_sent in
      let within = turn.within in
      let go : is_positive turn.k ≡ true =
        positive turn.k (ground arith) (omega (arith, small, total, within)) in
      elim (Bool-cases (ltb (c.bytes_sent + turn.k) (length head + length payload))) [
        | inr full ↦ Streams-last w ws c rest turn go (ground (arith, total))
        | inl less ↦
            let below = ltb→lt _ _ less in
            Streams-more w ws c rest turn go below (
              streams ws (after_portion w c (packet_with turn.new turn.first turn.last) turn.k)
                w.time_sent turn.new turn.first turn.last refl honest.1 open_.1
                (let l = turn.room in omega (arith, l, room)) (inl turn.portion) below
                (omega (arith, some_sent, below)))
      ]
