-- ===== src/Parser/Runs.antt =====
-- Runs of bytes through src/Packets/Parser.cpp: the remaining length, a topic, a payload.
use esp_mqtt_client.Prelude.{
  length-drop, ℕ, zero, suc, ◌+◌, ◌%◌, ◌≤◌, ◌<◌, ◌≡◌, List, [], ◌∷◌, ◌++◌, some, length, arith, set,
  refl, true, false, ap, sym, ◌∙◌, drop, take, bit_and, ◌==◌, length-set, append_assoc, append-nil,
  bit_and_top, min, ◌||◌, take-set,
}
use esp_mqtt_client.Config.{size_mod, publish_type}
use esp_mqtt_client.Packet.{add_size, sub_size}
use esp_mqtt_client.RemainingLength.{decoded, decode_remaining_length, encode_remaining_length}
use esp_mqtt_client.RemainingLength.Encode.{
  encode_last, encode_two, encode_three, encode_four, length-encode,
}
use esp_mqtt_client.RemainingLength.RoundTrip.{decode-encode}
use esp_mqtt_client.Parser.{
  IncomingPacket, packet, input, remaining_length_variable, var_header_topic,
  var_header_topic_length1, payload_publish, fixed_header,
}
use esp_mqtt_client.Parser.FixedHeader.{
  step_remaining_length_variable, remaining_length_stored, remaining_length_decoded, as_size,
}
use esp_mqtt_client.Parser.Step.{step_topic, topic_stored, step_payload_publish}
use esp_mqtt_client.Parser.Parse.{call, parse_loop}
use esp_mqtt_client.Parser.PublishSafety.{store_inside}
use esp_mqtt_client.Parser.Feed.{parser_at, Left, next, advance, finish}

-- The array after the bytes have been stored one behind the other.
abbrev pub write_from : ℕ → List ℕ → List ℕ → List ℕ
write_from i [] xs = xs
write_from i (b ∷ bs) xs = write_from (i + 1) bs (set xs i b)

-- A position after as many increments.
abbrev pub skip : List ℕ → ℕ → ℕ
skip [] n = n
skip (b ∷ bs) n = skip bs (suc n)

pub skip_lem : (bs : List ℕ) (n : ℕ) → skip bs n ≡ n + length bs
skip_lem [] n = omega arith
skip_lem (b ∷ bs) n = omega (arith, skip_lem bs (suc n))

pub length-write_from : (i : ℕ) (bs xs : List ℕ) → length (write_from i bs xs) ≡ length xs
length-write_from i [] xs = refl
length-write_from i (b ∷ bs) xs = length-write_from (i + 1) bs (set xs i b) ∙ length-set xs i b

pub take-write_from :
    (i : ℕ) (bs xs : List ℕ) (n : ℕ)
    → i + length bs ≡ n
    → n ≤ length xs
    → take n (write_from i bs xs) ≡ take i xs ++ bs
take-write_from i [] xs n e h =
    let same : n ≡ i = omega arith in ap (λ k. take k xs) same ∙ sym (append-nil (take i xs))
take-write_from i (b ∷ bs) xs n e h =
    let same : i + 1 ≡ suc i = omega arith in
    take-write_from (i + 1) bs (set xs i b) n (omega arith) (omega (arith, length-set xs i b))
    ∙ ap (λ k. take k (set xs i b) ++ bs) same
    ∙ ap (λ ys. ys ++ bs) (take-set xs i b (omega arith))
    ∙ append_assoc (take i xs) (b ∷ []) bs

take-drop : (n : ℕ) (xs : List ℕ) → take n xs ++ drop n xs ≡ xs
take-drop zero xs = refl
take-drop (suc n) [] = refl
take-drop (suc n) (x ∷ xs) = ap (◌∷◌ x) (take-drop n xs)

-- What has been stored from the front of an array is its beginning.
write_from_front :
    (bs xs : List ℕ)
    → length bs ≤ length xs
    → write_from 0 bs xs ≡ bs ++ drop (length bs) (write_from 0 bs xs)
write_from_front bs xs h =
    sym (take-drop (length bs) (write_from 0 bs xs))
    ∙ ap (λ ys. ys ++ drop (length bs) (write_from 0 bs xs))
        (take-write_from 0 bs xs (length bs) (omega arith) h)

pub decode-write_from :
    (v : ℕ) (raw : List ℕ)
    → v ≤ 268435455
    → length raw ≡ 4
    → decode_remaining_length (write_from 0 (encode_remaining_length v) raw) ≡ decoded v
decode-write_from v raw h l =
    let bs = encode_remaining_length v in
    ap decode_remaining_length (write_from_front bs raw (omega (arith, length-encode v h)))
    ∙ decode-encode v (drop (length bs) (write_from 0 bs raw)) h

-- The bytes of a remaining length: all but the last have the continuation bit.
abbrev pub Encoded : List ℕ → Type 0
Encoded [] = ⊥
Encoded (b ∷ []) = b < 128
Encoded (b ∷ c ∷ cs) = (128 ≤ b) × (b < 256) × Encoded (c ∷ cs)

pub encode-Encoded : (v : ℕ) → v ≤ 268435455 → Encoded (encode_remaining_length v)
encode-Encoded v h = ground (arith, encode_last v, encode_two v, encode_three v, encode_four v)

-- The bytes of a remaining length take the parser to the topic length of a PUBLISH.
pub remaining_length_run :
    {bytes : List ℕ} (buffer : List ℕ) {n : ℕ} (pos v : ℕ) (i : IncomingPacket) (bs rest : List ℕ)
    → Left bytes n (bs ++ rest)
    → Encoded bs
    → bit_and i.packet_type 0xf0 ≡ publish_type
    → length i.remaining_length_raw ≡ 4
    → pos + length bs ≤ 4
    → decode_remaining_length (write_from pos bs i.remaining_length_raw) ≡ decoded v
    → v < size_mod
    → (pos' : ℕ) × (parse_loop
          (length (bs ++ rest))
          (parser_at bytes buffer n pos remaining_length_variable i)
        ≡ parse_loop (length rest) (
            parser_at bytes buffer (skip bs n) pos' var_header_topic_length1 (record i {
              remaining_length_raw = write_from pos bs i.remaining_length_raw;
              remaining_length = v;
            })))
unfolding call step_remaining_length_variable remaining_length_stored remaining_length_decoded
    as_size
remaining_length_run buffer pos v i [] rest l c t r h d m = elim c [ ]
remaining_length_run {bytes} buffer {n} pos v i (b ∷ []) rest l c t r h d m =
    let small : (bit_and b 0x80 == 0) ≡ true = ground (arith, bit_and_top b) in
    let room = store_inside i.remaining_length_raw pos b (omega arith) in
    let same : v % size_mod ≡ v = omega arith in
    (
      pos,
      advance buffer pos pos remaining_length_variable var_header_topic_length1 i _ l
          (rw (room, small, d, t, same) refl),
    )
remaining_length_run {bytes} buffer {n} pos v i (b ∷ c ∷ cs) rest l e t r h d m =
    let big : (bit_and b 0x80 == 0) ≡ false = ground (arith, bit_and_top b) in
    let room = store_inside i.remaining_length_raw pos b (omega arith) in
    let early : (pos + 1 == 4) ≡ false = ground arith in
    let i' = record i { remaining_length_raw = set i.remaining_length_raw pos b } in
    let one =
      advance buffer pos (pos + 1) remaining_length_variable remaining_length_variable i i' l
        (rw (room, big, early) refl) in
    let others =
      remaining_length_run buffer (pos + 1) v i' (c ∷ cs) rest (next l) e.2 t
        (length-set i.remaining_length_raw pos b ∙ r) (omega arith) d m in
    (others.0, one ∙ others.1)

-- The bytes of a topic but the last.
pub topic_run :
    {bytes : List ℕ} (buffer : List ℕ) {n : ℕ} (pos : ℕ) (i : IncomingPacket) (bs rest : List ℕ)
    → Left bytes n (bs ++ rest)
    → pos + length bs < i.topic_length
    → i.topic_length ≤ 128
    → length i.topic ≡ 129
    → parse_loop (length (bs ++ rest)) (parser_at bytes buffer n pos var_header_topic i)
      ≡ parse_loop (length rest) (
          parser_at bytes buffer
            (skip bs n)
            (pos + length bs)
            var_header_topic
            (record i { topic = write_from pos bs i.topic }))
unfolding call step_topic topic_stored
topic_run {bytes} buffer {n} pos i [] rest l h m t =
    let same : pos ≡ pos + 0 = omega arith in
    ap (λ k. parse_loop (length rest) (parser_at bytes buffer n k var_header_topic i)) same
topic_run {bytes} buffer {n} pos i (b ∷ bs) rest l h m t =
    let room = store_inside i.topic pos b (omega arith) in
    let within : (pos + 1 == i.topic_length || pos + 1 == 128) ≡ false = ground arith in
    let i' = record i { topic = set i.topic pos b } in
    let same : pos + 1 + length bs ≡ pos + suc (length bs) = omega arith in
    advance buffer pos (pos + 1) var_header_topic var_header_topic i i' l (rw (room, within) refl)
    ∙ topic_run buffer (pos + 1) i' bs rest (next l) (omega arith) m (length-set i.topic pos b ∙ t)
    ∙ ap
        (λ k. parse_loop (length rest) (
          parser_at bytes buffer (skip bs (suc n)) k var_header_topic
            (record i { topic = write_from pos (b ∷ bs) i.topic })))
        same

pub Left-length :
    {bytes rest : List ℕ} {n b : ℕ} → Left bytes n (b ∷ rest) → n + length (b ∷ rest) ≡ length bytes
Left-length {bytes} {rest} {n} {b} l = omega (arith, length-drop n bytes, ap length l.behind)

-- The rest of the input is the whole payload.
pub payload_run :
    {bytes : List ℕ} (buffer : List ℕ) {n : ℕ} (pos : ℕ) (i : IncomingPacket) {b : ℕ}
    {rest : List ℕ}
    → Left bytes n (b ∷ rest)
    → i.payload_index ≡ 0
    → i.payload_length ≡ 0
    → i.payload_total ≡ length (b ∷ rest)
    → parse_loop (length (b ∷ rest)) (parser_at bytes buffer n pos payload_publish i)
      ≡ some (
        packet,
        parser_at bytes buffer (length bytes) pos fixed_header (record i {
          payload_index = 0;
          payload_data = input n;
          payload_length = length (b ∷ rest);
        }),
      )
unfolding call step_payload_publish
payload_run {bytes} buffer {n} pos i {b} {rest} l x y t =
    let ends : suc (n + length rest) ≡ length bytes = omega (arith, Left-length l) in
    let here : min (sub_size (length bytes) n) (sub_size (length (b ∷ rest)) (add_size 0 0))
        ≡ length (b ∷ rest) =
      omega (arith, Left-length l, l.in_range) in
    let whole : (add_size (add_size 0 0) (length (b ∷ rest)) == length (b ∷ rest)) ≡ true =
      ground (arith, Left-length l, l.in_range) in
    let moved : sub_size (add_size n (length (b ∷ rest))) 1 ≡ n + length rest =
      omega (arith, Left-length l, l.in_range) in
    let i' = record i {
      payload_index = 0;
      payload_data = input n;
      payload_length = length (b ∷ rest);
    } in
    finish buffer pos (n + length rest) pos payload_publish fixed_header i i' l
      (omega (arith, l.in_range)) (rw (x, y, t, here, moved, whole) refl)
    ∙ ap (λ k. some (packet, parser_at bytes buffer k pos fixed_header i')) ends

-- What is left behind a run.
pub skip-Left :
    {bytes : List ℕ} {n : ℕ} (bs : List ℕ) {rest : List ℕ}
    → Left bytes n (bs ++ rest)
    → Left bytes (skip bs n) rest
skip-Left [] l = l
skip-Left (b ∷ bs) l = skip-Left bs (next l)
