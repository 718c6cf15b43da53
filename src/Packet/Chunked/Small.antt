-- ===== src/Packet/Chunked/Small.antt =====
-- A payload of one portion, supplied by a callback (src/Packets/Packet.cpp: the constructor,
-- available and data).
use esp_mqtt_client.Prelude.{
  ℕ, ◌+◌, ◌-◌, ◌≤◌, ◌<◌, ◌≡◌, List, [], ◌++◌, some, Bool, true, false, length, length-append,
  length-replicate, replicate, arith, ◌==◌, ltb, leb, if◌then◌else◌, min, ap, subst, sym, drop,
  drop_past, take-append_self, append_assoc, append-nil, ◌∙◌,
}
use esp_mqtt_client.RemainingLength.Encode.{length-encode}
use esp_mqtt_client.Packet.{Packet, PayloadCallback, sub_size, add_size, packet_size}
use esp_mqtt_client.Packet.Publish.{publish_frame, publish_body, length-publish_body}
use esp_mqtt_client.Packet.Chunked.{
  available, chunked_available, chunked_refresh, fetch, fill, data_from, chunked_offset,
}
use esp_mqtt_client.Packet.Chunked.Created.{
  chunked_packet, created, whole_length, kept_length, head_bytes, length-head_bytes,
}

-- The packet with its one portion at hand.
abbrev pub filled : ℕ → List ℕ → PayloadCallback → List ℕ → Packet
filled packet_id head callback payload = record {
  packet_id = packet_id;
  contents = some (head ++ payload);
  size = length head + length payload;
  payload_index = length head;
  payload_start_index = length head;
  payload_end_index = length head + length payload - 1;
  get_payload = some callback;
}

drop_room : (head : List ℕ) (n : ℕ) → drop (length head + n) (head ++ replicate n 0) ≡ []
drop_room head n =
    drop_past (head ++ replicate n 0) (length head + n)
      (omega (arith, length-append head (replicate n 0), length-replicate {A = ℕ} n 0))

chunked_packet-filled :
    (packet_id : ℕ) (head : List ℕ) (callback : PayloadCallback) (payload : List ℕ)
    → 0 < length head
    → 0 < length payload
    → length payload ≤ 1440
    → length head + length payload ≤ 4294967295
    → callback (length payload) 0 ≡ payload
    → available (chunked_packet packet_id head (length payload) callback (length payload)) 0
      ≡ some (length head + length payload, filled packet_id head callback payload)
unfolding available chunked_available chunked_refresh fetch fill
chunked_packet-filled packet_id head callback payload pos some_payload small fits supplies =
    let n = length payload in
    let a : leb (length head + n) 0 ≡ false = ground arith in
    let b : ltb 0 (length head) ≡ true = ground arith in
    let c : ltb (length head) (length head + n) ≡ true = ground arith in
    let d : (length head == 0) ≡ false = ground arith in
    let e : min 1440 (sub_size (length head + n) (length head)) ≡ n = omega arith in
    let f : leb (length head + n) (length (head ++ replicate n 0)) ≡ true =
      ground (arith, length-append head (replicate n 0), length-replicate {A = ℕ} n 0) in
    let g : sub_size (add_size (length head) n) 1 ≡ length head + n - 1 = omega arith in
    let h : add_size (sub_size (length head + n - 1) 0) 1 ≡ length head + n = omega arith in
    rw (a, b, c, d, e, supplies, f, g, h, take-append_self, drop_room, append-nil)

-- The head and the payload are the PUBLISH packet of the protocol.
pub head-publish_frame :
    (packet_id : ℕ) (topic payload : List ℕ) (qos : ℕ) (retain : Bool)
    → head_bytes packet_id topic (whole_length packet_id topic (length payload) qos) qos retain
        ++ payload
      ≡ publish_frame packet_id topic payload qos retain
head-publish_frame packet_id topic payload qos retain =
    let e : whole_length packet_id topic (length payload) qos
        ≡ length (publish_body packet_id topic payload qos) =
      omega (arith, length-publish_body packet_id topic payload qos) in
    rw e (simp append_assoc)

-- data at every index of a filled packet points at the rest of the packet.
filled-data :
    (packet_id : ℕ) (head : List ℕ) (callback : PayloadCallback) (payload : List ℕ) (index : ℕ)
    → index < length head + length payload
    → length head + length payload ≤ 4294967295
    → data_from (filled packet_id head callback payload) index ≡ some (drop index (head ++ payload))
unfolding data_from chunked_offset
filled-data packet_id head callback payload index inside fits =
    let e : (if ltb index (length head)
          then index
          else add_size (sub_size index (length head)) (length head))
        ≡ index =
      ground arith in
    rw e

-- A payload of at most 1440 bytes that the callback supplies in one portion goes out as if it had
-- been given to the plain constructor: after the first call of `available`, which reports the whole
-- packet, `data` at every index points at the rest of the PUBLISH packet of the protocol.
pub available_small :
    (packet_id : ℕ) (topic payload : List ℕ) (callback : PayloadCallback) (qos : ℕ) (retain : Bool)
    → 0 < length payload
    → length payload ≤ 1440
    → whole_length packet_id topic (length payload) qos ≤ 268435455
    → callback (length payload) 0 ≡ payload
    → (p : Packet) × (available (created packet_id topic callback (length payload) qos retain) 0
        ≡ some (length (publish_frame packet_id topic payload qos retain), p))
      × ((index : ℕ)
          → index < length (publish_frame packet_id topic payload qos retain)
          → data_from p index
            ≡ some (drop index (publish_frame packet_id topic payload qos retain)))
available_small packet_id topic payload callback qos retain pos small fits supplies =
    let whole = whole_length packet_id topic (length payload) qos in
    let head = head_bytes packet_id topic whole qos retain in
    let id : ℕ = if qos == 0 then 0 else packet_id in
    let size = length-head_bytes packet_id topic whole qos retain fits in
    let bytes = head-publish_frame packet_id topic payload qos retain in
    let total : length head + length payload
        ≡ length (publish_frame packet_id topic payload qos retain) =
      sym (length-append head payload) ∙ ap length bytes in
    let bound : length head + length payload ≤ 4294967295 =
      omega (arith, size, length-encode whole fits) in
    let same : min (length payload) 1440 ≡ length payload = omega arith in
    let room : packet_size (kept_length packet_id topic (length payload) qos) - length head
        ≡ length payload =
      rw same (omega (arith, size, length-encode whole fits)) in
    let run =
      chunked_packet-filled id head callback payload (omega (arith, size, length-encode whole fits))
        pos small bound supplies in
    (
      filled id head callback payload,
      subst
          (λ r.
            available (chunked_packet id head r callback (length payload)) 0
            ≡ some (
              length (publish_frame packet_id topic payload qos retain),
              filled id head callback payload,
            ))
          (sym room) (run ∙ ap (λ t. some (t, filled id head callback payload)) total),
      λ index inside.
          filled-data id head callback payload index (subst (λ t. index < t) (sym total) inside)
            bound
          ∙ ap (λ b. some (drop index b)) bytes,
    )
