-- ===== src/Packet/Chunked/Portions.antt =====
-- A portion of a payload in the buffer of a packet (_chunkedData of src/Packets/Packet.cpp).
use esp_mqtt_client.Prelude.{
  ℕ, ◌+◌, ◌-◌, ◌^◌, ◌≤◌, ◌<◌, ◌≡◌, refl, sym, ap, ◌∙◌, List, ◌++◌, some, true, false, length, arith,
  ltb, take, drop, inl, inr, ◌⊎◌, take-append_add, drop-append_add, same_part, drop-add,
}
use esp_mqtt_client.Packet.{Packet, PayloadCallback, sub_size, add_size}
use esp_mqtt_client.Packet.Chunked.{data_from, chunked_offset}

-- A packet with a callback: its buffer holds the head and the rest, and the portion from `first` to
-- `last` of the packet.
abbrev pub portioned : ℕ → List ℕ → List ℕ → PayloadCallback → ℕ → ℕ → ℕ → Packet
portioned packet_id head rest callback size first last = record {
  packet_id = packet_id;
  contents = some (head ++ rest);
  size = size;
  payload_index = length head;
  payload_start_index = first;
  payload_end_index = last;
  get_payload = some callback;
}

-- The callback is given an index in the packet, and copies a part of the payload from there on, at least
-- one byte and at most as many as there is room for. For an index in the head it begins with the payload.
abbrev pub Supplies : List ℕ → List ℕ → PayloadCallback → Type 0
Supplies head payload callback =
    (room index : ℕ)
    → 0 < room
    → (k : ℕ) × (0 < k)
      × (k ≤ room)
      × (callback room index ≡ take k (drop (index - length head) payload))

-- The buffer holds a portion of the payload.
pub record HasPortion (head payload rest : List ℕ) (first last : ℕ) : Type 0 where
  pub from : length head ≤ first
  pub ordered : first ≤ last
  pub inside : last < length head + length payload
  pub same :
      take (last + 1 - first) rest ≡ take (last + 1 - first) (drop (first - length head) payload)

-- What `_chunkedAvailable` asks for: the portion is at hand, or the index is in the head.
abbrev pub Serves : List ℕ → List ℕ → List ℕ → ℕ → ℕ → ℕ → Type 0
Serves head payload rest first last index =
    HasPortion head payload rest first last
    × (index ≤ last)
    × ((first ≤ index) ⊎ ((index < length head) × (first ≡ length head)))

-- The packet on the way: its size is that of the head and the payload.
abbrev pub at_hand : ℕ → List ℕ → List ℕ → PayloadCallback → List ℕ → ℕ → ℕ → Packet
at_hand packet_id head payload callback rest first last =
    portioned packet_id head rest callback (length head + length payload) first last

module _ (packet_id : ℕ) (head payload : List ℕ) (callback : PayloadCallback)
    (small : length head + length payload < 2 ^ 31) where
  -- What stands in the buffer from the place of a served index on.
  pub data-served :
      (rest : List ℕ) (first last index : ℕ)
      → Serves head payload rest first last index
      → (bytes : List ℕ) × (data_from
            (at_hand packet_id head payload callback rest first last)
            index
          ≡ some bytes)
        × (take (last + 1 - index) bytes ≡ take (last + 1 - index) (drop index (head ++ payload)))
  unfolding data_from chunked_offset
  data-served rest first last index (p, before, inr (in_head, at_start)) =
      let test : ltb index (length head) ≡ true = ground arith in
      let k = last + 1 - first in
      let none_before : first - length head ≡ 0 = omega (arith, at_start) in
      let agree : take (length head + k) (head ++ rest) ≡ take (length head + k) (head ++ payload) =
        take-append_add head rest k
        ∙ ap (λ t. head ++ t) (p.same ∙ ap (λ z. take k (drop z payload)) none_before)
        ∙ sym (take-append_add head payload k) in
      (
        drop index (head ++ rest),
        rw (data_from, test) refl,
        same_part (last + 1 - index) index (length head + k) (head ++ rest) (head ++ payload) agree
            (omega (arith, p.ordered)),
      )
  data-served rest first last index (p, before, inl behind) =
      let k = last + 1 - first in
      let m = last + 1 - index in
      let start = p.from in
      let test : ltb index (length head) ≡ false = ground arith in
      let offset : add_size (sub_size index first) (length head) ≡ length head + (index - first) =
        let inside = p.inside in omega (arith, small, inside, before, behind, start) in
      let place : drop index (head ++ payload)
          ≡ drop (index - first) (drop (first - length head) payload) =
        let split : index ≡ length head + (index - length head) = omega (arith, start, behind) in
        let sum : index - length head ≡ first - length head + (index - first) =
          omega (arith, start, behind) in
        ap (λ i. drop i (head ++ payload)) split
        ∙ drop-append_add head payload (index - length head)
        ∙ ap (λ i. drop i payload) sum
        ∙ drop-add (first - length head) (index - first) payload in
      (
        drop (length head + (index - first)) (head ++ rest),
        rw (data_from, test, offset) refl,
        ap (take m) (drop-append_add head rest (index - first))
            ∙ same_part m (index - first) k rest (drop (first - length head) payload) p.same
                (omega (arith, behind, before))
            ∙ ap (take m) (sym place),
      )
