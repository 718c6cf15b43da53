-- ===== src/Packet/Chunked/Streams.antt =====
-- The portions of a payload that a callback supplies, one after the other (_chunkedAvailable and
-- _chunkedData of src/Packets/Packet.cpp).
use esp_mqtt_client.Prelude.{
  ℕ, ◌+◌, ◌-◌, ◌^◌, ◌≤◌, ◌<◌, ◌≡◌, refl, sym, ap, ◌∙◌, List, ◌++◌, Option, some, true, false,
  length, length-append, arith, ◌==◌, ltb, leb, min, take, drop, Bool-cases, inl, inr, ◌⊎◌, ◌||◌,
  length-take, length-drop, drop-append_add, take-append_self, ltb→lt, subst,
}
use esp_mqtt_client.Packet.{Packet, PayloadCallback, sub_size, add_size}
use esp_mqtt_client.Packet.Chunked.{available, chunked_available, chunked_refresh, fetch, fill}
use esp_mqtt_client.Packet.Chunked.Portions.{Supplies, HasPortion, Serves, at_hand}

module _ (packet_id : ℕ) (head payload : List ℕ) (callback : PayloadCallback)
    (small : length head + length payload < 2 ^ 31) where
  -- A call of the callback for the portion from `start` on.
  fetch-portion :
      (rest : List ℕ) (first last asked start index k : ℕ)
      → callback (min 1440 (sub_size (length head + length payload) asked)) index
        ≡ take k (drop (index - length head) payload)
      → index - length head ≡ start - length head
      → length head ≤ start
      → 0 < k
      → start + k ≤ length head + length payload
      → k ≤ length rest
      → (new : List ℕ) × (fetch
            (at_hand packet_id head payload callback rest first last)
            callback
            asked
            start
            index
          ≡ some (at_hand packet_id head payload callback new start (start + k - 1)))
        × (length new ≡ length rest)
        × HasPortion head payload new start (start + k - 1)
  unfolding fetch fill
  fetch-portion rest first last asked start index k copies place behind pos inside fits =
      let piece = take k (drop (start - length head) payload) in
      let copied : callback (min 1440 (sub_size (length head + length payload) asked)) index
          ≡ piece =
        copies ∙ ap (λ z. take k (drop z payload)) place in
      let long : length piece ≡ k =
        length-take k (drop (start - length head) payload)
          (omega (arith, length-drop (start - length head) payload)) in
      let room : leb (length head + k) (length (head ++ rest)) ≡ true =
        ground (arith, length-append head rest) in
      let last_place : sub_size (add_size start k) 1 ≡ start + k - 1 = omega (arith, small) in
      let portion : start + k - 1 + 1 - start ≡ k = omega (arith, pos) in
      (
        piece ++ drop k rest,
        rw
            (
              fetch,
              copied,
              long,
              room,
              last_place,
              take-append_self head rest,
              drop-append_add head rest k,
            )
            refl,
        omega (arith, length-append piece (drop k rest), length-drop k rest, long),
        record {
          from = behind;
          ordered = omega (arith, pos);
          inside = omega (arith, pos);
          same = rw portion (
              ap (λ l. take l (piece ++ drop k rest)) (sym long)
              ∙ take-append_self piece (drop k rest));
        },
      )

  -- The packet before a call of available: a portion, or at an index in the head any state with payload
  -- behind its start.
  abbrev pub Fetchable : List ℕ → ℕ → ℕ → ℕ → Type 0
  Fetchable rest first last index =
      HasPortion head payload rest first last
      ⊎ ((index < length head)
          × (length head ≤ first)
          × (first < length head + length payload)
          × (0 < last))

  refresh_head :
      (rest : List ℕ) (first last index : ℕ)
      → ltb index (length head) ≡ true
      → ltb (length head) (length head + length payload) ≡ true
      → (last == 0) ≡ false
      → chunked_refresh (at_hand packet_id head payload callback rest first last) callback index
        ≡ fetch
            (at_hand packet_id head payload callback rest first last)
            callback
            first
            (length head)
            index
  unfolding chunked_refresh
  refresh_head rest first last index a b c = rw (a, b, c) refl

  refresh_payload :
      (rest : List ℕ) (first last index : ℕ)
      → ltb index (length head) ≡ false
      → (ltb last index || ltb index first) ≡ true
      → chunked_refresh (at_hand packet_id head payload callback rest first last) callback index
        ≡ fetch (at_hand packet_id head payload callback rest first last) callback index index index
  unfolding chunked_refresh
  refresh_payload rest first last index a b = rw (a, b) refl

  refresh_none :
      (rest : List ℕ) (first last index : ℕ)
      → ltb index (length head) ≡ false
      → (ltb last index || ltb index first) ≡ false
      → chunked_refresh (at_hand packet_id head payload callback rest first last) callback index
        ≡ some (at_hand packet_id head payload callback rest first last)
  unfolding chunked_refresh
  refresh_none rest first last index a b = rw (a, b) refl

  served :
      (rest : List ℕ) (first last index : ℕ) (new : List ℕ) (start end_ : ℕ)
      → leb (length head + length payload) index ≡ false
      → chunked_refresh (at_hand packet_id head payload callback rest first last) callback index
        ≡ some (at_hand packet_id head payload callback new start end_)
      → index ≤ end_
      → end_ < length head + length payload
      → available (at_hand packet_id head payload callback rest first last) index
        ≡ some (end_ + 1 - index, at_hand packet_id head payload callback new start end_)
  unfolding available chunked_available
  served rest first last index new start end_ a run before inside =
      let count : add_size (sub_size end_ index) 1 ≡ end_ + 1 - index = omega (arith, small) in
      rw (a, run, count) refl

  abbrev pub Available : List ℕ → ℕ → Option (ℕ × Packet) → Type 0
  Available rest index o =
      (new : List ℕ) × (start : ℕ) × (end_ : ℕ) × (o
        ≡ some (end_ + 1 - index, at_hand packet_id head payload callback new start end_))
      × (length new ≡ length rest)
      × Serves head payload new start end_ index

  fetched :
      (rest : List ℕ) (first last index asked : ℕ) (new : List ℕ) (start end_ : ℕ)
      → leb (length head + length payload) index ≡ false
      → chunked_refresh (at_hand packet_id head payload callback rest first last) callback index
        ≡ fetch (at_hand packet_id head payload callback rest first last) callback asked start index
      → fetch (at_hand packet_id head payload callback rest first last) callback asked start index
        ≡ some (at_hand packet_id head payload callback new start end_)
      → length new ≡ length rest
      → Serves head payload new start end_ index
      → Available rest index
          (available (at_hand packet_id head payload callback rest first last) index)
  fetched rest first last index asked new start end_ a refresh run long (portion, before, place) = (
    new,
    start,
    end_,
    served rest first last index new start end_ a (refresh ∙ run) before portion.inside,
    long,
    (portion, before, place),
  )

  module _ (supplies : Supplies head payload callback) (pos : 0 < length head) where
    in_head :
        (rest : List ℕ) (first last index : ℕ)
        → min 1440 (length payload) ≤ length rest
        → index < length head
        → length head ≤ first
        → first < length head + length payload
        → 0 < last
        → Available rest index
            (available (at_hand packet_id head payload callback rest first last) index)
    in_head rest first last index room h f s l =
        let asked : sub_size (length head + length payload) first
            ≡ length head + length payload - first =
          omega (arith, small) in
        let (k, some_bytes, most, copies) =
          supplies (min 1440 (sub_size (length head + length payload) first)) index
            (rw asked (ground arith)) in
        let limit : k ≤ min 1440 (length head + length payload - first) =
          subst (λ z. k ≤ min 1440 z) asked most in
        let fits : k ≤ length rest = ground arith in
        let (new, run, long, portion) =
          fetch-portion rest first last first (length head) index k copies (omega arith)
            (omega arith) some_bytes (ground arith) fits in
        let a : leb (length head + length payload) index ≡ false = ground arith in
        let b : ltb index (length head) ≡ true = ground arith in
        let c : ltb (length head) (length head + length payload) ≡ true = ground arith in
        let d : (last == 0) ≡ false = ground arith in
        fetched rest first last index first new (length head) (length head + k - 1) a
          (refresh_head rest first last index b c d) run long
          (portion, omega (arith, h), inr (h, refl))

    in_payload :
        (rest : List ℕ) (first last index : ℕ)
        → min 1440 (length payload) ≤ length rest
        → HasPortion head payload rest first last
        → length head ≤ index
        → index < length head + length payload
        → Available rest index
            (available (at_hand packet_id head payload callback rest first last) index)
    in_payload rest first last index room portion h inside =
        let a : leb (length head + length payload) index ≡ false = ground arith in
        let b : ltb index (length head) ≡ false = ground arith in
        elim (Bool-cases (ltb last index || ltb index first)) [
          | inr here ↦ (
            rest,
            first,
            last,
            served rest first last index rest first last a
                (refresh_none rest first last index b here) (ground arith) portion.inside,
            refl,
            (portion, ground arith, inl (ground arith)),
          )
          | inl outside ↦
              let asked : sub_size (length head + length payload) index
                  ≡ length head + length payload - index =
                omega (arith, small) in
              let (k, some_bytes, most, copies) =
                supplies (min 1440 (sub_size (length head + length payload) index)) index
                  (rw asked (ground arith)) in
              let limit : k ≤ min 1440 (length head + length payload - index) =
                subst (λ z. k ≤ min 1440 z) asked most in
              let fits : k ≤ length rest = ground arith in
              let (new, run, long, next) =
                fetch-portion rest first last index index index k copies refl h some_bytes
                  (ground arith) fits in
              fetched rest first last index index new index (index + k - 1) a
                (refresh_payload rest first last index b outside) run long
                (next, omega arith, inl (omega arith))
        ]

    -- A call of available with what data then points at
    pub available-Serves :
        (rest : List ℕ) (first last index : ℕ)
        → min 1440 (length payload) ≤ length rest
        → Fetchable rest first last index
        → index < length head + length payload
        → Available rest index
            (available (at_hand packet_id head payload callback rest first last) index)
    available-Serves rest first last index room (inr (h, f, s, l)) inside =
        in_head rest first last index room h f s l
    available-Serves rest first last index room (inl portion) inside =
        elim (Bool-cases (ltb index (length head))) [
          | inl y ↦
              let from = portion.from in
              let ordered = portion.ordered in
              let within = portion.inside in
              in_head rest first last index room (ltb→lt _ _ y) from (omega arith) (omega arith)
          | inr n ↦ in_payload rest first last index room portion (ground arith) inside
        ]
