-- ===== src/Outbox/InsertFront.antt =====
-- emplaceFront of src/Outbox.h.
use esp_mqtt_client.Prelude.{
  List, [], ◌∷◌, ◌++◌, ◌≡◌, ◌≢◌, refl, Option, none, some, ◌==◌, false, arith, if◌then◌else◌,
}
use esp_mqtt_client.Outbox.{Ptr, null, Node, node, update, Outbox, Iterator, emplace_front}
use esp_mqtt_client.Outbox.Chain.{head_addr, last_addr, Seg, Seg-update, has_of_none}
use esp_mqtt_client.Outbox.Repr.{Repr}

module _ {ℓ} {A : Type ℓ} where
  front_next :
      (cell : Ptr → Option (Node A)) (xs : List (Ptr × A))
      → Seg cell xs null
      → (if head_addr xs null == null then null else head_addr xs null) ≡ head_addr xs null
  front_next cell [] s = refl
  front_next cell ((a, x) ∷ xs) s = ground arith

  front_last :
      (cell : Ptr → Option (Node A)) (xs : List (Ptr × A)) (a : Ptr) (x : A)
      → Seg cell xs null
      → (if head_addr xs null == null then a else last_addr xs) ≡ last_addr ((a, x) ∷ xs)
  front_last cell [] a x s = refl
  front_last cell ((b, y) ∷ xs) a x s = ground arith

  pub emplace_front-Repr :
      (o : Outbox A) (s p : List (Ptr × A)) (fresh : Ptr) (x : A)
      → fresh ≢ null
      → o.cell fresh ≡ none
      → Repr o s p
      → (o' : Outbox A) × (it : Iterator) × (emplace_front fresh x o ≡ some (o', it))
        × Repr o' [] ((fresh, x) ∷ (s ++ p))
        × (it.node ≡ fresh)
  unfolding emplace_front
  emplace_front-Repr o s p fresh x ne unused r =
      let a : (fresh == null) ≡ false = ground arith in
      let out = has_of_none o.cell (s ++ p) null fresh r.chain unused in
      let next = front_next o.cell (s ++ p) r.chain in
      let last = front_last o.cell (s ++ p) fresh x r.chain in
      (
        record o {
          cell = update o.cell fresh (some (node x (if o.first == null then null else o.first)));
          last = if o.first == null then fresh else o.last;
          first = fresh;
          current = fresh;
          prev = null;
        },
        record { node = fresh; prev = null },
        rw a,
        record {
          chain = (
            ne,
            rw (r.first, next) (ground arith),
            Seg-update o.cell (s ++ p) null fresh _ out r.chain,
          );
          distinct = (out, r.distinct);
          first = refl;
          last = rw (r.first, r.last) last;
          current = refl;
          prev = tt;
        },
        refl,
      )

  -- Without memory nothing changes.
  pub emplace_front-null :
      (o : Outbox A) (x : A) (fresh : Ptr)
      → fresh ≡ null
      → emplace_front fresh x o ≡ some (o, record { node = null; prev = null })
  unfolding emplace_front
  emplace_front-null o x fresh e = rw e
