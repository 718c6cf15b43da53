-- ===== src/Tests/OutboxTests.antt =====
-- The theorems on src/Outbox.h at concrete inputs.
use esp_mqtt_client.Prelude.{
  ℕ, [], ◌∷◌, Option, none, some, refl, arith, ◌≡◌, ◌⊎◌, inl, inr, if◌then◌else◌, ◌==◌,
}
use esp_mqtt_client.Outbox.{Outbox, Node, Ptr, null, new_outbox}
use esp_mqtt_client.Outbox.Queue.{Queue, empty_queue}
use esp_mqtt_client.Outbox.Repr.{Represents, new_outbox-Represents, Repr}
use esp_mqtt_client.Outbox.Run.{
  emplaces, emplaces_front, removes, advances, run, grants, Effects, IsMalloc, run-Effects,
}

abbrev no_memory_used : Ptr → Option (Node ℕ)
no_memory_used a = none

-- A memory of one node.
abbrev first_free : (Ptr → Option (Node ℕ)) → Ptr
first_free cell = elim (cell 1) [ none ↦ 1 | some n ↦ null ]

first_free-IsMalloc : IsMalloc first_free
first_free-IsMalloc cell = free (cell 1) refl
  where
    free :
        (o : Option (Node ℕ))
        → cell 1 ≡ o
        → (first_free cell ≡ null) ⊎ (cell (first_free cell) ≡ none)
    free none e = inr (rw (first_free, e) e)
    free (some n) e = inl (rw (first_free, e) refl)

run-Effects_example :
    (o' : Outbox ℕ) × (q' : Queue ℕ) × (run first_free
        (emplaces 5 ∷ advances ∷ emplaces_front 6 ∷ removes 0 ∷ [])
        (new_outbox no_memory_used)
      ≡ some o')
    × Effects
        (grants first_free
          (emplaces 5 ∷ advances ∷ emplaces_front 6 ∷ removes 0 ∷ [])
          (new_outbox no_memory_used))
        (emplaces 5 ∷ advances ∷ emplaces_front 6 ∷ removes 0 ∷ [])
        empty_queue
        q'
    × Represents o' q'
run-Effects_example =
    run-Effects first_free (emplaces 5 ∷ advances ∷ emplaces_front 6 ∷ removes 0 ∷ [])
      (new_outbox no_memory_used) empty_queue first_free-IsMalloc
      (new_outbox-Represents no_memory_used)

abbrev one_node : Ptr → Option (Node ℕ)
one_node a = if a == 1 then some (record { value = 5; next = null }) else none

abbrev one_item : Outbox ℕ
one_item = record { cell = one_node; first = 1; last = 1; current = 1; prev = null }

one_item-Repr : Repr one_item [] ((1, 5) ∷ [])
one_item-Repr = record {
  chain = ((λ e. omega arith), refl, tt);
  distinct = (refl, tt);
  first = refl;
  last = refl;
  current = refl;
  prev = tt;
}
