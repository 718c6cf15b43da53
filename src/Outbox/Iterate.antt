-- ===== src/Outbox/Iterate.antt =====
-- The cursor and the iterator of src/Outbox.h: next, resetCurrent, getCurrent, front, operator++,
-- remove at an iterator, size and empty.
use esp_mqtt_client.Prelude.{
  ℕ, zero, suc, ◌+◌, ◌≤◌, List, [], ◌∷◌, ◌++◌, ◌≡◌, refl, sym, ap, subst, Option, some, ◌==◌, false,
  ◌∙◌, arith, append_assoc, length,
}
use esp_mqtt_client.Outbox.{
  Ptr, null, Node, Outbox, Iterator, advance, front, next_current, reset_current, get_current,
  size_loop,
}
use esp_mqtt_client.Outbox.Chain.{head_addr, last_addr, Distinct, Seg, Seg-split}
use esp_mqtt_client.Outbox.Repr.{append-IsPrev, Repr}
use esp_mqtt_client.Outbox.Queue
use esp_mqtt_client.Outbox.Queue.{Queue}
use esp_mqtt_client.Outbox.Repr.{values}
use esp_mqtt_client.Outbox.Remove.{At}

module _ {ℓ} {A : Type ℓ} where
  -- next, at a current node and behind the last one.
  pub next_current-Repr :
      (o : Outbox A) (s : List (Ptr × A)) (a : Ptr) (x : A) (p : List (Ptr × A))
      → Repr o s ((a, x) ∷ p)
      → (o' : Outbox A) × (next_current o ≡ some o') × Repr o' (s ++ ((a, x) ∷ [])) p
  unfolding next_current
  next_current-Repr o s a x p r =
      let back = (Seg-split o.cell s ((a, x) ∷ p) null r.chain).1 in
      let na : (a == null) ≡ false = ground arith in
      let e : s ++ ((a, x) ∷ p) ≡ (s ++ ((a, x) ∷ [])) ++ p =
        sym (append_assoc s ((a, x) ∷ []) p) in
      (
        record o { prev = o.current; current = head_addr p null },
        simp (r.current, na, back.1),
        record {
          chain = subst (λ c. Seg o.cell c null) e r.chain;
          distinct = subst Distinct e r.distinct;
          first = r.first ∙ ap (λ c. head_addr c null) e;
          last = r.last ∙ ap last_addr e;
          current = refl;
          prev = append-IsPrev o.current s (a, x) [] r.current;
        },
      )

  pub next_current_end : (o : Outbox A) (s : List (Ptr × A)) → Repr o s [] → next_current o ≡ some o
  unfolding next_current
  next_current_end o s r = rw r.current

  pub reset_current-Repr :
      (o : Outbox A) (s p : List (Ptr × A)) → Repr o s p → Repr (reset_current o) [] (s ++ p)
  unfolding reset_current
  reset_current-Repr o s p r = record {
    chain = r.chain;
    distinct = r.distinct;
    first = r.first;
    last = r.last;
    current = r.first;
    prev = tt;
  }

  -- getCurrent gives the first item that the cursor has not passed.
  pub get_current-Repr :
      (o : Outbox A) (s p : List (Ptr × A))
      → Repr o s p
      → get_current o ≡ some (Queue.head? (values p))
  unfolding get_current
  get_current-Repr o s [] r = rw r.current
  get_current-Repr o s ((a, x) ∷ p) r =
      let back = (Seg-split o.cell s ((a, x) ∷ p) null r.chain).1 in
      let na : (a == null) ≡ false = ground arith in rw (r.current, na, back.1)

  pub front-At : (o : Outbox A) (s p : List (Ptr × A)) → Repr o s p → At (front o) [] (s ++ p)
  unfolding front
  front-At o s p r = record { node = r.first; prev = tt }

  -- One step of the iterator; it stays behind the last node.
  pub advance-At :
      (o : Outbox A) (it : Iterator) (b : List (Ptr × A)) (a : Ptr) (x : A) (c : List (Ptr × A))
      → Seg o.cell (b ++ ((a, x) ∷ c)) null
      → At it b ((a, x) ∷ c)
      → (it' : Iterator) × (advance o it ≡ some it') × At it' (b ++ ((a, x) ∷ [])) c
  unfolding advance
  advance-At o it b a x c s at =
      let back = (Seg-split o.cell b ((a, x) ∷ c) null s).1 in
      let na : (a == null) ≡ false = ground arith in
      (
        record { node = head_addr c null; prev = it.node },
        simp (at.node, na, back.1),
        record { node = refl; prev = append-IsPrev it.node b (a, x) [] at.node },
      )

  pub advance_end :
      (o : Outbox A) (it : Iterator) (b : List (Ptr × A)) → At it b [] → advance o it ≡ some it
  unfolding advance
  advance_end o it b at = rw at.node

  -- The loop of size counts the nodes, given as much fuel as there are nodes.
  pub size_loop-length :
      (fuel : ℕ) (cell : Ptr → Option (Node A)) (xs : List (Ptr × A)) (count : ℕ)
      → Seg cell xs null
      → length xs ≤ fuel
      → size_loop fuel cell (head_addr xs null) count ≡ some (count + length xs)
  unfolding size_loop
  size_loop-length fuel cell [] count s h = ap some (omega arith)
  size_loop-length zero cell ((a, x) ∷ xs) count s h = absurd (omega arith)
  size_loop-length (suc fuel) cell ((zero, x) ∷ xs) count s h = absurd (s.0 refl)
  size_loop-length (suc fuel) cell ((suc a, x) ∷ xs) count s h =
      let na : (suc a == null) ≡ false = ground arith in
      rw (na, s.1)
        (size_loop-length fuel cell xs (count + 1) s.2 (omega arith) ∙ ap some (omega arith))
