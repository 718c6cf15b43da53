-- ===== src/Outbox/Remove.antt =====
-- remove and removeCurrent of src/Outbox.h.
use esp_mqtt_client.Prelude.{
  List, [], ◌∷◌, ◌++◌, ◌≡◌, ◌≢◌, refl, sym, ap, subst, some, ◌==◌, false, true, ◌∙◌, arith,
  append-nil, append_assoc, if◌then◌else◌, ne_swap,
}
use esp_mqtt_client.Outbox.{
  Ptr, null, node, Outbox, Iterator, load, remove_node, remove, remove_current,
}
use esp_mqtt_client.Outbox.Chain.{
  head_addr, last_addr, has, Distinct, Seg, has-append, ne-last_addr, Seg-split, Distinct-middle,
}
use esp_mqtt_client.Outbox.Repr.{IsPrev, IsPrev-append, append-IsPrev, Repr}
use esp_mqtt_client.Outbox.Unlink.{unlink_node}

module _ {ℓ} {A : Type ℓ} where
  -- Where the cursor is after a node that it has not passed is gone.
  head_removed :
      (m : List (Ptr × A)) (a : Ptr) (x : A) (after : List (Ptr × A))
      → has a m ≡ false
      → (if head_addr (m ++ ((a, x) ∷ after)) null == a
          then head_addr after null
          else head_addr (m ++ ((a, x) ∷ after)) null)
        ≡ head_addr (m ++ after) null
  head_removed [] a x after out = ground arith
  head_removed ((b, y) ∷ m) a x after out = ground arith

  IsPrev-kept :
      (q prev a : Ptr) (s : List (Ptr × A))
      → has a s ≡ false
      → IsPrev q s
      → IsPrev (if q == a then prev else q) s
  IsPrev-kept q prev a [] out h = tt
  IsPrev-kept q prev a (c ∷ s) out h =
      let e : (q == a) ≡ false = rw h (ne_swap a _ (ne-last_addr a c s out)) in rw e h

  -- _remove of a node from the cursor on.
  pub remove_ahead :
      (o : Outbox A) (s m : List (Ptr × A)) (a : Ptr) (x : A) (after : List (Ptr × A)) (prev : Ptr)
      → Repr o s (m ++ ((a, x) ∷ after))
      → IsPrev prev (s ++ m)
      → (o' : Outbox A) × (remove_node prev a o ≡ some o') × Repr o' s (m ++ after)
  remove_ahead o s m a x after prev r before_is =
      let e : s ++ (m ++ ((a, x) ∷ after)) ≡ (s ++ m) ++ ((a, x) ∷ after) =
        sym (append_assoc s m ((a, x) ∷ after)) in
      let e' : (s ++ m) ++ after ≡ s ++ (m ++ after) = append_assoc s m after in
      let chain = subst (λ c. Seg o.cell c null) e r.chain in
      let distinct = subst Distinct e r.distinct in
      let (_, out, _) = Distinct-middle (s ++ m) a x after distinct in
      let out_s : has a s ≡ false = ground (arith, has-append a s m) in
      let out_m : has a m ≡ false = ground (arith, has-append a s m) in
      let (o', run, chain', first', last', current', prev') =
        unlink_node o (s ++ m) a x after prev chain distinct
          (r.first ∙ ap (λ c. head_addr c null) e) (r.last ∙ ap last_addr e) before_is in
      (
        o',
        run,
        record {
          chain = subst (λ c. Seg o'.cell c null) e' chain';
          distinct = subst Distinct e' (Distinct-middle (s ++ m) a x after distinct).0;
          first = first' ∙ ap (λ c. head_addr c null) e';
          last = last' ∙ ap last_addr e';
          current = current' ∙ rw r.current (head_removed m a x after out_m);
          prev = rw prev' (IsPrev-kept o.prev prev a s out_s r.prev);
        },
      )

  -- The node that the cursor passed last may be the one that goes.
  IsPrev-removed :
      (q prev a : Ptr) (b : List (Ptr × A)) (x : A) (m : List (Ptr × A))
      → has a b ≡ false
      → has a m ≡ false
      → IsPrev q (b ++ ((a, x) ∷ m))
      → IsPrev prev b
      → IsPrev (if q == a then prev else q) (b ++ m)
  IsPrev-removed q prev a b x [] out_b out_m h before_is =
      let e : (q == a) ≡ true = ground (arith, IsPrev-append q b (a, x) [] h) in
      rw (e, append-nil) before_is
  IsPrev-removed q prev a b x (d ∷ ds) out_b out_m h before_is =
      let last_is : q ≡ last_addr (d ∷ ds) = IsPrev-append q b (a, x) (d ∷ ds) h in
      let e : (q == a) ≡ false = rw last_is (ne_swap a _ (ne-last_addr a d ds out_m)) in
      rw e (append-IsPrev q b d ds last_is)

  head_other :
      (a : Ptr) (p : List (Ptr × A)) → a ≢ null → has a p ≡ false → (head_addr p null == a) ≡ false
  head_other a [] ne out = ground arith
  head_other a ((b, y) ∷ p) ne out = ground arith

  -- _remove of a node that the cursor has passed.
  pub remove_passed :
      (o : Outbox A) (b : List (Ptr × A)) (a : Ptr) (x : A) (m p : List (Ptr × A)) (prev : Ptr)
      → Repr o (b ++ ((a, x) ∷ m)) p
      → IsPrev prev b
      → (o' : Outbox A) × (remove_node prev a o ≡ some o') × Repr o' (b ++ m) p
  remove_passed o b a x m p prev r before_is =
      let e : (b ++ ((a, x) ∷ m)) ++ p ≡ b ++ ((a, x) ∷ (m ++ p)) = append_assoc b ((a, x) ∷ m) p in
      let e' : b ++ (m ++ p) ≡ (b ++ m) ++ p = sym (append_assoc b m p) in
      let chain = subst (λ c. Seg o.cell c null) e r.chain in
      let distinct = subst Distinct e r.distinct in
      let (apart, out_b, out) = Distinct-middle b a x (m ++ p) distinct in
      let out_m : has a m ≡ false = ground (arith, has-append a m p) in
      let out_p : has a p ≡ false = ground (arith, has-append a m p) in
      let (o', run, chain', first', last', current', prev') =
        unlink_node o b a x (m ++ p) prev chain distinct (r.first ∙ ap (λ c. head_addr c null) e)
          (r.last ∙ ap last_addr e) before_is in
      (
        o',
        run,
        record {
          chain = subst (λ c. Seg o'.cell c null) e' chain';
          distinct = subst Distinct e' apart;
          first = first' ∙ ap (λ c. head_addr c null) e';
          last = last' ∙ ap last_addr e';
          current =
              current'
              ∙ rw (
                r.current,
                head_other a p (Seg-split o.cell b ((a, x) ∷ (m ++ p)) null chain).1.0 out_p,
              );
          prev = rw prev' (IsPrev-removed o.prev prev a b x m out_b out_m r.prev before_is);
        },
      )

  -- removeCurrent, with a current node and without.
  pub remove_current-Repr :
      (o : Outbox A) (s : List (Ptr × A)) (a : Ptr) (x : A) (p : List (Ptr × A))
      → Repr o s ((a, x) ∷ p)
      → (o' : Outbox A) × (remove_current o ≡ some o') × Repr o' s p
  unfolding remove_current
  remove_current-Repr o s a x p r =
      subst (λ c. (o' : Outbox A) × (remove_node o.prev c o ≡ some o') × Repr o' s p)
        (sym r.current)
        (remove_ahead o s [] a x p o.prev r (subst (IsPrev o.prev) (sym (append-nil s)) r.prev))

  pub remove_current_end :
      (o : Outbox A) (s : List (Ptr × A)) → Repr o s [] → remove_current o ≡ some o
  unfolding remove_current remove_node
  remove_current_end o s r = rw r.current

  -- The iterator `it` stands between `before` and `after`.
  pub record At (it : Iterator) (before after : List (Ptr × A)) : Type 0 where
    pub node : it.node ≡ head_addr after null
    pub prev : IsPrev it.prev before

  remove_run :
      (o o' : Outbox A) (it : Iterator) (a : Ptr) (x : A) (q : Ptr)
      → it.node ≡ a
      → a ≢ null
      → o.cell a ≡ some (node x q)
      → remove_node it.prev a o ≡ some o'
      → remove o it ≡ some (o', record { node = q; prev = it.prev })
  unfolding remove load
  remove_run o o' it a x q at ne holds run =
      let na : (a == null) ≡ false = ground arith in rw (at, na, holds, run)

  -- remove at an iterator leaves it at the next node, wherever the cursor is.
  pub remove-At_ahead :
      (o : Outbox A) (it : Iterator) (s m : List (Ptr × A)) (a : Ptr) (x : A)
      (after : List (Ptr × A))
      → Repr o s (m ++ ((a, x) ∷ after))
      → At it (s ++ m) ((a, x) ∷ after)
      → (o' : Outbox A) × (it' : Iterator) × (remove o it ≡ some (o', it'))
        × Repr o' s (m ++ after)
        × At it' (s ++ m) after
  remove-At_ahead o it s m a x after r at =
      let back = (Seg-split o.cell s (m ++ ((a, x) ∷ after)) null r.chain).1 in
      let here = (Seg-split o.cell m ((a, x) ∷ after) null back).1 in
      let (o', run, r') = remove_ahead o s m a x after it.prev r at.prev in
      (
        o',
        record { node = head_addr after null; prev = it.prev },
        remove_run o o' it a x (head_addr after null) at.node here.0 here.1 run,
        r',
        record { node = refl; prev = at.prev },
      )

  pub remove-At_passed :
      (o : Outbox A) (it : Iterator) (b : List (Ptr × A)) (a : Ptr) (x : A) (m p : List (Ptr × A))
      → Repr o (b ++ ((a, x) ∷ m)) p
      → At it b ((a, x) ∷ (m ++ p))
      → (o' : Outbox A) × (it' : Iterator) × (remove o it ≡ some (o', it'))
        × Repr o' (b ++ m) p
        × At it' b (m ++ p)
  remove-At_passed o it b a x m p r at =
      let whole = subst (λ c. Seg o.cell c null) (append_assoc b ((a, x) ∷ m) p) r.chain in
      let here = (Seg-split o.cell b ((a, x) ∷ (m ++ p)) null whole).1 in
      let (o', run, r') = remove_passed o b a x m p it.prev r at.prev in
      (
        o',
        record { node = head_addr (m ++ p) null; prev = it.prev },
        remove_run o o' it a x (head_addr (m ++ p) null) at.node here.0 here.1 run,
        r',
        record { node = refl; prev = at.prev },
      )

  pub remove_end :
      (o : Outbox A) (it : Iterator) (b : List (Ptr × A)) → At it b [] → remove o it ≡ some (o, it)
  unfolding remove
  remove_end o it b at = rw at.node
