-- ===== src/Outbox/Insert.antt =====
-- emplace of src/Outbox.h.
use esp_mqtt_client.Prelude.{
  List, [], ◌∷◌, ◌++◌, ◌≡◌, ◌≢◌, refl, sym, ap, subst, Option, none, some, ◌==◌, false, inl, inr,
  ◌∙◌, arith, append_assoc, if◌then◌else◌,
}
use esp_mqtt_client.Outbox.{Ptr, null, Node, node, update, Outbox, Iterator, emplace, load}
use esp_mqtt_client.Outbox.Chain.{
  head_addr, last_addr, Distinct, Seg, last_addr-append, head_addr-append, Seg-append, Seg-split,
  Seg-update, has_of_none, Distinct-middle, Distinct-insert, snoc_cases,
}
use esp_mqtt_client.Outbox.Repr.{IsPrev, append-IsPrev, Repr}

module _ {ℓ} {A : Type ℓ} where
  -- The memory after a new node has been linked behind the last one.
  append_link :
      (cell : Ptr → Option (Node A)) (ys : List (Ptr × A)) (l : Ptr) (y : A) (fresh : Ptr) (x : A)
      → fresh ≢ null
      → cell fresh ≡ none
      → Seg cell (ys ++ ((l, y) ∷ [])) null
      → Distinct (ys ++ ((l, y) ∷ []))
      → Seg
          (update (update cell fresh (some (node x null))) l (some (node y fresh)))
          ((ys ++ ((l, y) ∷ [])) ++ ((fresh, x) ∷ []))
          null
  append_link cell ys l y fresh x ne unused s d =
      let (front, back) = Seg-split cell ys ((l, y) ∷ []) null s in
      let (_, out, _) = Distinct-middle ys l y [] d in
      let new = has_of_none cell ys l fresh front unused in
      let front' =
        Seg-update (update cell fresh (some (node x null))) ys l l (some (node y fresh)) out
          (Seg-update cell ys l fresh (some (node x null)) new front) in
      Seg-append _ (ys ++ ((l, y) ∷ [])) ((fresh, x) ∷ []) null
        (Seg-append _ ys ((l, y) ∷ []) fresh front' (back.0, ground arith, tt))
        (ne, ground arith, tt)

  pub head_null :
      (cell : Ptr → Option (Node A)) (p : List (Ptr × A)) (q : Ptr)
      → Seg cell p null
      → (if head_addr p null == null then q else head_addr p null) ≡ head_addr p q
  head_null cell [] q s = refl
  head_null cell ((a, x) ∷ p) q s = ground arith

  first_ne_null :
      (cell : Ptr → Option (Node A)) (ys : List (Ptr × A)) (l : Ptr) (y : A)
      → Seg cell (ys ++ ((l, y) ∷ [])) null
      → (head_addr (ys ++ ((l, y) ∷ [])) null == null) ≡ false
  first_ne_null cell [] l y s = ground arith
  first_ne_null cell ((a, x) ∷ ys) l y s = ground arith

  -- The effect of emplace: what it returns and the list it leaves.
  abbrev pub Emplaced : Outbox A → (s p : List (Ptr × A)) → Ptr → A → Type ℓ
  Emplaced o s p fresh x =
      (o' : Outbox A) × (it : Iterator) × (emplace fresh x o ≡ some (o', it))
      × Repr o' s (p ++ ((fresh, x) ∷ []))
      × (it.node ≡ fresh)
      × IsPrev it.prev (s ++ p)

  head_append_more :
      (ys : List (Ptr × A)) (c : Ptr × A) (zs : List (Ptr × A))
      → head_addr (ys ++ (c ∷ [])) null ≡ head_addr ((ys ++ (c ∷ [])) ++ zs) null
  head_append_more [] c zs = refl
  head_append_more (d ∷ ys) c zs = refl

  -- The two writes of emplace on a list that is not empty.
  emplace_run :
      (o : Outbox A) (l : Ptr) (y : A) (fresh : Ptr) (x : A)
      → fresh ≢ null
      → o.cell fresh ≡ none
      → l ≢ null
      → o.cell l ≡ some (node y null)
      → o.last ≡ l
      → (o.first == null) ≡ false
      → emplace fresh x o
        ≡ some (
          record o {
            cell = update (update o.cell fresh (some (node x null))) l (some (node y fresh));
            last = fresh;
            current = if o.current == null then fresh else o.current;
          },
          record { node = fresh; prev = l },
        )
  unfolding emplace load
  emplace_run o l y fresh x ne unused nl holds last_is first_is =
      let a : (fresh == null) ≡ false = ground arith in
      let b : (l == null) ≡ false = ground arith in
      let c : (l == fresh) ≡ false = ground arith in rw (a, first_is, last_is, b, c, holds)

  emplace_nonempty :
      (o : Outbox A) (s p ys : List (Ptr × A)) (l : Ptr) (y : A) (fresh : Ptr) (x : A)
      → s ++ p ≡ ys ++ ((l, y) ∷ [])
      → fresh ≢ null
      → o.cell fresh ≡ none
      → Repr o s p
      → Emplaced o s p fresh x
  emplace_nonempty o s p ys l y fresh x e ne unused r =
      let whole : Seg o.cell (ys ++ ((l, y) ∷ [])) null =
        subst (λ c. Seg o.cell c null) e r.chain in
      let apart : Distinct (ys ++ ((l, y) ∷ [])) = subst Distinct e r.distinct in
      let (front, back) = Seg-split o.cell ys ((l, y) ∷ []) null whole in
      let last_is : o.last ≡ l = r.last ∙ ap last_addr e ∙ last_addr-append ys (l, y) [] in
      let first_is : (o.first == null) ≡ false =
        rw (r.first, e) (first_ne_null o.cell ys l y whole) in
      let linked = append_link o.cell ys l y fresh x ne unused whole apart in
      let shape : (ys ++ ((l, y) ∷ [])) ++ ((fresh, x) ∷ []) ≡ s ++ (p ++ ((fresh, x) ∷ [])) =
        rw (← e) (append_assoc s p ((fresh, x) ∷ [])) in
      let current_is : (if o.current == null then fresh else o.current) ≡ head_addr p fresh =
        rw r.current (head_null o.cell p fresh (Seg-split o.cell s p null r.chain).1) in
      let cell = update (update o.cell fresh (some (node x null))) l (some (node y fresh)) in
      let unheld = has_of_none o.cell (s ++ p) null fresh r.chain unused in
      (
        record o {
          cell = cell;
          last = fresh;
          current = if o.current == null then fresh else o.current;
        },
        record { node = fresh; prev = l },
        emplace_run o l y fresh x ne unused back.0 back.1 last_is first_is,
        record {
          chain = subst (λ c. Seg cell c null) shape linked;
          distinct =
              subst Distinct (append_assoc s p ((fresh, x) ∷ []))
                (Distinct-insert (s ++ p) fresh x r.distinct unheld);
          first =
              r.first
              ∙ ap (λ c. head_addr c null) e
              ∙ head_append_more ys (l, y) ((fresh, x) ∷ [])
              ∙ ap (λ c. head_addr c null) shape;
          last =
              sym (last_addr-append (s ++ p) (fresh, x) [])
              ∙ ap last_addr (append_assoc s p ((fresh, x) ∷ []));
          current = current_is ∙ sym (head_addr-append p ((fresh, x) ∷ []) null);
          prev = r.prev;
        },
        refl,
        subst (IsPrev l) (sym e) (append-IsPrev l ys (l, y) [] refl),
      )

  emplace_empty :
      (o : Outbox A) (fresh : Ptr) (x : A) → fresh ≢ null → Repr o [] [] → Emplaced o [] [] fresh x
  unfolding emplace
  emplace_empty o fresh x ne r =
      let a : (fresh == null) ≡ false = ground arith in
      (
        record o {
          cell = update o.cell fresh (some (node x null));
          first = fresh;
          last = fresh;
          current = fresh;
        },
        record { node = fresh; prev = null },
        rw (a, r.first),
        record {
          chain = (ne, ground arith, tt);
          distinct = (refl, tt);
          first = refl;
          last = refl;
          current = refl;
          prev = tt;
        },
        refl,
        tt,
      )

  pub emplace-Repr :
      (o : Outbox A) (s p : List (Ptr × A)) (fresh : Ptr) (x : A)
      → fresh ≢ null
      → o.cell fresh ≡ none
      → Repr o s p
      → Emplaced o s p fresh x
  emplace-Repr o [] [] fresh x ne unused r = emplace_empty o fresh x ne r
  emplace-Repr o s p fresh x ne unused r = elim (snoc_cases (s ++ p)) [
    | inl e ↦ cc
    | inr (ys, l, y, e) ↦ emplace_nonempty o s p ys l y fresh x e ne unused r
  ]

  -- Without memory nothing changes.
  pub emplace-null :
      (o : Outbox A) (x : A) (fresh : Ptr)
      → fresh ≡ null
      → emplace fresh x o ≡ some (o, record { node = null; prev = null })
  unfolding emplace
  emplace-null o x fresh e = rw e
