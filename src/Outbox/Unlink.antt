-- ===== src/Outbox/Unlink.antt =====
-- The private _remove of src/Outbox.h: the four ways to take a node out.
use esp_mqtt_client.Prelude.{
  List, [], ◌∷◌, ◌++◌, ◌≡◌, refl, sym, ap, subst, none, some, ◌==◌, false, true, inl, inr, ◌∙◌,
  arith, append-nil, if◌then◌else◌, ne_swap,
}
use esp_mqtt_client.Outbox.{Ptr, null, node, update, Outbox, remove_node}
use esp_mqtt_client.Outbox.Chain.{
  head_addr, last_addr, Distinct, Seg, last_addr-append, ne-last_addr, Seg-split, Seg-update,
  Distinct-middle, snoc_cases,
}
use esp_mqtt_client.Outbox.Repr.{IsPrev, IsPrev-append}
use esp_mqtt_client.Outbox.Bypass.{Seg-bypass, front_facts}

module _ {ℓ} {A : Type ℓ} where
  -- What _remove does to the list and the fields, for a node with nodes before and behind it.
  abbrev pub Unlinked : Outbox A → (before after : List (Ptr × A)) → (prev a : Ptr) → Type ℓ
  Unlinked o before after prev a =
      (o' : Outbox A) × (remove_node prev a o ≡ some o')
      × Seg o'.cell (before ++ after) null
      × (o'.first ≡ head_addr (before ++ after) null)
      × (o'.last ≡ last_addr (before ++ after))
      × (o'.current ≡ (if o.current == a then head_addr after null else o.current))
      × (o'.prev ≡ (if o.prev == a then prev else o.prev))

  unlink_only :
      (o : Outbox A) (prev a : Ptr) (x : A)
      → Seg o.cell ((a, x) ∷ []) null
      → o.first ≡ a
      → o.last ≡ a
      → Unlinked o [] [] prev a
  unfolding remove_node
  unlink_only o prev a x s first last =
      let na : (a == null) ≡ false = ground arith in
      let same : (o.first == o.last) ≡ true = ground arith in
      (
        record o {
          cell = update o.cell a none;
          first = null;
          last = null;
          current = if o.current == a then null else o.current;
          prev = if o.prev == a then prev else o.prev;
        },
        rw (na, s.1, same),
        tt,
        refl,
        refl,
        refl,
        refl,
      )

  unlink_first :
      (o : Outbox A) (prev a : Ptr) (x : A) (b : Ptr) (y : A) (after : List (Ptr × A))
      → Seg o.cell ((a, x) ∷ (b, y) ∷ after) null
      → Distinct ((a, x) ∷ (b, y) ∷ after)
      → o.first ≡ a
      → o.last ≡ last_addr ((b, y) ∷ after)
      → Unlinked o [] ((b, y) ∷ after) prev a
  unfolding remove_node
  unlink_first o prev a x b y after s d first last =
      let na : (a == null) ≡ false = ground arith in
      let apart : (o.first == o.last) ≡ false =
        rw (first, last) (ne-last_addr a (b, y) after d.0) in
      let at_front : (o.first == a) ≡ true = ground arith in
      (
        record o {
          cell = update o.cell a none;
          first = b;
          current = if o.current == a then b else o.current;
          prev = if o.prev == a then prev else o.prev;
        },
        rw (na, s.1, apart, at_front),
        Seg-update o.cell ((b, y) ∷ after) null a none d.0 s.2,
        refl,
        last,
        refl,
        refl,
      )

  unlink_last :
      (o : Outbox A) (bs : List (Ptr × A)) (p : Ptr) (y : A) (a : Ptr) (x : A)
      → Seg o.cell ((bs ++ ((p, y) ∷ [])) ++ ((a, x) ∷ [])) null
      → Distinct ((bs ++ ((p, y) ∷ [])) ++ ((a, x) ∷ []))
      → o.first ≡ head_addr ((bs ++ ((p, y) ∷ [])) ++ ((a, x) ∷ [])) null
      → o.last ≡ a
      → Unlinked o (bs ++ ((p, y) ∷ [])) [] p a
  unfolding remove_node
  unlink_last o bs p y a x s d first last =
      let (s_front, s_back) = Seg-split o.cell (bs ++ ((p, y) ∷ [])) ((a, x) ∷ []) null s in
      let (_, s_p) = Seg-split o.cell bs ((p, y) ∷ []) a s_front in
      let (f, e, e', fa, fl) = front_facts bs p y a x [] d in
      let na : (a == null) ≡ false = ground arith in
      let np : (p == null) ≡ false = ground arith in
      let apart : (o.first == o.last) ≡ false = rw (first, e, last) fl in
      let inner : (o.first == a) ≡ false = rw (first, e) fa in
      let at_end : (o.last == a) ≡ true = ground arith in
      (
        record o {
          cell = update (update o.cell p (some (node y null))) a none;
          last = p;
          current = if o.current == a then null else o.current;
          prev = if o.prev == a then p else o.prev;
        },
        rw (na, s_back.1, apart, inner, at_end, np, s_p.1),
        Seg-bypass o.cell bs p y a x [] s d,
        first ∙ e ∙ sym e',
        sym (ap last_addr (append-nil (bs ++ ((p, y) ∷ []))) ∙ last_addr-append bs (p, y) []),
        refl,
        refl,
      )

  unlink_middle :
      (o : Outbox A) (bs : List (Ptr × A)) (p : Ptr) (y : A) (a : Ptr) (x : A) (b : Ptr) (z : A)
      (after : List (Ptr × A))
      → Seg o.cell ((bs ++ ((p, y) ∷ [])) ++ ((a, x) ∷ (b, z) ∷ after)) null
      → Distinct ((bs ++ ((p, y) ∷ [])) ++ ((a, x) ∷ (b, z) ∷ after))
      → o.first ≡ head_addr ((bs ++ ((p, y) ∷ [])) ++ ((a, x) ∷ (b, z) ∷ after)) null
      → o.last ≡ last_addr ((b, z) ∷ after)
      → Unlinked o (bs ++ ((p, y) ∷ [])) ((b, z) ∷ after) p a
  unfolding remove_node
  unlink_middle o bs p y a x b z after s d first last =
      let front : List (Ptr × A) = bs ++ ((p, y) ∷ []) in
      let (s_front, s_back) = Seg-split o.cell front ((a, x) ∷ (b, z) ∷ after) null s in
      let (_, s_p) = Seg-split o.cell bs ((p, y) ∷ []) a s_front in
      let (f, e, e', fa, fl) = front_facts bs p y a x ((b, z) ∷ after) d in
      let (_, _, out) = Distinct-middle front a x ((b, z) ∷ after) d in
      let na : (a == null) ≡ false = ground arith in
      let np : (p == null) ≡ false = ground arith in
      let apart : (o.first == o.last) ≡ false = rw (first, e, last) fl in
      let inner : (o.first == a) ≡ false = rw (first, e) fa in
      let not_end : (o.last == a) ≡ false =
        rw last (ne_swap a _ (ne-last_addr a (b, z) after out)) in
      (
        record o {
          cell = update (update o.cell p (some (node y b))) a none;
          current = if o.current == a then b else o.current;
          prev = if o.prev == a then p else o.prev;
        },
        rw (na, s_back.1, apart, inner, not_end, np, s_p.1),
        Seg-bypass o.cell bs p y a x ((b, z) ∷ after) s d,
        first ∙ e ∙ sym e',
        last ∙ sym (last_addr-append front (b, z) after),
        refl,
        refl,
      )

  unlink_behind :
      (o : Outbox A) (bs : List (Ptr × A)) (p : Ptr) (y : A) (a : Ptr) (x : A)
      (after : List (Ptr × A))
      → Seg o.cell ((bs ++ ((p, y) ∷ [])) ++ ((a, x) ∷ after)) null
      → Distinct ((bs ++ ((p, y) ∷ [])) ++ ((a, x) ∷ after))
      → o.first ≡ head_addr ((bs ++ ((p, y) ∷ [])) ++ ((a, x) ∷ after)) null
      → o.last ≡ last_addr ((a, x) ∷ after)
      → Unlinked o (bs ++ ((p, y) ∷ [])) after p a
  unlink_behind o bs p y a x [] s d first last = unlink_last o bs p y a x s d first last
  unlink_behind o bs p y a x ((b, z) ∷ after) s d first last =
      unlink_middle o bs p y a x b z after s d first last

  unlink_front :
      (o : Outbox A) (prev a : Ptr) (x : A) (after : List (Ptr × A))
      → Seg o.cell ((a, x) ∷ after) null
      → Distinct ((a, x) ∷ after)
      → o.first ≡ a
      → o.last ≡ last_addr ((a, x) ∷ after)
      → Unlinked o [] after prev a
  unlink_front o prev a x [] s d first last = unlink_only o prev a x s first last
  unlink_front o prev a x ((b, y) ∷ after) s d first last =
      unlink_first o prev a x b y after s d first last

  -- `_remove` on any node of a list, given the address of the node before it if there is one.
  pub unlink_node :
      (o : Outbox A) (before : List (Ptr × A)) (a : Ptr) (x : A) (after : List (Ptr × A))
      (prev : Ptr)
      → Seg o.cell (before ++ ((a, x) ∷ after)) null
      → Distinct (before ++ ((a, x) ∷ after))
      → o.first ≡ head_addr (before ++ ((a, x) ∷ after)) null
      → o.last ≡ last_addr (before ++ ((a, x) ∷ after))
      → IsPrev prev before
      → Unlinked o before after prev a
  unlink_node o before a x after prev s d first last before_is = elim (snoc_cases before) [
    | inl e ↦
        rw e (unlink_front o prev a x after (rw e at s) (rw e at d) (rw e at first) (rw e at last))
    | inr (bs, p, y, e) ↦
        let prev_is : prev ≡ p =
          IsPrev-append prev bs (p, y) [] (subst (IsPrev prev) e before_is) in
        rw (e, prev_is)
          (unlink_behind o bs p y a x after (rw e at s) (rw e at d) (rw e at first)
            (last ∙ last_addr-append before (a, x) after))
  ]
