-- ===== src/Outbox/Bypass.antt =====
-- Lists of nodes (src/Outbox.h) of which one node is taken out.
use esp_mqtt_client.Prelude.{
  List, [], ◌∷◌, ◌++◌, ◌≡◌, refl, subst, Option, none, some, ◌==◌, false, arith, append_assoc,
}
use esp_mqtt_client.Outbox.{Ptr, null, Node, node, update}
use esp_mqtt_client.Outbox.Chain.{
  head_addr, last_addr, has, Distinct, Seg, has-append, last_addr-append, ne-last_addr, Seg-append,
  Seg-split, Seg-update, Distinct-middle,
}

module _ {ℓ} {A : Type ℓ} where
  -- The memory after the node behind `(p, y)` has been unlinked and freed.
  pub Seg-bypass :
      (cell : Ptr → Option (Node A)) (bs : List (Ptr × A)) (p : Ptr) (y : A) (a : Ptr) (x : A)
      (after : List (Ptr × A))
      → Seg cell ((bs ++ ((p, y) ∷ [])) ++ ((a, x) ∷ after)) null
      → Distinct ((bs ++ ((p, y) ∷ [])) ++ ((a, x) ∷ after))
      → Seg
          (update (update cell p (some (node y (head_addr after null)))) a none)
          ((bs ++ ((p, y) ∷ [])) ++ after)
          null
  Seg-bypass cell bs p y a x after s d =
      let front : List (Ptr × A) = bs ++ ((p, y) ∷ []) in
      let (s_front, s_back) = Seg-split cell front ((a, x) ∷ after) null s in
      let (s_bs, s_p) = Seg-split cell bs ((p, y) ∷ []) a s_front in
      let (d', a_front, a_after) = Distinct-middle front a x after d in
      let (_, p_bs, p_after) =
        Distinct-middle bs p y after (subst Distinct (append_assoc bs ((p, y) ∷ []) after) d') in
      let linked : Ptr → Option (Node A) = update cell p (some (node y (head_addr after null))) in
      let a_bs : has a bs ≡ false = ground (arith, has-append a bs ((p, y) ∷ [])) in
      let a_p : (p == a) ≡ false = ground (arith, has-append a bs ((p, y) ∷ [])) in
      Seg-append _ front after null
        (Seg-append _ bs ((p, y) ∷ []) (head_addr after null)
          (Seg-update linked bs p a none a_bs (Seg-update cell bs p p _ p_bs s_bs))
          (s_p.0, ground arith, tt))
        (Seg-update linked after null a none a_after
          (Seg-update cell after null p _ p_after s_back.2))

  -- In `front ++ (a, x) ∷ after` with a front that is not empty, the first node is not `a`, and not
  -- the last one either.
  front_apart :
      (c : Ptr × A) (cs : List (Ptr × A)) (a : Ptr) (x : A) (after : List (Ptr × A))
      → Distinct ((c ∷ cs) ++ ((a, x) ∷ after))
      → (head_addr (c ∷ cs) null == a) ≡ false
  front_apart (b, y) cs a x after d = ground (arith, has-append b cs ((a, x) ∷ after))

  first_apart :
      (c : Ptr × A) (cs : List (Ptr × A)) (d : Ptr × A) (ds : List (Ptr × A))
      → Distinct ((c ∷ cs) ++ (d ∷ ds))
      → (head_addr (c ∷ cs) null == last_addr ((c ∷ cs) ++ (d ∷ ds))) ≡ false
  first_apart (b, y) cs d ds apart =
      rw (last_addr-append ((b, y) ∷ cs) d ds)
        (ne-last_addr b d ds (ground (arith, has-append b cs (d ∷ ds))))

  -- The same three facts for a front that ends in a known node.
  pub front_facts :
      (bs : List (Ptr × A)) (p : Ptr) (y : A) (a : Ptr) (x : A) (after : List (Ptr × A))
      → Distinct ((bs ++ ((p, y) ∷ [])) ++ ((a, x) ∷ after))
      → ((first : Ptr) × (head_addr ((bs ++ ((p, y) ∷ [])) ++ ((a, x) ∷ after)) null ≡ first)
          × (head_addr ((bs ++ ((p, y) ∷ [])) ++ after) null ≡ first)
          × ((first == a) ≡ false)
          × ((first == last_addr ((a, x) ∷ after)) ≡ false))
  front_facts [] p y a x after d =
      (p, refl, refl, front_apart (p, y) [] a x after d, first_apart (p, y) [] (a, x) after d)
  front_facts ((b, z) ∷ bs) p y a x after d = (
    b,
    refl,
    refl,
    front_apart (b, z) (bs ++ ((p, y) ∷ [])) a x after d,
    rw (← last_addr-append ((b, z) ∷ (bs ++ ((p, y) ∷ []))) (a, x) after)
        (first_apart (b, z) (bs ++ ((p, y) ∷ [])) (a, x) after d),
  )
