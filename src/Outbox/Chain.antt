-- ===== src/Outbox/Chain.antt =====
-- Segments of the linked list of src/Outbox.h: which nodes lie at which addresses.
use mathlib.Core.Bool.{or_assoc}
use esp_mqtt_client.Prelude.{
  List, [], ◌∷◌, ◌++◌, ◌≡◌, ◌≢◌, refl, Bool, true, false, ◌||◌, Option, none, some, ◌==◌, arith,
  ◌⊎◌, inl, inr,
}
use esp_mqtt_client.Outbox.{Ptr, null, Node, node, update}

module _ {ℓ} {A : Type ℓ} where
  -- The address of the first node, or where the list goes on.
  abbrev pub head_addr : List (Ptr × A) → Ptr → Ptr
  head_addr [] stop = stop
  head_addr ((a, x) ∷ xs) stop = a

  abbrev pub last_addr : List (Ptr × A) → Ptr
  last_addr [] = null
  last_addr ((a, x) ∷ []) = a
  last_addr (c ∷ d ∷ xs) = last_addr (d ∷ xs)

  abbrev pub has : Ptr → List (Ptr × A) → Bool
  has p [] = false
  has p ((a, x) ∷ xs) = (p == a) || has p xs

  abbrev pub Distinct : List (Ptr × A) → Type 0
  Distinct [] = Unit {0}
  Distinct ((a, x) ∷ xs) = (has a xs ≡ false) × Distinct xs

  -- The nodes `xs` lie in memory, each linked to the next and the last one to `stop`.
  abbrev pub Seg : (Ptr → Option (Node A)) → List (Ptr × A) → Ptr → Type ℓ
  Seg cell [] stop = Unit {ℓ}
  Seg cell ((a, x) ∷ xs) stop =
      (a ≢ null) × (cell a ≡ some (node x (head_addr xs stop))) × Seg cell xs stop

  pub has-append : (p : Ptr) (xs ys : List (Ptr × A)) → has p (xs ++ ys) ≡ (has p xs || has p ys)
  has-append p [] ys = refl
  has-append p (x ∷ xs) ys = rw (has-append p xs ys, or_assoc)

  pub last_addr-append :
      (xs : List (Ptr × A)) (y : Ptr × A) (ys : List (Ptr × A))
      → last_addr (xs ++ (y ∷ ys)) ≡ last_addr (y ∷ ys)
  last_addr-append [] y ys = refl
  last_addr-append (x ∷ []) y ys = refl
  last_addr-append (x ∷ x' ∷ xs) y ys = last_addr-append (x' ∷ xs) y ys

  pub has-last_addr : (y : Ptr × A) (ys : List (Ptr × A)) → has (last_addr (y ∷ ys)) (y ∷ ys) ≡ true
  has-last_addr (a, x) [] = ground arith
  has-last_addr (a, x) (z ∷ zs) = ground (arith, has-last_addr z zs)

  -- An address outside a list is not that of its last node.
  pub ne-last_addr :
      (a : Ptr) (y : Ptr × A) (ys : List (Ptr × A))
      → has a (y ∷ ys) ≡ false
      → (a == last_addr (y ∷ ys)) ≡ false
  ne-last_addr a (b, x) [] out = ground arith
  ne-last_addr a (b, x) (z ∷ zs) out = ne-last_addr a z zs (ground arith)

  pub head_addr-append :
      (xs ys : List (Ptr × A)) (stop : Ptr)
      → head_addr (xs ++ ys) stop ≡ head_addr xs (head_addr ys stop)
  head_addr-append [] ys stop = refl
  head_addr-append (x ∷ xs) ys stop = refl

  pub Seg-append :
      (cell : Ptr → Option (Node A)) (xs ys : List (Ptr × A)) (stop : Ptr)
      → Seg cell xs (head_addr ys stop)
      → Seg cell ys stop
      → Seg cell (xs ++ ys) stop
  Seg-append cell [] ys stop s t = t
  Seg-append cell ((a, x) ∷ xs) ys stop s t =
      (s.0, rw (head_addr-append xs ys stop) s.1, Seg-append cell xs ys stop s.2 t)

  pub Seg-split :
      (cell : Ptr → Option (Node A)) (xs ys : List (Ptr × A)) (stop : Ptr)
      → Seg cell (xs ++ ys) stop
      → Seg cell xs (head_addr ys stop) × Seg cell ys stop
  Seg-split cell [] ys stop s = (tt, s)
  Seg-split cell ((a, x) ∷ xs) ys stop s =
      let (front, back) = Seg-split cell xs ys stop s.2 in
      ((s.0, rw (head_addr-append xs ys stop) at s.1, front), back)

  -- A segment survives a write to an address that is none of its own.
  pub Seg-update :
      (cell : Ptr → Option (Node A)) (xs : List (Ptr × A)) (stop p : Ptr) (c : Option (Node A))
      → has p xs ≡ false
      → Seg cell xs stop
      → Seg (update cell p c) xs stop
  Seg-update cell [] stop p c out s = tt
  Seg-update cell ((a, x) ∷ xs) stop p c out s =
      (s.0, ground arith, Seg-update cell xs stop p c (ground arith) s.2)

  -- An address without a node is in no segment, and neither is `nullptr`.
  pub has_of_none :
      (cell : Ptr → Option (Node A)) (xs : List (Ptr × A)) (stop p : Ptr)
      → Seg cell xs stop
      → cell p ≡ none
      → has p xs ≡ false
  has_of_none cell [] stop p s e = refl
  has_of_none cell ((a, x) ∷ xs) stop p s e = ground (arith, has_of_none cell xs stop p s.2)

  pub has-null :
      (cell : Ptr → Option (Node A)) (xs : List (Ptr × A)) (stop : Ptr)
      → Seg cell xs stop
      → has null xs ≡ false
  has-null cell [] stop s = refl
  has-null cell ((a, x) ∷ xs) stop s = ground (arith, has-null cell xs stop s.2)

  pub Distinct-middle :
      (xs : List (Ptr × A)) (a : Ptr) (x : A) (ys : List (Ptr × A))
      → Distinct (xs ++ ((a, x) ∷ ys))
      → Distinct (xs ++ ys) × (has a xs ≡ false) × (has a ys ≡ false)
  Distinct-middle [] a x ys d = (d.1, refl, d.0)
  Distinct-middle ((b, y) ∷ xs) a x ys d =
      ground
        (arith, Distinct-middle xs a x ys d.1, has-append b xs ((a, x) ∷ ys), has-append b xs ys)

  pub Distinct-insert :
      (xs : List (Ptr × A)) (a : Ptr) (x : A)
      → Distinct xs
      → has a xs ≡ false
      → Distinct (xs ++ ((a, x) ∷ []))
  Distinct-insert [] a x d out = (refl, tt)
  Distinct-insert ((b, y) ∷ xs) a x d out =
      ground (arith, Distinct-insert xs a x d.1, has-append b xs ((a, x) ∷ []))

  -- A list is empty or has a last item.
  pub snoc_cases :
      (xs : List (Ptr × A))
      → (xs ≡ []) ⊎ ((ys : List (Ptr × A)) × (p : Ptr) × (y : A) × (xs ≡ ys ++ ((p, y) ∷ [])))
  snoc_cases [] = inl refl
  snoc_cases ((a, x) ∷ xs) = elim (snoc_cases xs) [
    | inl e ↦ inr ([], a, x, rw e)
    | inr (ys, p, y, e) ↦ inr ((a, x) ∷ ys, p, y, rw e)
  ]
