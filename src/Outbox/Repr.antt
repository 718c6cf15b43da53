-- ===== src/Outbox/Repr.antt =====
-- When the linked list of src/Outbox.h stands for a sequence with a cursor.
use esp_mqtt_client.Prelude.{ℕ, List, [], ◌∷◌, ◌++◌, ◌≡◌, refl, sym, ap, Option, ◌∙◌, length}
use esp_mqtt_client.Outbox.{Ptr, null, Node, Outbox, new_outbox}
use esp_mqtt_client.Outbox.Chain.{head_addr, last_addr, last_addr-append, Distinct, Seg}
use esp_mqtt_client.Outbox.Queue.{Queue, empty_queue}

module _ {ℓ} {A : Type ℓ} where
  -- `q` is the address of the last passed node, where one has been passed.
  abbrev pub IsPrev : Ptr → List (Ptr × A) → Type 0
  IsPrev q [] = Unit {0}
  IsPrev q (c ∷ cs) = q ≡ last_addr (c ∷ cs)

  pub IsPrev-append :
      (q : Ptr) (b : List (Ptr × A)) (c : Ptr × A) (cs : List (Ptr × A))
      → IsPrev q (b ++ (c ∷ cs))
      → q ≡ last_addr (c ∷ cs)
  IsPrev-append q [] c cs h = h
  IsPrev-append q (d ∷ b) c cs h = h ∙ last_addr-append (d ∷ b) c cs

  pub append-IsPrev :
      (q : Ptr) (b : List (Ptr × A)) (c : Ptr × A) (cs : List (Ptr × A))
      → q ≡ last_addr (c ∷ cs)
      → IsPrev q (b ++ (c ∷ cs))
  append-IsPrev q [] c cs h = h
  append-IsPrev q (d ∷ b) c cs h = h ∙ sym (last_addr-append (d ∷ b) c cs)

  -- The nodes `s`, which the cursor has passed, and `p` from the current one on. Nothing is said of
  -- `prev` while the cursor is at the front: resetCurrent leaves a stale value there.
  pub record Repr (o : Outbox A) (s p : List (Ptr × A)) : Type ℓ where
    pub chain : Seg o.cell (s ++ p) null
    pub distinct : Distinct (s ++ p)
    pub first : o.first ≡ head_addr (s ++ p) null
    pub last : o.last ≡ last_addr (s ++ p)
    pub current : o.current ≡ head_addr p null
    pub prev : IsPrev o.prev s

  abbrev pub values : List (Ptr × A) → List A
  values [] = []
  values ((a, x) ∷ cs) = x ∷ values cs

  pub values-append : (s p : List (Ptr × A)) → values (s ++ p) ≡ values s ++ values p
  values-append [] p = refl
  values-append ((a, x) ∷ s) p = ap (◌∷◌ x) (values-append s p)

  pub length-values : (s : List (Ptr × A)) → length (values s) ≡ length s
  length-values [] = refl
  length-values ((a, x) ∷ s) = ap ℕ.suc (length-values s)

  abbrev pub view : List (Ptr × A) → List (Ptr × A) → Queue A
  view s p = record { sent = values s; pending = values p }

  -- The abstraction: the linked list stands for the queue.
  pub record Represents (o : Outbox A) (q : Queue A) : Type ℓ where
    pub passed : List (Ptr × A)
    pub ahead : List (Ptr × A)
    pub repr : Repr o passed ahead
    pub same : view passed ahead ≡ q

  pub represents :
      {o : Outbox A} (s p : List (Ptr × A)) {q : Queue A}
      → Repr o s p
      → view s p ≡ q
      → Represents o q
  represents s p r e = record { passed = s; ahead = p; repr = r; same = e }

  pub new_outbox-Represents :
      (cell : Ptr → Option (Node A)) → Represents (new_outbox cell) empty_queue
  unfolding new_outbox
  new_outbox-Represents cell =
      represents [] []
        (record { chain = tt; distinct = tt; first = refl; last = refl; current = refl; prev = tt })
        refl
