-- ===== src/Client/Clear.antt =====
-- What _clearQueue of src/MqttClient.cpp leaves in the outbox.
use esp_mqtt_client.Prelude.{
  ℕ, zero, suc, ◌+◌, ◌-◌, ◌≤◌, ◌<◌, ◌≡◌, refl, sym, ap, ◌∙◌, List, [], ◌∷◌, ◌++◌, none, some, Bool,
  true, false, length, length-append, get_elem?, arith, ltb, if◌then◌else◌, subst, Bool-cases, inl,
  inr, get_elem?-append_middle, append_assoc,
}
use esp_mqtt_client.Outbox.Queue
use esp_mqtt_client.Outbox.Queue.{Queue}
use esp_mqtt_client.Client.{Client, OutgoingPacket}
use esp_mqtt_client.Client.Queueing.{clear_loop, clear_queue, keeps}

-- The items that pass a test, in order.
abbrev pub filter {ℓ} : {A : Type ℓ} → (A → Bool) → List A → List A
filter p [] = []
filter p (x ∷ xs) = if p x then x ∷ filter p xs else filter p xs

module _ {ℓ} {A : Type ℓ} where
  pub remove_nth-middle :
      (xs : List A) (y : A) (ys : List A) → Queue.remove_nth (length xs) (xs ++ (y ∷ ys)) ≡ xs ++ ys
  remove_nth-middle [] y ys = refl
  remove_nth-middle (x ∷ xs) y ys = ap (◌∷◌ x) (remove_nth-middle xs y ys)

  remove_nth-append_right :
      (xs : List A) (k : ℕ) (ys : List A)
      → length xs ≤ k
      → Queue.remove_nth k (xs ++ ys) ≡ xs ++ Queue.remove_nth (k - length xs) ys
  remove_nth-append_right [] k ys h =
      let same : k - 0 ≡ k = omega arith in ap (λ n. Queue.remove_nth n ys) (sym same)
  remove_nth-append_right (x ∷ xs) zero ys h = absurd (omega arith)
  remove_nth-append_right (x ∷ xs) (suc k) ys h =
      let same : suc k - suc (length xs) ≡ k - length xs = omega arith in
      ap (◌∷◌ x) (
        remove_nth-append_right xs k ys (omega arith)
        ∙ ap (λ n. xs ++ Queue.remove_nth n ys) (sym same))

  remove_nth-append_left :
      (xs : List A) (k : ℕ) (ys : List A)
      → k < length xs
      → Queue.remove_nth k (xs ++ ys) ≡ Queue.remove_nth k xs ++ ys
  remove_nth-append_left [] k ys h = absurd (omega arith)
  remove_nth-append_left (x ∷ xs) zero ys h = refl
  remove_nth-append_left (x ∷ xs) (suc k) ys h =
      ap (◌∷◌ x) (remove_nth-append_left xs k ys (omega arith))

  -- On the whole sequence, removal is removal from a list.
  pub items-remove_at :
      (k : ℕ) (q : Queue A) → Queue.items (Queue.remove_at k q) ≡ Queue.remove_nth k (Queue.items q)
  items-remove_at k q = elim (Bool-cases (ltb k (length q.sent))) [
    | inl y ↦ rw y (sym (remove_nth-append_left q.sent k q.pending (ground arith)))
    | inr n ↦ rw n (sym (remove_nth-append_right q.sent k q.pending (ground arith)))
  ]

module _ {ℓ} {A : Type ℓ} where
  get_elem?_past : (xs : List A) (k : ℕ) → length xs ≤ k → get_elem? xs k ≡ none
  get_elem?_past [] k h = refl
  get_elem?_past (x ∷ xs) zero h = absurd (omega arith)
  get_elem?_past (x ∷ xs) (suc k) h = get_elem?_past xs k (omega arith)

  item_at :
      (xs ys zs : List A) (y : A) (k : ℕ)
      → k ≡ length xs + length ys
      → get_elem? (xs ++ (ys ++ (y ∷ zs))) k ≡ some y
  item_at xs ys zs y k e =
      let same : k ≡ length (xs ++ ys) = omega (arith, length-append xs ys) in
      ap (get_elem? (xs ++ (ys ++ (y ∷ zs)))) same
      ∙ ap (λ l. get_elem? l (length (xs ++ ys))) (sym (append_assoc xs ys (y ∷ zs)))
      ∙ get_elem?-append_middle (xs ++ ys) y zs

  remove_pending :
      (sent ys zs : List A) (y : A) (k : ℕ)
      → k ≡ length sent + length ys
      → Queue.remove_at k (record { sent = sent; pending = ys ++ (y ∷ zs) })
        ≡ record { sent = sent; pending = ys ++ zs }
  remove_pending sent ys zs y k e =
      let over : ltb k (length sent) ≡ false = ground arith in
      let same : k - length sent ≡ length ys = omega arith in
      rw (over, same, remove_nth-middle ys y zs) refl

  remove_sent :
      (ys zs pending : List A) (y : A) (k : ℕ)
      → k ≡ length ys
      → Queue.remove_at k (record { sent = ys ++ (y ∷ zs); pending = pending })
        ≡ record { sent = ys ++ zs; pending = pending }
  remove_sent ys zs pending y k e =
      let under : ltb k (length (ys ++ (y ∷ zs))) ≡ true =
        ground (arith, length-append ys (y ∷ zs)) in
      rw (under, e, remove_nth-middle ys y zs) refl

-- The loop behind the cursor: `done` has been kept.
clear_pending :
    (fuel : ℕ) (keep : OutgoingPacket → Bool) (sent done todo : List OutgoingPacket) (k : ℕ)
    → length todo ≤ fuel
    → k ≡ length sent + length done
    → clear_loop fuel keep k (record { sent = sent; pending = done ++ todo })
      ≡ record { sent = sent; pending = done ++ filter keep todo }
unfolding clear_loop
clear_pending zero keep sent done [] k h e = refl
clear_pending (suc fuel) keep sent done [] k h e =
    let past =
      get_elem?_past (sent ++ (done ++ [])) k
        (omega (arith, length-append sent (done ++ []), length-append done [])) in
    rw (clear_loop, past) refl
clear_pending zero keep sent done (o ∷ todo) k h e = absurd (omega arith)
clear_pending (suc fuel) keep sent done (o ∷ todo) k h e = elim (Bool-cases (keep o)) [
  | inl y ↦
      rw (clear_loop, item_at sent done todo o k e, y)
        (subst
          (λ l.
            clear_loop fuel keep (suc k) (record { sent = sent; pending = l })
            ≡ record { sent = sent; pending = done ++ (o ∷ filter keep todo) })
          (append_assoc done (o ∷ []) todo)
          (clear_pending fuel keep sent (done ++ (o ∷ [])) todo (suc k) (omega arith)
              (omega (arith, length-append done (o ∷ [])))
            ∙ ap (λ l. record { sent = sent; pending = l })
                (append_assoc done (o ∷ []) (filter keep todo))))
  | inr n ↦
      rw (clear_loop, item_at sent done todo o k e, n, remove_pending sent done todo o k e)
        (clear_pending fuel keep sent done todo k (omega arith) e)
]

-- The loop from the part that the cursor has passed on.
clear_sent :
    (fuel : ℕ) (keep : OutgoingPacket → Bool) (done todo pending : List OutgoingPacket) (k : ℕ)
    → length todo + length pending ≤ fuel
    → k ≡ length done
    → clear_loop fuel keep k (record { sent = done ++ todo; pending = pending })
      ≡ record { sent = done ++ filter keep todo; pending = filter keep pending }
unfolding clear_loop
clear_sent fuel keep done [] pending k h e =
    clear_pending fuel keep (done ++ []) [] pending k (omega arith)
      (omega (arith, length-append done []))
clear_sent zero keep done (o ∷ todo) pending k h e = absurd (omega arith)
clear_sent (suc fuel) keep done (o ∷ todo) pending k h e =
    let here : get_elem? ((done ++ (o ∷ todo)) ++ pending) k ≡ some o =
      ap (λ l. get_elem? l k) (append_assoc done (o ∷ todo) pending)
      ∙ item_at [] done (todo ++ pending) o k (omega arith) in
    elim (Bool-cases (keep o)) [
      | inl y ↦
          rw (clear_loop, here, y)
            (subst
              (λ l.
                clear_loop fuel keep (suc k) (record { sent = l; pending = pending })
                ≡ record { sent = done ++ (o ∷ filter keep todo); pending = filter keep pending })
              (append_assoc done (o ∷ []) todo)
              (clear_sent fuel keep (done ++ (o ∷ [])) todo pending (suc k) (omega arith)
                  (omega (arith, length-append done (o ∷ [])))
                ∙ ap (λ l. record { sent = l; pending = filter keep pending })
                    (append_assoc done (o ∷ []) (filter keep todo))))
      | inr n ↦
          rw (clear_loop, here, n, remove_sent done todo pending o k e)
            (clear_sent fuel keep done todo pending k (omega arith) e)
    ]

-- _clearQueue removes exactly the packets that its mode does not keep, in both parts of the queue: the
-- kept packets stay in order, the cursor stays between them, and no other member of the client
-- changes. Mode 0 keeps PUBREC, PUBREL and the PUBLISH packets with a packet id, mode 1 every PUBLISH
-- packet, at QoS 0 too, and a greater mode none.
pub clear_queue-filter :
    (mode : ℕ) (c : Client)
    → clear_queue mode c ≡ record c {
      outbox = record {
        sent = filter (keeps mode) c.outbox.sent;
        pending = filter (keeps mode) c.outbox.pending;
      };
    }
unfolding clear_queue
clear_queue-filter mode c =
    ap (λ q. record c { outbox = q })
      (clear_sent (length (Queue.items c.outbox)) (keeps mode) [] c.outbox.sent c.outbox.pending 0
        (omega (arith, length-append c.outbox.sent c.outbox.pending)) refl)
