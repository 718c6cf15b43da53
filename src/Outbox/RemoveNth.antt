-- ===== src/Outbox/RemoveNth.antt =====
-- Removing by position with an iterator of src/Outbox.h: front(), operator++ as often as needed,
-- remove().
use esp_mqtt_client.Prelude.{
  ℕ, zero, suc, ◌+◌, ◌-◌, ◌≤◌, List, [], ◌∷◌, ◌++◌, ◌≡◌, refl, sym, ap, subst, Option, some, false,
  true, ◌>>=◌, ◌⊎◌, inl, inr, arith, append-nil, append_assoc, length, length-append, ltb,
}
use esp_mqtt_client.Outbox.{Ptr, null, Outbox, Iterator, remove, advance, front}
use esp_mqtt_client.Outbox.Chain.{Seg}
use esp_mqtt_client.Outbox.Repr.{Repr, Represents, represents, values, length-values, view}
use esp_mqtt_client.Outbox.Queue
use esp_mqtt_client.Outbox.Queue.{Queue}
use esp_mqtt_client.Outbox.Remove.{At, remove-At_ahead, remove-At_passed, remove_end}
use esp_mqtt_client.Outbox.Iterate.{front-At, advance-At, advance_end}

module _ {ℓ} {A : Type ℓ} where
  pub seek : Outbox A → Iterator → ℕ → Option Iterator
  seek o it zero = some it
  seek o it (suc k) = do it' ← advance o it; seek o it' k

  pub remove_nth : ℕ → Outbox A → Option (Outbox A)
  unfolding seek
  remove_nth k o = do it ← seek o (front o) k; (o', _) ← remove o it; some o'

  seek-At :
      (o : Outbox A) (it : Iterator) (b m c : List (Ptr × A))
      → Seg o.cell (b ++ (m ++ c)) null
      → At it b (m ++ c)
      → (it' : Iterator) × (seek o it (length m) ≡ some it') × At it' (b ++ m) c
  unfolding seek
  seek-At o it b [] c s at = (it, refl, rw append-nil at)
  seek-At o it b ((a, x) ∷ m) c s at =
      let (it', run, at') = advance-At o it b a x (m ++ c) s at in
      let e : b ++ ((a, x) ∷ (m ++ c)) ≡ (b ++ ((a, x) ∷ [])) ++ (m ++ c) =
        sym (append_assoc b ((a, x) ∷ []) (m ++ c)) in
      let (it'', run', at'') =
        seek-At o it' (b ++ ((a, x) ∷ [])) m c (subst (λ l. Seg o.cell l null) e s) at' in
      (it'', rw run run', subst (λ l. At it'' l c) (append_assoc b ((a, x) ∷ []) m) at'')

  seek_end :
      (o : Outbox A) (it : Iterator) (b : List (Ptr × A)) (k : ℕ)
      → At it b []
      → seek o it k ≡ some it
  unfolding seek
  seek_end o it b zero at = refl
  seek_end o it b (suc k) at = rw (advance_end o it b at) (seek_end o it b k at)

  -- Stepping at least as often as there are nodes ends behind the last one.
  seek_past :
      (o : Outbox A) (it : Iterator) (b m : List (Ptr × A)) (k : ℕ)
      → Seg o.cell (b ++ m) null
      → At it b m
      → length m ≤ k
      → (it' : Iterator) × (seek o it k ≡ some it') × At it' (b ++ m) []
  unfolding seek
  seek_past o it b [] k s at h = (it, seek_end o it b k at, rw append-nil at)
  seek_past o it b ((a, x) ∷ m) zero s at h = absurd (omega arith)
  seek_past o it b ((a, x) ∷ m) (suc k) s at h =
      let (it', run, at') = advance-At o it b a x m s at in
      let e : b ++ ((a, x) ∷ m) ≡ (b ++ ((a, x) ∷ [])) ++ m =
        sym (append_assoc b ((a, x) ∷ []) m) in
      let (it'', run', at'') =
        seek_past o it' (b ++ ((a, x) ∷ [])) m k (subst (λ l. Seg o.cell l null) e s) at'
          (omega arith) in
      (it'', rw run run', subst (λ l. At it'' l []) (sym e) at'')

  -- A list is too short for an index, or splits there.
  split_at :
      (xs : List (Ptr × A)) (k : ℕ)
      → (length xs ≤ k)
        ⊎ ((m : List (Ptr × A)) × (a : Ptr) × (x : A) × (rest : List (Ptr × A)) × (xs
              ≡ m ++ ((a, x) ∷ rest))
            × (length m ≡ k))
  split_at [] k = inl (omega arith)
  split_at ((a, x) ∷ xs) zero = inr ([], a, x, xs, refl, refl)
  split_at ((a, x) ∷ xs) (suc k) = elim (split_at xs k) [
    | inl h ↦ inl (omega arith)
    | inr (m, b, y, rest, e, n) ↦ inr ((a, x) ∷ m, b, y, rest, rw e, ap suc n)
  ]

  values_removed :
      (m : List (Ptr × A)) (a : Ptr) (x : A) (rest : List (Ptr × A))
      → Queue.remove_nth (length m) (values (m ++ ((a, x) ∷ rest))) ≡ values (m ++ rest)
  values_removed [] a x rest = refl
  values_removed ((b, y) ∷ m) a x rest = ap (◌∷◌ y) (values_removed m a x rest)

  remove_nth_past : (xs : List A) (k : ℕ) → length xs ≤ k → Queue.remove_nth k xs ≡ xs
  remove_nth_past [] k h = refl
  remove_nth_past (x ∷ xs) zero h = absurd (omega arith)
  remove_nth_past (x ∷ xs) (suc k) h = ap (◌∷◌ x) (remove_nth_past xs k (omega arith))

  abbrev pub Removed : ℕ → Outbox A → (s p : List (Ptr × A)) → Type ℓ
  Removed k o s p =
      (o' : Outbox A) × (remove_nth k o ≡ some o') × Represents o' (Queue.remove_at k (view s p))

  removed_run :
      (k : ℕ) (o o' : Outbox A) (it it' : Iterator)
      → seek o (front o) k ≡ some it
      → remove o it ≡ some (o', it')
      → remove_nth k o ≡ some o'
  unfolding remove_nth
  removed_run k o o' it it' sought run = rw (sought, run)

  -- An index before the cursor.
  Removed-passed :
      (o : Outbox A) (m : List (Ptr × A)) (a : Ptr) (x : A) (rest p : List (Ptr × A))
      → Repr o (m ++ ((a, x) ∷ rest)) p
      → Removed (length m) o (m ++ ((a, x) ∷ rest)) p
  Removed-passed o m a x rest p r =
      let e = append_assoc m ((a, x) ∷ rest) p in
      let (it, sought, at) =
        seek-At o (front o) [] m ((a, x) ∷ (rest ++ p)) (subst (λ l. Seg o.cell l null) e r.chain)
          (subst (At (front o) []) e (front-At o (m ++ ((a, x) ∷ rest)) p r)) in
      let (o', it', run, r', _) = remove-At_passed o it m a x rest p r at in
      let before : ltb (length m) (length (values (m ++ ((a, x) ∷ rest)))) ≡ true =
        ground (arith, length-values (m ++ ((a, x) ∷ rest)), length-append m ((a, x) ∷ rest)) in
      (
        o',
        removed_run (length m) o o' it it' sought run,
        represents (m ++ rest) p r' (rw (before, values_removed m a x rest)),
      )

  -- An index from the cursor on.
  Removed-ahead :
      (o : Outbox A) (s m : List (Ptr × A)) (a : Ptr) (x : A) (rest : List (Ptr × A))
      → Repr o s (m ++ ((a, x) ∷ rest))
      → Removed (length s + length m) o s (m ++ ((a, x) ∷ rest))
  Removed-ahead o s m a x rest r =
      let e = sym (append_assoc s m ((a, x) ∷ rest)) in
      let (it, sought, at) =
        seek-At o (front o) [] (s ++ m) ((a, x) ∷ rest) (subst (λ l. Seg o.cell l null) e r.chain)
          (subst (At (front o) []) e (front-At o s (m ++ ((a, x) ∷ rest)) r)) in
      let (o', it', run, r', _) = remove-At_ahead o it s m a x rest r at in
      let n : length (s ++ m) ≡ length s + length m = length-append s m in
      let behind : ltb (length s + length m) (length (values s)) ≡ false =
        ground (arith, length-values s) in
      let index : length s + length m - length (values s) ≡ length m =
        omega (arith, length-values s) in
      (
        o',
        removed_run (length s + length m) o o' it it'
            (subst (λ k. seek o (front o) k ≡ some it) n sought) run,
        represents s (m ++ rest) r' (rw (behind, index, values_removed m a x rest)),
      )

  Removed-past :
      (o : Outbox A) (s p : List (Ptr × A)) (k : ℕ)
      → Repr o s p
      → length s + length p ≤ k
      → Removed k o s p
  Removed-past o s p k r h =
      let (it, sought, at) =
        seek_past o (front o) [] (s ++ p) k r.chain (front-At o s p r)
          (omega (arith, length-append s p)) in
      let behind : ltb k (length (values s)) ≡ false = ground (arith, length-values s) in
      let kept : Queue.remove_nth (k - length (values s)) (values p) ≡ values p =
        remove_nth_past (values p) _ (omega (arith, length-values s, length-values p)) in
      (
        o,
        removed_run k o o it it sought (remove_end o it (s ++ p) at),
        represents s p r (rw (behind, kept)),
      )

  -- A removal by position does to the list what it does to the sequence, whatever the position.
  pub remove_nth-Removed :
      (o : Outbox A) (s p : List (Ptr × A)) (k : ℕ) → Repr o s p → Removed k o s p
  remove_nth-Removed o s p k r = elim (split_at s k) [
    | inr (m, a, x, rest, e, n) ↦
        subst (λ j. Removed j o s p) n
          (subst (λ l. Removed (length m) o l p) (sym e)
            (Removed-passed o m a x rest p (subst (λ l. Repr o l p) e r)))
    | inl h ↦ elim (split_at p (k - length s)) [
      | inr (m, a, x, rest, e, n) ↦
          let at : length s + length m ≡ k = omega arith in
          subst (λ j. Removed j o s p) at
            (subst (λ l. Removed (length s + length m) o s l) (sym e)
              (Removed-ahead o s m a x rest (subst (λ l. Repr o s l) e r)))
      | inl h' ↦ Removed-past o s p k r (omega arith)
    ]
  ]
