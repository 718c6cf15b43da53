-- ===== src/Outbox/Queue.antt =====
-- What src/Outbox.h promises: a sequence with a cursor. The items before the cursor have been
-- passed (`sent`), the current item is the first of `pending`.
use esp_mqtt_client.Prelude.{
  ℕ, zero, suc, List, [], ◌∷◌, ◌++◌, Option, none, some, ◌-◌, ltb, if◌then◌else◌, length,
}

pub record Queue {ℓ} (A : Type ℓ) : Type ℓ where
  pub sent : List A
  pub pending : List A

module _ {ℓ} {A : Type ℓ} where
  abbrev pub empty_queue : Queue A
  empty_queue = record { sent = []; pending = [] }

  abbrev pub items : Queue A → List A
  items q = q.sent ++ q.pending

  abbrev pub head? : List A → Option A
  head? [] = none
  head? (x ∷ xs) = some x

  abbrev pub tail : List A → List A
  tail [] = []
  tail (x ∷ xs) = xs

  -- The list without the item at an index; an index out of range removes nothing.
  abbrev pub remove_nth : ℕ → List A → List A
  remove_nth i [] = []
  remove_nth zero (x ∷ xs) = xs
  remove_nth (suc i) (x ∷ xs) = x ∷ remove_nth i xs

  abbrev pub push_back : A → Queue A → Queue A
  push_back x q = record q { pending = q.pending ++ (x ∷ []) }

  abbrev pub push_front : A → Queue A → Queue A
  push_front x q = record { sent = []; pending = x ∷ q.sent ++ q.pending }

  abbrev pub current : Queue A → Option A
  current q = head? q.pending

  abbrev pub drop_current : Queue A → Queue A
  drop_current q = record q { pending = tail q.pending }

  abbrev pub rewind : Queue A → Queue A
  rewind q = record { sent = []; pending = q.sent ++ q.pending }

  abbrev pub step_pending : List A → List A → Queue A
  step_pending sent [] = record { sent = sent; pending = [] }
  step_pending sent (x ∷ xs) = record { sent = sent ++ (x ∷ []); pending = xs }

  abbrev pub step : Queue A → Queue A
  step q = step_pending q.sent q.pending

  -- The item at an index of the whole sequence goes; the cursor stays at its item, or moves on to
  -- the next if its item is the one removed.
  abbrev pub remove_at : ℕ → Queue A → Queue A
  remove_at i q =
      if ltb i (length q.sent)
      then record q { sent = remove_nth i q.sent }
      else record q { pending = remove_nth (i - length q.sent) q.pending }
