-- ===== src/Setup/Removing.antt =====
-- What registering and removing callbacks leaves (src/MqttClientSetup.h).
use esp_mqtt_client.Prelude.{
  ℕ, List, [], ◌∷◌, ◌++◌, Option, true, false, ◌==◌, ◌≡◌, refl, sym, arith, ap, All, Bool-cases,
  inl, inr,
}
use esp_mqtt_client.Setup.{Setup}
use esp_mqtt_client.Setup.Slots.{Registration, Slot, one, many, register, remove, erase}
use esp_mqtt_client.Setup.Kinds.{
  Kind, connects, disconnects, subscribes, unsubscribes, messages, publishes, add_on, remove_on,
  slot_of,
}

-- No registration of the list has the id.
abbrev pub IsFresh : ℕ → List Registration → Type 0
IsFresh id l = All (λ r. (r.id == id) ≡ false) l

erase-append_fresh :
    (id : ℕ) (callback : Option ℕ) (l : List Registration)
    → IsFresh id l
    → erase id (l ++ (record { callback = callback; id = id } ∷ [])) ≡ l
unfolding erase
erase-append_fresh id callback [] fresh = ground arith
erase-append_fresh id callback (r ∷ rs) fresh =
    rw (fresh.0, erase) (ap (◌∷◌ r) (erase-append_fresh id callback rs fresh.1))

-- The slot is a list without the id.
abbrev pub HasFresh : ℕ → Slot → Type 0
HasFresh id (one c) = ⊥
HasFresh id (many l) = IsFresh id l

remove-register :
    (id : ℕ) (callback : Option ℕ) (slot : Slot)
    → HasFresh id slot
    → remove id (register callback id slot) ≡ slot
unfolding remove register
remove-register id callback (one c) h = elim h [ ]
remove-register id callback (many l) h = ap many (erase-append_fresh id callback l h)

-- Removing the id of a callback that was registered last under a new id gives the client as it was.
pub remove_on-add_on :
    (k : Kind) (id : ℕ) (callback : Option ℕ) (s : Setup)
    → HasFresh id (slot_of k s.callbacks)
    → remove_on k id (add_on k callback id s) ≡ s
unfolding add_on remove_on
remove_on-add_on connects id callback s h = rw (remove-register id callback _ h)
remove_on-add_on disconnects id callback s h = rw (remove-register id callback _ h)
remove_on-add_on subscribes id callback s h = rw (remove-register id callback _ h)
remove_on-add_on unsubscribes id callback s h = rw (remove-register id callback _ h)
remove_on-add_on messages id callback s h = rw (remove-register id callback _ h)
remove_on-add_on publishes id callback s h = rw (remove-register id callback _ h)

-- No two registrations of the list have the same id.
abbrev pub Distinct : List Registration → Type 0
Distinct [] = Unit
Distinct (r ∷ rs) = IsFresh r.id rs × Distinct rs

-- The registrations with another id
unfoldable pub others : ℕ → List Registration → List Registration
others id [] = []
others id (r ∷ rs) = elim (r.id == id) [ true ↦ others id rs | false ↦ r ∷ others id rs ]

same_test : (id i j : ℕ) → (i == id) ≡ true → (j == i) ≡ false → (j == id) ≡ false
same_test id i j h k = ground arith

others-fresh :
    (id i : ℕ) (rs : List Registration) → (i == id) ≡ true → IsFresh i rs → others id rs ≡ rs
unfolding others
others-fresh id i [] h fresh = refl
others-fresh id i (r ∷ rs) h fresh =
    let test : (r.id == id) ≡ false = same_test id i r.id h fresh.0 in
    rw (test, others) (ap (◌∷◌ r) (others-fresh id i rs h fresh.1))

pub erase-Distinct : (id : ℕ) (l : List Registration) → Distinct l → erase id l ≡ others id l
unfolding erase others
erase-Distinct id [] d = refl
erase-Distinct id (r ∷ rs) d = elim (Bool-cases (r.id == id)) [
  | inl e ↦ rw (e, erase) (rw (e, others) (sym (others-fresh id r.id rs e d.0)))
  | inr e ↦ rw (e, erase) (rw (e, others) (ap (◌∷◌ r) (erase-Distinct id rs d.1)))
]
