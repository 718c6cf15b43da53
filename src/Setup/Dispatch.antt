-- ===== src/Setup/Dispatch.antt =====
-- Which callbacks an event calls, as the registrations of src/MqttClientSetup.h change.
use esp_mqtt_client.Prelude.{
  ℕ, List, [], ◌∷◌, ◌++◌, Option, none, some, Bool, false, ◌==◌, ◌≡◌, refl, ap, if◌then◌else◌,
  Option-cases, inl, inr,
}
use esp_mqtt_client.Client.{
  Event, on_connect, on_disconnect, on_subscribe, on_unsubscribe, on_message, on_publish,
}
use esp_mqtt_client.Setup.{Setup}
use esp_mqtt_client.Setup.Slots.{Registration, Slot, one, many, register, remove, invoke, called}
use esp_mqtt_client.Setup.Handlers.{dispatch}
use esp_mqtt_client.Setup.Kinds.{
  Kind, connects, disconnects, subscribes, unsubscribes, messages, publishes, add_on, remove_on,
  slot_of, kind_of, index,
}
use esp_mqtt_client.Setup.Removing.{Distinct, others, erase-Distinct}

abbrev pub is_kind : Kind → Event → Bool
is_kind k e = elim (kind_of e) [ none ↦ false | some j ↦ index j == index k ]

abbrev pub as_list : Option ℕ → List ℕ
as_list none = []
as_list (some f) = f ∷ []

-- What is called once a callback is registered too: in the build with lists all of them, else the last.
abbrev pub with_callback : Option ℕ → Slot → List ℕ
with_callback callback (one c) = as_list callback
with_callback callback (many l) = called (many l) ++ as_list callback

invoke-append :
    (l : List Registration) (callback : Option ℕ) (id : ℕ)
    → invoke (l ++ (record { callback = callback; id = id } ∷ [])) ≡ invoke l ++ as_list callback
unfolding invoke
invoke-append [] none id = refl
invoke-append [] (some f) id = refl
invoke-append (r ∷ rs) callback id =
    let rest = invoke-append rs callback id in
    elim (Option-cases r.callback) [
      | inl e ↦ rw (e, invoke) rest
      | inr (f, e) ↦ rw (e, invoke) (ap (◌∷◌ f) rest)
    ]

called-register :
    (callback : Option ℕ) (id : ℕ) (slot : Slot)
    → called (register callback id slot) ≡ with_callback callback slot
unfolding called register
called-register none id (one c) = refl
called-register (some f) id (one c) = refl
called-register callback id (many l) = invoke-append l callback id

-- Registering a callback, in either build, changes what is called for the events of its kind only: where
-- several callbacks are kept it is called behind those that were registered before, else it takes the
-- place of the one before, and an empty callback is not called. Events of another kind, and errors, call
-- what they called before.
pub dispatch-add_on :
    (k : Kind) (callback : Option ℕ) (id : ℕ) (s : Setup) (e : Event)
    → dispatch (add_on k callback id s).callbacks e ≡ (
        if is_kind k e
        then with_callback callback (slot_of k s.callbacks)
        else dispatch s.callbacks e)
unfolding add_on dispatch
dispatch-add_on connects callback id s (on_connect session) = called-register callback id _
dispatch-add_on disconnects callback id s (on_disconnect reason) = called-register callback id _
dispatch-add_on subscribes callback id s (on_subscribe i codes) = called-register callback id _
dispatch-add_on unsubscribes callback id s (on_unsubscribe i) = called-register callback id _
dispatch-add_on messages callback id s (on_message message) = called-register callback id _
dispatch-add_on publishes callback id s (on_publish i) = called-register callback id _
dispatch-add_on k callback id s e = refl

-- The slot is a list with no id twice.
abbrev pub HasDistinct : Slot → Type 0
HasDistinct (one c) = ⊥
HasDistinct (many l) = Distinct l

-- The callbacks that are registered under another id
abbrev pub called_others : ℕ → Slot → List ℕ
called_others id (one c) = []
called_others id (many l) = invoke (others id l)

called-remove :
    (id : ℕ) (slot : Slot) → HasDistinct slot → called (remove id slot) ≡ called_others id slot
unfolding called remove
called-remove id (one c) h = elim h [ ]
called-remove id (many l) h = ap invoke (erase-Distinct id l h)

-- Removing an id, in the build that keeps several callbacks and if no two of the kind have the same id,
-- leaves the callbacks of the kind that are registered under another id, in order; events of another
-- kind, and errors, call what they called before.
pub dispatch-remove_on :
    (k : Kind) (id : ℕ) (s : Setup) (e : Event)
    → HasDistinct (slot_of k s.callbacks)
    → dispatch (remove_on k id s).callbacks e
      ≡ (if is_kind k e then called_others id (slot_of k s.callbacks) else dispatch s.callbacks e)
unfolding remove_on dispatch
dispatch-remove_on connects id s (on_connect session) h = called-remove id _ h
dispatch-remove_on disconnects id s (on_disconnect reason) h = called-remove id _ h
dispatch-remove_on subscribes id s (on_subscribe i codes) h = called-remove id _ h
dispatch-remove_on unsubscribes id s (on_unsubscribe i) h = called-remove id _ h
dispatch-remove_on messages id s (on_message message) h = called-remove id _ h
dispatch-remove_on publishes id s (on_publish i) h = called-remove id _ h
dispatch-remove_on k id s e h = refl
