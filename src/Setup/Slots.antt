-- ===== src/Setup/Slots.antt =====
-- The callback members of src/MqttClientSetup.h and MqttClient.h. A callback is known by a number.
use esp_mqtt_client.Prelude.{ℕ, List, [], ◌∷◌, ◌++◌, Option, none, some, Bool, true, false, ◌==◌}

-- std::pair<On...Callback, uint32_t>
pub record Registration : Type 0 where
  pub callback : Option ℕ
  pub id : ℕ

-- The callbacks for one kind of event: the one std::function, or the list where
-- EMC_MULTIPLE_CALLBACKS is 1.
pub data Slot : Type 0 where
  one : Option ℕ → Slot
  many : List Registration → Slot

pub record Callbacks : Type 0 where
  pub connect_slot : Slot
  pub disconnect_slot : Slot
  pub subscribe_slot : Slot
  pub unsubscribe_slot : Slot
  pub message_slot : Slot
  pub publish_slot : Slot

abbrev pub empty_slot : Bool → Slot
empty_slot true = many []
empty_slot false = one none

abbrev pub no_callbacks : Bool → Callbacks
no_callbacks multiple = record {
  connect_slot = empty_slot multiple;
  disconnect_slot = empty_slot multiple;
  subscribe_slot = empty_slot multiple;
  unsubscribe_slot = empty_slot multiple;
  message_slot = empty_slot multiple;
  publish_slot = empty_slot multiple;
}

-- The body of each on... function
unfoldable pub register : Option ℕ → ℕ → Slot → Slot
register callback id (one c) = one callback
register callback id (many l) = many (l ++ (record { callback = callback; id = id } ∷ []))

-- The loop of each removeOn... function
unfoldable pub erase : ℕ → List Registration → List Registration
erase id [] = []
erase id (r ∷ rs) = elim (r.id == id) [ true ↦ rs | false ↦ r ∷ erase id rs ]

-- The body of each removeOn... function, which only the build with lists has
unfoldable pub remove : ℕ → Slot → Slot
unfolding erase
remove id (one c) = one c
remove id (many l) = many (erase id l)

-- The loop of each function that the constructor sets: the callbacks that are called, in order
unfoldable pub invoke : List Registration → List ℕ
invoke [] = []
invoke (r ∷ rs) = elim r.callback [ none ↦ invoke rs | some f ↦ f ∷ invoke rs ]

-- The callbacks that an event of a slot's kind calls
unfoldable pub called : Slot → List ℕ
unfolding invoke
called (one none) = []
called (one (some f)) = f ∷ []
called (many l) = invoke l
