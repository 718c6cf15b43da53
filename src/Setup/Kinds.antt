-- ===== src/Setup/Kinds.antt =====
-- The six kinds of event that src/MqttClientSetup.h registers callbacks for, with its functions by kind.
use esp_mqtt_client.Prelude.{ℕ, Option, none, some}
use esp_mqtt_client.Client.{
  Event, on_connect, on_disconnect, on_subscribe, on_unsubscribe, on_message, on_publish, on_error,
}
use esp_mqtt_client.Setup.{Setup}
use esp_mqtt_client.Setup.Slots.{Callbacks, Slot}
use esp_mqtt_client.Setup.Handlers.{
  add_on_connect, add_on_disconnect, add_on_subscribe, add_on_unsubscribe, add_on_message,
  add_on_publish, remove_on_connect, remove_on_disconnect, remove_on_subscribe,
  remove_on_unsubscribe, remove_on_message, remove_on_publish,
}

pub data Kind : Type 0 where
  connects disconnects subscribes unsubscribes messages publishes : Kind

unfoldable pub add_on : Kind → Option ℕ → ℕ → Setup → Setup
unfolding add_on_connect add_on_disconnect add_on_subscribe add_on_unsubscribe add_on_message
    add_on_publish
add_on connects = add_on_connect
add_on disconnects = add_on_disconnect
add_on subscribes = add_on_subscribe
add_on unsubscribes = add_on_unsubscribe
add_on messages = add_on_message
add_on publishes = add_on_publish

unfoldable pub remove_on : Kind → ℕ → Setup → Setup
unfolding remove_on_connect remove_on_disconnect remove_on_subscribe remove_on_unsubscribe
    remove_on_message remove_on_publish
remove_on connects = remove_on_connect
remove_on disconnects = remove_on_disconnect
remove_on subscribes = remove_on_subscribe
remove_on unsubscribes = remove_on_unsubscribe
remove_on messages = remove_on_message
remove_on publishes = remove_on_publish

abbrev pub slot_of : Kind → Callbacks → Slot
slot_of connects c = c.connect_slot
slot_of disconnects c = c.disconnect_slot
slot_of subscribes c = c.subscribe_slot
slot_of unsubscribes c = c.unsubscribe_slot
slot_of messages c = c.message_slot
slot_of publishes c = c.publish_slot

-- The kind of an event; errors have none.
abbrev pub kind_of : Event → Option Kind
kind_of (on_connect session) = some connects
kind_of (on_disconnect reason) = some disconnects
kind_of (on_subscribe id codes) = some subscribes
kind_of (on_unsubscribe id) = some unsubscribes
kind_of (on_message message) = some messages
kind_of (on_publish id) = some publishes
kind_of (on_error id error) = none

-- The same kind
abbrev pub index : Kind → ℕ
index connects = 0
index disconnects = 1
index subscribes = 2
index unsubscribes = 3
index messages = 4
index publishes = 5
