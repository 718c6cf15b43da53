-- ===== src/Setup/Handlers.antt =====
-- onConnect to onPublish and removeOnConnect to removeOnPublish of src/MqttClientSetup.h, and the
-- functions that its constructor gives to MqttClient.
use esp_mqtt_client.Prelude.{ℕ, List, [], Option}
use esp_mqtt_client.Client.{
  Event, on_connect, on_disconnect, on_subscribe, on_unsubscribe, on_message, on_publish, on_error,
}
use esp_mqtt_client.Setup.{Setup}
use esp_mqtt_client.Setup.Slots.{Callbacks, register, remove, called}

-- The callback members, changed at one kind of event
unfoldable pub add_on_connect : Option ℕ → ℕ → Setup → Setup
add_on_connect callback id s = record s {
  callbacks = record s.callbacks { connect_slot = register callback id s.callbacks.connect_slot };
}

unfoldable pub add_on_disconnect : Option ℕ → ℕ → Setup → Setup
add_on_disconnect callback id s = record s {
  callbacks = record s.callbacks {
    disconnect_slot = register callback id s.callbacks.disconnect_slot;
  };
}

unfoldable pub add_on_subscribe : Option ℕ → ℕ → Setup → Setup
add_on_subscribe callback id s = record s {
  callbacks = record s.callbacks {
    subscribe_slot = register callback id s.callbacks.subscribe_slot;
  };
}

unfoldable pub add_on_unsubscribe : Option ℕ → ℕ → Setup → Setup
add_on_unsubscribe callback id s = record s {
  callbacks = record s.callbacks {
    unsubscribe_slot = register callback id s.callbacks.unsubscribe_slot;
  };
}

unfoldable pub add_on_message : Option ℕ → ℕ → Setup → Setup
add_on_message callback id s = record s {
  callbacks = record s.callbacks { message_slot = register callback id s.callbacks.message_slot };
}

unfoldable pub add_on_publish : Option ℕ → ℕ → Setup → Setup
add_on_publish callback id s = record s {
  callbacks = record s.callbacks { publish_slot = register callback id s.callbacks.publish_slot };
}

unfoldable pub remove_on_connect : ℕ → Setup → Setup
remove_on_connect id s = record s {
  callbacks = record s.callbacks { connect_slot = remove id s.callbacks.connect_slot };
}

unfoldable pub remove_on_disconnect : ℕ → Setup → Setup
remove_on_disconnect id s = record s {
  callbacks = record s.callbacks { disconnect_slot = remove id s.callbacks.disconnect_slot };
}

unfoldable pub remove_on_subscribe : ℕ → Setup → Setup
remove_on_subscribe id s = record s {
  callbacks = record s.callbacks { subscribe_slot = remove id s.callbacks.subscribe_slot };
}

unfoldable pub remove_on_unsubscribe : ℕ → Setup → Setup
remove_on_unsubscribe id s = record s {
  callbacks = record s.callbacks { unsubscribe_slot = remove id s.callbacks.unsubscribe_slot };
}

unfoldable pub remove_on_message : ℕ → Setup → Setup
remove_on_message id s = record s {
  callbacks = record s.callbacks { message_slot = remove id s.callbacks.message_slot };
}

unfoldable pub remove_on_publish : ℕ → Setup → Setup
remove_on_publish id s = record s {
  callbacks = record s.callbacks { publish_slot = remove id s.callbacks.publish_slot };
}

-- The callbacks that an event of the client calls. Nothing sets the one for errors. A packet id goes
-- through int16_t on its way to the callback for UNSUBACK, and comes back as it was.
unfoldable pub dispatch : Callbacks → Event → List ℕ
dispatch c (on_connect session) = called c.connect_slot
dispatch c (on_disconnect reason) = called c.disconnect_slot
dispatch c (on_subscribe id codes) = called c.subscribe_slot
dispatch c (on_unsubscribe id) = called c.unsubscribe_slot
dispatch c (on_message message) = called c.message_slot
dispatch c (on_publish id) = called c.publish_slot
dispatch c (on_error id error) = []
