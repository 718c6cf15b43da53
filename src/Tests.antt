-- ===== src/Tests.antt =====
-- Test data, and the theorems applied to it. Models no code of the program.
mod PacketTests
mod ParserTests
mod OutboxTests
mod ClientTests
mod SetupTests
mod OutgoingTests
mod ChunkedTests
mod KeepAliveTests
mod TransportTests
use esp_mqtt_client.Prelude.{ℕ, List, [], ◌∷◌, true, refl, arith}
use esp_mqtt_client.Packet.{Memory}
use esp_mqtt_client.Packet.Frame.{HasMemory}

abbrev pub memory : Memory
memory = record { free_memory = 65536; malloc_succeeds = true }

pub memory-HasMemory : HasMemory memory
memory-HasMemory = record { allocates = refl; enough = omega arith }

-- "ab"
abbrev pub topic_ab : List ℕ
topic_ab = 97 ∷ 98 ∷ []

abbrev pub payload_three : List ℕ
payload_three = 1 ∷ 2 ∷ 3 ∷ []
