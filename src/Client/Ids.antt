-- ===== src/Client/Ids.antt =====
-- The packet identifiers of src/MqttClient.cpp.
use esp_mqtt_client.Prelude.{ℕ, zero, suc, ◌+◌, ◌%◌, ◌≤◌, ◌<◌, ◌≡◌, ◌≢◌, arith}
use esp_mqtt_client.Client.{Client, get_next_packet_id}

-- The client after as many identifiers have been taken.
abbrev pub after_ids : ℕ → Client → Client
after_ids zero c = c
after_ids (suc n) c = get_next_packet_id (after_ids n c)

next_id :
    (c : Client) → c.packet_id < 65536 → (get_next_packet_id c).packet_id ≡ c.packet_id % 65535 + 1
unfolding get_next_packet_id
next_id c h = ground arith

nth_id :
    (n : ℕ) (c : Client)
    → c.packet_id < 65536
    → (after_ids (suc n) c).packet_id ≡ (c.packet_id + n) % 65535 + 1
nth_id zero c h = omega (arith, next_id c h)
nth_id (suc n) c h =
    let before = nth_id n c h in
    omega (arith, before, next_id (after_ids (suc n) c) (omega (arith, before)))

-- Every packet identifier that _getNextPacketId returns is between 1 and 65535, so never 0, and any two
-- that are taken within 65535 calls of each other are different.
pub next_ids-differ :
    (m n : ℕ) (c : Client)
    → c.packet_id < 65536
    → m < n
    → n < m + 65535
    → (1 ≤ (after_ids (suc n) c).packet_id)
      × ((after_ids (suc n) c).packet_id ≤ 65535)
      × ((after_ids (suc m) c).packet_id ≢ (after_ids (suc n) c).packet_id)
next_ids-differ m n c h l k =
    let first = nth_id m c h in
    let second = nth_id n c h in
    (omega (arith, second), omega (arith, second), λ e. omega (arith, first, second, e))
