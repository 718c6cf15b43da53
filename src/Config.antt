-- ===== src/Config.antt =====
-- Compile-time constants: src/Config.h (defaults) and src/Packets/Constants.h.
use esp_mqtt_client.Prelude.{ℕ, ◌^◌}

-- size_t of the 32-bit targets (ESP8266, ESP32) wraps at this modulus.
abbrev pub size_mod : ℕ
size_mod = 2 ^ 32

abbrev pub emc_tx_timeout : ℕ
emc_tx_timeout = 10000

abbrev pub emc_rx_buffer_size : ℕ
emc_rx_buffer_size = 1440

abbrev pub emc_tx_buffer_size : ℕ
emc_tx_buffer_size = 1440

abbrev pub emc_max_topic_length : ℕ
emc_max_topic_length = 128

abbrev pub emc_payload_buffer_size : ℕ
emc_payload_buffer_size = 32

abbrev pub emc_min_free_memory : ℕ
emc_min_free_memory = 16384

-- PacketType
abbrev pub connect_type : ℕ
connect_type = 0x10

abbrev pub connack_type : ℕ
connack_type = 0x20

abbrev pub publish_type : ℕ
publish_type = 0x30

abbrev pub puback_type : ℕ
puback_type = 0x40

abbrev pub pubrec_type : ℕ
pubrec_type = 0x50

abbrev pub pubrel_type : ℕ
pubrel_type = 0x60

abbrev pub pubcomp_type : ℕ
pubcomp_type = 0x70

abbrev pub subscribe_type : ℕ
subscribe_type = 0x80

abbrev pub suback_type : ℕ
suback_type = 0x90

abbrev pub unsubscribe_type : ℕ
unsubscribe_type = 0xa0

abbrev pub unsuback_type : ℕ
unsuback_type = 0xb0

abbrev pub pingreq_type : ℕ
pingreq_type = 0xc0

abbrev pub pingresp_type : ℕ
pingresp_type = 0xd0

abbrev pub disconnect_type : ℕ
disconnect_type = 0xe0

-- HeaderFlag: PUBREL_RESERVED, SUBSCRIBE_RESERVED and UNSUBSCRIBE_RESERVED are 2, the other
-- reserved flags are 0.
abbrev pub reserved_flag : ℕ
reserved_flag = 0x02

abbrev pub publish_dup : ℕ
publish_dup = 0x08

abbrev pub publish_qos1 : ℕ
publish_qos1 = 0x02

abbrev pub publish_qos2 : ℕ
publish_qos2 = 0x04

abbrev pub publish_retain : ℕ
publish_retain = 0x01
