-- ===== src/Parser/ReadPayload.antt =====
-- The payload of a PUBLISH packet in Parser::parse (src/Packets/Parser.cpp).
use esp_mqtt_client.Prelude.{
  ℕ, ◌≡◌, List, [], ◌∷◌, some, length, refl, ap, drop, take, bit_and, take_all,
}
use esp_mqtt_client.Config.{publish_type}
use esp_mqtt_client.Parser.{
  Parser, IncomingPacket, PayloadData, nowhere, payload_buffer, input, packet, payload_publish,
  fixed_header,
}
use esp_mqtt_client.Parser.Parse.{parse_loop}
use esp_mqtt_client.Parser.Feed.{parser_at, Left}
use esp_mqtt_client.Parser.Runs.{payload_run}

-- The bytes that `payload.data` and `payload.length` name.
abbrev pub payload_of : Parser → List ℕ
payload_of p = elim p.incoming.payload_data [
  | nowhere ↦ []
  | payload_buffer ↦ take p.incoming.payload_length p.payload_bytes
  | input n ↦ take p.incoming.payload_length (drop n p.input_data)
]

-- The packet in the parser after the whole of a PUBLISH has been read: `topic` is the topic array.
pub record Read (bytes : List ℕ) (first packet_id : ℕ) (topic payload : List ℕ) (p : Parser)
    : Type 0 where
  pub all_read : p.bytes_read ≡ length bytes
  pub starts_over : p.state ≡ fixed_header
  pub type : p.incoming.packet_type ≡ first
  pub id : p.incoming.fixed ≡ packet_id
  pub topic_array : p.incoming.topic ≡ topic
  pub at_once : p.incoming.payload_index ≡ 0
  pub total : p.incoming.payload_total ≡ length payload
  pub available : p.incoming.payload_length ≡ length payload
  pub payload_bytes : payload_of p ≡ payload

-- A packet of which the payload is still to come.
pub record Fresh (i : IncomingPacket) : Type 0 where
  pub is_publish : bit_and i.packet_type 0xf0 ≡ publish_type
  pub no_id : i.fixed ≡ 0
  pub no_index : i.payload_index ≡ 0
  pub no_length : i.payload_length ≡ 0

pub no_payload :
    (d : PayloadData) (buffer bytes : List ℕ) (m : ℕ)
    → m ≡ 0
    → elim d as (λ _. List ℕ) [
      | nowhere ↦ []
      | payload_buffer ↦ take m buffer
      | input n ↦ take m (drop n bytes)
    ]
      ≡ []
no_payload nowhere buffer bytes m e = refl
no_payload payload_buffer buffer bytes m e = ap (λ k. take k buffer) e
no_payload (input n) buffer bytes m e = ap (λ k. take k (drop n bytes)) e

-- After the packet id, or after the topic of a packet without one.
pub payload-Read :
    {bytes : List ℕ} (buffer : List ℕ) {n : ℕ} (pos first id : ℕ) (i : IncomingPacket) {b : ℕ}
    {rest : List ℕ}
    → Left bytes n (b ∷ rest)
    → i.packet_type ≡ first
    → i.fixed ≡ id
    → i.payload_index ≡ 0
    → i.payload_length ≡ 0
    → i.payload_total ≡ length (b ∷ rest)
    → (q : Parser) × (parse_loop
          (length (b ∷ rest))
          (parser_at bytes buffer n pos payload_publish i)
        ≡ some (packet, q))
      × Read bytes first id i.topic (b ∷ rest) q
payload-Read {bytes} buffer {n} pos first id i {b} {rest} l a c x y t = (
  _,
  payload_run buffer pos i l x y t,
  record {
    all_read = refl;
    starts_over = refl;
    type = a;
    id = c;
    topic_array = refl;
    at_once = refl;
    total = t;
    available = refl;
    payload_bytes = rw l.behind (take_all (b ∷ rest));
  },
)
