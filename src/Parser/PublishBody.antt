-- ===== src/Parser/PublishBody.antt =====
-- The first byte and the body of a PUBLISH packet in Parser::parse (src/Packets/Parser.cpp).
use esp_mqtt_client.Prelude.{
  ℕ, zero, suc, ◌+◌, ◌*◌, ◌/◌, ◌%◌, ◌^◌, ◌≤◌, ◌<◌, ◌≡◌, List, ◌∷◌, ◌++◌, some, length, arith, leb,
  set, refl, true, false, Bool, ap, ◌∙◌, bit_and, bit_or, ◌==◌, not, if◌then◌else◌, ◌||◌,
  bit_or_bytes, le→leb,
}
use esp_mqtt_client.Config.{size_mod, publish_type}
use esp_mqtt_client.Packet.{sub_size}
use esp_mqtt_client.Packet.Buffer.{two_bytes}
use esp_mqtt_client.Packet.Publish.{id_bytes, kept_id, retain_bit}
use esp_mqtt_client.Parser.{
  Parser, IncomingPacket, packet, var_header_topic_length1, var_header_topic_length2,
  var_header_topic,
}
use esp_mqtt_client.Parser.Step.{step_topic_length1, step_topic_length2}
use esp_mqtt_client.Parser.Parse.{call, parse_loop}
use esp_mqtt_client.Parser.Feed.{parser_at, Left, next, advance}
use esp_mqtt_client.Parser.Runs.{write_from, skip, length-write_from, skip-Left, topic_run}
use esp_mqtt_client.Parser.ReadPayload.{Read, Fresh}
use esp_mqtt_client.Parser.ReadPublish.{last_topic_byte-Read}

-- The first byte of a PUBLISH packet.
abbrev pub publish_first : ℕ → Bool → ℕ
publish_first q r = publish_type + 2 * q + retain_bit r

-- What the masks of the parser read in it.
pub record FirstByte (q : ℕ) (r : Bool) (b : ℕ) : Type 0 where
  pub is_publish : bit_and b 0xf0 ≡ publish_type
  pub accepted : (leb (bit_and b 0x0f) 0x05 || leb 0x0a (bit_and b 0x0f)) ≡ true
  pub with_id : bit_and b 6 == 0 ≡ (q == 0)
  pub qos_bits : bit_and b 6 / 2 ≡ q
  pub retain_flag : not (bit_and b 1 == 0) ≡ r
  pub no_dup : bit_and b 8 ≡ 0

from_masks :
    (q : ℕ) (r : Bool) (b : ℕ)
    → bit_and b 0xf0 ≡ publish_type
    → (leb (bit_and b 0x0f) 0x05 || leb 0x0a (bit_and b 0x0f)) ≡ true
    → bit_and b 6 == 0 ≡ (q == 0)
    → bit_and b 6 / 2 ≡ q
    → not (bit_and b 1 == 0) ≡ r
    → bit_and b 8 ≡ 0
    → FirstByte q r b
from_masks q r b t a w i f d = record {
  is_publish = t;
  accepted = a;
  with_id = w;
  qos_bits = i;
  retain_flag = f;
  no_dup = d;
}

pub publish_first-FirstByte : (q : ℕ) (r : Bool) → q ≤ 2 → FirstByte q r (publish_first q r)
publish_first-FirstByte zero true h = from_masks 0 true _ refl refl refl refl refl refl
publish_first-FirstByte zero false h = from_masks 0 false _ refl refl refl refl refl refl
publish_first-FirstByte (suc zero) true h = from_masks 1 true _ refl refl refl refl refl refl
publish_first-FirstByte (suc zero) false h = from_masks 1 false _ refl refl refl refl refl refl
publish_first-FirstByte (suc (suc zero)) true h = from_masks 2 true _ refl refl refl refl refl refl
publish_first-FirstByte (suc (suc zero)) false h =
    from_masks 2 false _ refl refl refl refl refl refl
publish_first-FirstByte (suc (suc (suc q))) r h = absurd (omega arith)

-- The topic length passes the parser's test.
topic_fits :
    (q id t n type : ℕ)
    → bit_and type 6 == 0 ≡ (q == 0)
    → t + length (id_bytes q id) + n < size_mod
    → leb t (sub_size (t + length (id_bytes q id) + n) (if not (bit_and type 6 == 0) then 2 else 0))
      ≡ true
topic_fits zero id t n type g h = rw g (le→leb t _ (omega arith))
topic_fits (suc q) id t n type g h =
    let sent : (suc q == 0) ≡ false = ground arith in rw (g, sent) (le→leb t _ (omega arith))

-- From the length of the topic on: `size` bytes follow the fixed header.
pub body-Read :
    {bytes : List ℕ} (buffer : List ℕ) {n : ℕ} (pos q id : ℕ) (ts : List ℕ) (b : ℕ)
    (payload : List ℕ) (i : IncomingPacket)
    → Left bytes n (two_bytes (length ts + 1) ++ (ts ++ (b ∷ (id_bytes q id ++ payload))))
    → Fresh i
    → bit_and i.packet_type 6 == 0 ≡ (q == 0)
    → i.remaining_length ≡ 2 + (length ts + 1) + length (id_bytes q id) + length payload
    → i.remaining_length < size_mod
    → length ts + 1 ≤ 128
    → length i.topic ≡ 129
    → 1 ≤ id
    → id < 65536
    → (p : Parser) × (parse_loop
          (length (two_bytes (length ts + 1) ++ (ts ++ (b ∷ (id_bytes q id ++ payload)))))
          (parser_at bytes buffer n pos var_header_topic_length1 i)
        ≡ some (packet, p))
      × Read bytes i.packet_type
          (kept_id q id)
          (set (set (write_from 0 ts i.topic) (length ts) b) (length ts + 1) 0)
          payload
          p
unfolding call step_topic_length1 step_topic_length2
body-Read {bytes} buffer {n} pos q id ts b payload i l f g size m k a o u =
    let t = length ts + 1 in
    let i1 = record i { topic_length = t / 256 % 256 * 256 } in
    let i2 = record i {
      topic_length = t;
      payload_total = length (id_bytes q id) + length payload;
    } in
    let i3 = record i2 { topic = write_from 0 ts i.topic } in
    let high : t / 256 % 256 * 256 % 2 ^ 16 ≡ t / 256 % 256 * 256 = omega arith in
    let word : bit_or (t / 256 % 256 * 256) (t % 256) ≡ t =
      omega (arith, bit_or_bytes (t / 256 % 256) (t % 256)) in
    let behind : sub_size i.remaining_length 2 ≡ t + length (id_bytes q id) + length payload =
      omega arith in
    let total : sub_size (t + length (id_bytes q id) + length payload) t
        ≡ length (id_bytes q id) + length payload =
      omega arith in
    let fits = topic_fits q id t (length payload) i.packet_type g (omega arith) in
    let one =
      advance buffer pos pos var_header_topic_length1 var_header_topic_length2 i i1 l
        (rw high refl) in
    let two =
      advance buffer pos 0 var_header_topic_length2 var_header_topic i1 i2 (next l)
        (rw (word, behind, fits, total) refl) in
    let l2 = next (next l) in
    let three = topic_run buffer 0 i2 ts (b ∷ (id_bytes q id ++ payload)) l2 (omega arith) k a in
    let fresh : Fresh i3 = record {
      is_publish = f.is_publish;
      no_id = f.no_id;
      no_index = f.no_index;
      no_length = f.no_length;
    } in
    let read =
      last_topic_byte-Read buffer (length ts) b q id i3 payload (skip-Left ts l2) fresh g o u refl k
        (length-write_from 0 ts i.topic ∙ a) refl in
    let zero_plus : 0 + length ts ≡ length ts = omega arith in
    let same =
      ap
        (λ j.
          parse_loop (length (b ∷ (id_bytes q id ++ payload)))
            (parser_at bytes buffer (skip ts (suc (suc n))) j var_header_topic i3))
        zero_plus in
    (read.0, one ∙ two ∙ three ∙ same ∙ read.1, read.2)
