-- ===== src/Parser/Feed.antt =====
-- Byte by byte through the loop of Parser::parse (src/Packets/Parser.cpp).
use esp_mqtt_client.Prelude.{
  ℕ, zero, suc, ◌<◌, ◌≡◌, List, [], ◌∷◌, some, length, arith, refl, get_elem?, drop, lt→ltb,
}
use esp_mqtt_client.Config.{size_mod}
use esp_mqtt_client.Packet.{add_size}
use esp_mqtt_client.Parser.{Parser, IncomingPacket, ParserFunc, await_data, packet}
use esp_mqtt_client.Parser.Parse.{call, step, parse_loop}

abbrev pub parser_at : List ℕ → List ℕ → ℕ → ℕ → ParserFunc → IncomingPacket → Parser
parser_at bytes buffer n pos f i = record {
  input_data = bytes;
  bytes_read = n;
  byte_pos = pos;
  state = f;
  incoming = i;
  payload_bytes = buffer;
}

-- What is left of the input, which has the length of a size_t.
pub record Left (bytes : List ℕ) (n : ℕ) (rest : List ℕ) : Type 0 where
  pub behind : drop n bytes ≡ rest
  pub in_range : length bytes < size_mod

here :
    (bytes : List ℕ) (n b : ℕ) (rest : List ℕ)
    → drop n bytes ≡ b ∷ rest
    → (get_elem? bytes n ≡ some b) × (n < length bytes) × (drop (suc n) bytes ≡ rest)
here [] zero b rest e = cc
here [] (suc n) b rest e = cc
here (x ∷ xs) zero b rest e = (cc, omega arith, cc)
here (x ∷ xs) (suc n) b rest e = let h = here xs n b rest e in (h.0, omega (arith, h.1), h.2)

pub next : {bytes rest : List ℕ} {n b : ℕ} → Left bytes n (b ∷ rest) → Left bytes (suc n) rest
next {bytes} {rest} {n} {b} l = record {
  behind = (here bytes n b rest l.behind).2;
  in_range = l.in_range;
}

-- A byte after which the parser asks for more.
pub advance :
    {bytes : List ℕ} (buffer : List ℕ) {n : ℕ} (pos pos' : ℕ) (f f' : ParserFunc)
    (i i' : IncomingPacket) {b : ℕ} {rest : List ℕ}
    → Left bytes n (b ∷ rest)
    → call f b (parser_at bytes buffer n pos f i)
      ≡ some (await_data, parser_at bytes buffer n pos' f' i')
    → parse_loop (length (b ∷ rest)) (parser_at bytes buffer n pos f i)
      ≡ parse_loop (length rest) (parser_at bytes buffer (suc n) pos' f' i')
unfolding parse_loop step
advance {bytes} buffer {n} pos pos' f f' i i' {b} {rest} l e =
    let at = here bytes n b rest l.behind in
    let counts : add_size n 1 ≡ suc n = omega (arith, at.1, l.in_range) in
    rw (lt→ltb n (length bytes) at.1, at.0, e, counts) refl

-- A byte that completes a packet.
pub finish :
    {bytes : List ℕ} (buffer : List ℕ) {n : ℕ} (pos n' pos' : ℕ) (f f' : ParserFunc)
    (i i' : IncomingPacket) {b : ℕ} {rest : List ℕ}
    → Left bytes n (b ∷ rest)
    → suc n' < size_mod
    → call f b (parser_at bytes buffer n pos f i)
      ≡ some (packet, parser_at bytes buffer n' pos' f' i')
    → parse_loop (length (b ∷ rest)) (parser_at bytes buffer n pos f i)
      ≡ some (packet, parser_at bytes buffer (suc n') pos' f' i')
unfolding parse_loop step
finish {bytes} buffer {n} pos n' pos' f f' i i' {b} {rest} l k e =
    let at = here bytes n b rest l.behind in
    let counts : add_size n' 1 ≡ suc n' = omega arith in
    rw (lt→ltb n (length bytes) at.1, at.0, e, counts) refl
