-- ===== src/Packet/Buffer.antt =====
-- The serialisers of src/Packets/Packet.cpp write to their buffer from front to back, so the state of
-- one is what it has written so far. Also encodeString of src/Packets/StringUtil.cpp.
use esp_mqtt_client.Prelude.{
  ℕ, ◌+◌, ◌-◌, ◌/◌, ◌%◌, ◌≤◌, ◌≡◌, refl, ap, ◌∙◌, List, [], ◌∷◌, ◌++◌, Option, none, some, ltb, leb,
  if◌then◌else◌, length, length-append, replicate, arith, append-nil, append_assoc, ◌>>=◌, le→leb,
}

-- Write `bytes` at the current position of a buffer of `size` bytes.
pub put : ℕ → List ℕ → List ℕ → Option (List ℕ)
put size written bytes =
    if leb (length written + length bytes) size then some (written ++ bytes) else none

-- Write the chunks one after the other.
pub write_all : ℕ → List ℕ → List (List ℕ) → Option (List ℕ)
unfolding put
write_all size written [] = some written
write_all size written (chunk ∷ chunks) = do
  written' ← put size written chunk
  write_all size written' chunks

-- The buffer of `size` zeros after the chunks have been written from its front on.
unfoldable pub serialize : ℕ → List (List ℕ) → Option (List ℕ)
unfolding write_all
serialize size chunks = do
  written ← write_all size [] chunks
  some (written ++ replicate (size - length written) 0)

abbrev pub concat : List (List ℕ) → List ℕ
concat [] = []
concat (c ∷ cs) = c ++ concat cs

-- The two bytes of a uint16_t, high byte first.
abbrev pub two_bytes : ℕ → List ℕ
two_bytes n = (n / 256 % 256) ∷ (n % 256) ∷ []

-- encodeString: what it writes. It returns the number of bytes, 0 for a string that is too long.
unfoldable pub encode_string : List ℕ → List ℕ
encode_string source = if ltb 65535 (length source) then [] else two_bytes (length source) ++ source

pub write_all-concat :
    (size : ℕ) (written : List ℕ) (chunks : List (List ℕ))
    → length written + length (concat chunks) ≤ size
    → write_all size written chunks ≡ some (written ++ concat chunks)
unfolding write_all
write_all-concat size written [] h = ap some (sym_nil written)
  where
    sym_nil : (xs : List ℕ) → xs ≡ xs ++ []
    sym_nil xs = rw append-nil
write_all-concat size written (c ∷ cs) h =
    rw (le→leb (length written + length c) size (omega (arith, length-append c (concat cs)))) (
      write_all-concat size (written ++ c) cs
        (omega (arith, length-append written c, length-append c (concat cs)))
      ∙ ap some (append_assoc written c (concat cs)))

-- Chunks that fill the buffer exactly are what the buffer holds.
pub serialize-exact :
    (size : ℕ) (chunks : List (List ℕ))
    → length (concat chunks) ≡ size
    → serialize size chunks ≡ some (concat chunks)
unfolding serialize
serialize-exact size chunks h =
    let none_left : size - length (concat chunks) ≡ 0 = omega arith in
    rw (write_all-concat size [] chunks (omega arith), none_left, append-nil)

pub encode_string-short :
    (s : List ℕ) → length s ≤ 65535 → encode_string s ≡ two_bytes (length s) ++ s
unfolding encode_string
encode_string-short s h = ground arith

pub length-encode_string : (s : List ℕ) → length s ≤ 65535 → length (encode_string s) ≡ 2 + length s
length-encode_string s h = rw (encode_string-short s h) (omega arith)

pub concat-append : (cs ds : List (List ℕ)) → concat (cs ++ ds) ≡ concat cs ++ concat ds
concat-append [] ds = refl
concat-append (c ∷ cs) ds = rw (concat-append cs ds) (ap (λ x. x) (rw append_assoc))

-- Chunks that leave room are followed by the zeros that the buffer was filled with.
pub serialize-room :
    (size : ℕ) (chunks : List (List ℕ))
    → length (concat chunks) ≤ size
    → serialize size chunks ≡ some (concat chunks ++ replicate (size - length (concat chunks)) 0)
unfolding serialize
serialize-room size chunks h = rw (write_all-concat size [] chunks (omega arith))
