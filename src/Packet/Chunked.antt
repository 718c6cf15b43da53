-- ===== src/Packet/Chunked.antt =====
-- Packet::available and Packet::data of src/Packets/Packet.cpp, with _chunkedAvailable and
-- _chunkedData for payloads that a callback supplies in portions.
pub mod Created
pub mod Small
pub mod Portions
pub mod Streams
pub mod Overflow
use esp_mqtt_client.Prelude.{
  ℕ, zero, suc, ◌+◌, ◌-◌, List, [], ◌∷◌, ◌++◌, Option, none, some, Bool, true, false, ◌&&◌, ◌||◌,
  not, ltb, leb, ◌==◌, if◌then◌else◌, length, take, drop, min, ◌>>=◌,
}
use esp_mqtt_client.Config.{emc_tx_buffer_size}
use esp_mqtt_client.Packet.{Packet, PayloadCallback, add_size, sub_size}

-- The callback's copy to `&_data[_payloadIndex]`; `none` if it does not fit the buffer.
unfoldable pub fill : Packet → List ℕ → Option Packet
fill p copied = elim p.contents [
  | none ↦ none
  | some buffer ↦
      if leb (p.payload_index + length copied) (length buffer)
      then some (record p {
        contents = some (
            take p.payload_index buffer
            ++ (copied ++ drop (p.payload_index + length copied) buffer));
      })
      else none
]

-- One call of the callback, for the portion that begins at `start`.
unfoldable pub fetch : Packet → PayloadCallback → (asked_from start index : ℕ) → Option Packet
fetch p callback asked_from start index =
    let copied = callback (min emc_tx_buffer_size (sub_size p.size asked_from)) index in
    do
      p' ← fill p copied
      some (record p' {
        payload_start_index = start;
        payload_end_index = sub_size (add_size start (length copied)) 1;
      })

-- _chunkedAvailable up to its return: the packet with the portion for `index` at hand.
unfoldable pub chunked_refresh : Packet → PayloadCallback → ℕ → Option Packet
chunked_refresh p callback index =
    if ltb index p.payload_index
    then if ltb p.payload_index p.size && not (p.payload_end_index == 0)
      then fetch p callback p.payload_start_index p.payload_index index
      else some p
    else if ltb p.payload_end_index index || ltb index p.payload_start_index
    then fetch p callback index index index
    else some p

unfoldable pub chunked_available : Packet → PayloadCallback → ℕ → Option (ℕ × Packet)
chunked_available p callback index = do
  p' ← chunked_refresh p callback index
  some (add_size (sub_size p'.payload_end_index index) 1, p')

-- Packet::available
unfoldable pub available : Packet → ℕ → Option (ℕ × Packet)
available p index = if leb p.size index then some (0, p) else elim p.get_payload [
  | none ↦ some (p.size - index, p)
  | some callback ↦ chunked_available p callback index
]

-- _chunkedData: the offset into the buffer
unfoldable pub chunked_offset : Packet → ℕ → ℕ
chunked_offset p index =
    if ltb index p.payload_index
    then index
    else add_size (sub_size index p.payload_start_index) p.payload_index

-- Packet::data: the bytes from the returned pointer on, `none` for nullptr
unfoldable pub data_from : Packet → ℕ → Option (List ℕ)
data_from p index = elim p.get_payload [
  | none ↦ elim p.contents [
    | none ↦ none
    | some buffer ↦ if leb p.size index then none else some (drop index buffer)
  ]
  | some _ ↦ elim p.contents [
    | none ↦ none
    | some buffer ↦ some (drop (chunked_offset p index) buffer)
  ]
]
