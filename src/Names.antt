-- ===== src/Names.antt =====
-- src/TypeDefs.cpp: the texts for enumeration values, and a reader of them.
use Prim.Native.String.{String}
use text.Mathlib.Text.{◌==◌ as str_eq}
use esp_mqtt_client.Prelude.{
  ℕ, zero, suc, ◌≤◌, ◌<◌, ap, ◌≡◌, refl, true, false, Option, none, some, ◌==◌, if◌then◌else◌, List,
  [], ◌∷◌, ◌⊎◌, inl, inr, arith, Bool-cases, leb,
}
use esp_mqtt_client.Packet.{
  Error, success, out_of_memory, max_retries, malformed_parameter, misc_error,
}

-- disconnectReasonToString, of any value that a uint8_t may hold
unfoldable pub disconnect_reason_to_string : ℕ → String
disconnect_reason_to_string zero = "No error"
disconnect_reason_to_string (suc zero) = "Unacceptable protocol version"
disconnect_reason_to_string (suc (suc zero)) = "Identified rejected"
disconnect_reason_to_string (suc (suc (suc zero))) = "Server unavailable"
disconnect_reason_to_string (suc (suc (suc (suc zero)))) = "Malformed credentials"
disconnect_reason_to_string (suc (suc (suc (suc (suc zero))))) = "Not authorized"
disconnect_reason_to_string (suc (suc (suc (suc (suc (suc zero)))))) = "Bad fingerprint"
disconnect_reason_to_string (suc (suc (suc (suc (suc (suc (suc zero))))))) = "TCP disconnected"
disconnect_reason_to_string _ = ""

-- subscribeReturncodeToString
unfoldable pub subscribe_returncode_to_string : ℕ → String
subscribe_returncode_to_string n =
    if n == 0
    then "QoS 0"
    else if n == 1
    then "QoS 1"
    else if n == 2
    then "QoS 2"
    else if n == 0x80
    then "Failed"
    else ""

-- errorToString
unfoldable pub error_to_string : Error → String
error_to_string success = "Success"
error_to_string out_of_memory = "Out of memory"
error_to_string max_retries = "Maximum retries exceeded"
error_to_string malformed_parameter = "Malformed parameters"
error_to_string misc_error = "Misc error"

-- The first place of a text in a list, from a number on
place : String → List String → ℕ → Option ℕ
place s [] n = none
place s (t ∷ ts) n = elim (str_eq s t) [ true ↦ some n | false ↦ place s ts (suc n) ]

abbrev reason_texts : List String
unfolding disconnect_reason_to_string
reason_texts =
    disconnect_reason_to_string 0
    ∷ disconnect_reason_to_string 1
    ∷ disconnect_reason_to_string 2
    ∷ disconnect_reason_to_string 3
    ∷ disconnect_reason_to_string 4
    ∷ disconnect_reason_to_string 5
    ∷ disconnect_reason_to_string 6
    ∷ disconnect_reason_to_string 7
    ∷ []

-- The number that a text names
reason_of : String → Option ℕ
unfolding place
reason_of s = place s reason_texts 0

reason_of-text : (r : ℕ) → r ≤ 7 → reason_of (disconnect_reason_to_string r) ≡ some r
unfolding reason_of disconnect_reason_to_string
reason_of-text zero h = refl
reason_of-text (suc zero) h = refl
reason_of-text (suc (suc zero)) h = refl
reason_of-text (suc (suc (suc zero))) h = refl
reason_of-text (suc (suc (suc (suc zero)))) h = refl
reason_of-text (suc (suc (suc (suc (suc zero))))) h = refl
reason_of-text (suc (suc (suc (suc (suc (suc zero)))))) h = refl
reason_of-text (suc (suc (suc (suc (suc (suc (suc zero))))))) h = refl
reason_of-text (suc (suc (suc (suc (suc (suc (suc (suc r)))))))) h = absurd (omega arith)

reason_of-unknown : (r : ℕ) → 7 < r → reason_of (disconnect_reason_to_string r) ≡ none
unfolding reason_of disconnect_reason_to_string
reason_of-unknown (suc (suc (suc (suc (suc (suc (suc (suc r)))))))) h = refl
reason_of-unknown r h = absurd (omega arith)

le_or_lt : (a b : ℕ) → (a ≤ b) ⊎ (b < a)
le_or_lt a b = elim (Bool-cases (leb a b)) [
  | inl h ↦ inl (ground arith)
  | inr h ↦ inr (ground arith)
]

-- The text of one of the eight reasons is the text of no other value of a uint8_t.
pub disconnect_reason_to_string-injective :
    (r s : ℕ) → r ≤ 7 → disconnect_reason_to_string r ≡ disconnect_reason_to_string s → r ≡ s
disconnect_reason_to_string-injective r s h e = elim (le_or_lt s 7) [
  | inl l ↦ cc (reason_of-text r h, ap reason_of e, reason_of-text s l)
  | inr g ↦ absurd (cc (reason_of-text r h, ap reason_of e, reason_of-unknown s g))
]

-- The error that a text names
error_of : String → Option Error
error_of s =
    if str_eq s "Success"
    then some success
    else if str_eq s "Out of memory"
    then some out_of_memory
    else if str_eq s "Maximum retries exceeded"
    then some max_retries
    else if str_eq s "Malformed parameters"
    then some malformed_parameter
    else if str_eq s "Misc error"
    then some misc_error
    else none

error_of-text : (e : Error) → error_of (error_to_string e) ≡ some e
unfolding error_of error_to_string
error_of-text success = refl
error_of-text out_of_memory = refl
error_of-text max_retries = refl
error_of-text malformed_parameter = refl
error_of-text misc_error = refl

-- Two errors with the same text are the same.
pub error_to_string-injective : (e f : Error) → error_to_string e ≡ error_to_string f → e ≡ f
error_to_string-injective e f h = cc (error_of-text e, ap error_of h, error_of-text f)
