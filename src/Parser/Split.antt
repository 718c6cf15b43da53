-- ===== src/Parser/Split.antt =====
-- Parser::parse of src/Packets/Parser.cpp on an input that arrives in two parts.
use esp_mqtt_client.Prelude.{
  ℕ, ◌+◌, ◌<◌, ◌≡◌, List, ◌++◌, some, length, arith, refl, sym, ◌∙◌, ap, subst, length-append,
}
use esp_mqtt_client.Config.{size_mod}
use esp_mqtt_client.Parser.{Parser, PayloadData, nowhere, payload_buffer, input, await_data}
use esp_mqtt_client.Parser.Parse.{parse_loop, parse}
use esp_mqtt_client.Parser.Invariant.{Invariant}
use esp_mqtt_client.Parser.StepSafety.{Returns, Parsed}
use esp_mqtt_client.Parser.Total.{parse-Returns}
use esp_mqtt_client.Parser.Moved.{moved-Invariant}
use esp_mqtt_client.Parser.Total.{not_error}
use esp_mqtt_client.Parser.Placed.{shift, placed}
use esp_mqtt_client.Parser.Turns.{whole}
use esp_mqtt_client.Parser.FirstPart.{first_part, small_first}
use esp_mqtt_client.Parser.SecondPart.{behind, shifted, second_part}

-- No payload of an earlier input is pointed at.
abbrev pub HasNoPointer : PayloadData → Type 0
HasNoPointer nowhere = Unit {0}
HasNoPointer payload_buffer = Unit {0}
HasNoPointer (input k) = ⊥

shift-unchanged : (n : ℕ) (d : PayloadData) → HasNoPointer d → shift n d ≡ d
shift-unchanged n nowhere h = refl
shift-unchanged n payload_buffer h = refl
shift-unchanged n (input k) h = absurd h

-- What the first call leaves satisfies the invariant.
asks-Invariant :
    (xs : List ℕ) (p q : Parser)
    → Invariant p
    → length xs < size_mod
    → parse xs p ≡ some (await_data, q)
    → Invariant q
asks-Invariant xs p q i m run =
    let parsed : Parsed xs await_data q = subst (Returns xs) run (parse-Returns xs p i m) in
    record { arrays = parsed.arrays; ready = not_error parsed.ready (λ e. cc) }

-- It does not matter how the bytes arrive: if the parser is given `xs` and then asks for more, and is then
-- given `ys`, the second call returns what one call on both would have returned: the same result and the
-- same members, only that the parser stands `length xs` bytes further in the input and that its pointer to a
-- payload there is moved as much. The parser satisfies its invariant and points at no payload of an earlier
-- input, and both parts together have fewer than 2^32 bytes.
pub parse-split :
    (xs ys : List ℕ) (p q : Parser)
    → Invariant p
    → HasNoPointer p.incoming.payload_data
    → length (xs ++ ys) < size_mod
    → parse xs p ≡ some (await_data, q)
    → parse (xs ++ ys) p ≡ behind xs ys (parse ys q)
unfolding parse
parse-split xs ys p q i h small run =
    let start : Parser = record p { input_data = xs; bytes_read = 0 } in
    let later : Parser = record q { input_data = ys; bytes_read = 0 } in
    let first =
      first_part xs ys small (length xs) (length ys) q start (moved-Invariant p xs 0 i) refl
        (omega arith) run in
    let second =
      second_part xs ys small (length ys) later
        (moved-Invariant q ys 0 (asks-Invariant xs p q i (small_first xs ys small) run)) refl in
    let here : whole xs ys 0 start ≡ record p { input_data = xs ++ ys; bytes_read = 0 } =
      ap
        (λ d. record p {
          input_data = xs ++ ys;
          bytes_read = 0;
          incoming = record p.incoming { payload_data = d };
        })
        (shift-unchanged (length xs) p.incoming.payload_data h) in
    let there : whole xs ys (length xs) q ≡ shifted xs ys later =
      ap (λ m. placed (xs ++ ys) m (length xs) q) (omega arith) in
    rw (length-append xs ys) (
      ap (parse_loop (length xs + length ys)) (sym here)
      ∙ first
      ∙ ap (parse_loop (length ys)) there
      ∙ second)
