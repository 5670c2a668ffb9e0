-- ===== src/Wire.antt =====
-- The protobuf wire of rust/ds-net/src/direct.rs and growth.rs: varints, length-delimited fields
-- and
-- the three messages that the settlement reads. Bytes are numbers in a list.
pub mod Varint
pub mod Fields
pub mod Messages
pub mod Quote
pub mod Headers
mod Tests
use Prim.Native.Nat.{bit_or}
use directswarm.Base.{
  ℕ, zero, suc, ◌+◌, ◌-◌, ◌*◌, ◌/◌, ◌%◌, ◌^◌, Bool, true, false, List, [], ◌∷◌, ◌++◌, Option, none,
  some, ltb, ◌==◌, ◌&&◌, not, if◌then◌else◌, ◌>>=◌, length, take, drop, is_empty, bytes_beq, codes,
}

abbrev pub Bytes : Type 0
Bytes = List ℕ

-- The loop of `decode_varint`: `n` rounds are left and `i` are done.
unfoldable pub decode_from : ℕ → ℕ → ℕ → Bytes → Option (ℕ × Bytes)
decode_from zero i value buf = none
decode_from (suc n) i value [] = none
decode_from (suc n) i value (byte ∷ rest) =
    let value' = bit_or value (byte % 2 ^ 7 * 2 ^ (7 * i) % 2 ^ 64) in
    let more = decode_from n (i + 1) value' rest in
    if byte / 2 ^ 7 % 2 == 0 then some (value', rest) else more

unfoldable pub decode_varint : Bytes → Option (ℕ × Bytes)
unfolding decode_from
decode_varint buf = decode_from 10 0 0 buf

-- The loop of `encode_varint`. Ten rounds are enough for a `u64`.
unfoldable pub encode_from : ℕ → ℕ → Bytes → Bytes
encode_from zero value out = out
encode_from (suc n) value out =
    let byte = value % 2 ^ 7 in
    let value' = value / 2 ^ 7 in
    let more = encode_from n value' (out ++ bit_or byte 0x80 ∷ []) in
    if value' == 0 then out ++ byte ∷ [] else more

unfoldable pub encode_varint : ℕ → Bytes → Bytes
unfolding encode_from
encode_varint value out = encode_from 10 value out

-- `after_len.get(..len)?` with `after_len.get(len..)?`.
unfoldable pub split_at : ℕ → Bytes → Option (Bytes × Bytes)
split_at len bytes = if ltb (length bytes) len then none else some (take len bytes, drop len bytes)

-- A length prefix and the bytes that it announces.
unfoldable pub delimited : Bytes → Option (Bytes × Bytes)
delimited buf = do (len, after) ← decode_varint buf; split_at len after

-- `from_big_endian` and `u64::from_be_bytes` of a value that is short enough.
unfoldable pub big_endian : ℕ → Bytes → ℕ
big_endian acc [] = acc
big_endian acc (byte ∷ bytes) = big_endian (acc * 256 + byte) bytes

-- One round of `parse_announce_threshold` behind the tag; `next` is the next round.
unfoldable pub announce_field : (Bytes → Option ℕ) → ℕ × Bytes → Option ℕ
announce_field next (tag, after) = elim (tag % 8 == 2) [
  | true ↦ do
    (value, rest) ← delimited after
    elim (tag / 8 == 1) [
      | true ↦ if ltb 32 (length value) then none else some (big_endian 0 value)
      | false ↦ next rest
    ]
  | false ↦ elim (tag % 8 == 0) [
    | true ↦ do (skipped, rest) ← decode_varint after; next rest
    | false ↦ none
  ]
]

-- Each round takes a byte or more, so the length of the body is enough fuel.
unfoldable pub announce_from : ℕ → Bytes → Option ℕ
announce_from zero rest = none
announce_from (suc n) [] = none
announce_from (suc n) (byte ∷ bytes) = do
  x ← decode_varint (byte ∷ bytes)
  announce_field (announce_from n) x

unfoldable pub parse_announce_threshold : Bytes → Option ℕ
unfolding announce_from
parse_announce_threshold body = announce_from (length body) body

-- One round of `parse_ack_amount` behind the tag: the last amount wins.
unfoldable pub ack_field :
    (Option ℕ → Bytes → Option (Option ℕ)) → Option ℕ → ℕ × Bytes → Option (Option ℕ)
ack_field next amount (tag, after) = elim (tag % 8 == 2) [
  | true ↦ do
    (value, rest) ← delimited after
    elim (tag / 8 == 1) [
      | true ↦ if ltb 8 (length value) then none else next (some (big_endian 0 value)) rest
      | false ↦ next amount rest
    ]
  | false ↦ elim (tag % 8 == 0) [
    | true ↦ do (skipped, rest) ← decode_varint after; next amount rest
    | false ↦ none
  ]
]

unfoldable pub ack_from : ℕ → Option ℕ → Bytes → Option (Option ℕ)
ack_from n amount [] = some amount
ack_from zero amount (byte ∷ bytes) = none
ack_from (suc n) amount (byte ∷ bytes) = do
  x ← decode_varint (byte ∷ bytes)
  ack_field (ack_from n) amount x

-- An absent or empty amount is zero.
unfoldable pub parse_ack_amount : Bytes → Option ℕ
unfolding ack_from
parse_ack_amount body = do
  amount ← ack_from (length body) none body
  elim amount [ none ↦ some 0 | some n ↦ some n ]

-- One round of the inner loop of `parse_settlement_headers`, behind the tag.
unfoldable pub header_field :
    (Bytes → Bytes → Bytes → Option (Bytes × Bytes))
    → Bytes
    → Bytes
    → ℕ × Bytes
    → Option (Bytes × Bytes)
header_field next key value (tag, after) = elim (tag % 8 == 2) [
  | true ↦ do
    (field, rest) ← delimited after
    elim (tag / 8 == 1) [
      | true ↦ next field value rest
      | false ↦ elim (tag / 8 == 2) [ true ↦ next key field rest | false ↦ next key value rest ]
    ]
  | false ↦ none
]

-- One header: the last key and the last value of its fields.
unfoldable pub header_from : ℕ → Bytes → Bytes → Bytes → Option (Bytes × Bytes)
header_from n key value [] = some (key, value)
header_from zero key value (byte ∷ bytes) = none
header_from (suc n) key value (byte ∷ bytes) = do
  x ← decode_varint (byte ∷ bytes)
  header_field (header_from n) key value x

abbrev pub exchange_key : Bytes
exchange_key = codes "exchange"

abbrev pub deduction_key : Bytes
deduction_key = codes "deduction"

-- What one header does to the rate and the deduction.
unfoldable pub take_header : Option ℕ × ℕ → Bytes × Bytes → Option ℕ × ℕ
take_header (exchange, deduction) (key, value) =
    if bytes_beq key exchange_key
    then (some (big_endian 0 value), deduction)
    else if bytes_beq key deduction_key
    then (exchange, big_endian 0 value)
    else (exchange, deduction)

-- One round of the outer loop, behind the tag.
unfoldable pub headers_field :
    (Option ℕ × ℕ → Bytes → Option (Option ℕ × ℕ))
    → Option ℕ × ℕ
    → ℕ × Bytes
    → Option (Option ℕ × ℕ)
headers_field next found (tag, after) = elim ((tag / 8 == 1) && (tag % 8 == 2)) [
  | true ↦ do
    (header, rest) ← delimited after
    (key, value) ← header_from (length header) [] [] header
    if ltb 32 (length value) then none else next (take_header found (key, value)) rest
  | false ↦ none
]

unfoldable pub headers_from : ℕ → Option ℕ × ℕ → Bytes → Option (Option ℕ × ℕ)
headers_from n found [] = some found
headers_from zero found (byte ∷ bytes) = none
headers_from (suc n) found (byte ∷ bytes) = do
  x ← decode_varint (byte ∷ bytes)
  headers_field (headers_from n) found x

-- The rate and the deduction; no rate is a failure, no deduction is zero.
unfoldable pub parse_settlement_headers : Bytes → Option (ℕ × ℕ)
unfolding headers_from
parse_settlement_headers body = do
  (exchange, deduction) ← headers_from (length body) (none, 0) body
  elim exchange [ none ↦ none | some rate ↦ some (rate, deduction) ]
