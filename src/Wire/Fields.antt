-- ===== src/Wire/Fields.antt =====
-- A protobuf message as the list of its fields, written down independently of the parsers, and how
-- one field is taken off the front of a message.
use directswarm.Base.{
  ℕ, ◌+◌, ◌*◌, ◌/◌, ◌%◌, ◌^◌, ◌≤◌, ◌<◌, ◌≡◌, ap, List, [], ◌∷◌, ◌++◌, append_assoc, some, arith,
  length, u64_max, Bool-cases, inl, inr, ◌==◌, length-append, take-append, drop-append,
}
use directswarm.Wire.{Bytes, decode_varint, split_at, delimited}
use directswarm.Wire.Varint.{varint, varint_from, decode-encode_varint}

pub data Field : Type 0 where
  bytes : ℕ → Bytes → Field
  number : ℕ → ℕ → Field

abbrev pub tag_of : Field → ℕ
tag_of (bytes n value) = n * 8 + 2
tag_of (number n v) = n * 8

abbrev pub payload : Field → Bytes
payload (bytes n value) = varint (length value) ++ value
payload (number n v) = varint v

unfoldable pub encode : List Field → Bytes
encode [] = []
encode (f ∷ fs) = varint (tag_of f) ++ (payload f ++ encode fs)

-- Numbers and lengths are 64-bit words.
abbrev pub IsField : Field → Type 0
IsField (bytes n value) = (n * 8 + 2 ≤ u64_max) × (length value ≤ u64_max)
IsField (number n v) = (n * 8 ≤ u64_max) × (v ≤ u64_max)

-- A varint has a first byte.
pub varint-cons : (v : ℕ) → (b : ℕ) × (t : Bytes) × (varint v ≡ b ∷ t)
unfolding varint_from
varint-cons v = elim (Bool-cases (v / 2 ^ 7 == 0)) [
  | inl last ↦ (v % 2 ^ 7, [], rw last)
  | inr more ↦ (v % 2 ^ 7 + 128, varint_from 9 (v / 2 ^ 7), rw more)
]

pub decode-varint :
    (v : ℕ) (rest : Bytes) → v ≤ u64_max → decode_varint (varint v ++ rest) ≡ some (v, rest)
decode-varint v rest h = (decode-encode_varint v [] rest h).1

pub split_at-append :
    (value rest : Bytes) → split_at (length value) (value ++ rest) ≡ some (value, rest)
unfolding split_at
split_at-append value rest =
    rw (take-append value rest, drop-append value rest) (ground (arith, length-append value rest))

pub delimited-append :
    (value rest : Bytes)
    → length value ≤ u64_max
    → delimited ((varint (length value) ++ value) ++ rest) ≡ some (value, rest)
unfolding delimited
delimited-append value rest h =
    rw
      (
        append_assoc (varint (length value)) value rest,
        decode-varint (length value) (value ++ rest) h,
      )
      (split_at-append value rest)

-- A message with a field in it is longer than the rest.
pub length-encode-lt : (f : Field) (fs : List Field) → length (encode fs) < length (encode (f ∷ fs))
unfolding encode
length-encode-lt f fs =
    let (b, t, e) = varint-cons (tag_of f) in
    omega (
      arith,
      ap length e,
      length-append (varint (tag_of f)) (payload f ++ encode fs),
      length-append (payload f) (encode fs),
    )

-- The tag of the first field is read first.
pub decode-encode :
    (f : Field) (fs : List Field)
    → IsField f
    → decode_varint (encode (f ∷ fs)) ≡ some (tag_of f, payload f ++ encode fs)
unfolding encode
decode-encode (bytes n value) fs h = decode-varint (n * 8 + 2) _ h.0
decode-encode (number n v) fs h = decode-varint (n * 8) _ h.0
