-- ===== src/Wire/Messages.antt =====
-- `parse_announce_threshold` and `parse_ack_amount` against the fields of the message.
use directswarm.Base.{
  ℕ, zero, suc, ◌+◌, ◌*◌, ◌≤◌, ◌≡◌, refl, ap, ap₂, ◌∙◌, Option, none, List, [], ◌∷◌, some, arith,
  length, All, ◌==◌, if◌then◌else◌, ltb, ◌>>=◌,
}
use directswarm.Wire.{
  Bytes, decode_varint, delimited, big_endian, announce_field, announce_from,
  parse_announce_threshold, ack_field, ack_from, parse_ack_amount,
}
use directswarm.Wire.Fields.{
  Field, bytes, number, encode, IsField, decode-varint, delimited-append, length-encode-lt,
  decode-encode,
}

-- The value of the first field 1, if it has at most 32 bytes.
unfoldable pub first_amount : List Field → Option ℕ
first_amount [] = none
first_amount (bytes n value ∷ fs) =
    if n == 1
    then if ltb 32 (length value) then none else some (big_endian 0 value)
    else first_amount fs
first_amount (number n v ∷ fs) = first_amount fs

-- Nothing is read from no bytes.
pub decode_varint-nil : (x : ℕ × Bytes) → ¬ (decode_varint [] ≡ some x)
unfolding decode_varint
decode_varint-nil x e = cc

-- One round over a field of bytes, and one over a number.
module _ (next : Bytes → Option ℕ) (num : ℕ) (after rest : Bytes) where
  announce_bytes :
      (value : Bytes)
      → delimited after ≡ some (value, rest)
      → announce_field next (num * 8 + 2, after) ≡ (
          if num == 1
          then if ltb 32 (length value) then none else some (big_endian 0 value)
          else next rest)
  unfolding announce_field
  announce_bytes value d = ground arith

  announce_number :
      (v : ℕ)
      → decode_varint after ≡ some (v, rest)
      → announce_field next (num * 8, after) ≡ next rest
  unfolding announce_field
  announce_number v d = ground arith

announce_step :
    (n : ℕ) (body : Bytes) (x : ℕ × Bytes)
    → decode_varint body ≡ some x
    → announce_from (suc n) body ≡ announce_field (announce_from n) x
unfolding announce_from
announce_step n [] x e = absurd (decode_varint-nil x e)
announce_step n (b ∷ body) x e = ap (λ o. o >>= announce_field (announce_from n)) e

announce_from-encode :
    (n : ℕ) (fs : List Field)
    → All IsField fs
    → length (encode fs) ≤ n
    → announce_from n (encode fs) ≡ first_amount fs
unfolding first_amount
announce_from-encode zero [] h le = unfold announce_from encode in refl
announce_from-encode (suc n) [] h le = unfold announce_from encode in refl
announce_from-encode zero (f ∷ fs) h le = absurd (omega (arith, length-encode-lt f fs))
announce_from-encode (suc n) (bytes num value ∷ fs) h le =
    announce_step n (encode (bytes num value ∷ fs)) _ (decode-encode (bytes num value) fs h.0)
    ∙ announce_bytes (announce_from n) num _ (encode fs) value
        (delimited-append value (encode fs) h.0.1)
    ∙ ap
        (λ r.
          if num == 1 then if ltb 32 (length value) then none else some (big_endian 0 value) else r)
        (announce_from-encode n fs h.1 (omega (arith, length-encode-lt (bytes num value) fs)))
announce_from-encode (suc n) (number num v ∷ fs) h le =
    announce_step n (encode (number num v ∷ fs)) _ (decode-encode (number num v) fs h.0)
    ∙ announce_number (announce_from n) num _ (encode fs) v (decode-varint v (encode fs) h.0.1)
    ∙ announce_from-encode n fs h.1 (omega (arith, length-encode-lt (number num v) fs))

-- Of a message that is any list of fields, `parse_announce_threshold` returns the big-endian value
-- of
-- the first field 1 that holds bytes, and fails if there is none or if that has more than 32 bytes.
pub parse_announce_threshold-encode :
    (fs : List Field) → All IsField fs → parse_announce_threshold (encode fs) ≡ first_amount fs
unfolding parse_announce_threshold
parse_announce_threshold-encode fs h = announce_from-encode (length (encode fs)) fs h (omega arith)

-- The value of the last field 1, or what was there before.
pub last_amount : Option ℕ → List Field → Option (Option ℕ)
last_amount amount [] = some amount
last_amount amount (bytes n value ∷ fs) =
    if n == 1
    then if ltb 8 (length value) then none else last_amount (some (big_endian 0 value)) fs
    else last_amount amount fs
last_amount amount (number n v ∷ fs) = last_amount amount fs

module _ (next : Option ℕ → Bytes → Option (Option ℕ)) (amount : Option ℕ) (num : ℕ)
    (after rest : Bytes) where
  ack_bytes :
      (value : Bytes)
      → delimited after ≡ some (value, rest)
      → ack_field next amount (num * 8 + 2, after) ≡ (
          if num == 1
          then if ltb 8 (length value) then none else next (some (big_endian 0 value)) rest
          else next amount rest)
  unfolding ack_field
  ack_bytes value d = ground arith

  ack_number :
      (v : ℕ)
      → decode_varint after ≡ some (v, rest)
      → ack_field next amount (num * 8, after) ≡ next amount rest
  unfolding ack_field
  ack_number v d = ground arith

ack_step :
    (n : ℕ) (amount : Option ℕ) (body : Bytes) (x : ℕ × Bytes)
    → decode_varint body ≡ some x
    → ack_from (suc n) amount body ≡ ack_field (ack_from n) amount x
unfolding ack_from
ack_step n amount [] x e = absurd (decode_varint-nil x e)
ack_step n amount (b ∷ body) x e = ap (λ o. o >>= ack_field (ack_from n) amount) e

ack_from-encode :
    (n : ℕ) (amount : Option ℕ) (fs : List Field)
    → All IsField fs
    → length (encode fs) ≤ n
    → ack_from n amount (encode fs) ≡ last_amount amount fs
unfolding last_amount
ack_from-encode zero amount [] h le = unfold ack_from encode in refl
ack_from-encode (suc n) amount [] h le = unfold ack_from encode in refl
ack_from-encode zero amount (f ∷ fs) h le = absurd (omega (arith, length-encode-lt f fs))
ack_from-encode (suc n) amount (bytes num value ∷ fs) h le =
    let fits : length (encode fs) ≤ n = omega (arith, length-encode-lt (bytes num value) fs) in
    ack_step n amount (encode (bytes num value ∷ fs)) _ (decode-encode (bytes num value) fs h.0)
    ∙ ack_bytes (ack_from n) amount num _ (encode fs) value
        (delimited-append value (encode fs) h.0.1)
    ∙ ap₂ (λ r s. if num == 1 then if ltb 8 (length value) then none else r else s)
        (ack_from-encode n (some (big_endian 0 value)) fs h.1 fits)
        (ack_from-encode n amount fs h.1 fits)
ack_from-encode (suc n) amount (number num v ∷ fs) h le =
    ack_step n amount (encode (number num v ∷ fs)) _ (decode-encode (number num v) fs h.0)
    ∙ ack_number (ack_from n) amount num _ (encode fs) v (decode-varint v (encode fs) h.0.1)
    ∙ ack_from-encode n amount fs h.1 (omega (arith, length-encode-lt (number num v) fs))

-- An amount that is absent counts as zero.
abbrev pub or_zero : Option (Option ℕ) → Option ℕ
or_zero none = none
or_zero (some none) = some 0
or_zero (some (some n)) = some n

or_zero_lem :
    (r : Option (Option ℕ)) → (r >>= λ a. elim a [ none ↦ some 0 | some n ↦ some n ]) ≡ or_zero r
or_zero_lem none = refl
or_zero_lem (some none) = refl
or_zero_lem (some (some n)) = refl

-- Of a message that is any list of fields, `parse_ack_amount` returns the big-endian value of the
-- last
-- field 1 that holds bytes, zero if there is none, and fails if one of them has more than 8 bytes.
pub parse_ack_amount-encode :
    (fs : List Field)
    → All IsField fs
    → parse_ack_amount (encode fs) ≡ or_zero (last_amount none fs)
unfolding parse_ack_amount
parse_ack_amount-encode fs h =
    or_zero_lem (ack_from (length (encode fs)) none (encode fs))
    ∙ ap or_zero (ack_from-encode (length (encode fs)) none fs h (omega arith))
