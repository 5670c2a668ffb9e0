-- ===== src/Wire/Tests.antt =====
-- Messages on the wire, and instances of the theorems on them.
use directswarm.Base.{◌≡◌, refl, [], ◌∷◌, ◌++◌, none, some, arith, All, List, codes}
use directswarm.Wire.{
  decode_varint, encode_varint, parse_announce_threshold, parse_ack_amount,
  parse_settlement_headers, announce_field, ack_field, delimited, split_at, big_endian,
  headers_field, header_from, header_field, take_header,
}
use directswarm.Wire.Varint.{varint, varint_from, decode-encode_varint}
use directswarm.Wire.Fields.{Field, bytes, number, encode, IsField}
use directswarm.Wire.Messages.{last_amount, or_zero, parse_ack_amount-encode}
use directswarm.Wire.Quote.{Header, quote_of}
use directswarm.Wire.Headers.{message, IsHeader, parse_settlement_headers-encode}

three_hundred : encode_varint 300 [] ≡ 0xac ∷ 0x02 ∷ []
unfolding encode_varint
three_hundred = refl

unfinished : decode_varint (0x80 ∷ 0x80 ∷ []) ≡ none
unfolding decode_varint
unfinished = refl

decode-encode_varint_example :
    (encode_varint 300 (7 ∷ []) ≡ (7 ∷ []) ++ varint 300)
    × (decode_varint (varint 300 ++ 9 ∷ []) ≡ some (300, 9 ∷ []))
decode-encode_varint_example = decode-encode_varint 300 (7 ∷ []) (9 ∷ []) (omega arith)

abbrev two_amounts : List Field
two_amounts = number 3 5 ∷ bytes 1 (1 ∷ 0 ∷ []) ∷ bytes 1 (7 ∷ []) ∷ []

two_amounts-IsField : All IsField two_amounts
two_amounts-IsField =
    ((omega arith, omega arith), ((omega arith, omega arith), ((omega arith, omega arith), tt)))

parse_ack_amount-encode_example :
    parse_ack_amount (encode two_amounts) ≡ or_zero (last_amount none two_amounts)
parse_ack_amount-encode_example = parse_ack_amount-encode two_amounts two_amounts-IsField

-- The first amount of an announcement counts, the last one of an acknowledgement.
first_announced : parse_announce_threshold (encode two_amounts) ≡ some 256
unfolding parse_announce_threshold encode varint_from decode_varint announce_field delimited
    split_at big_endian
first_announced = refl

last_acknowledged : parse_ack_amount (encode two_amounts) ≡ some 7
unfolding parse_ack_amount encode varint_from decode_varint ack_field delimited split_at big_endian
last_acknowledged = refl

abbrev quoted : List Header
quoted =
    ((1, codes "exchange") ∷ (2, 2 ∷ 0 ∷ []) ∷ [])
    ∷ ((1, codes "deduction") ∷ (2, 9 ∷ []) ∷ [])
    ∷ []

quoted-IsHeader : All IsHeader quoted
quoted-IsHeader = (
  ((omega arith, omega arith), ((omega arith, omega arith), tt)),
  (((omega arith, omega arith), ((omega arith, omega arith), tt)), tt),
)

quoted-IsField : All IsField (message quoted)
unfolding encode varint_from
quoted-IsField = ((omega arith, omega arith), ((omega arith, omega arith), tt))

parse_settlement_headers-encode_example :
    parse_settlement_headers (encode (message quoted)) ≡ quote_of quoted
parse_settlement_headers-encode_example =
    parse_settlement_headers-encode quoted quoted-IsHeader quoted-IsField

quoted_rate : parse_settlement_headers (encode (message quoted)) ≡ some (512, 9)
unfolding parse_settlement_headers encode varint_from decode_varint headers_field delimited split_at
    header_from header_field take_header big_endian
quoted_rate = refl

-- The last of two rates counts.
abbrev requoted : List Header
requoted =
    ((1, codes "exchange") ∷ (2, 7 ∷ []) ∷ []) ∷ ((1, codes "exchange") ∷ (2, 9 ∷ []) ∷ []) ∷ []

last_rate : parse_settlement_headers (encode (message requoted)) ≡ some (9, 0)
unfolding parse_settlement_headers encode varint_from decode_varint headers_field delimited split_at
    header_from header_field take_header big_endian
last_rate = refl
