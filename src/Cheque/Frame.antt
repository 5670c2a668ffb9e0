-- ===== src/Cheque/Frame.antt =====
-- The frame that carries a cheque, read back as the peer reads it.
use directswarm.Base.{
  ◌≤◌, ◌≡◌, refl, sym, ap, ◌∙◌, [], ◌∷◌, ◌++◌, append-nil, some, arith, length, u64_max,
}
use directswarm.Wire.{Bytes, decode_varint, delimited, encode_varint}
use directswarm.Wire.Varint.{varint, varint_from, decode-encode_varint}
use directswarm.Wire.Fields.{bytes, payload, encode, delimited-append, decode-encode}
use directswarm.Cheque.{frame}

abbrev cheque_message : Bytes → Bytes
cheque_message json = encode (bytes 1 json ∷ [])

tag_lem : varint 10 ≡ 10 ∷ []
unfolding varint_from
tag_lem = refl

message_lem :
    (json : Bytes)
    → length json ≤ u64_max
    → encode_varint (length json) (0x0a ∷ []) ++ json ≡ cheque_message json
unfolding encode
message_lem json h =
    ap (λ t. t ++ json) ((decode-encode_varint (length json) (0x0a ∷ []) [] h).0)
    ∙ ap (λ t. 0x0a ∷ t) (sym (append-nil (varint (length json) ++ json)))
    ∙ ap (λ t. t ++ ((varint (length json) ++ json) ++ [])) (sym tag_lem)

frame_lem :
    (json : Bytes)
    → length json ≤ u64_max
    → length (cheque_message json) ≤ u64_max
    → frame json ≡ varint (length (cheque_message json)) ++ cheque_message json
unfolding frame
frame_lem json h k =
    ap (λ t. encode_varint (length t) [] ++ t) (message_lem json h)
    ∙ ap (λ t. t ++ cheque_message json)
        ((decode-encode_varint (length (cheque_message json)) [] [] k).0)

-- A frame whose message fits into a 64-bit length, and whatever follows it: the length prefix gives
-- the message and the rest of the stream, and the message is the single field 1 with the cheque.
pub delimited-frame :
    (json rest : Bytes)
    → length json ≤ u64_max
    → length (encode (bytes 1 json ∷ [])) ≤ u64_max
    → (delimited (frame json ++ rest) ≡ some (encode (bytes 1 json ∷ []), rest))
      × (decode_varint (encode (bytes 1 json ∷ [])) ≡ some (10, payload (bytes 1 json) ++ []))
      × (delimited (payload (bytes 1 json) ++ []) ≡ some (json, []))
unfolding encode
delimited-frame json rest h k = (
  ap (λ t. delimited (t ++ rest)) (frame_lem json h k)
      ∙ delimited-append (cheque_message json) rest k,
  decode-encode (bytes 1 json) [] (omega arith, h),
  delimited-append json [] h ∙ refl,
)
