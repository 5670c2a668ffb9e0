-- ===== src/Wire/Headers.antt =====
-- The settlement headers that a peer answers with, against what the parser makes of them.
use directswarm.Base.{
  ℕ, zero, suc, ◌+◌, ◌*◌, ◌≤◌, ◌≡◌, refl, ap, ◌∙◌, Option, none, some, List, [], ◌∷◌, map, arith,
  length, All, ◌==◌, if◌then◌else◌, ltb, ◌>>=◌,
}
use directswarm.Wire.{
  Bytes, decode_varint, delimited, header_field, header_from, take_header, headers_field,
  headers_from, parse_settlement_headers,
}
use directswarm.Wire.Fields.{
  Field, bytes, encode, IsField, delimited-append, length-encode-lt, decode-encode,
}
use directswarm.Wire.Messages.{decode_varint-nil}
use directswarm.Wire.Quote.{Header, key_value, found_in, with_rate, quote_of, quote_lem}

abbrev pub fields : Header → List Field
fields = map (λ f. bytes f.0 f.1)

abbrev pub message : List Header → List Field
message = map (λ h. bytes 1 (encode (fields h)))

abbrev pub IsHeader : Header → Type 0
IsHeader h = All IsField (fields h)

header_bytes :
    (next : Bytes → Bytes → Bytes → Option (Bytes × Bytes)) (key value field : Bytes) (num : ℕ)
    (after rest : Bytes)
    → delimited after ≡ some (field, rest)
    → header_field next key value (num * 8 + 2, after) ≡ (
        if num == 1
        then next field value rest
        else if num == 2
        then next key field rest
        else next key value rest)
unfolding header_field
header_bytes next key value field num after rest d = ground arith

header_step :
    (n : ℕ) (key value body : Bytes) (x : ℕ × Bytes)
    → decode_varint body ≡ some x
    → header_from (suc n) key value body ≡ header_field (header_from n) key value x
unfolding header_from
header_step n key value [] x e = absurd (decode_varint-nil x e)
header_step n key value (b ∷ body) x e = ap (λ o. o >>= header_field (header_from n) key value) e

header_from-encode :
    (n : ℕ) (key value : Bytes) (h : Header)
    → IsHeader h
    → length (encode (fields h)) ≤ n
    → header_from n key value (encode (fields h)) ≡ some (key_value (key, value) h)
unfolding key_value
header_from-encode zero key value [] p le = unfold header_from encode in refl
header_from-encode (suc n) key value [] p le = unfold header_from encode in refl
header_from-encode zero key value ((num, field) ∷ h) p le =
    absurd (omega (arith, length-encode-lt (bytes num field) (fields h)))
header_from-encode (suc n) key value ((num, field) ∷ h) p le =
    let fits : length (encode (fields h)) ≤ n =
      omega (arith, length-encode-lt (bytes num field) (fields h)) in
    header_step n key value (encode (fields ((num, field) ∷ h))) _
      (decode-encode (bytes num field) (fields h) p.0)
    ∙ header_bytes (header_from n) key value field num _ (encode (fields h))
        (delimited-append field (encode (fields h)) p.0.1)
    ∙ ground (
      arith,
      header_from-encode n field value h p.1 fits,
      header_from-encode n key field h p.1 fits,
      header_from-encode n key value h p.1 fits,
    )

headers_bytes :
    (next : Option ℕ × ℕ → Bytes → Option (Option ℕ × ℕ)) (found : Option ℕ × ℕ) (header : Bytes)
    (kv : Bytes × Bytes) (after rest : Bytes)
    → delimited after ≡ some (header, rest)
    → header_from (length header) [] [] header ≡ some kv
    → headers_field next found (10, after)
      ≡ (if ltb 32 (length kv.1) then none else next (take_header found kv) rest)
unfolding headers_field
headers_bytes next found header kv after rest d e = ground arith

headers_step :
    (n : ℕ) (found : Option ℕ × ℕ) (body : Bytes) (x : ℕ × Bytes)
    → decode_varint body ≡ some x
    → headers_from (suc n) found body ≡ headers_field (headers_from n) found x
unfolding headers_from
headers_step n found [] x e = absurd (decode_varint-nil x e)
headers_step n found (b ∷ body) x e = ap (λ o. o >>= headers_field (headers_from n) found) e

headers_from-encode :
    (n : ℕ) (found : Option ℕ × ℕ) (hs : List Header)
    → All IsHeader hs
    → All IsField (message hs)
    → length (encode (message hs)) ≤ n
    → headers_from n found (encode (message hs)) ≡ found_in found hs
unfolding found_in
headers_from-encode zero found [] p q le = unfold headers_from encode in refl
headers_from-encode (suc n) found [] p q le = unfold headers_from encode in refl
headers_from-encode zero found (h ∷ hs) p q le =
    absurd (omega (arith, length-encode-lt (bytes 1 (encode (fields h))) (message hs)))
headers_from-encode (suc n) found (h ∷ hs) p q le =
    let body = encode (fields h) in
    let fits : length (encode (message hs)) ≤ n =
      omega (arith, length-encode-lt (bytes 1 body) (message hs)) in
    headers_step n found (encode (message (h ∷ hs))) _
      (decode-encode (bytes 1 body) (message hs) q.0)
    ∙ headers_bytes (headers_from n) found body (key_value ([], []) h) _ (encode (message hs))
        (delimited-append body (encode (message hs)) q.0.1)
        (header_from-encode (length body) [] [] h p.0 (omega arith))
    ∙ ap (λ r. if ltb 32 (length (key_value ([], []) h).1) then none else r)
        (headers_from-encode n (take_header found (key_value ([], []) h)) hs p.1 q.1 fits)

with_rate_lem :
    (r : Option (Option ℕ × ℕ))
    → (r >>= λ x. elim x.0 [ none ↦ none | some rate ↦ some (rate, x.1) ]) ≡ with_rate r
with_rate_lem none = refl
with_rate_lem (some (none, deduction)) = refl
with_rate_lem (some (some rate, deduction)) = refl

-- Of a message of any headers, `parse_settlement_headers` returns the value of the last header whose
-- key is "exchange" as the rate and that of the last one whose key is "deduction" as the deduction,
-- zero if there is none; it fails if there is no rate or if some value has more than 32 bytes. A
-- header's key and value are its last fields 1 and 2, empty if they are absent.
pub parse_settlement_headers-encode :
    (hs : List Header)
    → All IsHeader hs
    → All IsField (message hs)
    → parse_settlement_headers (encode (message hs)) ≡ quote_of hs
unfolding parse_settlement_headers
parse_settlement_headers-encode hs p q =
    with_rate_lem (headers_from (length (encode (message hs))) (none, 0) (encode (message hs)))
    ∙ ap with_rate
        (headers_from-encode (length (encode (message hs))) (none, 0) hs p q (omega arith))
    ∙ quote_lem hs
