-- ===== src/Wire/Varint.antt =====
-- `encode_varint` and `decode_varint` of rust/ds-net/src/direct.rs against an encoder of their own.
use Prim.Native.Nat.{bit_or}
use directswarm.Base.Bits.{bit_or-disjoint, pow-add}
use directswarm.Base.{
  ℕ, zero, suc, ◌+◌, ◌*◌, ◌/◌, ◌%◌, ◌^◌, ◌≤◌, ◌<◌, ◌≡◌, ap, ◌∙◌, sym, [], ◌∷◌, ◌++◌, append_assoc,
  append-nil, some, arith, u64_max, Bool-cases, inl, inr, false, ◌==◌, if◌then◌else◌,
}
use directswarm.Wire.{Bytes, decode_from, decode_varint, encode_from, encode_varint}

-- The bytes of a varint, lowest first.
unfoldable pub varint_from : ℕ → ℕ → Bytes
varint_from zero v = []
varint_from (suc n) v =
    let more = varint_from n (v / 2 ^ 7) in
    if v / 2 ^ 7 == 0 then v % 2 ^ 7 ∷ [] else (v % 2 ^ 7 + 128) ∷ more

abbrev pub varint : ℕ → Bytes
varint v = varint_from 10 v

with_mark : (v : ℕ) → bit_or (v % 2 ^ 7) 0x80 ≡ v % 2 ^ 7 + 128
with_mark v = bit_or-disjoint 7 (v % 2 ^ 7) 1 (omega arith)

encode_from-varint_from : (n v : ℕ) (out : Bytes) → encode_from n v out ≡ out ++ varint_from n v
unfolding encode_from varint_from
encode_from-varint_from zero v out = sym (append-nil out)
encode_from-varint_from (suc n) v out = ground (
  arith,
  with_mark v,
  encode_from-varint_from n (v / 2 ^ 7) (out ++ bit_or (v % 2 ^ 7) 0x80 ∷ []),
  append_assoc out (bit_or (v % 2 ^ 7) 0x80 ∷ []) (varint_from n (v / 2 ^ 7)),
)

-- Seven more bits above those that were read.
next_place : (i : ℕ) → 2 ^ (7 * (i + 1)) ≡ 2 ^ (7 * i) * 128
next_place i =
    let e : 7 * (i + 1) ≡ 7 * i + 7 = omega arith in ap (λ k. 2 ^ k) e ∙ pow-add (7 * i) 7

module _ (i acc v : ℕ) (small : acc < 2 ^ (7 * i)) (fits : acc + v * 2 ^ (7 * i) < 2 ^ 64) where
  parts : v % 2 ^ 7 * 2 ^ (7 * i) + v / 2 ^ 7 * (2 ^ (7 * i) * 128) ≡ v * 2 ^ (7 * i)
  parts =
      let e : v ≡ v % 128 + v / 128 * 128 = omega arith in
      omega (arith, ap (λ t. t * 2 ^ (7 * i)) e)

  gather : bit_or acc (v % 2 ^ 7 * 2 ^ (7 * i) % 2 ^ 64) ≡ acc + v % 2 ^ 7 * 2 ^ (7 * i)
  gather =
      let whole : v % 2 ^ 7 * 2 ^ (7 * i) % 2 ^ 64 ≡ v % 2 ^ 7 * 2 ^ (7 * i) =
        omega (arith, parts) in
      rw whole (bit_or-disjoint (7 * i) acc (v % 2 ^ 7) small)

  gather_small : acc + v % 2 ^ 7 * 2 ^ (7 * i) < 2 ^ (7 * (i + 1))
  gather_small =
      let digit : v % 128 ≤ 127 = omega arith in
      let most : v % 128 * 2 ^ (7 * i) ≤ 127 * 2 ^ (7 * i) = grind arith in
      omega (arith, next_place i)

  gather_fits : acc + v % 2 ^ 7 * 2 ^ (7 * i) + v / 2 ^ 7 * 2 ^ (7 * (i + 1)) < 2 ^ 64
  gather_fits = omega (arith, parts, ap (λ t. v / 2 ^ 7 * t) (next_place i))

  gather_all : acc + v % 2 ^ 7 * 2 ^ (7 * i) + v / 2 ^ 7 * 2 ^ (7 * (i + 1)) ≡ acc + v * 2 ^ (7 * i)
  gather_all = omega (arith, parts, ap (λ t. v / 2 ^ 7 * t) (next_place i))

varint_from-more :
    (n v : ℕ)
    → (v / 2 ^ 7 == 0) ≡ false
    → varint_from (suc n) v ≡ (v % 2 ^ 7 + 128) ∷ varint_from n (v / 2 ^ 7)
unfolding varint_from
varint_from-more n v h = rw h

-- A byte with its mark is taken in, and the reading goes on.
decode_from-more :
    (n i acc v : ℕ) (rest : Bytes)
    → acc < 2 ^ (7 * i)
    → acc + v * 2 ^ (7 * i) < 2 ^ 64
    → decode_from (suc n) i acc ((v % 2 ^ 7 + 128) ∷ rest)
      ≡ decode_from n (i + 1) (acc + v % 2 ^ 7 * 2 ^ (7 * i)) rest
unfolding decode_from
decode_from-more n i acc v rest small fits =
    let low : (v % 2 ^ 7 + 128) % 2 ^ 7 ≡ v % 2 ^ 7 = omega arith in
    let mark : ((v % 2 ^ 7 + 128) / 2 ^ 7 % 2 == 0) ≡ false = ground arith in
    rw (mark, low, gather i acc v small fits)

module _ (rest : Bytes) where
  decode_from-varint_from :
      (n i acc v : ℕ)
      → v < 2 ^ (7 * (n + 1))
      → acc < 2 ^ (7 * i)
      → acc + v * 2 ^ (7 * i) < 2 ^ 64
      → decode_from (suc n) i acc (varint_from (suc n) v ++ rest)
        ≡ some (acc + v * 2 ^ (7 * i), rest)
  decode_from-varint_from zero i acc v h small fits =
      unfold decode_from varint_from in
      ground (arith, gather i acc v small fits, gather_all i acc v small fits)
  decode_from-varint_from (suc n) i acc v h small fits = elim (Bool-cases (v / 2 ^ 7 == 0)) [
    | inl last ↦
        unfold decode_from varint_from in
        ground (arith, gather i acc v small fits, gather_all i acc v small fits)
    | inr more ↦
        let again : suc n + 1 ≡ n + 1 + 1 = omega arith in
        let size : v / 2 ^ 7 < 2 ^ (7 * (n + 1)) =
          omega (arith, next_place (n + 1), ap (λ k. 2 ^ (7 * k)) again) in
        rw
          (
            varint_from-more (suc n) v more,
            decode_from-more (suc n) i acc v (varint_from (suc n) (v / 2 ^ 7) ++ rest) small fits,
          )
          (decode_from-varint_from n (i + 1) (acc + v % 2 ^ 7 * 2 ^ (7 * i)) (v / 2 ^ 7) size
              (gather_small i acc v small fits) (gather_fits i acc v small fits)
            ∙ ap (λ t. some (t, rest)) (gather_all i acc v small fits))
  ]

-- Every `u64` is read back from its varint, whatever bytes follow it.
pub decode-encode_varint :
    (v : ℕ) (out rest : Bytes)
    → v ≤ u64_max
    → (encode_varint v out ≡ out ++ varint v) × (decode_varint (varint v ++ rest) ≡ some (v, rest))
unfolding encode_varint decode_varint
decode-encode_varint v out rest h = (
  encode_from-varint_from 10 v out,
  decode_from-varint_from rest 9 0 0 v (omega arith) (omega arith) (omega arith)
      ∙ ap (λ t. some (t, rest)) (omega arith),
)
