-- ===== src/Sink/Delimited.antt =====
-- The reader of a length-delimited message from a stream against the parser of one in memory.
use Prim.Native.Nat.{bit_or}
use directswarm.Base.{
  ℕ, zero, suc, ◌+◌, ◌*◌, ◌/◌, ◌%◌, ◌^◌, ◌≤◌, ◌≡◌, ◌↔◌, refl, sym, [], ◌∷◌, Option, none, some, ltb,
  ◌==◌, if◌then◌else◌, arith, length, length-take, Bool-cases, inl, inr,
}
use directswarm.Base.Results.{Result, ok, err}
use directswarm.Wire.{Bytes, decode_from, decode_varint, delimited, split_at}
use directswarm.Sink.{
  IoError, varint_too_long, message_too_large, read_len, read_exact, read_delimited,
}

-- Both fail, or both give the same.
abbrev Agree : Option (ℕ × Bytes) → Result IoError (ℕ × Bytes) → Type 0
Agree none (err e) = Unit
Agree (some p) (ok q) = p ≡ q
Agree none (ok q) = ⊥
Agree (some p) (err e) = ⊥

-- The shift is too far just when no round is left.
next-Agree :
    (n i : ℕ) (o : Option (ℕ × Bytes)) (r : Result IoError (ℕ × Bytes))
    → i + suc n ≡ 10
    → (n ≡ 0 → o ≡ none)
    → Agree o r
    → Agree o (if ltb 63 (7 * i + 7) then err varint_too_long else r)
next-Agree n i o r h last agree = elim (Bool-cases (ltb 63 (7 * i + 7))) [
  | inl far ↦ rw (far, last (ground (arith, far))) tt
  | inr near ↦ rw near agree
]

no_round : (n i len : ℕ) (stream : Bytes) → n ≡ 0 → decode_from n i len stream ≡ none
unfolding decode_from
no_round zero i len stream e = refl
no_round (suc n) i len stream e = absurd (omega (arith, e))

read_len-Agree :
    (stop : IoError) (n i shift len : ℕ) (stream : Bytes)
    → i + n ≡ 10
    → shift ≡ 7 * i
    → Agree (decode_from n i len stream) (read_len n shift len stop stream)
unfolding decode_from read_len
read_len-Agree stop zero i shift len stream h e = tt
read_len-Agree stop (suc n) i shift len [] h e = tt
read_len-Agree stop (suc n) i shift len (byte ∷ rest) h e =
    let word = bit_or len (byte % 2 ^ 7 * 2 ^ (7 * i) % 2 ^ 64) in
    let more = read_len-Agree stop n (i + 1) (7 * i + 7) word rest (omega arith) (omega arith) in
    rw e (elim (Bool-cases (byte / 2 ^ 7 % 2 == 0)) [
      | inl last ↦ rw last refl
      | inr on ↦ rw on (next-Agree n i _ _ h (no_round n (i + 1) word rest) more)
    ])

-- What the length announces, read or split off.
exact-split :
    (max len : ℕ) (stop : IoError) (stream msg rest : Bytes)
    → ((if ltb max len then err message_too_large else read_exact len stop stream) ≡ ok (msg, rest))
      ↔ ((split_at len stream ≡ some (msg, rest)) × (length msg ≤ max))
unfolding read_exact split_at
exact-split max len stop stream msg rest =
    (λ e. ground (arith, length-take len stream), λ (e, le). ground (arith, length-take len stream))

-- However long a message may be: from a stream the reader takes a message and leaves a rest just if the
-- parser in memory takes the same message off the same bytes and leaves the same rest, and the message
-- is not longer than that.
pub read_delimited-delimited :
    (max : ℕ) (stop : IoError) (stream msg rest : Bytes)
    → (read_delimited max stop stream ≡ ok (msg, rest))
      ↔ ((delimited stream ≡ some (msg, rest)) × (length msg ≤ max))
unfolding read_delimited delimited decode_varint
read_delimited-delimited max stop stream msg rest =
    go (decode_from 10 0 0 stream) (read_len 10 0 0 stop stream) refl refl
      (read_len-Agree stop 10 0 0 0 stream refl refl)
  where
    go :
        (o : Option (ℕ × Bytes)) (r : Result IoError (ℕ × Bytes))
        → decode_from 10 0 0 stream ≡ o
        → read_len 10 0 0 stop stream ≡ r
        → Agree o r
        → (read_delimited max stop stream ≡ ok (msg, rest))
          ↔ ((delimited stream ≡ some (msg, rest)) × (length msg ≤ max))
    go none (err e) d l a = rw (d, l) (λ e. cc, λ e. cc)
    go (some (len, after)) (ok q) d l a = rw (d, l, sym a) (exact-split max len stop after msg rest)
    go none (ok q) d l a = absurd a
    go (some p) (err e) d l a = absurd a
