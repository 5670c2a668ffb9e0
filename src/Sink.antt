-- ===== src/Sink.antt =====
-- The streams that a peer opens: `read_delimited`, `read_sink_body` and `run_pricing_sink` of
-- rust/ds-net/src/direct.rs. What a stream delivers before it ends is a list of bytes.
pub mod Delimited
pub mod Pricing
mod Tests
use Prim.Native.Nat.{bit_or}
use directswarm.Base.{
  ℕ, zero, suc, ◌+◌, ◌*◌, ◌/◌, ◌%◌, ◌^◌, Bool, true, false, List, [], ◌∷◌, Option, none, some, ltb,
  ◌==◌, if◌then◌else◌, length, take, drop,
}
use directswarm.Base.Results.{Result, ok, err, ◌>>=◌}
use directswarm.Wire.{Bytes, parse_announce_threshold}

pub data IoError : Type 0 where
  unexpected_eof connection_reset varint_too_long message_too_large other : IoError

-- The loop of `read_delimited`; `stop` is what reading meets when no byte is left. Ten rounds are all
-- that the shift allows.
unfoldable pub read_len : ℕ → ℕ → ℕ → IoError → Bytes → Result IoError (ℕ × Bytes)
read_len zero shift len stop stream = err varint_too_long
read_len (suc n) shift len stop [] = err stop
read_len (suc n) shift len stop (byte ∷ rest) =
    let len' = bit_or len (byte % 2 ^ 7 * 2 ^ shift % 2 ^ 64) in
    let more = read_len n (shift + 7) len' stop rest in
    if byte / 2 ^ 7 % 2 == 0
    then ok (len', rest)
    else if ltb 63 (shift + 7)
    then err varint_too_long
    else more

unfoldable pub read_exact : ℕ → IoError → Bytes → Result IoError (Bytes × Bytes)
read_exact len stop stream =
    if ltb (length stream) len then err stop else ok (take len stream, drop len stream)

-- A length is a 64-bit word, which a `usize` holds.
unfoldable pub read_delimited : ℕ → IoError → Bytes → Result IoError (Bytes × Bytes)
unfolding read_len read_exact
read_delimited max stop stream = do
  (len, rest) ← read_len 10 0 0 stop stream
  if ltb max len then err message_too_large else read_exact len stop rest

-- A stream of a peer: its bytes, whether it is closed behind them or fails, and what becomes of our
-- reply.
pub record Incoming : Type 0 where
  pub bytes : Bytes
  pub failure : Option IoError
  pub reply : Result IoError (Unit {0})

abbrev pub at_end : Option IoError → IoError
at_end none = unexpected_eof
at_end (some e) = e

-- What is left is read and dropped.
unfoldable pub drain : Option IoError → Bytes → Result IoError Bytes
drain none body = ok body
drain (some unexpected_eof) body = ok body
drain (some connection_reset) body = ok body
drain (some varint_too_long) body = err varint_too_long
drain (some message_too_large) body = err message_too_large
drain (some other) body = err other

unfoldable pub read_sink_body : ℕ → Incoming → Result IoError Bytes
unfolding read_delimited drain
read_sink_body max s = do
  (headers, rest) ← read_delimited (8 * 1_024) (at_end s.failure) s.bytes
  done ← s.reply
  (body, tail) ← read_delimited max (at_end s.failure) rest
  drain s.failure body

-- One stream of the pricing protocol, read within its ten seconds or not, and the threshold that is
-- known.
unfoldable pub hear_price : Option ℕ → Incoming × Bool → Option ℕ
unfolding read_sink_body
hear_price known (s, false) = known
hear_price known (s, true) = elim (read_sink_body 1_024 s) [
  | err e ↦ known
  | ok body ↦ elim (parse_announce_threshold body) [
    | none ↦ known
    | some threshold ↦ some threshold
  ]
]

-- The streams in the order in which they are done.
unfoldable pub run_pricing_sink : Option ℕ → List (Incoming × Bool) → Option ℕ
run_pricing_sink known [] = known
run_pricing_sink known (s ∷ streams) = run_pricing_sink (hear_price known s) streams
