-- ===== src/Sink/Pricing.antt =====
-- The threshold that `run_pricing_sink` takes from what a peer announces.
use directswarm.Base.{
  ℕ, ◌*◌, ◌≤◌, ◌≡◌, refl, Bool, true, List, [], ◌∷◌, ◌++◌, Option, none, some, arith, length, All,
  u64_max,
}
use directswarm.Base.Results.{ok}
use directswarm.Wire.{Bytes}
use directswarm.Wire.Varint.{varint}
use directswarm.Wire.Fields.{Field, IsField, encode, delimited-append}
use directswarm.Wire.Messages.{first_amount, parse_announce_threshold-encode}
use directswarm.Sink.{
  IoError, unexpected_eof, connection_reset, varint_too_long, message_too_large, other, Incoming,
  at_end, drain, read_delimited, read_sink_body, hear_price, run_pricing_sink,
}
use directswarm.Sink.Delimited.{read_delimited-delimited}

abbrev pub prefixed : Bytes → Bytes
prefixed msg = varint (length msg) ++ msg

-- The peer closes its side, or resets the connection.
abbrev pub EndsWell : Option IoError → Type 0
EndsWell none = Unit
EndsWell (some unexpected_eof) = Unit
EndsWell (some connection_reset) = Unit
EndsWell (some e) = ⊥

read_delimited-prefixed :
    (max : ℕ) (stop : IoError) (msg rest : Bytes)
    → length msg ≤ max
    → max ≤ u64_max
    → read_delimited max stop (prefixed msg ++ rest) ≡ ok (msg, rest)
read_delimited-prefixed max stop msg rest le wide =
    (read_delimited-delimited max stop (prefixed msg ++ rest) msg rest).1
      (delimited-append msg rest (omega arith), le)

drain_lem :
    (failure : Option IoError) (body : Bytes) → EndsWell failure → drain failure body ≡ ok body
unfolding drain
drain_lem none body h = refl
drain_lem (some unexpected_eof) body h = refl
drain_lem (some connection_reset) body h = refl
drain_lem (some varint_too_long) body h = absurd h
drain_lem (some message_too_large) body h = absurd h
drain_lem (some other) body h = absurd h

-- A stream that carries headers and a message.
abbrev pub carrying : Bytes → Bytes → Bytes → Option IoError → Incoming
carrying headers body tail failure = record {
  bytes = prefixed headers ++ (prefixed body ++ tail);
  failure = failure;
  reply = ok tt;
}

read_sink_body-carrying :
    (headers body tail : Bytes) (failure : Option IoError) (max : ℕ)
    → length headers ≤ 8 * 1_024
    → length body ≤ max
    → max ≤ u64_max
    → EndsWell failure
    → read_sink_body max (carrying headers body tail failure) ≡ ok body
unfolding read_sink_body
read_sink_body-carrying headers body tail failure max small fits wide well =
    rw
      (
        read_delimited-prefixed (8 * 1_024) (at_end failure) headers (prefixed body ++ tail) small
            (omega arith),
        read_delimited-prefixed max (at_end failure) body tail fits wide,
      )
      (drain_lem failure body well)

run_pricing_sink-append :
    (known : Option ℕ) (earlier : List (Incoming × Bool)) (s : Incoming × Bool)
    → run_pricing_sink known (earlier ++ s ∷ []) ≡ hear_price (run_pricing_sink known earlier) s
unfolding run_pricing_sink
run_pricing_sink-append known [] s = refl
run_pricing_sink-append known (e ∷ earlier) s =
    run_pricing_sink-append (hear_price known e) earlier s

-- Whatever pricing streams came before: a stream that is read in time, carries headers of at most
-- 8 KiB and a message of at most 1 KiB that is a list of fields whose first field 1 with bytes is a
-- number of at most 32 bytes, and ends well, whatever else it carries behind the message, leaves just
-- that number as the threshold.
pub run_pricing_sink-announced :
    (known : Option ℕ) (earlier : List (Incoming × Bool)) (headers tail : Bytes)
    (failure : Option IoError) (fs : List Field) (threshold : ℕ)
    → length headers ≤ 8 * 1_024
    → All IsField fs
    → length (encode fs) ≤ 1_024
    → first_amount fs ≡ some threshold
    → EndsWell failure
    → run_pricing_sink known (earlier ++ (carrying headers (encode fs) tail failure, true) ∷ [])
      ≡ some threshold
unfolding hear_price
run_pricing_sink-announced known earlier headers tail failure fs threshold small fields fits first
      well =
    rw
      (
        run_pricing_sink-append known earlier (carrying headers (encode fs) tail failure, true),
        hear_price,
        read_sink_body-carrying headers (encode fs) tail failure 1_024 small fits (omega arith)
            well,
        parse_announce_threshold-encode fs fields,
        first,
      )
      refl
