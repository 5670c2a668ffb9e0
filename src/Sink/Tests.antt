-- ===== src/Sink/Tests.antt =====
-- A peer announces 256 behind empty headers and resets the connection.
use directswarm.Base.{◌≡◌, ◌↔◌, ◌≤◌, refl, true, List, [], ◌∷◌, ◌++◌, some, arith, All}
use directswarm.Base.Results.{ok}
use directswarm.Wire.{big_endian, delimited}
use directswarm.Wire.Varint.{varint_from}
use directswarm.Wire.Fields.{Field, bytes, number, IsField, encode}
use directswarm.Wire.Messages.{first_amount}
use directswarm.Sink.{unexpected_eof, connection_reset, read_delimited, run_pricing_sink}
use directswarm.Sink.Delimited.{read_delimited-delimited}
use directswarm.Sink.Pricing.{carrying, run_pricing_sink-announced}

abbrev announcement : List Field
announcement = number 3 5 ∷ bytes 1 (1 ∷ 0 ∷ []) ∷ []

announcement-IsField : All IsField announcement
announcement-IsField = ((omega arith, omega arith), ((omega arith, omega arith), tt))

run_pricing_sink-announced_example :
    run_pricing_sink
      (some 7)
      ([] ++ (carrying [] (encode announcement) (9 ∷ []) (some connection_reset), true) ∷ [])
    ≡ some 256
unfolding first_amount big_endian encode varint_from
run_pricing_sink-announced_example =
    run_pricing_sink-announced (some 7) [] [] (9 ∷ []) (some connection_reset) announcement 256
      (omega arith) announcement-IsField (omega arith) refl tt

read_delimited-delimited_example :
    (read_delimited 4 unexpected_eof (2 ∷ 5 ∷ 6 ∷ 7 ∷ []) ≡ ok (5 ∷ 6 ∷ [], 7 ∷ []))
    ↔ ((delimited (2 ∷ 5 ∷ 6 ∷ 7 ∷ []) ≡ some (5 ∷ 6 ∷ [], 7 ∷ [])) × (2 ≤ 4))
read_delimited-delimited_example =
    read_delimited-delimited 4 unexpected_eof (2 ∷ 5 ∷ 6 ∷ 7 ∷ []) (5 ∷ 6 ∷ []) (7 ∷ [])
