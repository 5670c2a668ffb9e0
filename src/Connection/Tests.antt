-- ===== src/Connection/Tests.antt =====
-- A connection driven over a small pool, step by step.
use directswarm.Base.{
  bytes_eq, ◌≡◌, ◌⊎◌, refl, true, false, List, [], ◌∷◌, none, some, arith, nat_eq, lookup, insert,
  contains_key, codes,
}
use directswarm.Pacer.{threshold, lambda_max_ms}
use directswarm.Cheque.{Error, Outcome, Peer, reserve, emit_settlement_cheque}
use directswarm.ChunkStore.{whole}
use directswarm.Resume.PlainHex.{plain_hex}
use directswarm.Connection.{Turn, unpaid, Conn, Drive, settling, driven, returned}
use directswarm.Ledger.{cumulative_for}
use directswarm.Wire.{
  parse_settlement_headers, decode_varint, delimited, headers_field, header_from, header_field,
  take_header, split_at, big_endian,
}
use directswarm.Wire.Varint.{varint_from}
use directswarm.Wire.Fields.{encode}
use directswarm.Wire.Headers.{message}
use directswarm.Connection.Loop.{order, advance}
use directswarm.Base.Results.{Result}
use directswarm.Connection.Lambda.{Round, Probe, probing, build_debt, build_round, build_with}
use directswarm.Connection.Lambda.First.{IsFirstZero, probing-IsFirstZero}
use directswarm.Mirror.{try_reserve}
use directswarm.Dispatch.{pop}
use directswarm.Connection.Samples.{address, tick, conn, pool_of_two, fresh_pacer}
use directswarm.Connection.Residual.{sweep_end, advance-sweep_end}
use directswarm.Connection.Events.{Event, own, task, hang_up, run}
use directswarm.Connection.Invariant.{Inv}
use directswarm.Connection.Invariant.Run.{run-Inv}
use directswarm.Connection.Stop.{StaysStopped, run-StaysStopped}

-- Two chunks admitted, one served and one failed, then the peer hangs up.
abbrev day : List Event
day =
    own (tick 1)
    ∷ own (tick 2)
    ∷ own (tick 3)
    ∷ task 0 (some (codes "hello")) whole true
    ∷ task 0 none whole true
    ∷ hang_up
    ∷ own (tick 4)
    ∷ own (tick 5)
    ∷ []

run-Inv_example : Inv conn 10_000 (run plain_hex conn day (pool_of_two, driven fresh_pacer)).1
run-Inv_example =
    run-Inv conn 10_000 (λ a. omega arith) (omega arith) plain_hex day pool_of_two fresh_pacer refl

-- The same, with the fetching stopped before the first step.
abbrev stopped : Drive
stopped = record (driven fresh_pacer) { spend_stop = true }

run-StaysStopped_example : StaysStopped stopped (run plain_hex conn day (pool_of_two, stopped)).1
unfolding driven
run-StaysStopped_example =
    run-StaysStopped plain_hex conn day (pool_of_two, stopped)
      (record { marked = refl; not_admitting = λ h e. absurd (cc) })

-- A peer that announces 512 for a unit and a deduction of 9.
abbrev paying : Peer
paying = record {
  opens = true;
  greets = true;
  response = some (
      encode (
        message (
          ((1, codes "exchange") ∷ (2, 2 ∷ 0 ∷ []) ∷ [])
          ∷ ((1, codes "deduction") ∷ (2, 9 ∷ []) ∷ [])
          ∷ [])));
  signs = λ n. some (n ∷ []);
  writes = λ sent. true;
}

abbrev payer : Conn
payer = record conn { issuable = 9_000 }

-- Ten units are owed.
abbrev last_sweep : Drive
unfolding driven
last_sweep = record (driven fresh_pacer) {
  pacer = record fresh_pacer { mirror = record { balance = 10; reserved = 0 } };
  finishing = true;
  at = settling false;
}

abbrev last_turn : Turn
last_turn = record { now = 2; reply = none; peer = paying }

abbrev cheque : Result Error Outcome
cheque =
    (emit_settlement_cheque (order payer (unpaid last_sweep.pacer)) last_turn.peer
      pool_of_two.books).1

advance-sweep_end_example :
    (advance payer
      (tick 3)
      (advance payer last_turn (advance payer (tick 1) (pool_of_two, last_sweep)))).1.at
    ≡ sweep_end last_sweep.sweep_attempts (unpaid last_sweep.pacer) cheque
unfolding last_sweep
advance-sweep_end_example =
    advance-sweep_end payer (tick 1) last_turn (tick 3) false pool_of_two last_sweep refl refl refl
      refl

paid_off : sweep_end 0 10 cheque ≡ returned 0
unfolding last_sweep emit_settlement_cheque reserve parse_settlement_headers encode varint_from
    decode_varint headers_field delimited split_at header_from header_field take_header big_endian
    cumulative_for lookup
paid_off = refl

-- A failed exchange between two zeros does not matter; an answer between them does.
abbrev probes : List Probe
probes =
    record { begins = 0; accepted = some 0; ends = 1_200 }
    ∷ record { begins = 1_200; accepted = some 7; ends = 2_400 }
    ∷ record { begins = 2_400; accepted = some 0; ends = 3_600 }
    ∷ record { begins = 3_600; accepted = none; ends = 4_800 }
    ∷ record { begins = 4_800; accepted = some 0; ends = 6_000 }
    ∷ []

measured_time : probing probes none ≡ 3_600
unfolding probing
measured_time = refl

probing-IsFirstZero_example :
    (probing probes none ≡ lambda_max_ms) ⊎ IsFirstZero probes (probing probes none)
probing-IsFirstZero_example = probing-IsFirstZero probes

-- The building of debt loses a chunk whose reservation is refused: it is taken out of the pool, and
-- neither stored nor handed on.
abbrev dear : Conn
dear = record conn { price = λ a. 900_000 }

abbrev one_round : List Round
one_round = record { in_time = true; alive = true; chunk = none; disk = whole; syncs = true } ∷ []

lost_when_refused :
    (let (g, p) = build_debt plain_hex dear 540_000 one_round (pool_of_two, fresh_pacer) in
      (g.pool ≡ (7, address 1 ∷ []) ∷ []) × (g.fallback ≡ []) × (g.store ≡ pool_of_two.store))
unfolding build_debt build_round build_with pop lookup insert try_reserve contains_key
    directswarm.ChunkStore.contains threshold
lost_when_refused = (refl, refl, refl)
