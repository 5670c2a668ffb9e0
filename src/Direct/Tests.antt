-- ===== src/Direct/Tests.antt =====
-- Two chunks are fetched and paid by one cheque, over an account that is a pair.
use directswarm.Base.{
  map, lookup, insert, ℕ, ◌+◌, ◌-◌, ◌^◌, ◌≡◌, refl, true, false, List, [], ◌∷◌, none, some, arith,
  codes, replicate,
}
use directswarm.Wire.{
  parse_settlement_headers, decode_varint, delimited, headers_field, header_from, header_field,
  take_header, split_at, big_endian,
}
use directswarm.Wire.Varint.{varint_from}
use directswarm.Wire.Fields.{encode}
use directswarm.Wire.Headers.{message}
use directswarm.Ledger.{Ledger, cumulative_for, record_issued}
use directswarm.Cheque.{Peer, emit_settlement_cheque, reserve, announced}
use directswarm.Connection.Samples.{address}
use directswarm.Direct.{
  Accounting, Terms, paced_by, Probe, started, kept_if_sent, emit_cheque_at_rate,
}
use directswarm.Direct.Loop.{
  Turn, Event, own, asks, fetch_ends, credits_on, run, step, ask, fetch_ended, credit_ended,
  advance, look, refreshed, weigh, emitted,
}
use directswarm.Direct.Invariant.{Sound}
use directswarm.Direct.Run.{run-Sound}
use directswarm.Direct.Sweep.{IsOver, notified-IsOver}

reserved_as : (a b : ℕ × ℕ) (p : ℕ) → some (a.0, a.1 + p) ≡ some b → (b.0 ≡ a.0) × (b.1 ≡ a.1 + p)
reserved_as a b p e = ground arith

-- What is owed and what is reserved.
abbrev pair : Accounting (ℕ × ℕ)
pair = record {
  balance = λ a. a.0;
  reserved = λ a. a.1;
  try_reserve = λ a p. some (a.0, a.1 + p);
  apply = λ a p. (a.0 + p, a.1 - p);
  release = λ a p. (a.0, a.1 - p);
  credit = λ a n. (a.0 - n, a.1);
  balance-credit = λ a n. refl;
  reserved-credit = λ a n. refl;
  balance-try_reserve = λ a b p e. (reserved_as a b p e).0;
  reserved-try_reserve = λ a b p e. (reserved_as a b p e).1;
  balance-apply = λ a p h. refl;
  reserved-apply = λ a p h. refl;
  balance-release = λ a p. refl;
  reserved-release = λ a p h. refl;
}

abbrev terms : Terms
terms = paced_by none (record {
  price = λ a. 230_000;
  pipeline_depth = 2;
  reserve_cap = 0;
  cheque_trigger = 0;
  beneficiary = replicate 20 1;
  issuable = 10 ^ 20;
  max_issue_plur = 10 ^ 12;
})

-- 512 for a unit and a deduction of 9.
abbrev answering : Peer
answering = record {
  opens = true;
  greets = true;
  response = some (
      encode (
        message (
          ((1, codes "exchange") ∷ (2, 2 ∷ 0 ∷ []) ∷ [])
          ∷ ((1, codes "deduction") ∷ (2, 9 ∷ []) ∷ [])
          ∷ [])));
  signs = λ n. some (n ∷ []);
  writes = λ sent. true;
}

abbrev tick : Event
tick = own (record { now = 0; notified = false; reply = none; peer = answering })

abbrev no_ledger : Ledger
no_ledger = record { map = []; dirty = false }

-- Up to the first cheque.
abbrev first_cheque : List Event
first_cheque =
    asks (address 1) true
    ∷ asks (address 2) true
    ∷ fetch_ends 0 true
    ∷ fetch_ends 0 true
    ∷ tick
    ∷ tick
    ∷ tick
    ∷ tick
    ∷ tick
    ∷ tick
    ∷ []

-- The credit lands between the two reads of the next tick, which then pays the same debt again.
abbrev credit_between : List Event
credit_between = tick ∷ tick ∷ tick ∷ tick ∷ credits_on 0 ∷ credits_on 0 ∷ tick ∷ tick ∷ []

abbrev after_one : Probe (ℕ × ℕ)
after_one = run pair terms first_cheque (started (0, 0) no_ledger)

one_cheque : (after_one.summary.cheque_units ≡ 460_000) × (after_one.acct ≡ (460_000, 0))
unfolding run step ask fetch_ended advance look refreshed weigh emitted emit_cheque_at_rate
    kept_if_sent emit_settlement_cheque reserve parse_settlement_headers encode varint_from
    decode_varint headers_field delimited split_at header_from header_field take_header big_endian
    cumulative_for lookup paced_by credit_ended announced
one_cheque = (refl, refl)

abbrev after_two : Probe (ℕ × ℕ)
after_two = run pair terms credit_between after_one

paid_again : (after_two.summary.cheque_units ≡ 920_000) × (after_two.acct ≡ (0, 0))
unfolding run step ask fetch_ended advance look refreshed weigh emitted emit_cheque_at_rate
    kept_if_sent emit_settlement_cheque reserve parse_settlement_headers encode varint_from
    decode_varint headers_field delimited split_at header_from header_field take_header big_endian
    cumulative_for lookup paced_by credit_ended announced record_issued insert
paid_again = (refl, refl)

run-Sound_example :
    Sound pair terms
      (cumulative_for no_ledger terms.beneficiary)
      (run pair terms first_cheque (started (0, 0) no_ledger))
unfolding paced_by
run-Sound_example =
    run-Sound pair terms (omega arith) (omega arith) (0, 0) no_ledger refl refl first_cheque

-- The fetches are over with one cheque in flight: the sweep pays the rest.
abbrev last_turn : Turn
last_turn = record { now = 10 ^ 9; notified = true; reply = none; peer = answering }

abbrev last_turns : List Turn
last_turns = last_turn ∷ last_turn ∷ last_turn ∷ last_turn ∷ last_turn ∷ last_turn ∷ last_turn ∷ []

abbrev owing : Probe (ℕ × ℕ)
owing = record (started (460_000, 0) no_ledger) { pending = 230_000 }

notified-IsOver_example :
    IsOver pair terms
      (run pair terms (map own (last_turn ∷ last_turns)) owing)
      (run pair terms (map own (last_turn ∷ last_turns)) owing).at
notified-IsOver_example =
    notified-IsOver pair terms last_turn last_turns owing refl refl (omega arith)
