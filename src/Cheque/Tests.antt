-- ===== src/Cheque/Tests.antt =====
-- Cheques sent and refused, and instances of the theorems on them.
use directswarm.Base.{
  ℕ, ◌+◌, ◌≤◌, ◌<◌, ◌≡◌, refl, true, false, [], ◌∷◌, List, some, arith, codes, lookup,
}
use directswarm.Ledger.{cumulative_for}
use directswarm.Wire.{
  parse_settlement_headers, decode_varint, delimited, headers_field, header_from, header_field,
  take_header, split_at, big_endian,
}
use directswarm.Wire.Varint.{varint_from}
use directswarm.Wire.Fields.{encode}
use directswarm.Wire.Headers.{message}
use directswarm.Cheque.{Order, Peer, Books, reserve, emit_settlement_cheque}
use directswarm.Cheque.Guards.{Effect, emit_settlement_cheque-Effect}
use directswarm.Cheque.Sequence.{run, spent, paid_to, run-Books}
use directswarm.Cheque.Concurrent.{
  adds, decides, ends, exec, step, alter, unspent, held, approved, Event,
}
use directswarm.Cheque.Concurrent.Cap.{exec-cap, overlapping, overlapping-overspends}

abbrev order : Order
order = record {
  beneficiary = 1 ∷ 2 ∷ [];
  debt_units = 10;
  issuable = 9_000;
  max_issue_plur = 8_000;
}

-- A peer that announces 512 for a unit and a deduction of 9.
abbrev answering : Peer
answering = record {
  opens = true;
  greets = true;
  response = some (
      encode (
        message (
          ((1, codes "exchange") ∷ (2, 2 ∷ 0 ∷ []) ∷ [])
          ∷ ((1, codes "deduction") ∷ (2, 9 ∷ []) ∷ [])
          ∷ [])));
  signs = λ n. some (n ∷ []);
  writes = λ sent. true;
}

abbrev books : Books
books = record { issued_plur = 0; ledger = record { map = []; dirty = false } }

-- The first cheque of 5129 fits under the cap of 8000, the second does not.
one_of_two :
    (run ((order, answering) ∷ (order, answering) ∷ []) books).1
    ≡ (1 ∷ 2 ∷ [], 5_129) ∷ (1 ∷ 2 ∷ [], 0) ∷ []
unfolding emit_settlement_cheque reserve parse_settlement_headers encode varint_from decode_varint
    headers_field delimited split_at header_from header_field take_header big_endian cumulative_for
    lookup
one_of_two = refl

emit_settlement_cheque-Effect_example :
    Effect order answering books
      (emit_settlement_cheque order answering books).0
      (emit_settlement_cheque order answering books).1
emit_settlement_cheque-Effect_example =
    emit_settlement_cheque-Effect order answering books (omega arith) (omega arith)

abbrev two : List (Order × Peer)
two = (order, answering) ∷ (order, answering) ∷ []

run-Books_example :
    ((run two books).0.issued_plur ≡ books.issued_plur + spent (run two books).1)
    × ((run two books).0.issued_plur ≤ 8_000)
    × ((who : List ℕ)
        → cumulative_for (run two books).0.ledger who
          ≡ cumulative_for books.ledger who + paid_to who (run two books).1)
run-Books_example = run-Books 8_000 two books (refl, (refl, tt)) (omega arith) (omega arith)

-- Two tasks at once: the later one is refused, the earlier one passes.
abbrev interleaved : List Event
interleaved = adds 70 ∷ adds 60 ∷ decides 0 ∷ decides 0 ∷ ends 0 true ∷ []

exec-cap_example :
    ((exec 100 interleaved unspent).issued ≡ held (exec 100 interleaved unspent).calls)
    × (approved (exec 100 interleaved unspent).calls ≤ 100)
unfolding step alter held
exec-cap_example = exec-cap 100 interleaved (omega arith) (omega arith, (omega arith, tt))

overlapping-overspends_example :
    (approved (exec 100 (overlapping 70) unspent).calls ≡ 70 + 70)
    × (100 < approved (exec 100 (overlapping 70) unspent).calls)
overlapping-overspends_example =
    overlapping-overspends 100 70 (omega arith) (omega arith) (omega arith)
