-- ===== src/Pacer/Emission.antt =====
-- `emit` and `emit_prepay` of rust/ds-net/src/schedule.rs: a cheque for a connection's units, and
-- what the pacer makes of its outcome. The report's counters are left out.
use directswarm.Base.{ℕ, ◌+◌, ◌*◌, ◌≤◌, ◌<◌, ◌≡◌, refl, arith, u64_max}
use directswarm.Base.Results.{Result, ok, err}
use directswarm.Mirror.{credit}
use directswarm.Pacer.{Pacer, emitted, prepaid_emitted}
use directswarm.Pacer.Exposure.{total, total-append, exposure}
use directswarm.Cheque.{Error, Order, Peer, Books, Outcome, emit_settlement_cheque}
use directswarm.Cheque.Guards.{Effect, emit_settlement_cheque-Effect}

abbrev pub for_units : Order → ℕ → Order
for_units o units = record o { debt_units = units }

-- `?` on the cheque, then the pacer's update.
abbrev pub paced :
    Pacer → (Pacer → ℕ → Pacer) → Result Error Outcome → Pacer × Result Error (Unit {0})
paced pacer update (err e) = (pacer, err e)
paced pacer update (ok out) = (update pacer out.rate, ok tt)

unfoldable pub emit : Order → Peer → Books → Pacer → ℕ → ℕ → Books × Pacer × Result Error (Unit {0})
emit o p b pacer units now =
    let r = emit_settlement_cheque (for_units o units) p b in
    let q = paced pacer (λ q rate. emitted q units rate now) r.1 in (r.0, q.0, q.1)

unfoldable pub emit_prepay :
    Order → Peer → Books → Pacer → ℕ → ℕ → Books × Pacer × Result Error (Unit {0})
emit_prepay o p b pacer units now =
    let r = emit_settlement_cheque (for_units o units) p b in
    let q = paced pacer (λ q rate. prepaid_emitted q units rate now) r.1 in (r.0, q.0, q.1)

-- What a payment does, by its result: nothing, or the units move from the debt to the cheques that
-- may still be validating, and the counter goes up by less than the cap allows.
abbrev pub Pays : Order → ℕ → Books → Pacer → Books → Pacer × Result Error (Unit {0}) → Type 0
Pays o units b pacer b' (pacer', err e) =
    (b'.issued_plur ≡ b.issued_plur) × (b'.ledger ≡ b.ledger) × (pacer' ≡ pacer)
Pays o units b pacer b' (pacer', ok done) =
    (pacer'.mirror.balance + units ≡ pacer.mirror.balance)
    × (total pacer'.unvalidated ≡ total pacer.unvalidated + units)
    × (exposure pacer' ≡ exposure pacer)
    × (pacer'.prepaid ≡ pacer.prepaid)
    × (b.issued_plur + units ≤ b'.issued_plur)
    × (b'.issued_plur ≤ o.max_issue_plur)

paid :
    (o : Order) (p : Peer) (b b' : Books) (pacer : Pacer) (units now : ℕ) (r : Result Error Outcome)
    → units ≤ pacer.mirror.balance
    → Effect (for_units o units) p b b' r
    → Pays o units b pacer b' (paced pacer (λ q rate. emitted q units rate now) r)
unfolding emitted credit
paid o p b b' pacer units now (err e) h (same, kept) = (same, kept, refl)
paid o p b b' pacer units now (ok out) h
      (quote, said, some_rate, cost, up, within, next, fits, kept, rated) =
    let more = total-append pacer.unvalidated now units in
    let least : units ≤ quote.0 * units = grind arith in
    (omega arith, more, omega (arith, more), refl, omega (arith, cost, up), within)

-- Under a cap below the largest word, a payment of no more units than are owed: if it fails, the
-- books and the pacer are as they were; if it succeeds, the debt goes down and the cheques that may
-- still be validating go up by exactly these units, so that the exposure and the prepaid surplus
-- stay
-- the same, and the spend counter rises by at least one for every unit and stays within the cap.
pub emit-Pays :
    (o : Order) (p : Peer) (b : Books) (pacer : Pacer) (units now : ℕ)
    → units ≤ pacer.mirror.balance
    → b.issued_plur ≤ o.max_issue_plur
    → o.max_issue_plur < u64_max
    → Pays o units b pacer
        (emit o p b pacer units now).0
        ((emit o p b pacer units now).1, (emit o p b pacer units now).2)
unfolding emit
emit-Pays o p b pacer units now h k m =
    let r = emit_settlement_cheque (for_units o units) p b in
    paid o p b r.0 pacer units now r.1 h (emit_settlement_cheque-Effect (for_units o units) p b k m)
